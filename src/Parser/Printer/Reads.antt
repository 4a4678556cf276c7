-- ===== src/Parser/Printer/Reads.antt =====
-- parser/parser.cpp and parser/sql_printer.cpp: the print of a query and the parser.
use sql_query_optimizer.Parser.Outcome.{Tokens}
