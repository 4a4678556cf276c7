-- ===== src/Lib.antt =====
-- A verification library for sql-query-optimizer, a SQL engine in C++: a SELECT statement is planned
-- (logical/planner.cpp), rewritten by three rules (logical/optimizer.cpp), turned into executors and
-- run row by row (execution/). The distributed engine runs the same executors on partitions of the
-- tables (distributed/).
--
-- The parts, and the files that model them:
--   Ast          parser/ast.hpp: Expression, SelectStatement and what they are made of.
--   Plan         logical/logical_plan.hpp: LogicalPlan, a constructor for each make_* function.
--   Parser       parser/token.hpp: Token. Lexer is lexer.cpp: next_token and tokenize. Outcome,
--                Expressions and Statements are parser.cpp, a function for each parse_*; Printer is
--                sql_printer.cpp. Which tokens a print is meant to have are Printer/Tokens and
--                Printer/Statement, and Printer/Spelling says how a text is made of the texts of
--                tokens; the lexer on a print is only run on an example.
--   Schema       logical/schema.hpp and schema.cpp: Catalog, TableSchema.
--   Planner      logical/planner.cpp: split_select_list and plan.
--   Optimizer    logical/optimizer.cpp: optimize is reorder_joins after push_projections after
--                push_predicates. Expressions has the helpers split_and, referenced_tables,
--                add_columns_from_expr and scan_aliases; Predicates, Projections and Reorder are the
--                three rules, each with its theorems in child modules; Pipeline is about all of them,
--                on the plans that the planner makes.
--   JoinGraph    optimizer/join_graph.hpp and join_graph.cpp: build_join_graph.
--   Storage      storage/table.hpp and database.hpp: Table, Database. Csv is csv_reader.cpp, Load is
--                table.cpp and database.cpp over files given as a function.
--   Execution    execution/: Values is value_ops.cpp, RowSchema is row_schema.cpp, Eval is
--                expr_eval.cpp, Streams is executor.hpp and run_to_completion, Operators is the
--                scan, filter, project, limit and nested loop join of operators.cpp, and HashJoin,
--                HashAggregate and Sort are the other executors of that file. Builder is
--                executor_builder.cpp: an Executor is a schema and what opening it does. Exact is an
--                independent reading of a logical plan of scans, filters and inner joins as a
--                relation, or an error if a test throws. Meaning is the same but drops a row on
--                which a test throws and reads a join of any type as an inner one, as the executors
--                run it; the theorems about single joins and the proofs use it, where no test
--                throws.
--   Physical     physical/physical_plan.hpp: PhysicalPlan. Formulas is cost.cpp, Paths is
--                optimizer/access_path_generator.cpp, Enumerator is optimizer/join_enumerator.cpp and
--                Planner is physical_planner.cpp. CardinalityEstimator and the page counts of the
--                statistics are the interface Estimator, a parameter of them.
--   Partition    distributed/partition.cpp and properties.hpp.
--   Examples     concrete tables, queries and runs.
--   Prelude      the names, lemmas and number types that the parts share.
--
-- How the code is read. A loop is structural recursion where it runs over a container or a range.
-- Four kinds of loops take fuel: those that pull rows from another executor, for which one more
-- than the rows that the input yields is enough, and for a built executor one more than the rows of
-- all the nodes of its plan; the loop of the lexer, for which one more than the characters of the
-- text is enough; the recursive descent and the loops of the parser, for which one more than the
-- number of tokens is enough; and the greedy loop of the join order, which is given the number of
-- inputs. The theorems about them have that bound or prove that it suffices. A thrown exception is
-- an error value, and so is what C++ leaves undefined: int64 overflow and an index out of range. A
-- `logic_error` of the logical optimizer is `none`. An unordered set is the list of its elements in
-- the order of insertion, and an unordered map an association list; where the code iterates over
-- one, its order is not the model's. What equal_range of an unordered_multimap gives and in which
-- order, and std::sort, are left open: they are in the record Platform, a parameter. A size_t count
-- is a natural number, assumed to stay below 2 ^ 64; the product in estimate_join_rows, which may
-- not, wraps around. A mask of the join enumerator is a number, and a graph has fewer than 64
-- relations. Doubles are bit patterns; the operations on them are in Platform for the executors and
-- the record CostMath for the cost formulas, parameters of everything that computes with them, and
-- std::stod and the printing of a double are parameters too. Executors have a state and a `next`
-- function; timers and row counters are left out.
--
-- Not modelled: the estimates of the cardinality and selectivity estimators that read statistics, and
-- the statistics; the cost model of EXPLAIN; the coordinator; the plan cache, its serializer and JSON;
-- and all I/O, servers and programs.

pub mod Prelude
pub mod Ast
pub mod Plan
pub mod Physical
pub mod Parser
pub mod Schema
pub mod Planner
pub mod Optimizer
pub mod JoinGraph
pub mod Execution
pub mod Storage
pub mod Partition
pub mod Examples
