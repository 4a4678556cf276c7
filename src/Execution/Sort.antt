-- ===== src/Execution/Sort.antt =====
-- execution/operators.cpp, SortExec: the comparison that it hands to `std::sort`, which is the
-- platform's.
pub mod Order
use sql_query_optimizer.Prelude.{String, Bool, true, false, not, List, [], ◌∷◌, if◌then◌else◌}
use sql_query_optimizer.Ast.{Literal, OrderByItem}
use sql_query_optimizer.Execution.Result.{Result, ok, err, ◌>>=◌}
use sql_query_optimizer.Execution.Values.{Platform, literal_equal, literal_less}
use sql_query_optimizer.Execution.RowSchema.{RowSchema}
use sql_query_optimizer.Execution.Eval.{Row, evaluate}

module _ (d : Platform) where
  -- The comparison at one ORDER BY item, before what the later items say.
  unfoldable pub item_before : Bool → Literal → Literal → Result Bool → Result Bool
  unfolding literal_equal literal_less
  item_before ascending va vb rest =
      if literal_equal d va vb
      then rest
      else (literal_less d va vb >>= λ less. ok (if ascending then less else not less))

  unfoldable pub comes_before : List OrderByItem → RowSchema → Row → Row → Result Bool
  unfolding item_before evaluate
  comes_before [] schema a b = ok false
  comes_before (item ∷ items) schema a b =
      let rest = comes_before items schema a b in
      evaluate d item.sort_key a schema >>= λ va.
      evaluate d item.sort_key b schema >>= λ vb. item_before item.ascending va vb rest
