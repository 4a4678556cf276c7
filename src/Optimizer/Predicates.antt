-- ===== src/Optimizer/Predicates.antt =====
-- logical/optimizer.cpp, rule 1: predicate pushdown.
pub mod Split
pub mod Scopes
pub mod Blocks
pub mod Joins
pub mod Mixed
pub mod Shape
pub mod Sound
pub mod Runs
use sql_query_optimizer.Prelude.{
  String, Bool, not, ◌&&◌, List, [], ◌∷◌, any, contains, if◌then◌else◌,
}
use sql_query_optimizer.Ast.{Expression, JoinType}
use sql_query_optimizer.Plan.{LogicalPlan, scan, filter, join, aggregate, project, sort, limit}
use sql_query_optimizer.Optimizer.Expressions.{split_and, referenced_tables, scan_aliases}

-- Stack `filters` as Filter nodes on top of the plan, the first innermost.
unfoldable pub wrap_filters : LogicalPlan → List Expression → LogicalPlan
wrap_filters p [] = p
wrap_filters p (f ∷ fs) = wrap_filters (filter f p) fs

pub record Conjuncts : Type 0 where
  pub left_filters : List Expression
  pub right_filters : List Expression
  pub remaining : List Expression

-- A conjunct refers to a side if one of its tables is an alias of that side.
unfoldable pub refers_to : List String → Expression → Bool
unfolding referenced_tables
refers_to aliases conj = any (contains aliases) (referenced_tables conj)

-- The loop over the conjuncts, each appended to one of three lists.
unfoldable pub distribute : List String → List String → List Expression → Conjuncts
distribute la ra [] = record { left_filters = []; right_filters = []; remaining = [] }
distribute la ra (conj ∷ cs) =
    let rest : Conjuncts = distribute la ra cs in
    let on_left : Bool = refers_to la conj in
    let on_right : Bool = refers_to ra conj in
    if on_left && not on_right
    then record rest { left_filters = conj ∷ rest.left_filters }
    else if not on_left && on_right
    then record rest { right_filters = conj ∷ rest.right_filters }
    else record rest { remaining = conj ∷ rest.remaining }

-- The case of a Filter whose input, already rewritten, is a Join.
unfoldable pub push_into_join :
    Expression → JoinType → Expression → LogicalPlan → LogicalPlan → LogicalPlan
unfolding wrap_filters distribute
push_into_join predicate join_type condition l r =
    let parts : Conjuncts = distribute (scan_aliases l) (scan_aliases r) (split_and predicate) in
    wrap_filters
      (join join_type condition (wrap_filters l parts.left_filters)
        (wrap_filters r parts.right_filters))
      parts.remaining

unfoldable pub push_filter : Expression → LogicalPlan → LogicalPlan
unfolding push_into_join
push_filter predicate (join t c l r) = push_into_join predicate t c l r
push_filter predicate input = filter predicate input

unfoldable pub push_predicates : LogicalPlan → LogicalPlan
unfolding push_filter
push_predicates (scan table alias cols) = scan table alias cols
push_predicates (filter predicate input) = push_filter predicate (push_predicates input)
push_predicates (join t c l r) = join t c (push_predicates l) (push_predicates r)
push_predicates (aggregate g a input) = aggregate g a (push_predicates input)
push_predicates (project es input) = project es (push_predicates input)
push_predicates (sort o input) = sort o (push_predicates input)
push_predicates (limit n input) = limit n (push_predicates input)
