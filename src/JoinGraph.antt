-- ===== src/JoinGraph.antt =====
-- optimizer/join_graph.hpp and join_graph.cpp: the join graph of an all-inner-join subtree.
-- `none` is the `logic_error` of a node that is no scan, filter or join. A set of relation ids is the
-- list of its elements, each once.
pub mod Refs
pub mod Accounts
pub mod Placed
use sql_query_optimizer.Prelude.{
  ℕ, zero, suc, String, Bool, true, false, ◌&&◌, ◌==◌, Option, none, some, List, [], ◌∷◌, ◌++◌,
  length, any, value_or, eqb, if◌then◌else◌,
}
use sql_query_optimizer.Ast.{
  BinaryOperator, Expression, Expressions, column, literal, binary_op, unary_op, function, wildcard,
  nil, cons,
}
use sql_query_optimizer.Plan.{LogicalPlan, scan, filter, join, aggregate, project, sort, limit}
use sql_query_optimizer.Optimizer.Reorder.{◌>>=◌, is_inner}

pub record Relation : Type 0 where
  pub id : ℕ
  pub table_name : String
  pub alias : Option String
  pub local_filters : List Expression

pub record JoinEdge : Type 0 where
  pub left : ℕ
  pub right : ℕ
  pub predicate : Expression

pub record JoinGraph : Type 0 where
  pub relations : List Relation
  pub edges : List JoinEdge

pub record JoinGraphExtraction : Type 0 where
  pub graph : JoinGraph
  pub residual_filters : List Expression

-- The first relation whose alias, or bare table name, is the name.
unfoldable pub find_relation : List Relation → String → Option ℕ
find_relation [] name = none
find_relation (r ∷ rs) name =
    if value_or r.alias r.table_name == name then some r.id else find_relation rs name

unfoldable pub all_inner : LogicalPlan → Bool
all_inner (join t c l r) = is_inner t && all_inner l && all_inner r
all_inner _ = true

unfoldable pub unwrap_filters : LogicalPlan → LogicalPlan
unwrap_filters (filter e i) = unwrap_filters i
unwrap_filters p = p

unfoldable pub split_and_copy : Expression → List Expression
split_and_copy (binary_op l BinaryOperator.and r) = split_and_copy l ++ split_and_copy r
split_and_copy e = e ∷ []

abbrev is_join : LogicalPlan → Bool
is_join (join _ _ _ _) = true
is_join _ = false

unfoldable pub is_join_search_candidate : LogicalPlan → Bool
unfolding unwrap_filters all_inner
is_join_search_candidate node = let core = unwrap_filters node in is_join core && all_inner core

pub record RawExtraction : Type 0 where
  pub relations : List Relation
  pub predicates : List Expression

unfoldable pub collect : LogicalPlan → RawExtraction → Option RawExtraction
unfolding split_and_copy
collect (scan table alias cols) out = some (record out {
  relations =
      out.relations
      ++ record { id = length out.relations; table_name = table; alias = alias; local_filters = [] }
        ∷ [];
})
collect (filter e i) out =
    collect i (record out { predicates = out.predicates ++ split_and_copy e })
collect (join t c l r) out = do
  out' ← collect l (record out { predicates = out.predicates ++ split_and_copy c })
  collect r out'
collect _ out = none

abbrev pub insert_id : ℕ → List ℕ → List ℕ
insert_id i ids = if any (eqb i) ids then ids else ids ++ i ∷ []

-- The visitor with its `ok` flag: `none` once a column cannot be attributed.
unfoldable mutual
  pub visit : List Relation → Expression → List ℕ → Option (List ℕ)
  visit rs (column none c) out = none
  visit rs (column (some t) c) out = do id ← find_relation rs t; some (insert_id id out)
  visit rs (binary_op l op r) out = do out' ← visit rs l out; visit rs r out'
  visit rs (unary_op op e) out = visit rs e out
  visit rs (function f args) out = visit_args rs args out
  visit rs (literal v) out = some out
  visit rs wildcard out = some out

  pub visit_args : List Relation → Expressions → List ℕ → Option (List ℕ)
  visit_args rs nil out = some out
  visit_args rs (cons e es) out = do out' ← visit rs e out; visit_args rs es out'

unfoldable pub referenced_relation_ids : Expression → List Relation → Option (List ℕ)
unfolding visit find_relation
referenced_relation_ids e rs = visit rs e []

-- `relations[id].local_filters.push_back(pred)`
unfoldable pub add_local : ℕ → Expression → List Relation → List Relation
add_local i pred [] = []
add_local zero pred (r ∷ rs) = record r { local_filters = r.local_filters ++ pred ∷ [] } ∷ rs
add_local (suc i) pred (r ∷ rs) = r ∷ add_local i pred rs

-- One predicate, by the relations that it refers to.
unfoldable pub place : Option (List ℕ) → Expression → JoinGraphExtraction → JoinGraphExtraction
unfolding add_local
place (some (a ∷ [])) pred x = record x {
  graph = record x.graph { relations = add_local a pred x.graph.relations };
}
place (some (a ∷ b ∷ [])) pred x = record x {
  graph = record x.graph {
    edges = x.graph.edges ++ record { left = a; right = b; predicate = pred } ∷ [];
  };
}
place _ pred x = record x { residual_filters = x.residual_filters ++ pred ∷ [] }

unfoldable pub place_all : List Expression → JoinGraphExtraction → JoinGraphExtraction
unfolding place referenced_relation_ids
place_all [] x = x
place_all (pred ∷ preds) x =
    place_all preds (place (referenced_relation_ids pred x.graph.relations) pred x)

unfoldable pub build_join_graph : LogicalPlan → Option JoinGraphExtraction
unfolding collect place_all
build_join_graph root = do
  raw ← collect root (record { relations = []; predicates = [] })
  some (
      place_all raw.predicates (record {
        graph = record { relations = raw.relations; edges = [] };
        residual_filters = [];
      }))
