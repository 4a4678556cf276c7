-- ===== src/JoinGraph/Placed.antt =====
-- The graph after the conjuncts are placed one by one.
use sql_query_optimizer.Prelude.{
  ℕ, ◌+◌, ◌≡◌, refl, ap, ◌∙◌, String, Option, none, some, List, [], ◌∷◌, length, All, All-append,
  arith,
}
use sql_query_optimizer.Prelude.Totals.{total, total-append}
use sql_query_optimizer.Ast.{Expression}
use sql_query_optimizer.Plan.{LogicalPlan}
use sql_query_optimizer.Optimizer.Predicates.Scopes.{IsJoinBlock}
use sql_query_optimizer.JoinGraph.{
  Relation, JoinEdge, JoinGraphExtraction, referenced_relation_ids, place, place_all,
  build_join_graph,
}
use sql_query_optimizer.JoinGraph.Refs.{AreIds, Gives, AreNumbered, referenced_relation_ids-AreIds}
use sql_query_optimizer.JoinGraph.Accounts.{
  conjuncts, scan_names, relation_names, local_weight, accounted, IsEdge, collect-Collected,
  add_local-weight, add_local-numbered, add_local-names, length-add_local,
}

-- Relations stand at the places of their ids and under the given names, and every edge joins two
-- different ones.
pub record IsGraph (names : List (String × Option String)) (x : JoinGraphExtraction) : Type 0 where
  pub numbered : AreNumbered 0 x.graph.relations
  pub names_kept : relation_names x.graph.relations ≡ names
  pub edges_join : All (IsEdge (length x.graph.relations)) x.graph.edges

module _ (names : List (String × Option String)) where
  place-IsGraph :
      (o : Option (List ℕ)) (pred : Expression) (x : JoinGraphExtraction)
      → Gives (AreIds (length x.graph.relations)) o
      → IsGraph names x
      → IsGraph names (place o pred x)
  unfolding place
  place-IsGraph none pred x h g = record {
    numbered = g.numbered;
    names_kept = g.names_kept;
    edges_join = g.edges_join;
  }
  place-IsGraph (some []) pred x h g = record {
    numbered = g.numbered;
    names_kept = g.names_kept;
    edges_join = g.edges_join;
  }
  place-IsGraph (some (a ∷ [])) pred x h g = record {
    numbered = add_local-numbered a 0 pred x.graph.relations g.numbered;
    names_kept = add_local-names a pred x.graph.relations ∙ g.names_kept;
    edges_join = rw (length-add_local a pred x.graph.relations) g.edges_join;
  }
  place-IsGraph (some (a ∷ b ∷ [])) pred x h g = record {
    numbered = g.numbered;
    names_kept = g.names_kept;
    edges_join =
        All-append (IsEdge (length x.graph.relations)) x.graph.edges
          (record { left = a; right = b; predicate = pred } ∷ []) g.edges_join
          ((h.0, h.2.0, h.1.0), tt);
  }
  place-IsGraph (some (a ∷ b ∷ c ∷ ids)) pred x h g = record {
    numbered = g.numbered;
    names_kept = g.names_kept;
    edges_join = g.edges_join;
  }

place-accounted :
    (v : Expression → ℕ) (o : Option (List ℕ)) (pred : Expression) (x : JoinGraphExtraction)
    → Gives (AreIds (length x.graph.relations)) o
    → accounted v (place o pred x) ≡ accounted v x + v pred
unfolding place
place-accounted v none pred x h = omega (arith, total-append v x.residual_filters (pred ∷ []))
place-accounted v (some []) pred x h = omega (arith, total-append v x.residual_filters (pred ∷ []))
place-accounted v (some (a ∷ [])) pred x h =
    omega (arith, add_local-weight v a pred x.graph.relations h.0)
place-accounted v (some (a ∷ b ∷ [])) pred x h = omega (
  arith,
  total-append (λ (e : JoinEdge). v e.predicate) x.graph.edges
      (record { left = a; right = b; predicate = pred } ∷ []),
)
place-accounted v (some (a ∷ b ∷ c ∷ ids)) pred x h =
    omega (arith, total-append v x.residual_filters (pred ∷ []))

module _ (names : List (String × Option String)) where
  place_all-IsGraph :
      (preds : List Expression) (x : JoinGraphExtraction)
      → IsGraph names x
      → IsGraph names (place_all preds x)
  unfolding place_all
  place_all-IsGraph [] x g = g
  place_all-IsGraph (pred ∷ preds) x g =
      let refs = referenced_relation_ids pred x.graph.relations in
      place_all-IsGraph preds (place refs pred x) (
        place-IsGraph names refs pred x
          (referenced_relation_ids-AreIds pred x.graph.relations g.numbered) g)

  place_all-accounted :
      (v : Expression → ℕ) (preds : List Expression) (x : JoinGraphExtraction)
      → IsGraph names x
      → accounted v (place_all preds x) ≡ accounted v x + total v preds
  unfolding place_all
  place_all-accounted v [] x g = omega arith
  place_all-accounted v (pred ∷ preds) x g =
      let refs = referenced_relation_ids pred x.graph.relations in
      let ids = referenced_relation_ids-AreIds pred x.graph.relations g.numbered in
      omega (
        arith,
        place_all-accounted v preds (place refs pred x) (place-IsGraph names refs pred x ids g),
        place-accounted v refs pred x ids,
      )

bare-weight :
    (v : Expression → ℕ) (rs : List Relation)
    → All (λ r. r.local_filters ≡ []) rs
    → local_weight v rs ≡ 0
bare-weight v [] h = refl
bare-weight v (r ∷ rs) h = omega (arith, bare-weight v rs h.1, ap (total v) h.0)

-- The extraction succeeds with a well-formed graph over the scans of the subtree, and places every
-- conjunct once.
pub record Extracted (p : LogicalPlan) (r : Option JoinGraphExtraction) : Type 0 where
  pub extraction : JoinGraphExtraction
  pub returned : r ≡ some extraction
  pub is_graph : IsGraph (scan_names p) extraction
  pub balance : (v : Expression → ℕ) → accounted v extraction ≡ total v (conjuncts p)

-- For a subtree of scans, filters and joins the join graph has a relation for each scan, in order
-- and numbered by place; its edges join two different relations; and the local filters, edge
-- predicates and residual filters together are the conjuncts of the subtree, each as often.
pub build_join_graph-Extracted :
    (p : LogicalPlan) → IsJoinBlock p → Extracted p (build_join_graph p)
unfolding build_join_graph
build_join_graph-Extracted p h =
    let c =
      collect-Collected p (record { relations = []; predicates = [] }) h
        (record { numbered = tt; bare = tt }) in
    let start : JoinGraphExtraction = record {
      graph = record { relations = c.raw.relations; edges = [] };
      residual_filters = [];
    } in
    let g : IsGraph (scan_names p) start = record {
      numbered = c.is_raw.numbered;
      names_kept = c.names;
      edges_join = tt;
    } in
    record {
      extraction = place_all c.raw.predicates start;
      returned = rw c.returned;
      is_graph = place_all-IsGraph (scan_names p) c.raw.predicates start g;
      balance = λ v. omega (
        arith,
        place_all-accounted (scan_names p) v c.raw.predicates start g,
        bare-weight v c.raw.relations c.is_raw.bare,
        ap (total v) c.predicates,
      );
    }
