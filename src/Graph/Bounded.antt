-- ===== src/Graph/Bounded.antt =====
-- The cap on the graph's nodes binds.
use ojuri.Prelude.{
  ℕ, ◌+◌, ◌≤◌, ◌≡◌, refl, sym, ap, ◌∙◌, Bool, true, false, Option, none, some, length, arith,
  some-injective, none-some, Bool-cases, inl, inr, if◌then◌else◌,
}
use ojuri.Graph.Graphology.{Graphology, IsGraph}
use ojuri.Graph.Service.{
  NodeAttributes, EdgeAttributes, TransactionEvent, Config, Numbers, GraphService, order,
  update_node_stats, counted_in, add_or_update_edge, with_edge,
}
use ojuri.Graph.Metrics.{Scores, should_update_pagerank}
use ojuri.Graph.Transaction.{
  Added, added, threw, add_transaction, ensure_both, after_stats, after_edge, recompute, newer,
}
use ojuri.Graph.Pruned.{ensure_node-order}
use ojuri.Graph.Recomputed.{compute_network_metrics-order}

chosen : {A : Type 0} (b : Bool) (x t : A) → (if b then some x else none) ≡ some t → x ≡ t
chosen true x t h = some-injective h
chosen false x t h = absurd (none-some h)

module _ {Num : Type 0} (numbers : Numbers Num)
    (graphology : Graphology (NodeAttributes Num) (EdgeAttributes Num)) (laws : IsGraph graphology)
    (config : Config) where
  open graphology use {State, nodes}

  abbrev size : State → ℕ
  size = order numbers graphology config

  -- Within the cap, however the transaction ends.
  abbrev pub IsWithin : Added State → Type 0
  IsWithin (added s) = size s.graph ≤ config.max_nodes
  IsWithin (threw s) = size s.graph ≤ config.max_nodes

  recompute-order :
      (scores : Scores State Num) (now : ℕ) (s : GraphService State)
      → size (recompute numbers graphology config scores now s).graph ≡ size s.graph
  recompute-order scores now s =
      elim (Bool-cases (should_update_pagerank numbers graphology config now s)) [
        | inl due ↦
            rw due (compute_network_metrics-order numbers graphology laws config scores now s)
        | inr later ↦ rw later refl
      ]

  with_edge-order :
      (e : TransactionEvent Num) (s t : GraphService State) (o : Option (EdgeAttributes Num))
      → with_edge numbers graphology config e s o ≡ some t
      → size t.graph ≡ size s.graph
  with_edge-order e s t (some attrs) h =
      ap (λ u. size u.graph) (sym (some-injective h))
      ∙ ap length (laws.set_edge_nodes _ _ _ s.graph)
  with_edge-order e s t none h =
      ap (λ u. size u.graph) (sym (chosen _ _ t h)) ∙ ap length (laws.set_edge_nodes _ _ _ s.graph)

  after_edge-IsWithin :
      (scores : Scores State Num) (now : ℕ) (e : TransactionEvent Num) (s : GraphService State)
      (o : Option (GraphService State))
      → ((t : GraphService State) → o ≡ some t → size t.graph ≡ size s.graph)
      → size s.graph ≤ config.max_nodes
      → IsWithin (after_edge numbers graphology config scores now s o)
  after_edge-IsWithin scores now e s none kept fits = fits
  after_edge-IsWithin scores now e s (some t) kept fits = omega (
    arith,
    fits,
    kept t refl,
    recompute-order scores now (record t { transaction_count = t.transaction_count + 1 }),
  )

  after_stats-IsWithin :
      (scores : Scores State Num) (now : ℕ) (e : TransactionEvent Num) (s : GraphService State)
      (o : Option (NodeAttributes Num))
      → size s.graph ≤ config.max_nodes
      → IsWithin (
          after_stats numbers graphology config scores now e s
            (counted_in numbers graphology config e.sender_id e.amount e.timestamp s.graph o))
  unfolding add_or_update_edge
  after_stats-IsWithin scores now e s none fits = fits
  after_stats-IsWithin scores now e s (some attrs) fits =
      after_edge-IsWithin scores now e _ _ (λ t h. with_edge-order e _ t _ h)
        (omega (arith, fits, laws.set_node_order e.sender_id _ s.graph))

  -- A transaction of a time above 0 takes a graph within its cap, of one node at least, to a graph
  -- within it, whether it is added or throws on the way.
  pub add_transaction-IsWithin :
      (scores : Scores State Num) (now : ℕ) (e : TransactionEvent Num) (s : GraphService State)
      → 1 ≤ config.max_nodes
      → 1 ≤ e.timestamp
      → size s.graph ≤ config.max_nodes
      → IsWithin (add_transaction numbers graphology config scores now e s)
  unfolding add_transaction ensure_both update_node_stats
  add_transaction-IsWithin scores now e s cap timed fits =
      let newest = newer numbers graphology config e.timestamp s.max_event_timestamp in
      let seen : 1 ≤ newest = ground (arith, timed) in
      after_stats-IsWithin scores now e _ _ (
        ensure_node-order numbers graphology laws config newest e.timestamp e.receiver_id _ seen cap
          (ensure_node-order numbers graphology laws config newest e.timestamp e.sender_id s.graph
            seen cap fits))
