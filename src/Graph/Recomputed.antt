-- ===== src/Graph/Recomputed.antt =====
-- Recomputing the scores leaves the nodes as many.
use ojuri.Prelude.{
  ℕ, String, ◌≡◌, refl, ◌∙◌, Option, none, some, List, [], ◌∷◌, length, ◌==◌, Bool-cases, inl, inr,
}
use ojuri.Graph.Graphology.{Graphology, IsGraph}
use ojuri.Graph.Service.{
  NodeAttributes, EdgeAttributes, Config, Numbers, GraphService, order, attributes,
}
use ojuri.Graph.Metrics.{
  Scores, compute_network_metrics, change_each, put_attributes, mark_hubs, score, finish,
  with_pagerank, with_clustering, with_communities,
}

module _ {Num : Type 0} (numbers : Numbers Num)
    (graphology : Graphology (NodeAttributes Num) (EdgeAttributes Num)) (laws : IsGraph graphology)
    (config : Config) where
  open graphology use {State, nodes}

  abbrev size : State → ℕ
  size = order numbers graphology config

  put_attributes-order :
      (id : String) (change : NodeAttributes Num → NodeAttributes Num) (g : State)
      (o : Option (NodeAttributes Num))
      → size (put_attributes numbers graphology config id change g o) ≡ size g
  put_attributes-order id change g none = refl
  put_attributes-order id change g (some a) = laws.set_node_order id (change a) g

  change_each-order :
      (ids : List String) (change : State → String → NodeAttributes Num → NodeAttributes Num)
      (g : State)
      → size (change_each numbers graphology config ids change g) ≡ size g
  change_each-order [] change g = refl
  change_each-order (id ∷ ids) change g =
      change_each-order ids change _
      ∙ put_attributes-order id (change g id) g (attributes numbers graphology config g id)

  mark_hubs-order : (g : State) → size (mark_hubs numbers graphology config g) ≡ size g
  unfolding mark_hubs
  mark_hubs-order g = search change_each-order

  finish-order :
      (now : ℕ) (s : GraphService State) (g : State) (o : Option (String → Num))
      → size (finish numbers graphology config now s g o).graph ≡ size g
  finish-order now s g none = refl
  finish-order now s g (some community) =
      mark_hubs-order (with_communities numbers graphology config community g)
      ∙ search change_each-order

  score-order :
      (scores : Scores State Num) (now : ℕ) (s : GraphService State) (o : Option (String → Num))
      → size (score numbers graphology config scores now s o).graph ≡ size s.graph
  score-order scores now s none = refl
  score-order scores now s (some rank) =
      let ranked = with_pagerank numbers graphology config rank s.graph in
      let clustered = with_clustering numbers graphology config ranked in
      let same : size clustered ≡ size ranked = search change_each-order in
      let before : size ranked ≡ size s.graph = search change_each-order in
      finish-order now s clustered (scores.louvain clustered) ∙ same ∙ before

  pub compute_network_metrics-order :
      (scores : Scores State Num) (now : ℕ) (s : GraphService State)
      → size (compute_network_metrics numbers graphology config scores now s).graph ≡ size s.graph
  unfolding compute_network_metrics
  compute_network_metrics-order scores now s = elim (Bool-cases (length (nodes s.graph) == 0)) [
    | inl empty ↦ rw empty refl
    | inr full ↦ rw full (score-order scores now s (scores.pagerank s.graph))
  ]
