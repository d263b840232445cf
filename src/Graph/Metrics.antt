-- ===== src/Graph/Metrics.antt =====
-- graph.service.ts: the scores of the nodes, computed anew, and when. Pagerank and the communities
-- are graphology's, parameters; `none` is a throw.
use ojuri.Prelude.{
  ℕ, ◌+◌, ◌-◌, ◌*◌, ◌/◌, ◌%◌, max, String, Bool, ◌&&◌, ◌||◌, Option, none, some, List, [], ◌∷◌, map,
  length, get_elem?, ltb, leb, ◌==◌, if◌then◌else◌,
}
use ojuri.Graph.Graphology.{Graphology}
use ojuri.Graph.Service.{
  NodeAttributes, EdgeAttributes, Config, Numbers, GraphService, sort_by, order, attributes,
  has_edge, hub_min_out_degree,
}

pub record Scores (State Num : Type 0) : Type 0 where
  pub pagerank : State → Option (String → Num)
  pub louvain : State → Option (String → Num)

module _ {Num : Type 0} (numbers : Numbers Num)
    (graphology : Graphology (NodeAttributes Num) (EdgeAttributes Num)) (config : Config) where
  open graphology use {State, nodes, neighbors, out_degree}

  unfoldable pub should_update_pagerank : ℕ → GraphService State → Bool
  should_update_pagerank now s =
      let elapsed = now - s.last_pagerank_update in
      ltb config.update_interval elapsed
      || ((ltb 0 s.transaction_count && (s.transaction_count % 100) == 0)
          && leb config.recompute_min_interval_ms elapsed)
      || (ltb 0 s.dirty_triangle_count && leb config.triangle_recompute_min_interval_ms elapsed)

  abbrev pub is_linked : State → String → String → Bool
  is_linked g a b =
      has_edge numbers graphology config g a b || has_edge numbers graphology config g b a

  abbrev pub count_linked : State → String → List String → ℕ
  count_linked g a [] = 0
  count_linked g a (b ∷ bs) =
      let rest = count_linked g a bs in if is_linked g a b then rest + 1 else rest

  -- Each pair of the neighbours is looked at once.
  abbrev pub count_triangles : State → List String → ℕ
  count_triangles g [] = 0
  count_triangles g (a ∷ bs) = count_linked g a bs + count_triangles g bs

  abbrev pub possible_triangles : ℕ → ℕ
  possible_triangles k = k * (k - 1) / 2

  unfoldable pub calculate_local_clustering_coefficient : State → String → Num
  calculate_local_clustering_coefficient g node =
      let k = length (neighbors g node) in
      if ltb k 2
      then numbers.zero
      else numbers.quotient (count_triangles g (neighbors g node)) (possible_triangles k)

  abbrev pub put_attributes :
      String
      → (NodeAttributes Num → NodeAttributes Num)
      → State
      → Option (NodeAttributes Num)
      → State
  put_attributes id change g none = g
  put_attributes id change g (some attrs) = graphology.set_node id (change attrs) g

  abbrev pub change_each :
      List String → (State → String → NodeAttributes Num → NodeAttributes Num) → State → State
  change_each [] change g = g
  change_each (id ∷ ids) change g =
      change_each ids change
        (put_attributes id (change g id) g (attributes numbers graphology config g id))

  abbrev pub names : State → List String
  names g = map (λ n. n.0) (nodes g)

  -- `none` is Infinity, of an empty graph.
  abbrev pub hub_threshold : Option ℕ → Option ℕ
  hub_threshold none = none
  hub_threshold (some d) = some (max d hub_min_out_degree)

  abbrev pub is_hub_at : Option ℕ → ℕ → ℕ
  is_hub_at none d = 0
  is_hub_at (some threshold) d = if leb threshold d then 1 else 0

  unfoldable pub mark_hubs : State → State
  mark_hubs g =
      let out_degrees = sort_by (λ d. d) (map (out_degree g) (names g)) in
      let index = numbers.permille (length out_degrees - 1) in
      let threshold = hub_threshold (get_elem? out_degrees index) in
      change_each (names g)
        (λ h id attrs. record attrs { is_hub = some (is_hub_at threshold (out_degree h id)) }) g

  abbrev pub with_pagerank : (String → Num) → State → State
  with_pagerank score g =
      change_each (names g) (λ h id attrs. record attrs { pagerank = some (score id) }) g

  abbrev pub with_clustering : State → State
  with_clustering g =
      change_each (names g)
        (λ h id attrs. record attrs {
          clustering_coef = some (calculate_local_clustering_coefficient h id);
        })
        g

  abbrev pub with_communities : (String → Num) → State → State
  with_communities community g =
      change_each (names g) (λ h id attrs. record attrs { community_id = some (community id) }) g

  -- A throw is caught, and leaves what was set before it.
  abbrev pub finish : ℕ → GraphService State → State → Option (String → Num) → GraphService State
  finish now s g none = record s { graph = g }
  finish now s g (some community) = record s {
    graph = mark_hubs (with_communities community g);
    last_pagerank_update = now;
    dirty_triangle_count = 0;
  }

  abbrev pub score :
      Scores State Num → ℕ → GraphService State → Option (String → Num) → GraphService State
  score scores now s none = s
  score scores now s (some rank) =
      let g = with_clustering (with_pagerank rank s.graph) in finish now s g (scores.louvain g)

  unfoldable pub compute_network_metrics :
      Scores State Num → ℕ → GraphService State → GraphService State
  unfolding mark_hubs calculate_local_clustering_coefficient
  compute_network_metrics scores now s =
      if order numbers graphology config s.graph == 0
      then s
      else score scores now s (scores.pagerank s.graph)
