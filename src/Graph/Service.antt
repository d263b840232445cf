-- ===== src/Graph/Service.antt =====
-- graph.service.ts: the state of the service and what a transaction does to it. Amounts and scores
-- are the host's numbers, a parameter; times are milliseconds.
use ojuri.Prelude.{
  ℕ, ◌+◌, ◌-◌, ◌*◌, ◌/◌, max, String, Bool, true, not, ◌&&◌, Option, none, some, List, [], ◌∷◌,
  ◌++◌, map, length, take, filter, any, is_some, ltb, leb, str_eq, ◌==◌, if◌then◌else◌,
}
use ojuri.Prelude.Assoc
use ojuri.Redis.{is_member}
use ojuri.Graph.Graphology.{Graphology}

pub record NodeAttributes (Num : Type 0) : Type 0 where
  pub first_seen : ℕ
  pub last_seen : ℕ
  pub transaction_count : ℕ
  pub total_amount : Num
  pub pagerank : Option Num
  pub clustering_coef : Option Num
  pub community_id : Option Num
  pub is_hub : Option ℕ

pub record EdgeAttributes (Num : Type 0) : Type 0 where
  pub weight : ℕ
  pub total_amount : Num
  pub last_transaction : ℕ
  pub first_transaction : ℕ
  pub transaction_types : List String

-- The fields of an event that the graph reads.
pub record TransactionEvent (Num : Type 0) : Type 0 where
  pub sender_id : String
  pub receiver_id : String
  pub amount : Num
  pub timestamp : ℕ
  pub transaction_type : String

pub record Config : Type 0 where
  pub max_nodes : ℕ
  pub update_interval : ℕ
  pub triangle_recompute_min_interval_ms : ℕ
  pub recompute_min_interval_ms : ℕ

-- The host's arithmetic: `+`, the quotient of two whole numbers, and `Math.floor(0.999 * n)`.
pub record Numbers (Num : Type 0) : Type 0 where
  pub zero : Num
  pub add : Num → Num → Num
  pub quotient : ℕ → ℕ → Num
  pub permille : ℕ → ℕ

abbrev pub prune_age_ms : ℕ
prune_age_ms = 30 * (24 * (60 * (60 * 1000)))

abbrev pub hub_min_out_degree : ℕ
hub_min_out_degree = 10

pub record GraphService (State : Type 0) : Type 0 where
  pub graph : State
  pub transaction_count : ℕ
  pub last_pagerank_update : ℕ
  pub max_event_timestamp : ℕ
  pub dirty_triangle_count : ℕ
  pub fraud_users : List String

-- A Set keeps one of each.
abbrev pub add_type : List String → String → List String
add_type types t = if is_member types t then types else types ++ t ∷ []

-- `sort` by a comparison of numbers, which keeps the order of equals.
module _ {ℓ} {A : Type ℓ} (rank : A → ℕ) where
  unfoldable pub insert_by : A → List A → List A
  insert_by x [] = x ∷ []
  insert_by x (y ∷ ys) =
      let rest = insert_by x ys in if leb (rank x) (rank y) then x ∷ y ∷ ys else y ∷ rest

  unfoldable pub sort_by : List A → List A
  unfolding insert_by
  sort_by [] = []
  sort_by (x ∷ xs) = insert_by x (sort_by xs)

module _ {Num : Type 0} (numbers : Numbers Num)
    (graphology : Graphology (NodeAttributes Num) (EdgeAttributes Num)) (config : Config) where
  open graphology use {State, nodes, edge}

  abbrev pub order : State → ℕ
  order g = length (nodes g)

  abbrev pub attributes : State → String → Option (NodeAttributes Num)
  attributes g id = Assoc.get (nodes g) id

  abbrev pub has_node : State → String → Bool
  has_node g id = is_some (attributes g id)

  abbrev pub has_edge : State → String → String → Bool
  has_edge g a b = is_some (edge g a b)

  abbrev pub drop_all : List String → State → State
  drop_all [] g = g
  drop_all (id ∷ ids) g = drop_all ids (graphology.drop_node id g)

  abbrev pub stale_nodes : ℕ → State → List (String × NodeAttributes Num)
  stale_nodes newest g = filter (λ n. ltb n.1.last_seen (newest - prune_age_ms)) (nodes g)

  abbrev pub by_last_seen : List (String × NodeAttributes Num) → List (String × NodeAttributes Num)
  by_last_seen = sort_by (λ n. n.1.last_seen)

  -- Those that a cap-driven prune drops: a tenth of the cap, `Math.floor(maxNodes * 0.1)`.
  unfoldable pub to_drop : ℕ → State → List String
  unfolding sort_by
  to_drop newest g =
      let target = max 1 (config.max_nodes / 10) in
      let stale = stale_nodes newest g in
      map (λ n. n.0)
        (take target
          (if leb target (length stale) then by_last_seen stale else by_last_seen (nodes g)))

  unfoldable pub prune_old_nodes : Bool → ℕ → State → State
  unfolding to_drop
  prune_old_nodes cap_driven newest g =
      if newest == 0
      then g
      else if cap_driven
      then drop_all (to_drop newest g) g
      else drop_all (map (λ n. n.0) (by_last_seen (stale_nodes newest g))) g

  abbrev pub new_node : ℕ → ℕ → NodeAttributes Num
  new_node first last = record {
    first_seen = first;
    last_seen = last;
    transaction_count = 0;
    total_amount = numbers.zero;
    pagerank = none;
    clustering_coef = none;
    community_id = none;
    is_hub = none;
  }

  unfoldable pub ensure_node : ℕ → String → ℕ → State → State
  unfolding prune_old_nodes
  ensure_node newest id timestamp g =
      if has_node g id
      then g
      else graphology.add_node id (new_node timestamp timestamp)
          (if leb config.max_nodes (order g) then prune_old_nodes true newest g else g)

  abbrev pub counted : NodeAttributes Num → Num → ℕ → NodeAttributes Num
  counted attrs amount timestamp = record attrs {
    last_seen = timestamp;
    transaction_count = attrs.transaction_count + 1;
    total_amount = numbers.add attrs.total_amount amount;
  }

  abbrev pub counted_in : String → Num → ℕ → State → Option (NodeAttributes Num) → Option State
  counted_in id amount timestamp g none = none
  counted_in id amount timestamp g (some attrs) =
      some (graphology.set_node id (counted attrs amount timestamp) g)

  -- `getNodeAttributes` throws where the node is not there.
  unfoldable pub update_node_stats : String → Num → ℕ → State → Option State
  update_node_stats id amount timestamp g = counted_in id amount timestamp g (attributes g id)

  unfoldable pub closes_directed_triangle : State → String → String → Bool
  closes_directed_triangle g a b =
      any (λ c. not (str_eq c a) && has_edge g c a) (graphology.out_neighbors g b)

  abbrev pub first_edge : Num → ℕ → String → EdgeAttributes Num
  first_edge amount timestamp type = record {
    weight = 1;
    total_amount = amount;
    last_transaction = timestamp;
    first_transaction = timestamp;
    transaction_types = type ∷ [];
  }

  abbrev pub heavier : EdgeAttributes Num → Num → ℕ → String → EdgeAttributes Num
  heavier attrs amount timestamp type = record attrs {
    weight = attrs.weight + 1;
    total_amount = numbers.add attrs.total_amount amount;
    last_transaction = timestamp;
    transaction_types = add_type attrs.transaction_types type;
  }

  abbrev pub with_new_edge : TransactionEvent Num → GraphService State → GraphService State
  with_new_edge e s =
      let g =
        graphology.set_edge e.sender_id e.receiver_id
          (first_edge e.amount e.timestamp e.transaction_type) s.graph in
      record s {
        graph = g;
        dirty_triangle_count =
            if closes_directed_triangle g e.sender_id e.receiver_id
            then s.dirty_triangle_count + 1
            else s.dirty_triangle_count;
      }

  -- `addEdge` throws where an end is not there.
  abbrev pub with_edge :
      TransactionEvent Num
      → GraphService State
      → Option (EdgeAttributes Num)
      → Option (GraphService State)
  with_edge e s (some attrs) = some (record s {
    graph =
        graphology.set_edge e.sender_id e.receiver_id
          (heavier attrs e.amount e.timestamp e.transaction_type) s.graph;
  })
  with_edge e s none =
      if has_node s.graph e.sender_id && has_node s.graph e.receiver_id
      then some (with_new_edge e s)
      else none

  unfoldable pub add_or_update_edge :
      TransactionEvent Num → GraphService State → Option (GraphService State)
  unfolding closes_directed_triangle
  add_or_update_edge e s = with_edge e s (edge s.graph e.sender_id e.receiver_id)
