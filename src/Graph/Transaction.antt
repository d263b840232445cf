-- ===== src/Graph/Transaction.antt =====
-- graph.service.ts, `addTransaction`, and what the service answers about a user.
use ojuri.Prelude.{
  ℕ, ◌+◌, ◌-◌, ◌*◌, max, String, Option, none, some, List, [], ◌∷◌, ◌++◌, length, filter,
  get_or_else, ltb, ◌==◌, if◌then◌else◌,
}
use ojuri.Redis.{is_member}
use ojuri.Graph.Graphology.{Graphology}
use ojuri.Graph.Path.{shortest_path_to_fraud, fraud_path_unknown, is_empty}
use ojuri.Graph.Service.{
  NodeAttributes, EdgeAttributes, TransactionEvent, Config, Numbers, GraphService, order,
  attributes, has_node, ensure_node, update_node_stats, add_or_update_edge,
}
use ojuri.Graph.Metrics.{Scores, should_update_pagerank, compute_network_metrics}

-- How `addTransaction` ends, with the state that it leaves.
pub data Added (State : Type 0) : Type 0 where
  added threw : GraphService State → Added State

pub record NetworkFeatures (Num : Type 0) : Type 0 where
  pub pagerank : Num
  pub clustering_coef : Num
  pub community_id : Num
  pub degree_centrality : Num
  pub in_degree : ℕ
  pub out_degree : ℕ
  pub is_hub : ℕ
  pub shortest_path_to_fraud : ℕ
  pub neighborhood_fraud_rate : Num

pub record NodeSnapshot (Num : Type 0) : Type 0 where
  pub features : NetworkFeatures Num
  pub first_seen : ℕ
  pub last_seen : ℕ
  pub transaction_count : ℕ
  pub total_amount : Num

pub record EdgeSnapshot (Num : Type 0) : Type 0 where
  pub sender_id : String
  pub receiver_id : String
  pub attributes : EdgeAttributes Num

module _ {Num : Type 0} (numbers : Numbers Num)
    (graphology : Graphology (NodeAttributes Num) (EdgeAttributes Num)) (config : Config) where
  open graphology use {State, neighbors, out_neighbors, in_edges}

  abbrev pub newer : ℕ → ℕ → ℕ
  newer timestamp newest = if ltb newest timestamp then timestamp else newest

  -- Both users are there, the sender perhaps no more once the receiver is.
  unfoldable pub ensure_both : TransactionEvent Num → GraphService State → GraphService State
  unfolding ensure_node
  ensure_both e s =
      let newest = newer e.timestamp s.max_event_timestamp in
      record s {
        max_event_timestamp = newest;
        graph =
            ensure_node numbers graphology config newest e.receiver_id e.timestamp
              (ensure_node numbers graphology config newest e.sender_id e.timestamp s.graph);
      }

  abbrev pub recompute : Scores State Num → ℕ → GraphService State → GraphService State
  recompute scores now s =
      if should_update_pagerank numbers graphology config now s
      then compute_network_metrics numbers graphology config scores now s
      else s

  abbrev pub after_edge :
      Scores State Num → ℕ → GraphService State → Option (GraphService State) → Added State
  after_edge scores now s none = threw s
  after_edge scores now s (some t) =
      added (recompute scores now (record t { transaction_count = t.transaction_count + 1 }))

  abbrev pub after_stats :
      Scores State Num → ℕ → TransactionEvent Num → GraphService State → Option State → Added State
  after_stats scores now e s none = threw s
  after_stats scores now e s (some g) =
      let t : GraphService State = record s { graph = g } in
      after_edge scores now t (add_or_update_edge numbers graphology config e t)

  unfoldable pub add_transaction :
      Scores State Num → ℕ → TransactionEvent Num → GraphService State → Added State
  unfolding ensure_both update_node_stats add_or_update_edge should_update_pagerank
      compute_network_metrics
  add_transaction scores now e s =
      let t = ensure_both e s in
      after_stats scores now e t
        (update_node_stats numbers graphology config e.sender_id e.amount e.timestamp t.graph)

  unfoldable pub neighborhood_fraud_rate : GraphService State → String → Num
  neighborhood_fraud_rate s user =
      let beside = out_neighbors s.graph user in
      if is_empty (neighbors s.graph) s.fraud_users s.fraud_users
      then numbers.zero
      else if length beside == 0
      then numbers.zero
      else numbers.quotient (length (filter (λ n. is_member s.fraud_users n) beside))
          (length beside)

  abbrev pub unknown_features : GraphService State → String → NetworkFeatures Num
  unknown_features s user = record {
    pagerank = numbers.zero;
    clustering_coef = numbers.zero;
    community_id = numbers.zero;
    degree_centrality = numbers.zero;
    in_degree = 0;
    out_degree = 0;
    is_hub = 0;
    shortest_path_to_fraud = if is_member s.fraud_users user then 0 else fraud_path_unknown;
    neighborhood_fraud_rate = numbers.zero;
  }

  abbrev pub features_of :
      GraphService State → String → Option (NodeAttributes Num) → NetworkFeatures Num
  features_of s user none = unknown_features s user
  features_of s user (some attrs) =
      let in_degree = graphology.in_degree s.graph user in
      let out_degree = graphology.out_degree s.graph user in
      let max_degree = max (order numbers graphology config s.graph - 1) 1 in
      record {
        pagerank = get_or_else attrs.pagerank numbers.zero;
        clustering_coef = get_or_else attrs.clustering_coef numbers.zero;
        community_id = get_or_else attrs.community_id numbers.zero;
        degree_centrality = numbers.quotient (in_degree + out_degree) (2 * max_degree);
        in_degree = in_degree;
        out_degree = out_degree;
        is_hub = get_or_else attrs.is_hub 0;
        shortest_path_to_fraud = shortest_path_to_fraud (neighbors s.graph) s.fraud_users user;
        neighborhood_fraud_rate = neighborhood_fraud_rate s user;
      }

  unfoldable pub get_network_features : GraphService State → String → NetworkFeatures Num
  unfolding shortest_path_to_fraud neighborhood_fraud_rate
  get_network_features s user =
      features_of s user (attributes numbers graphology config s.graph user)

  abbrev pub snapshot_of :
      GraphService State → String → Option (NodeAttributes Num) → Option (NodeSnapshot Num)
  snapshot_of s user none = none
  snapshot_of s user (some attrs) = some (record {
    features = get_network_features s user;
    first_seen = attrs.first_seen;
    last_seen = attrs.last_seen;
    transaction_count = attrs.transaction_count;
    total_amount = attrs.total_amount;
  })

  unfoldable pub get_node_snapshot : GraphService State → String → Option (NodeSnapshot Num)
  unfolding get_network_features
  get_node_snapshot s user = snapshot_of s user (attributes numbers graphology config s.graph user)

  abbrev pub sum_weights : List (EdgeAttributes Num) → ℕ
  sum_weights [] = 0
  sum_weights (e ∷ es) = e.weight + sum_weights es

  unfoldable pub get_inbound_transaction_count : GraphService State → String → ℕ
  get_inbound_transaction_count s user =
      if has_node numbers graphology config s.graph user
      then sum_weights (in_edges s.graph user)
      else 0

  abbrev pub one_more : GraphService State × ℕ → GraphService State × ℕ
  one_more (s, count) = (s, count + 1)

  -- The fraud users with the new among these, and how many they are.
  unfoldable pub mark_fraud_users : List String → GraphService State → GraphService State × ℕ
  mark_fraud_users [] = λ s. (s, 0)
  mark_fraud_users (id ∷ ids) =
      let rest = mark_fraud_users ids in
      λ s.
        if is_member s.fraud_users id
        then rest s
        else one_more (rest (record s { fraud_users = s.fraud_users ++ id ∷ [] }))
