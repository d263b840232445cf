-- ===== src/Graph/Hydrate.antt =====
-- graph.service.ts: the graph restored at boot from stored snapshots, and a snapshot of one edge.
use ojuri.Prelude.{
  ℕ, String, ◌||◌, Option, none, some, List, [], ◌∷◌, get_or_else, ltb, ◌==◌, if◌then◌else◌,
}
use ojuri.Graph.Graphology.{Graphology}
use ojuri.Graph.Service.{
  NodeAttributes, EdgeAttributes, Config, Numbers, GraphService, attributes, has_node, has_edge,
  new_node,
}
use ojuri.Graph.Transaction.{EdgeSnapshot, newer}

-- What is stored of a node; `undefined` is `none`.
pub record StoredNode (Num : Type 0) : Type 0 where
  pub user_id : String
  pub first_seen : Option ℕ
  pub last_seen : Option ℕ
  pub transaction_count : Option ℕ
  pub total_amount : Option Num

module _ {Num : Type 0} (numbers : Numbers Num)
    (graphology : Graphology (NodeAttributes Num) (EdgeAttributes Num)) (config : Config) where
  open graphology use {State, edge}

  abbrev pub edge_snapshot_of :
      String → String → Option (EdgeAttributes Num) → Option (EdgeSnapshot Num)
  edge_snapshot_of sender receiver none = none
  edge_snapshot_of sender receiver (some attrs) =
      some (record { sender_id = sender; receiver_id = receiver; attributes = attrs })

  unfoldable pub get_edge_snapshot :
      GraphService State → String → String → Option (EdgeSnapshot Num)
  get_edge_snapshot s sender receiver =
      edge_snapshot_of sender receiver (edge s.graph sender receiver)

  abbrev pub add_missing : EdgeSnapshot Num → String → State → State
  add_missing e id g =
      if has_node numbers graphology config g id
      then g
      else graphology.add_node id
          (new_node numbers graphology config e.attributes.first_transaction
            e.attributes.last_transaction)
          g

  abbrev pub hydrate_edge : EdgeSnapshot Num → State → State
  hydrate_edge e g =
      if has_edge numbers graphology config g e.sender_id e.receiver_id
      then g
      else graphology.set_edge e.sender_id e.receiver_id e.attributes g

  unfoldable pub hydrate_edges : List (EdgeSnapshot Num) → GraphService State → GraphService State
  hydrate_edges [] s = s
  hydrate_edges (e ∷ es) s = hydrate_edges es (record s {
    graph = hydrate_edge e (add_missing e e.receiver_id (add_missing e e.sender_id s.graph));
    max_event_timestamp =
        newer numbers graphology config e.attributes.last_transaction s.max_event_timestamp;
  })

  abbrev pub older : ℕ → Option ℕ → ℕ
  older now none = now
  older now (some stored) = if now == 0 || ltb stored now then stored else now

  abbrev pub later : ℕ → Option ℕ → ℕ
  later now none = now
  later now (some stored) = if ltb now stored then stored else now

  abbrev pub restored : StoredNode Num → NodeAttributes Num → NodeAttributes Num
  restored n attrs = record attrs {
    first_seen = older attrs.first_seen n.first_seen;
    last_seen = later attrs.last_seen n.last_seen;
    transaction_count = get_or_else n.transaction_count attrs.transaction_count;
    total_amount = get_or_else n.total_amount attrs.total_amount;
  }

  abbrev pub restore_node : StoredNode Num → State → Option (NodeAttributes Num) → State
  restore_node n g none = g
  restore_node n g (some attrs) = graphology.set_node n.user_id (restored n attrs) g

  unfoldable pub hydrate_node_state :
      List (StoredNode Num) → GraphService State → GraphService State
  hydrate_node_state [] s = s
  hydrate_node_state (n ∷ ns) s = hydrate_node_state ns (record s {
    graph = restore_node n s.graph (attributes numbers graphology config s.graph n.user_id);
  })
