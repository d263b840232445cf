-- ===== src/Graph/Tests.antt =====
-- Small graphs, with whole numbers for the amounts and hundredths for the quotients.
use ojuri.Prelude.{
  ℕ, ◌+◌, ◌*◌, ◌/◌, ◌≤◌, String, ◌≡◌, refl, Bool, true, false, Option, none, some, List, [], ◌∷◌,
  arith, str_eq, if◌then◌else◌,
}
use ojuri.Prelude.Assoc.{Assoc, IsDistinct}
use ojuri.Graph.Path.{shortest_path_to_fraud}
use ojuri.Graph.Shortest.{IsAnswer, shortest_path_to_fraud-IsAnswer}
use ojuri.Graph.Graphology.{Graphology}
use ojuri.Graph.Service.{
  NodeAttributes, EdgeAttributes, TransactionEvent, Config, Numbers, GraphService, new_node,
  prune_old_nodes,
}
use ojuri.Graph.Metrics.{Scores, count_triangles, possible_triangles}
use ojuri.Graph.Transaction.{Added, added, threw, add_transaction}
use ojuri.Graph.Bounded.{IsWithin, add_transaction-IsWithin}
use ojuri.Graph.Triangles.{count_triangles-possible_triangles}
use ojuri.Prelude.Assoc
use ojuri.Graph.Evicted.{prune_old_nodes-oldest}
use ojuri.Graph.Sample.{Drawn, drawn, drawn-IsGraph}

-- A way a - b - c to a fraud user, and another user apart.
abbrev ways : String → List String
ways x =
    if str_eq x "a"
    then "b" ∷ []
    else if str_eq x "b"
    then "a" ∷ "c" ∷ []
    else if str_eq x "c"
    then "b" ∷ []
    else []

two_steps : shortest_path_to_fraud ways ("c" ∷ []) "a" ≡ 2
unfolding shortest_path_to_fraud
two_steps = refl

apart : shortest_path_to_fraud ways ("c" ∷ []) "d" ≡ 99
unfolding shortest_path_to_fraud
apart = refl

shortest_path_to_fraud-IsAnswer_example :
    IsAnswer ways ("c" ∷ []) "a" 4 (shortest_path_to_fraud ways ("c" ∷ []) "a")
shortest_path_to_fraud-IsAnswer_example = shortest_path_to_fraud-IsAnswer ways ("c" ∷ []) "a"

abbrev numbers : Numbers ℕ
numbers = record {
  zero = 0;
  add = λ a b. a + b;
  quotient = λ n d. n * 100 / d;
  permille = λ n. n * 999 / 1000;
}

abbrev graphology : Graphology (NodeAttributes ℕ) (EdgeAttributes ℕ)
graphology = drawn (NodeAttributes ℕ) (EdgeAttributes ℕ)

abbrev Graph : Type 0
Graph = Drawn (NodeAttributes ℕ) (EdgeAttributes ℕ)

abbrev config : Config
config = record {
  max_nodes = 2;
  update_interval = 5000;
  triangle_recompute_min_interval_ms = 1000;
  recompute_min_interval_ms = 1000;
}

abbrev seen_at : ℕ → NodeAttributes ℕ
seen_at t = new_node numbers graphology config t t

abbrev two_nodes : Assoc (NodeAttributes ℕ)
two_nodes = ("ann", seen_at 10) ∷ ("bob", seen_at 20) ∷ []

two_nodes-IsDistinct : IsDistinct two_nodes
unfolding ojuri.Prelude.Assoc.get
two_nodes-IsDistinct = (refl, (refl, tt))

-- Two users, and room for no more.
abbrev full_graph : Graph
full_graph = record { table = (two_nodes, two_nodes-IsDistinct); edges = λ a b. none }

abbrev full_service : GraphService Graph
full_service = record {
  graph = full_graph;
  transaction_count = 2;
  last_pagerank_update = 0;
  max_event_timestamp = 20;
  dirty_triangle_count = 0;
  fraud_users = [];
}

abbrev scores : Scores Graph ℕ
scores = record { pagerank = λ g. some (λ id. 1); louvain = λ g. some (λ id. 0) }

abbrev transfer : String → String → TransactionEvent ℕ
transfer sender receiver = record {
  sender_id = sender;
  receiver_id = receiver;
  amount = 5;
  timestamp = 30;
  transaction_type = "transfer";
}

abbrev is_added : Added Graph → Bool
is_added (added s) = true
is_added (threw s) = false

-- The receiver takes the place of the node seen longest ago.
bob_to_eve :
    is_added
      (add_transaction numbers graphology config scores 40 (transfer "bob" "eve") full_service)
    ≡ true
unfolding add_transaction ojuri.Prelude.Assoc.get ojuri.Prelude.Assoc.set ojuri.Prelude.Assoc.delete
bob_to_eve = refl

-- Where that node is the sender, the transaction throws.
ann_to_eve :
    is_added
      (add_transaction numbers graphology config scores 40 (transfer "ann" "eve") full_service)
    ≡ false
unfolding add_transaction ojuri.Prelude.Assoc.get ojuri.Prelude.Assoc.set ojuri.Prelude.Assoc.delete
ann_to_eve = refl

add_transaction-IsWithin_example :
    IsWithin numbers graphology
      (drawn-IsGraph (NodeAttributes ℕ) (EdgeAttributes ℕ))
      config
      (add_transaction numbers graphology config scores 40 (transfer "bob" "eve") full_service)
add_transaction-IsWithin_example =
    add_transaction-IsWithin numbers graphology
      (drawn-IsGraph (NodeAttributes ℕ) (EdgeAttributes ℕ)) config scores 40 (transfer "bob" "eve")
      full_service (omega arith) (omega arith) (omega arith)

count_triangles-possible_triangles_example :
    count_triangles numbers graphology config full_graph ("ann" ∷ "bob" ∷ [])
    ≤ possible_triangles numbers graphology config 2
count_triangles-possible_triangles_example =
    count_triangles-possible_triangles numbers graphology config full_graph ("ann" ∷ "bob" ∷ [])

-- Of the two, the prune drops the one seen first.
ann_goes :
    Assoc.get
      (graphology.nodes (prune_old_nodes numbers graphology config true 30 full_graph))
      "ann"
    ≡ none
unfolding prune_old_nodes ojuri.Prelude.Assoc.get ojuri.Prelude.Assoc.delete
ann_goes = refl

bob_stays :
    Assoc.get
      (graphology.nodes (prune_old_nodes numbers graphology config true 30 full_graph))
      "bob"
    ≡ some (seen_at 20)
unfolding prune_old_nodes ojuri.Prelude.Assoc.get ojuri.Prelude.Assoc.delete
bob_stays = refl

ann_there : Assoc.get (graphology.nodes full_graph) "ann" ≡ some (seen_at 10)
unfolding ojuri.Prelude.Assoc.get
ann_there = refl

prune_old_nodes-oldest_example : (seen_at 10).last_seen ≤ (seen_at 20).last_seen
prune_old_nodes-oldest_example =
    prune_old_nodes-oldest numbers graphology (drawn-IsGraph (NodeAttributes ℕ) (EdgeAttributes ℕ))
      config 30 full_graph "ann" "bob" (seen_at 10) (seen_at 20) ann_there ann_goes bob_stays
