-- ===== src/Graph/Graphology.antt =====
-- What the graph service uses of graphology, a parameter: a directed graph without parallel edges,
-- with attributes. The laws are the documented behaviour of its methods.
use ojuri.Prelude.{ℕ, suc, String, ◌≡◌, Option, none, List, length}
use ojuri.Prelude.Assoc
use ojuri.Prelude.Assoc.{Assoc, IsDistinct}

-- `nodes` is what `forEachNode` goes through. `set_node` and `set_edge` put the attributes that the
-- service has changed, `set_edge` also those of a new edge; `in_edges` are the attributes that
-- `forEachInEdge` goes through.
pub record Graphology (Node Edge : Type 0) : Type 1 where
  pub State : Type 0
  pub nodes : State → Assoc Node
  pub add_node : String → Node → State → State
  pub set_node : String → Node → State → State
  pub drop_node : String → State → State
  pub edge : State → String → String → Option Edge
  pub set_edge : String → String → Edge → State → State
  pub size : State → ℕ
  pub in_degree : State → String → ℕ
  pub out_degree : State → String → ℕ
  pub neighbors : State → String → List String
  pub out_neighbors : State → String → List String
  pub in_edges : State → String → List Edge

module _ {Node Edge : Type 0} (graphology : Graphology Node Edge) where
  open graphology use {State, nodes, add_node, set_node, drop_node, set_edge}

  pub record IsGraph : Type 0 where
    pub distinct : (g : State) → IsDistinct (nodes g)
    pub add_node_order :
        (id : String) (a : Node) (g : State)
        → Assoc.get (nodes g) id ≡ none
        → length (nodes (add_node id a g)) ≡ suc (length (nodes g))
    pub set_node_order :
        (id : String) (a : Node) (g : State) → length (nodes (set_node id a g)) ≡ length (nodes g)
    pub drop_node_nodes :
        (id : String) (g : State) → nodes (drop_node id g) ≡ Assoc.delete (nodes g) id
    pub set_edge_nodes : (a b : String) (e : Edge) (g : State) → nodes (set_edge a b e g) ≡ nodes g
