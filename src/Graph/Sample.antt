-- ===== src/Graph/Sample.antt =====
-- A graph with the behaviour that the laws state: a table of nodes, and the edge of each two.
use ojuri.Prelude.{
  ℕ, suc, String, ◌≡◌, refl, Bool, true, false, ◌||◌, Option, none, some, List, [], ◌∷◌, map,
  filter, length, is_some, str_eq, eq_iff, Bool-cases, Option-cases, inl, inr, arith, if◌then◌else◌,
}
use ojuri.Prelude.Assoc
use ojuri.Prelude.Assoc.{Assoc, IsDistinct}
use ojuri.Graph.Graphology.{Graphology, IsGraph}

length-set_absent :
    {V : Type 0} (m : Assoc V) (k : String) (v : V)
    → Assoc.get m k ≡ none
    → length (Assoc.set m k v) ≡ suc (length m)
unfolding ojuri.Prelude.Assoc.get ojuri.Prelude.Assoc.set
length-set_absent [] k v h = refl
length-set_absent (n ∷ m) k v h = ground (arith, length-set_absent m k v)

length-set_present :
    {V : Type 0} (m : Assoc V) (k : String) (v w : V)
    → Assoc.get m k ≡ some w
    → length (Assoc.set m k v) ≡ length m
unfolding ojuri.Prelude.Assoc.get ojuri.Prelude.Assoc.set
length-set_present [] k v w h = cc
length-set_present (n ∷ m) k v w h = ground (arith, length-set_present m k v w)

module _ (Node Edge : Type 0) where
  pub record Drawn : Type 0 where
    pub table : (m : Assoc Node) × IsDistinct m
    pub edges : String → String → Option Edge

  abbrev put_node : String → Node → Drawn → Drawn
  put_node id a g = record g {
    table = (Assoc.set g.table.0 id a, Assoc.set-IsDistinct g.table.0 id a g.table.1);
  }

  abbrev put_present : String → Node → Drawn → Option Node → Drawn
  put_present id a g none = g
  put_present id a g (some b) = put_node id a g

  abbrev beside : (String → Bool) → Drawn → List String
  beside test g = map (λ n. n.0) (filter (λ n. test n.0) g.table.0)

  abbrev edges_of : List (Option Edge) → List Edge
  edges_of [] = []
  edges_of (none ∷ es) = edges_of es
  edges_of (some e ∷ es) = e ∷ edges_of es

  abbrev pub drawn : Graphology Node Edge
  drawn = record {
    State = Drawn;
    nodes = λ g. g.table.0;
    add_node = put_node;
    set_node = λ id a g. put_present id a g (Assoc.get g.table.0 id);
    drop_node = λ id g. record {
      table = (Assoc.delete g.table.0 id, Assoc.delete-IsDistinct g.table.0 id g.table.1);
      edges = λ a b. if str_eq a id || str_eq b id then none else g.edges a b;
    };
    edge = λ g a b. g.edges a b;
    set_edge = λ a b e g. record g {
      edges =
          λ x y. if str_eq x a then (if str_eq y b then some e else g.edges x y) else g.edges x y;
    };
    size = λ g. 0;
    in_degree = λ g b. length (beside (λ a. is_some (g.edges a b)) g);
    out_degree = λ g a. length (beside (λ b. is_some (g.edges a b)) g);
    neighbors = λ g a. beside (λ b. is_some (g.edges a b) || is_some (g.edges b a)) g;
    out_neighbors = λ g a. beside (λ b. is_some (g.edges a b)) g;
    in_edges = λ g b. edges_of (map (λ n. g.edges n.0 b) g.table.0);
  }

  present-order :
      (id : String) (a : Node) (g : Drawn) (o : Option Node)
      → Assoc.get g.table.0 id ≡ o
      → length (put_present id a g o).table.0 ≡ length g.table.0
  present-order id a g none e = refl
  present-order id a g (some b) e = length-set_present g.table.0 id a b e

  pub drawn-IsGraph : IsGraph drawn
  drawn-IsGraph = record {
    distinct = λ g. g.table.1;
    add_node_order = λ id a g absent. length-set_absent g.table.0 id a absent;
    set_node_order = λ id a g. present-order id a g _ refl;
    drop_node_nodes = λ id g. refl;
    set_edge_nodes = λ a b e g. refl;
  }
