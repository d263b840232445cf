-- ===== src/Graph/Pruned.antt =====
-- What a cap-driven prune leaves.
use ojuri.Prelude.{
  ℕ, zero, suc, ◌/◌, ◌≤◌, ◌<◌, max, String, ◌≡◌, refl, ap, ◌∙◌, Bool, true, false, none, List, [],
  ◌∷◌, map, length, take, arith, leb, leb→le, str_eq, ◌==◌, Bool-cases, Option-cases, inl, inr, All,
  All-filter, if◌then◌else◌,
}
use ojuri.Prelude.Assoc
use ojuri.Prelude.Assoc.{Assoc, IsDistinct, length-delete}
use ojuri.Graph.Graphology.{Graphology, IsGraph}
use ojuri.Graph.Service.{
  NodeAttributes, EdgeAttributes, Config, Numbers, order, stale_nodes, by_last_seen, to_drop,
  drop_all, prune_old_nodes, ensure_node, new_node,
}
use ojuri.Graph.Nodes.{Has, all-Has, delete-length, length-sort_by, All-sort_by}

module _ {Num : Type 0} (numbers : Numbers Num)
    (graphology : Graphology (NodeAttributes Num) (EdgeAttributes Num)) (laws : IsGraph graphology)
    (config : Config) where
  open graphology use {State, nodes}

  abbrev pub size : State → ℕ
  size = order numbers graphology config

  drop_all-order :
      (ids : List String) (g : State) → size (drop_all numbers graphology config ids g) ≤ size g
  drop_all-order [] g = omega arith
  drop_all-order (id ∷ ids) g =
      let dropped = graphology.drop_node id g in
      let fewer : length (nodes dropped) ≤ length (nodes g) =
        rw (laws.drop_node_nodes id g) (delete-length (nodes g) id) in
      omega (arith, fewer, drop_all-order ids dropped)

  -- The first of some nodes goes, at least.
  drop_first :
      (target : ℕ) (es : List (String × NodeAttributes Num)) (g : State)
      → 1 ≤ target
      → 1 ≤ length es
      → All (Has (nodes g)) es
      → suc (size (drop_all numbers graphology config (map (λ n. n.0) (take target es)) g)) ≤ size g
  drop_first zero es g some_target full hs = absurd (omega (arith, some_target))
  drop_first (suc t) [] g some_target full hs = absurd (omega (arith, full))
  drop_first (suc t) (e ∷ es) g some_target full ((v, h), hs) =
      let dropped = graphology.drop_node e.0 g in
      let one : suc (length (nodes dropped)) ≡ length (nodes g) =
        rw (laws.drop_node_nodes e.0 g) (length-delete (nodes g) e.0 v (laws.distinct g) h) in
      omega (arith, one, drop_all-order (map (λ n. n.0) (take t es)) dropped)

  -- A cap-driven prune removes a node, where time has been seen.
  pub prune_old_nodes-order :
      (newest : ℕ) (g : State)
      → 1 ≤ newest
      → 1 ≤ size g
      → suc (size (prune_old_nodes numbers graphology config true newest g)) ≤ size g
  unfolding prune_old_nodes to_drop
  prune_old_nodes-order newest g seen full =
      let target = max 1 (config.max_nodes / 10) in
      let stale = stale_nodes numbers graphology config newest g in
      let old = by_last_seen numbers graphology config stale in
      let all_nodes = by_last_seen numbers graphology config (nodes g) in
      let rank : String × NodeAttributes Num → ℕ = λ n. n.1.last_seen in
      let some_target : 1 ≤ target = ground arith in
      let timed : (newest == 0) ≡ false = ground (arith, seen) in
      elim (Bool-cases (leb target (length stale))) [
        | inl many ↦
            rw (timed, many)
              (drop_first target old g some_target
                (omega (
                  arith,
                  length-sort_by rank stale,
                  leb→le target (length stale) many,
                  some_target,
                ))
                (All-sort_by rank (Has (nodes g)) stale
                  (All-filter (Has (nodes g)) _ (nodes g) (all-Has (nodes g)))))
        | inr few ↦
            rw (timed, few)
              (drop_first target all_nodes g some_target
                (omega (arith, length-sort_by rank (nodes g), full))
                (All-sort_by rank (Has (nodes g)) (nodes g) (all-Has (nodes g))))
      ]

  drop_all-absent :
      (ids : List String) (id : String) (g : State)
      → Assoc.get (nodes g) id ≡ none
      → Assoc.get (nodes (drop_all numbers graphology config ids g)) id ≡ none
  drop_all-absent [] id g h = h
  drop_all-absent (k ∷ ks) id g h = drop_all-absent ks id (graphology.drop_node k g) (
      ap (λ m. Assoc.get m id) (laws.drop_node_nodes k g)
      ∙ Assoc.get-delete (nodes g) k id
      ∙ none_either (str_eq k id))
    where
      none_either : (b : Bool) → (if b then none else Assoc.get (nodes g) id) ≡ none
      none_either true = refl
      none_either false = h

  prune_old_nodes-absent :
      (newest : ℕ) (id : String) (g : State)
      → Assoc.get (nodes g) id ≡ none
      → Assoc.get (nodes (prune_old_nodes numbers graphology config true newest g)) id ≡ none
  unfolding prune_old_nodes
  prune_old_nodes-absent newest id g h = elim (Bool-cases (newest == 0)) [
    | inl never ↦ rw never h
    | inr seen ↦ rw seen (drop_all-absent (to_drop numbers graphology config newest g) id g h)
  ]

  pub ensure_node-order :
      (newest timestamp : ℕ) (id : String) (g : State)
      → 1 ≤ newest
      → 1 ≤ config.max_nodes
      → size g ≤ config.max_nodes
      → size (ensure_node numbers graphology config newest id timestamp g) ≤ config.max_nodes
  unfolding ensure_node
  ensure_node-order newest timestamp id g seen cap fits =
      let pruned = prune_old_nodes numbers graphology config true newest g in
      let node = new_node numbers graphology config timestamp timestamp in
      elim (Option-cases (Assoc.get (nodes g) id)) [
        | inr (a, there) ↦ rw there fits
        | inl absent ↦ elim (Bool-cases (leb config.max_nodes (length (nodes g)))) [
          | inl full ↦
              rw (absent, full)
                (omega (
                  arith,
                  laws.add_node_order id node pruned (prune_old_nodes-absent newest id g absent),
                  prune_old_nodes-order newest g seen (omega (arith, leb→le _ _ full, cap)),
                  fits,
                ))
          | inr room ↦
              rw (absent, room)
                (let below : length (nodes g) < config.max_nodes = ground (arith, room) in
                  omega (arith, laws.add_node_order id node g absent, below))
        ]
      ]
