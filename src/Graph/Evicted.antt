-- ===== src/Graph/Evicted.antt =====
-- A cap-driven prune drops the nodes that were seen longest ago.
use ojuri.Prelude.{
  ℕ, ◌-◌, ◌/◌, ◌≤◌, max, String, ◌≡◌, refl, sym, ap, ◌∙◌, Bool, true, false, Option, none, some,
  List, [], ◌∷◌, length, take, drop, arith, ltb, ltb→lt, ltb→le, leb, ◌==◌, str_eq, some-injective,
  none-some, Bool-cases, inl, inr, All, All-filter, All-drop, if◌then◌else◌,
}
use ojuri.Prelude.Assoc
use ojuri.Prelude.Assoc.{Assoc, IsDistinct}
use ojuri.Redis.{is_member}
use ojuri.Graph.Graphology.{Graphology, IsGraph}
use ojuri.Graph.Nodes.{All-sort_by}
use ojuri.Graph.Oldest.{sort_by-IsSorted, IsSplit-take}
use ojuri.Graph.Service.{
  NodeAttributes, EdgeAttributes, Config, Numbers, sort_by, stale_nodes, to_drop, drop_all,
  prune_old_nodes, prune_age_ms,
}
use ojuri.Graph.Entries.{
  names, IsEntry, All-take, All-both, all-IsEntry, pick, named, present, all_pass, removed, remains,
  split_named, sort_named,
}

module _ {Num : Type 0} (numbers : Numbers Num)
    (graphology : Graphology (NodeAttributes Num) (EdgeAttributes Num)) (laws : IsGraph graphology)
    (config : Config) where
  open graphology use {State, nodes}

  abbrev Entries : Type 0
  Entries = List (String × NodeAttributes Num)

  abbrev rank : String × NodeAttributes Num → ℕ
  rank e = e.1.last_seen

  get-drop_all :
      (ids : List String) (g : State) (j : String)
      → Assoc.get (nodes (drop_all numbers graphology config ids g)) j
        ≡ (if is_member ids j then none else Assoc.get (nodes g) j)
  get-drop_all [] g j = refl
  get-drop_all (k ∷ ks) g j =
      let dropped = graphology.drop_node k g in
      let one : Assoc.get (nodes dropped) j ≡ (if str_eq k j then none else Assoc.get (nodes g) j) =
        ap (λ m. Assoc.get m j) (laws.drop_node_nodes k g) ∙ Assoc.get-delete (nodes g) k j in
      elim (Bool-cases (str_eq k j)) [
        | inl same ↦
            rw same (get-drop_all ks dropped j ∙ either (is_member ks j) (one ∙ rw same refl))
        | inr other ↦ rw other (
            get-drop_all ks dropped j
            ∙ ap (λ o. if is_member ks j then none else o) (one ∙ rw other refl))
      ]
    where
      either :
          {o : Option (NodeAttributes Num)} (b : Bool) → o ≡ none → (if b then none else o) ≡ none
      either true h = refl
      either false h = h

  -- Of the first of some sorted entries, none is newer than one of the rest.
  first_older :
      (k : ℕ) (es : Entries) (i j : String) (a b : NodeAttributes Num) (m : Entries)
      → All (IsEntry m) es
      → Assoc.get m i ≡ some a
      → Assoc.get m j ≡ some b
      → is_member (names (take k (sort_by rank es))) i ≡ true
      → is_member (names (take k (sort_by rank es))) j ≡ false
      → is_member (names es) j ≡ true
      → a.last_seen ≤ b.last_seen
  first_older k es i j a b m entries at_i at_j gone stays there =
      let sorted = sort_by rank es in
      let all = All-sort_by rank (IsEntry m) es entries in
      let (a', (e_i, below)) =
        pick (λ e. IsEntry m e × All (λ x. rank e ≤ rank x) (drop k sorted)) (take k sorted) i
          (All-both (IsEntry m) (λ e. All (λ x. rank e ≤ rank x) (drop k sorted)) (take k sorted)
            (All-take (IsEntry m) k sorted all)
            (IsSplit-take rank k sorted (sort_by-IsSorted rank es)))
          gone in
      let (b', (e_j, order)) =
        pick (λ e. IsEntry m e × (rank (i, a') ≤ rank e)) (drop k sorted) j
          (All-both (IsEntry m) (λ e. rank (i, a') ≤ rank e) (drop k sorted)
            (All-drop (IsEntry m) k sorted all) below)
          (split_named k sorted j (sort_named rank es j ∙ there) stays) in
      let same_a : a' ≡ a = some-injective (sym e_i ∙ at_i) in
      let same_b : b' ≡ b = some-injective (sym e_j ∙ at_j) in
      omega (arith, order, ap (λ n. n.last_seen) same_a, ap (λ n. n.last_seen) same_b)

  abbrev stale : ℕ → State → Entries
  stale = stale_nodes numbers graphology config

  -- The stale nodes that go, against one that stays.
  stale_older :
      (newest : ℕ) (g : State) (k : ℕ) (i j : String) (a b : NodeAttributes Num)
      → Assoc.get (nodes g) i ≡ some a
      → Assoc.get (nodes g) j ≡ some b
      → is_member (names (take k (sort_by rank (stale newest g)))) i ≡ true
      → is_member (names (take k (sort_by rank (stale newest g)))) j ≡ false
      → a.last_seen ≤ b.last_seen
  stale_older newest g k i j a b at_i at_j gone stays =
      let is_stale : String × NodeAttributes Num → Bool =
        λ e. ltb e.1.last_seen (newest - prune_age_ms) in
      let entries =
        All-filter (IsEntry (nodes g)) is_stale (nodes g)
          (all-IsEntry (nodes g) (laws.distinct g)) in
      elim (Bool-cases (is_stale (j, b))) [
        | inl old ↦
            first_older k (stale newest g) i j a b (nodes g) entries at_i at_j gone stays
              (named is_stale (nodes g) j b at_j old)
        | inr fresh ↦
            let sorted = sort_by rank (stale newest g) in
            let (a', (e_i, aged)) =
              pick (λ e. IsEntry (nodes g) e × (is_stale e ≡ true)) (take k sorted) i
                (All-both (IsEntry (nodes g)) (λ e. is_stale e ≡ true) (take k sorted)
                  (All-take (IsEntry (nodes g)) k sorted
                    (All-sort_by rank (IsEntry (nodes g)) (stale newest g) entries))
                  (All-take (λ e. is_stale e ≡ true) k sorted
                    (All-sort_by rank (λ e. is_stale e ≡ true) (stale newest g)
                      (all_pass is_stale (nodes g)))))
                gone in
            let same : a' ≡ a = some-injective (sym e_i ∙ at_i) in
            omega (
              arith,
              ap (λ n. n.last_seen) same,
              ltb→lt a'.last_seen (newest - prune_age_ms) aged,
              ltb→le b.last_seen (newest - prune_age_ms) fresh,
            )
      ]

  to_drop-older :
      (newest : ℕ) (g : State) (i j : String) (a b : NodeAttributes Num)
      → Assoc.get (nodes g) i ≡ some a
      → Assoc.get (nodes g) j ≡ some b
      → is_member (to_drop numbers graphology config newest g) i ≡ true
      → is_member (to_drop numbers graphology config newest g) j ≡ false
      → a.last_seen ≤ b.last_seen
  unfolding to_drop
  to_drop-older newest g i j a b at_i at_j gone stays =
      let target = max 1 (config.max_nodes / 10) in
      elim (Bool-cases (leb target (length (stale newest g)))) [
        | inl many ↦
            stale_older newest g target i j a b at_i at_j ((rw many at gone)) ((rw many at stays))
        | inr few ↦
            first_older target (nodes g) i j a b (nodes g) (all-IsEntry (nodes g) (laws.distinct g))
              at_i at_j ((rw few at gone)) ((rw few at stays)) (present (nodes g) j b at_j)
      ]

  -- Where a cap-driven prune drops one node and leaves another, the one that it drops was not seen
  -- after the other.
  pub prune_old_nodes-oldest :
      (newest : ℕ) (g : State) (i j : String) (a b : NodeAttributes Num)
      → Assoc.get (nodes g) i ≡ some a
      → Assoc.get (nodes (prune_old_nodes numbers graphology config true newest g)) i ≡ none
      → Assoc.get (nodes (prune_old_nodes numbers graphology config true newest g)) j ≡ some b
      → a.last_seen ≤ b.last_seen
  unfolding prune_old_nodes
  prune_old_nodes-oldest newest g i j a b at_i gone stays = elim (Bool-cases (newest == 0)) [
    | inl never ↦ absurd (none-some (sym ((rw never at gone)) ∙ at_i))
    | inr timed ↦
        let ids = to_drop numbers graphology config newest g in
        let (left, at_j) =
          remains (is_member ids j) (Assoc.get (nodes g) j) b
            (sym (get-drop_all ids g j) ∙ (rw timed at stays)) in
        to_drop-older newest g i j a b at_i at_j
          (removed (is_member ids i) (Assoc.get (nodes g) i) a at_i
            (sym (get-drop_all ids g i) ∙ (rw timed at gone)))
          left
  ]
