-- ===== src/Idempotency/Canonical.antt =====
-- idempotency.service.ts, `canonical` and `hashRequest`: a body hashes alike in whatever order its
-- keys stand. The order of texts, JSON's text and SHA-256 are parameters.
use ojuri.Prelude.{
  String, ◌≡◌, ◌≢◌, refl, sym, ap, ◌∙◌, Bool, true, false, inl, inr, str_eq, Bool-cases,
  if◌then◌else◌,
}
use mathlib.Core.Bool.{true≢false}
use ojuri.Rules.Value.{Value, undefined, null, arr, obj, Items, nil, cons, Members, end, member}

-- The order by which `sort` places texts.
pub record TextOrder : Type 0 where
  pub le : String → String → Bool
  pub total : (a b : String) → le a b ≡ false → le b a ≡ true
  pub antisymmetric : (a b : String) → le a b ≡ true → le b a ≡ true → a ≡ b
  pub transitive : (a b c : String) → le a b ≡ true → le b c ≡ true → le a c ≡ true

module _ (order : TextOrder) {Num : Type 0} where
  unfoldable pub insert_member : String → Value Num → Members Num → Members Num
  insert_member k v end = member k v end
  insert_member k v (member j w ms) =
      if order.le k j then member k v (member j w ms) else member j w (insert_member k v ms)

  -- `sorted[key] = …` sets the prototype where the key is `__proto__`, and no property.
  abbrev pub assign_member : String → Value Num → Members Num → Members Num
  assign_member k v ms = if str_eq k "__proto__" then ms else insert_member k v ms

  unfoldable mutual
    pub canonical : Value Num → Value Num
    canonical (arr vs) = arr (canonical_items vs)
    canonical (obj ms) = obj (canonical_members ms)
    canonical v = v

    pub canonical_items : Items Num → Items Num
    canonical_items nil = nil
    canonical_items (cons v vs) = cons (canonical v) (canonical_items vs)

    pub canonical_members : Members Num → Members Num
    canonical_members end = end
    canonical_members (member k v ms) = assign_member k (canonical v) (canonical_members ms)

  -- `body ?? null`
  abbrev pub or_null : Value Num → Value Num
  or_null undefined = null
  or_null v = v

  unfoldable pub hash_request : (Value Num → String) → (String → String) → Value Num → String
  unfolding canonical
  hash_request stringify sha256 body = sha256 (stringify (canonical (or_null body)))

-- The same body with the keys of its objects, at any depth, in another order.
mutual
  pub data Reordered {Num : Type 0} : Value Num → Value Num → Type 0 where
    same : (v : Value Num) → Reordered v v
    in_array : {vs ws : Items Num} → ReorderedItems vs ws → Reordered (arr vs) (arr ws)
    in_object : {ms ns : Members Num} → ReorderedMembers ms ns → Reordered (obj ms) (obj ns)

  pub data ReorderedItems {Num : Type 0} : Items Num → Items Num → Type 0 where
    no_items : ReorderedItems nil nil
    each :
        {v w : Value Num} {vs ws : Items Num}
        → Reordered v w
        → ReorderedItems vs ws
        → ReorderedItems (cons v vs) (cons w ws)

  pub data ReorderedMembers {Num : Type 0} : Members Num → Members Num → Type 0 where
    no_members : ReorderedMembers end end
    under :
        {v w : Value Num} {ms ns : Members Num} (k : String)
        → Reordered v w
        → ReorderedMembers ms ns
        → ReorderedMembers (member k v ms) (member k w ns)
    swapped :
        (j k : String) (v w : Value Num) (ms : Members Num)
        → j ≢ k
        → ReorderedMembers (member j v (member k w ms)) (member k w (member j v ms))
    in_turn :
        {ms ns os : Members Num}
        → ReorderedMembers ms ns
        → ReorderedMembers ns os
        → ReorderedMembers ms os

not_le : (order : TextOrder) (a b : String) → a ≢ b → order.le a b ≡ true → order.le b a ≡ false
not_le order a b apart h = elim (Bool-cases (order.le b a)) [
  | inl back ↦ absurd (apart (order.antisymmetric a b h back))
  | inr other ↦ other
]

module _ (order : TextOrder) {Num : Type 0} where
  abbrev insert : String → Value Num → Members Num → Members Num
  insert = insert_member order

  -- Of two new keys, the one that stands before the other is placed alike.
  insert_front :
      (j k : String) (v w : Value Num)
      → order.le j k ≡ true
      → order.le k j ≡ false
      → ((i : String) (u : Value Num) (rest : Members Num)
          → insert j v (insert k w rest) ≡ insert k w (insert j v rest)
          → insert j v (insert k w (member i u rest)) ≡ insert k w (insert j v (member i u rest)))
  unfolding insert_member
  insert_front j k v w jk kj i u rest ih = elim (Bool-cases (order.le j i)) [
    | inl ji ↦ elim (Bool-cases (order.le k i)) [
      | inl ki ↦ rw (ji, ki, jk, kj) refl
      | inr ik ↦ rw (ik, ji, kj, ik) refl
    ]
    | inr ij ↦ elim (Bool-cases (order.le k i)) [
      | inl ki ↦ absurd (true≢false (sym (order.transitive j k i jk ki) ∙ ij))
      | inr ik ↦ rw (ik, ij, ik) (ap (member i u) ih)
    ]
  ]

  insert_comm :
      (j k : String) (v w : Value Num) (ms : Members Num)
      → order.le j k ≡ true
      → order.le k j ≡ false
      → insert j v (insert k w ms) ≡ insert k w (insert j v ms)
  unfolding insert_member
  insert_comm j k v w end jk kj = rw (jk, kj) refl
  insert_comm j k v w (member i u ms) jk kj =
      insert_front j k v w jk kj i u ms (insert_comm j k v w ms jk kj)

  insert_swap :
      (j k : String) (v w : Value Num) (ms : Members Num)
      → j ≢ k
      → insert j v (insert k w ms) ≡ insert k w (insert j v ms)
  insert_swap j k v w ms apart = elim (Bool-cases (order.le j k)) [
    | inl jk ↦ insert_comm j k v w ms jk (not_le order j k apart jk)
    | inr kj ↦ sym (insert_comm k j w v ms (order.total j k kj) kj)
  ]

  assign_swap :
      (j k : String) (v w : Value Num) (ms : Members Num)
      → j ≢ k
      → assign_member order j v (assign_member order k w ms)
        ≡ assign_member order k w (assign_member order j v ms)
  assign_swap j k v w ms apart = elim (Bool-cases (str_eq j "__proto__")) [
    | inl jp ↦ rw jp refl
    | inr jo ↦ elim (Bool-cases (str_eq k "__proto__")) [
      | inl kp ↦ rw (jo, kp) refl
      | inr ko ↦ rw (jo, ko) (insert_swap j k v w ms apart)
    ]
  ]

  mutual
    unfolding canonical

    canonical-same : (v w : Value Num) → Reordered v w → canonical order v ≡ canonical order w
    canonical-same _ _ (same v) = refl
    canonical-same _ _ (in_array {vs} {ws} r) = ap arr (items-same vs ws r)
    canonical-same _ _ (in_object {ms} {ns} r) = ap obj (members-same ms ns r)

    items-same :
        (vs ws : Items Num)
        → ReorderedItems vs ws
        → canonical_items order vs ≡ canonical_items order ws
    items-same _ _ no_items = refl
    items-same _ _ (each {v} {w} {vs} {ws} r rs) =
        rw (canonical-same v w r, items-same vs ws rs) refl

    members-same :
        (ms ns : Members Num)
        → ReorderedMembers ms ns
        → canonical_members order ms ≡ canonical_members order ns
    members-same _ _ no_members = refl
    members-same _ _ (under {v} {w} {ms} {ns} k r rs) =
        rw (canonical-same v w r, members-same ms ns rs) refl
    members-same _ _ (swapped j k v w ms apart) =
        assign_swap j k (canonical order v) (canonical order w) (canonical_members order ms) apart
    members-same _ _ (in_turn {ms} {ns} {os} r q) = members-same ms ns r ∙ members-same ns os q

  or_null-Reordered :
      (v w : Value Num) → Reordered v w → Reordered (or_null order v) (or_null order w)
  or_null-Reordered _ _ (same v) = same (or_null order v)
  or_null-Reordered _ _ (in_array r) = in_array r
  or_null-Reordered _ _ (in_object r) = in_object r

  -- Two bodies that differ in the order of keys alone, at any depth, have one hash.
  pub hash_request-Reordered :
      (stringify : Value Num → String) (sha256 : String → String) (v w : Value Num)
      → Reordered v w
      → hash_request order stringify sha256 v ≡ hash_request order stringify sha256 w
  unfolding hash_request
  hash_request-Reordered stringify sha256 v w r =
      ap (λ b. sha256 (stringify b))
        (canonical-same (or_null order v) (or_null order w) (or_null-Reordered v w r))
