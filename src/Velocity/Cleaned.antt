-- ===== src/Velocity/Cleaned.antt =====
-- What the periodic cleanup leaves of each sender, and whom the cap evicts.
use ojuri.Prelude.{
  ℕ, zero, suc, ◌-◌, ◌≤◌, ◌==◌, String, ◌≡◌, refl, sym, ap, ◌∙◌, Bool, true, false, Option, none,
  some, List, [], ◌∷◌, length, length-filter, take, filter, arith, leb, str_eq, eq_iff, Bool-cases,
  Option-cases, inl, inr, ◌⊎◌, none-some, some-injective, subst, if◌then◌else◌,
}
use ojuri.Prelude.Assoc
use ojuri.Prelude.Assoc.{Assoc, IsDistinct}
use ojuri.Velocity.{
  TransactionRecord, VelocityService, Limits, transactions_of, within, thirty_days, cleanup_users,
  delete_users, enforce_tracked_user_cap, cleanup_old_transactions, by_last_seen, last_seen,
}
use ojuri.Velocity.Cap.{
  get-by_last_seen, cleanup_absent, cleanup-IsDistinct, seen_of, get-take, enforce-capped,
}
use ojuri.Velocity.Seen.{take-oldest, take-positive, by_last_seen-IsSorted}

module _ {Num : Type 0} where
  delete_users-kept :
      (us : Assoc ℕ) (users : Assoc (List (TransactionRecord Num))) (k : String)
      → Assoc.get us k ≡ none
      → Assoc.get (delete_users us users) k ≡ Assoc.get users k
  unfolding delete_users ojuri.Prelude.Assoc.get
  delete_users-kept [] users k h = refl
  delete_users-kept ((user, at) ∷ us) users k h = elim (Bool-cases (str_eq user k)) [
    | inl same ↦ absurd (none-some (sym ((rw same at h))))
    | inr other ↦
        delete_users-kept us (Assoc.delete users user) k ((rw other at h))
        ∙ Assoc.get-delete users user k
        ∙ rw other refl
  ]

  delete_users-absent :
      (us : Assoc ℕ) (users : Assoc (List (TransactionRecord Num))) (k : String)
      → Assoc.get users k ≡ none
      → Assoc.get (delete_users us users) k ≡ none
  unfolding delete_users
  delete_users-absent [] users k h = h
  delete_users-absent ((user, at) ∷ us) users k h =
      delete_users-absent us (Assoc.delete users user) k (
        Assoc.get-delete users user k
        ∙ elim (Bool-cases (str_eq user k)) [ inl same ↦ rw same refl | inr other ↦ rw other h ])

  delete_users-gone :
      (us : Assoc ℕ) (users : Assoc (List (TransactionRecord Num))) (k : String) (at : ℕ)
      → Assoc.get us k ≡ some at
      → Assoc.get (delete_users us users) k ≡ none
  unfolding delete_users ojuri.Prelude.Assoc.get
  delete_users-gone [] users k at e = cc
  delete_users-gone ((user, seen) ∷ us) users k at e = elim (Bool-cases (str_eq user k)) [
    | inl same ↦
        delete_users-absent us (Assoc.delete users user) k
          (Assoc.get-delete users user k ∙ rw same refl)
    | inr other ↦ delete_users-gone us (Assoc.delete users user) k at ((rw other at e))
  ]

  filter_whole :
      (p : TransactionRecord Num → Bool) (txns : List (TransactionRecord Num))
      → (length (filter p txns) == length txns) ≡ true
      → filter p txns ≡ txns
  filter_whole p [] h = refl
  filter_whole p (txn ∷ txns) h = elim (Bool-cases (p txn)) [
    | inl kept ↦ rw kept (ap (λ r. txn ∷ r) (filter_whole p txns (ground (arith, kept, h))))
    | inr left ↦ absurd (ground (arith, left, h, length-filter p txns))
  ]

  filter_none :
      (p : TransactionRecord Num → Bool) (txns : List (TransactionRecord Num))
      → (length (filter p txns) == 0) ≡ true
      → filter p txns ≡ []
  filter_none p txns h = nothing (filter p txns) h
    where
      nothing : (found : List (TransactionRecord Num)) → (length found == 0) ≡ true → found ≡ []
      nothing [] e = refl
      nothing (txn ∷ found) e = absurd (ground (arith, e))

  abbrev pub listed : Option (List (TransactionRecord Num)) → List (TransactionRecord Num)
  listed none = []
  listed (some txns) = txns

  cleanup-listed :
      (now : ℕ) (users : Assoc (List (TransactionRecord Num))) (k : String)
      → IsDistinct users
      → listed (Assoc.get (cleanup_users now users) k)
        ≡ filter (within now thirty_days) (listed (Assoc.get users k))
  unfolding cleanup_users ojuri.Prelude.Assoc.get
  cleanup-listed now [] k d = refl
  cleanup-listed now ((user, txns) ∷ users) k (absent, d) =
      let p = within now thirty_days in
      elim (Bool-cases (str_eq user k)) [
        | inl same ↦
            let here : user ≡ k = (eq_iff user k).0 same in
            elim (Bool-cases (length (filter p txns) == length txns)) [
              | inl whole ↦ rw (whole, same) (sym (filter_whole p txns whole))
              | inr fewer ↦ elim (Bool-cases (length (filter p txns) == 0)) [
                | inl gone ↦
                    let missing : Assoc.get (cleanup_users now users) k ≡ none =
                      cleanup_absent now users k (ap (Assoc.get users) (sym here) ∙ absent) in
                    rw (fewer, gone, missing, same) (sym (filter_none p txns gone))
                | inr some_left ↦ rw (fewer, some_left, same) refl
              ]
            ]
        | inr other ↦ elim (Bool-cases (length (filter p txns) == length txns)) [
          | inl whole ↦ rw (whole, other) (cleanup-listed now users k d)
          | inr fewer ↦ elim (Bool-cases (length (filter p txns) == 0)) [
            | inl gone ↦ rw (fewer, gone, other) (cleanup-listed now users k d)
            | inr some_left ↦ rw (fewer, some_left, other) (cleanup-listed now users k d)
          ]
        ]
      ]

  transactions_of-listed :
      (s : VelocityService Num) (user : String)
      → transactions_of s user ≡ listed (Assoc.get s.user_transactions user)
  transactions_of-listed s user = elim (Option-cases (Assoc.get s.user_transactions user)) [
    | inl unknown ↦ rw unknown refl
    | inr (txns, known) ↦ rw known refl
  ]

  module _ (limits : Limits) (now : ℕ) (s : VelocityService Num)
      (once : IsDistinct s.user_transactions) where
    -- What of a sender's transactions is not older than thirty days.
    abbrev pub recent : String → List (TransactionRecord Num)
    recent user = filter (within now thirty_days) (transactions_of s user)

    abbrev after : VelocityService Num
    after = cleanup_old_transactions limits now s

    -- The sender is tracked no more, as many senders as may be are, and none of them was last seen
    -- before this one.
    abbrev pub IsEvicted : VelocityService Num → String → Type 0
    IsEvicted left user =
        (Assoc.get left.user_transactions user ≡ none)
        × (length left.user_transactions ≡ limits.max_tracked_users)
        × ((other : String) (txns : List (TransactionRecord Num))
            → Assoc.get left.user_transactions other ≡ some txns
            → last_seen (recent user) ≤ last_seen txns)

    abbrev cleaned : Assoc (List (TransactionRecord Num))
    cleaned = cleanup_users now s.user_transactions

    abbrev evicted : Assoc ℕ
    evicted = take (length cleaned - limits.max_tracked_users) (by_last_seen cleaned)

    cleaned-recent : (user : String) → listed (Assoc.get cleaned user) ≡ recent user
    cleaned-recent user =
        cleanup-listed now s.user_transactions user once
        ∙ ap (filter (within now thirty_days)) (sym (transactions_of-listed s user))

    seen-listed :
        (o : Option (List (TransactionRecord Num))) (at : ℕ)
        → seen_of o ≡ some at
        → at ≡ last_seen (listed o)
    seen-listed none at e = absurd (none-some e)
    seen-listed (some txns) at e = sym (some-injective e)

    evicted-seen :
        (user : String) (at : ℕ) → Assoc.get evicted user ≡ some at → at ≡ last_seen (recent user)
    evicted-seen user at e =
        seen-listed (Assoc.get cleaned user) at (
          sym (get-by_last_seen cleaned user (cleanup-IsDistinct now s.user_transactions once))
          ∙ get-take _ (by_last_seen cleaned) user at e)
        ∙ ap last_seen (cleaned-recent user)

    spared :
        (other : String) (txns : List (TransactionRecord Num))
        → Assoc.get (delete_users evicted cleaned) other ≡ some txns
        → (Assoc.get evicted other ≡ none)
          × (Assoc.get (by_last_seen cleaned) other ≡ some (last_seen txns))
    spared other txns e = elim (Option-cases (Assoc.get evicted other)) [
      | inr (at, gone) ↦
          absurd (none-some (sym (delete_users-gone evicted cleaned other at gone) ∙ e))
      | inl kept ↦ (
        kept,
        get-by_last_seen cleaned other (cleanup-IsDistinct now s.user_transactions once)
            ∙ ap seen_of (sym (delete_users-kept evicted cleaned other kept) ∙ e),
      )
    ]

    -- In a table that holds each sender once, the periodic cleanup leaves each sender exactly the
    -- transactions that are not older than thirty days, or evicts the sender; it does so only down
    -- to the configured number of senders, and the last of these transactions of an evicted sender
    -- is not later than the last transaction of any sender that stays.
    pub cleanup_old_transactions-recent :
        (user : String)
        → (transactions_of (cleanup_old_transactions limits now s) user ≡ recent user)
          ⊎ IsEvicted (cleanup_old_transactions limits now s) user
    unfolding cleanup_old_transactions enforce_tracked_user_cap
    cleanup_old_transactions-recent user = elim (Option-cases (Assoc.get evicted user)) [
      | inl kept ↦ inl (
          transactions_of-listed after user
          ∙ ap listed (delete_users-kept evicted cleaned user kept)
          ∙ cleaned-recent user)
      | inr (at, gone) ↦ inr (
        delete_users-gone evicted cleaned user at gone,
        omega (
          arith,
          enforce-capped limits (record s { user_transactions = cleaned })
              (cleanup-IsDistinct now s.user_transactions once),
          take-positive _ (by_last_seen cleaned) user at gone,
        ),
        λ other txns e.
            let (stays, seen) = spared other txns e in
            subst (λ x. x ≤ last_seen txns) (evicted-seen user at gone)
              (take-oldest _ (by_last_seen cleaned) user other at (last_seen txns)
                (by_last_seen-IsSorted cleaned) gone stays seen),
      )
    ]
