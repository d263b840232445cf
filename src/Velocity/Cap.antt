-- ===== src/Velocity/Cap.antt =====
-- The cap on tracked users, over a table that holds each sender once.
use ojuri.Prelude.{
  ℕ, zero, suc, ◌+◌, ◌-◌, ◌≤◌, String, ◌≡◌, refl, sym, ap, ◌∙◌, subst, List, [], ◌∷◌, Option, none,
  some, true, false, length, take, length-take, arith, leb, str_eq, eq_iff, str_eq_refl, Bool-cases,
  Option-cases, inl, inr, none-some, if◌then◌else◌, filter, min, ◌==◌,
}
use ojuri.Prelude.Assoc
use ojuri.Prelude.Assoc.{Assoc, IsDistinct}
use ojuri.Velocity.{
  TransactionRecord, VelocityService, Limits, within, thirty_days, cleanup_users, delete_users,
  enforce_tracked_user_cap, cleanup_old_transactions, by_last_seen, insert_seen, last_seen,
}

get-insert_seen :
    (u : String × ℕ) (us : Assoc ℕ) (k : String)
    → Assoc.get us u.0 ≡ none
    → Assoc.get (insert_seen u us) k ≡ (if str_eq u.0 k then some u.1 else Assoc.get us k)
unfolding insert_seen ojuri.Prelude.Assoc.get
get-insert_seen u [] k h = refl
get-insert_seen u (other ∷ us) k h =
    ground (arith, eq_iff other.0 u.0, eq_iff u.0 k, eq_iff other.0 k, get-insert_seen u us k)

insert_seen-IsDistinct :
    (u : String × ℕ) (us : Assoc ℕ)
    → Assoc.get us u.0 ≡ none
    → IsDistinct us
    → IsDistinct (insert_seen u us)
unfolding insert_seen ojuri.Prelude.Assoc.get
insert_seen-IsDistinct u [] h d = (refl, tt)
insert_seen-IsDistinct u (other ∷ us) h (absent, d) = elim (Bool-cases (leb u.1 other.1)) [
  | inl first ↦ rw first (h, (absent, d))
  | inr later ↦
      let missing : Assoc.get us u.0 ≡ none = ground arith in
      rw later (
        (ground (
          arith,
          get-insert_seen u us other.0 missing,
          absent,
          eq_iff u.0 other.0,
          eq_iff other.0 u.0,
        )),
        insert_seen-IsDistinct u us missing d,
      )
]

length-insert_seen :
    (u : String × ℕ) (us : List (String × ℕ)) → length (insert_seen u us) ≡ suc (length us)
unfolding insert_seen
length-insert_seen u [] = refl
length-insert_seen u (other ∷ us) = ground (arith, length-insert_seen u us)

take_absent :
    (n : ℕ) (us : Assoc ℕ) (k : String) → Assoc.get us k ≡ none → Assoc.get (take n us) k ≡ none
unfolding ojuri.Prelude.Assoc.get
take_absent zero us k h = refl
take_absent (suc n) [] k h = refl
take_absent (suc n) ((user, at) ∷ us) k h = ground (arith, take_absent n us k)

take-IsDistinct : (n : ℕ) (us : Assoc ℕ) → IsDistinct us → IsDistinct (take n us)
take-IsDistinct zero us d = tt
take-IsDistinct (suc n) [] d = tt
take-IsDistinct (suc n) ((user, at) ∷ us) (absent, d) =
    (take_absent n us user absent, take-IsDistinct n us d)

pub get-take :
    (n : ℕ) (us : Assoc ℕ) (k : String) (at : ℕ)
    → Assoc.get (take n us) k ≡ some at
    → Assoc.get us k ≡ some at
unfolding ojuri.Prelude.Assoc.get
get-take zero us k at e = cc
get-take (suc n) [] k at e = cc
get-take (suc n) ((user, seen) ∷ us) k at e = elim (Bool-cases (str_eq user k)) [
  | inl here ↦ ground arith
  | inr later ↦ ground (arith, get-take n us k at)
]

module _ {Num : Type 0} where
  abbrev pub seen_of : Option (List (TransactionRecord Num)) → Option ℕ
  seen_of none = none
  seen_of (some txns) = some (last_seen txns)

  pub get-by_last_seen :
      (users : Assoc (List (TransactionRecord Num))) (k : String)
      → IsDistinct users
      → Assoc.get (by_last_seen users) k ≡ seen_of (Assoc.get users k)
  unfolding by_last_seen ojuri.Prelude.Assoc.get
  get-by_last_seen [] k d = refl
  get-by_last_seen ((user, txns) ∷ users) k (absent, d) =
      let missing = get-by_last_seen users user d ∙ ap seen_of absent in
      get-insert_seen (user, last_seen txns) (by_last_seen users) k missing
      ∙ elim (Bool-cases (str_eq user k)) [
        | inl here ↦ rw here refl
        | inr later ↦ rw later (get-by_last_seen users k d)
      ]

  by_last_seen-IsDistinct :
      (users : Assoc (List (TransactionRecord Num)))
      → IsDistinct users
      → IsDistinct (by_last_seen users)
  unfolding by_last_seen
  by_last_seen-IsDistinct [] d = tt
  by_last_seen-IsDistinct ((user, txns) ∷ users) (absent, d) =
      insert_seen-IsDistinct (user, last_seen txns) (by_last_seen users)
        (get-by_last_seen users user d ∙ ap seen_of absent) (by_last_seen-IsDistinct users d)

  length-by_last_seen :
      (users : Assoc (List (TransactionRecord Num))) → length (by_last_seen users) ≡ length users
  unfolding by_last_seen
  length-by_last_seen [] = refl
  length-by_last_seen ((user, txns) ∷ users) =
      length-insert_seen (user, last_seen txns) (by_last_seen users)
      ∙ ap suc (length-by_last_seen users)

  abbrev IsTracked : Assoc (List (TransactionRecord Num)) → String → Type 0
  IsTracked users k = (txns : List (TransactionRecord Num)) × (Assoc.get users k ≡ some txns)

  -- Every name of the list is a key of the table.
  abbrev AreTracked : Assoc (List (TransactionRecord Num)) → Assoc ℕ → Type 0
  AreTracked users us = (k : String) (at : ℕ) → Assoc.get us k ≡ some at → IsTracked users k

  tracked :
      (o : Option (List (TransactionRecord Num))) (at : ℕ)
      → seen_of o ≡ some at
      → (txns : List (TransactionRecord Num)) × (o ≡ some txns)
  tracked none at e = cc
  tracked (some txns) at e = (txns, refl)

  tracked_after :
      (us : Assoc ℕ) (users : Assoc (List (TransactionRecord Num))) (user : String) (at : ℕ)
      → Assoc.get us user ≡ none
      → AreTracked users ((user, at) ∷ us)
      → AreTracked (Assoc.delete users user) us
  unfolding ojuri.Prelude.Assoc.get
  tracked_after us users user at absent t k seen e = elim (Bool-cases (str_eq user k)) [
    | inl same ↦
        let here : user ≡ k = (eq_iff user k).0 same in
        absurd (none-some (sym (subst (λ i. Assoc.get us i ≡ none) here absent) ∙ e))
    | inr other ↦
        let (txns, known) = t k seen (rw other e) in
        (txns, Assoc.get-delete users user k ∙ rw other known)
  ]

  length-delete_users :
      (us : Assoc ℕ) (users : Assoc (List (TransactionRecord Num)))
      → IsDistinct us
      → IsDistinct users
      → AreTracked users us
      → length (delete_users us users) + length us ≡ length users
  unfolding delete_users ojuri.Prelude.Assoc.get
  length-delete_users [] users d e t = omega arith
  length-delete_users ((user, at) ∷ us) users (absent, d) e t =
      let (txns, known) = t user at (rw (str_eq_refl user) refl) in
      omega (
        arith,
        Assoc.length-delete users user txns e known,
        length-delete_users us (Assoc.delete users user) d (Assoc.delete-IsDistinct users user e)
            (tracked_after us users user at absent t),
      )

  -- The cap leaves at most its number of tracked users.
  pub enforce-capped :
      (limits : Limits) (s : VelocityService Num)
      → IsDistinct s.user_transactions
      → length (enforce_tracked_user_cap limits s).user_transactions
        ≡ min (length s.user_transactions) limits.max_tracked_users
  unfolding enforce_tracked_user_cap
  enforce-capped limits s d =
      let seen = by_last_seen s.user_transactions in
      let overage = length s.user_transactions - limits.max_tracked_users in
      omega (
        arith,
        length-take overage seen,
        length-by_last_seen s.user_transactions,
        length-delete_users (take overage seen) s.user_transactions
            (take-IsDistinct overage seen (by_last_seen-IsDistinct s.user_transactions d)) d
            (λ k at e.
              tracked (Assoc.get s.user_transactions k) at
                (sym (get-by_last_seen s.user_transactions k d) ∙ get-take overage seen k at e)),
      )

  pub cleanup_absent :
      (now : ℕ) (users : Assoc (List (TransactionRecord Num))) (k : String)
      → Assoc.get users k ≡ none
      → Assoc.get (cleanup_users now users) k ≡ none
  unfolding cleanup_users ojuri.Prelude.Assoc.get
  cleanup_absent now [] k h = refl
  cleanup_absent now ((user, txns) ∷ users) k h = ground (arith, cleanup_absent now users k)

  pub cleanup-IsDistinct :
      (now : ℕ) (users : Assoc (List (TransactionRecord Num)))
      → IsDistinct users
      → IsDistinct (cleanup_users now users)
  unfolding cleanup_users
  cleanup-IsDistinct now [] d = tt
  cleanup-IsDistinct now ((user, txns) ∷ users) (absent, d) =
      let filtered = filter (within now thirty_days) txns in
      let rest = cleanup-IsDistinct now users d in
      let missing = cleanup_absent now users user absent in
      elim (Bool-cases (length filtered == length txns)) [
        | inl whole ↦ rw whole (missing, rest)
        | inr fewer ↦ elim (Bool-cases (length filtered == 0)) [
          | inl gone ↦ rw (fewer, gone) rest
          | inr some_left ↦ rw (fewer, some_left) (missing, rest)
        ]
      ]

  -- After the periodic cleanup, over a table that holds each sender once, no more than the
  -- configured number of senders is tracked.
  pub cleanup_capped :
      (limits : Limits) (now : ℕ) (s : VelocityService Num)
      → IsDistinct s.user_transactions
      → length (cleanup_old_transactions limits now s).user_transactions ≤ limits.max_tracked_users
  unfolding cleanup_old_transactions
  cleanup_capped limits now s d = omega (
    arith,
    enforce-capped limits (record s { user_transactions = cleanup_users now s.user_transactions })
        (cleanup-IsDistinct now s.user_transactions d),
  )
