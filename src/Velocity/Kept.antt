-- ===== src/Velocity/Kept.antt =====
-- What holds of the table of senders after a transaction is recorded.
use ojuri.Prelude.{
  ℕ, zero, suc, ◌+◌, ◌-◌, ◌≤◌, String, ◌≡◌, refl, List, [], ◌∷◌, some, false, length, drop, arith,
  Bool-cases, Option-cases, inl, inr, length-drop, str_eq, str_eq_refl,
}
use ojuri.Prelude.Assoc
use ojuri.Prelude.Assoc.{Assoc}
use ojuri.Velocity.{
  TransactionRecord, TransactionEvent, VelocityService, Limits, transactions_of, within,
  thirty_days, drop_stale, evict_out_of_window, to_record, record_transaction, stored,
}
use ojuri.Velocity.Placing.{IsAscending, place, insert_ascending-place, place-IsAscending}

module _ {Num : Type 0} (limits : Limits) where
  -- A sender's transactions are ascending and within the cap.
  pub record IsKept (txns : List (TransactionRecord Num)) : Type 0 where
    pub ascending : IsAscending txns
    pub capped : length txns ≤ limits.max_transactions_per_user

  abbrev pub IsValid : VelocityService Num → Type 0
  IsValid s = Assoc.AllValues IsKept s.user_transactions

  drop-IsAscending :
      (n : ℕ) (txns : List (TransactionRecord Num)) → IsAscending txns → IsAscending (drop n txns)
  drop-IsAscending zero txns s = s
  drop-IsAscending (suc n) [] s = tt
  drop-IsAscending (suc n) (txn ∷ txns) (p, s) = drop-IsAscending n txns s

  drop_stale-IsAscending :
      (now : ℕ) (txns : List (TransactionRecord Num))
      → IsAscending txns
      → IsAscending (drop_stale now txns)
  unfolding drop_stale
  drop_stale-IsAscending now [] s = tt
  drop_stale-IsAscending now (txn ∷ txns) (p, s) = elim (Bool-cases (within now thirty_days txn)) [
    | inl fresh ↦ rw fresh (p, s)
    | inr stale ↦ rw stale (drop_stale-IsAscending now txns s)
  ]

  evict-IsKept :
      (now : ℕ) (txns : List (TransactionRecord Num))
      → IsAscending txns
      → IsKept (evict_out_of_window limits now txns).0
  unfolding evict_out_of_window
  evict-IsKept now txns s =
      let fresh = drop_stale now txns in
      let overflow = length fresh - limits.max_transactions_per_user in
      record {
        ascending = drop-IsAscending overflow fresh (drop_stale-IsAscending now txns s);
        capped = omega (arith, length-drop overflow fresh);
      }

  pub transactions_of-IsAscending :
      (s : VelocityService Num) (user : String) → IsValid s → IsAscending (transactions_of s user)
  transactions_of-IsAscending s user v = elim (Option-cases (Assoc.get s.user_transactions user)) [
    | inl unknown ↦ rw unknown tt
    | inr (txns, known) ↦
        rw known (Assoc.AllValues-get IsKept s.user_transactions user v txns known).ascending
  ]

  -- An event is always recorded, at its place by time and less what leaves the window or exceeds
  -- the cap; every sender's transactions stay ascending and capped, and no other sender's change.
  pub record_transaction-IsValid :
      (now : ℕ) (event : TransactionEvent Num) (s : VelocityService Num)
      → IsValid s
      → (after : VelocityService Num) × (record_transaction limits now event s ≡ some after)
        × IsValid after
        × (transactions_of after event.sender_id
            ≡ (evict_out_of_window limits now
                (place (to_record event) (transactions_of s event.sender_id))).0)
        × ((user : String)
            → str_eq event.sender_id user ≡ false
            → transactions_of after user ≡ transactions_of s user)
  unfolding record_transaction stored
  record_transaction-IsValid now event s v =
      let sorted = transactions_of-IsAscending s event.sender_id v in
      let placed = place (to_record event) (transactions_of s event.sender_id) in
      let kept = evict_out_of_window limits now placed in
      (
        record {
          user_transactions = Assoc.set s.user_transactions event.sender_id kept.0;
          truncated = s.truncated + kept.1;
          evicted_users = s.evicted_users;
        },
        rw (insert_ascending-place (transactions_of s event.sender_id) (to_record event) sorted)
            refl,
        Assoc.AllValues-set IsKept s.user_transactions event.sender_id kept.0 v
            (evict-IsKept now placed (place-IsAscending (to_record event) _ sorted)),
        rw
            (
              Assoc.get-set s.user_transactions event.sender_id kept.0 event.sender_id,
              str_eq_refl event.sender_id,
            )
            refl,
        λ user other.
            rw (Assoc.get-set s.user_transactions event.sender_id kept.0 user, other) refl,
      )
