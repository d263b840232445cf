-- ===== src/Velocity.antt =====
-- paa-service/src/services/velocity.service.ts: the transactions of each sender, kept ascending by
-- time. Times are milliseconds, as natural numbers; a cutoff `now - window` may lie before 0 in
-- the source, so a test `t >= now - window` is `now <= t + window` here.
pub mod Placing
pub mod Kept
pub mod Cap
pub mod Seen
pub mod Cleaned
pub mod Metrics
pub mod Windows
mod Tests
use ojuri.Prelude.{
  ℕ, zero, suc, ◌+◌, ◌-◌, ◌*◌, ◌/◌, String, Bool, true, false, not, Option, none, some, List, [],
  ◌∷◌, ◌++◌, length, take, drop, filter, last, get_elem?, get_or_else, ltb, leb, ◌==◌,
  if◌then◌else◌,
}
use ojuri.Prelude.Assoc
use ojuri.Prelude.Assoc.{Assoc}

pub record TransactionRecord (Num : Type 0) : Type 0 where
  pub timestamp : ℕ
  pub amount : Num
  pub kind : String
  pub receiver : String

-- What the service reads of an event.
pub record TransactionEvent (Num : Type 0) : Type 0 where
  pub sender_id : String
  pub receiver_id : String
  pub amount : Num
  pub transaction_type : String
  pub timestamp : ℕ

pub record Limits : Type 0 where
  pub max_transactions_per_user : ℕ
  pub max_tracked_users : ℕ

-- With the counters of `recordVelocityTruncation` and `recordVelocityUserEviction`.
pub record VelocityService (Num : Type 0) : Type 0 where
  pub user_transactions : Assoc (List (TransactionRecord Num))
  pub truncated : ℕ
  pub evicted_users : ℕ

abbrev pub one_minute : ℕ
one_minute = 60 * 1000

abbrev pub five_minutes : ℕ
five_minutes = 5 * 60 * 1000

abbrev pub fifteen_minutes : ℕ
fifteen_minutes = 15 * 60 * 1000

abbrev pub one_hour : ℕ
one_hour = 60 * 60 * 1000

abbrev pub one_day : ℕ
one_day = 24 * 60 * 60 * 1000

abbrev pub seven_days : ℕ
seven_days = 7 * 24 * 60 * 60 * 1000

abbrev pub thirty_days : ℕ
thirty_days = 30 * 24 * 60 * 60 * 1000

-- The stable sort of `enforceTrackedUserCap`, the least recently active user first.
unfoldable pub insert_seen : String × ℕ → List (String × ℕ) → List (String × ℕ)
insert_seen u [] = u ∷ []
insert_seen u (other ∷ us) = if leb u.1 other.1 then u ∷ other ∷ us else other ∷ insert_seen u us

module _ {Num : Type 0} where
  -- `txn.timestamp >= now - window`
  abbrev pub within : ℕ → ℕ → TransactionRecord Num → Bool
  within now window txn = leb now (txn.timestamp + window)

  -- The loop of the binary search; `none` where it would read past the end or run out of fuel.
  unfoldable pub search : ℕ → List (TransactionRecord Num) → ℕ → ℕ → ℕ → Option ℕ
  search zero txns t lo hi = none
  search (suc fuel) txns t lo hi = elim (ltb lo hi) [
    | false ↦ some lo
    | true ↦ elim (get_elem? txns ((lo + hi) / 2)) [
      | none ↦ none
      | some txn ↦ elim (leb txn.timestamp t) [
        | true ↦ search fuel txns t ((lo + hi) / 2 + 1) hi
        | false ↦ search fuel txns t lo ((lo + hi) / 2)
      ]
    ]
  ]

  abbrev splice_at :
      List (TransactionRecord Num)
      → TransactionRecord Num
      → Option ℕ
      → Option (List (TransactionRecord Num))
  splice_at txns rec none = none
  splice_at txns rec (some i) = some (take i txns ++ rec ∷ drop i txns)

  -- The case of a record that is older than the last.
  unfoldable pub insert_before :
      List (TransactionRecord Num) → TransactionRecord Num → Option (List (TransactionRecord Num))
  unfolding search
  insert_before txns rec =
      splice_at txns rec (search (suc (length txns)) txns rec.timestamp 0 (length txns))

  -- The two cases of `insertAscending`, by the last record.
  abbrev insert_by_last :
      List (TransactionRecord Num)
      → TransactionRecord Num
      → Option (TransactionRecord Num)
      → Option (List (TransactionRecord Num))
  insert_by_last txns rec none = some (txns ++ rec ∷ [])
  insert_by_last txns rec (some newest) =
      if leb newest.timestamp rec.timestamp then some (txns ++ rec ∷ []) else insert_before txns rec

  unfoldable pub insert_ascending :
      List (TransactionRecord Num) → TransactionRecord Num → Option (List (TransactionRecord Num))
  insert_ascending txns rec = insert_by_last txns rec (last txns)

  -- The first loop of `evictOutOfWindow`, with its `splice`.
  unfoldable pub drop_stale : ℕ → List (TransactionRecord Num) → List (TransactionRecord Num)
  drop_stale now [] = []
  drop_stale now (txn ∷ txns) =
      let rest = drop_stale now txns in if within now thirty_days txn then txn ∷ txns else rest

  -- The transactions that stay, and how many the cap cut.
  unfoldable pub evict_out_of_window :
      Limits → ℕ → List (TransactionRecord Num) → List (TransactionRecord Num) × ℕ
  unfolding drop_stale
  evict_out_of_window limits now txns =
      let fresh = drop_stale now txns in
      let overflow = length fresh - limits.max_transactions_per_user in
      (drop overflow fresh, overflow)

  abbrev pub to_record : TransactionEvent Num → TransactionRecord Num
  to_record event = record {
    timestamp = event.timestamp;
    amount = event.amount;
    kind = event.transaction_type;
    receiver = event.receiver_id;
  }

  abbrev pub transactions_of : VelocityService Num → String → List (TransactionRecord Num)
  transactions_of s user = get_or_else (Assoc.get s.user_transactions user) []

  -- What `recordTransaction` does with the inserted transactions; `none` where that failed.
  unfoldable pub stored :
      Limits
      → ℕ
      → String
      → VelocityService Num
      → Option (List (TransactionRecord Num))
      → Option (VelocityService Num)
  unfolding evict_out_of_window
  stored limits now sender s none = none
  stored limits now sender s (some txns) =
      let kept = evict_out_of_window limits now txns in
      some (record {
        user_transactions = Assoc.set s.user_transactions sender kept.0;
        truncated = s.truncated + kept.1;
        evicted_users = s.evicted_users;
      })

  unfoldable pub record_transaction :
      Limits → ℕ → TransactionEvent Num → VelocityService Num → Option (VelocityService Num)
  unfolding insert_ascending stored
  record_transaction limits now event s =
      stored limits now event.sender_id s
        (insert_ascending (transactions_of s event.sender_id) (to_record event))

  -- The loop of `cleanupOldTransactions`.
  unfoldable pub cleanup_users :
      ℕ → Assoc (List (TransactionRecord Num)) → Assoc (List (TransactionRecord Num))
  cleanup_users now [] = []
  cleanup_users now ((user, txns) ∷ users) =
      let rest = cleanup_users now users in
      let filtered = filter (within now thirty_days) txns in
      if length filtered == length txns
      then (user, txns) ∷ rest
      else if length filtered == 0
      then rest
      else (user, filtered) ∷ rest

  abbrev pub last_seen : List (TransactionRecord Num) → ℕ
  last_seen txns = elim (last txns) [ none ↦ 0 | some txn ↦ txn.timestamp ]

  unfoldable pub by_last_seen : Assoc (List (TransactionRecord Num)) → List (String × ℕ)
  unfolding insert_seen
  by_last_seen [] = []
  by_last_seen ((user, txns) ∷ users) = insert_seen (user, last_seen txns) (by_last_seen users)

  unfoldable pub delete_users :
      List (String × ℕ)
      → Assoc (List (TransactionRecord Num))
      → Assoc (List (TransactionRecord Num))
  delete_users [] users = users
  delete_users ((user, at) ∷ us) users = delete_users us (Assoc.delete users user)

  unfoldable pub enforce_tracked_user_cap : Limits → VelocityService Num → VelocityService Num
  unfolding delete_users by_last_seen
  enforce_tracked_user_cap limits s =
      let overage = length s.user_transactions - limits.max_tracked_users in
      record s {
        user_transactions =
            delete_users (take overage (by_last_seen s.user_transactions)) s.user_transactions;
        evicted_users = s.evicted_users + overage;
      }

  unfoldable pub cleanup_old_transactions : Limits → ℕ → VelocityService Num → VelocityService Num
  unfolding cleanup_users enforce_tracked_user_cap
  cleanup_old_transactions limits now s =
      enforce_tracked_user_cap limits
        (record s { user_transactions = cleanup_users now s.user_transactions })
