-- ===== src/Velocity/Tests.antt =====
-- Runs of the velocity windows on small inputs.
use ojuri.Prelude.{
  ℕ, zero, suc, ◌+◌, ◌*◌, ◌/◌, ◌%◌, ◌-◌, ◌≤◌, String, ◌≡◌, refl, List, [], ◌∷◌, Option, some, none,
  true, false, length, arith, ◌⊎◌, ◌==◌, min, max, str_eq,
}
use ojuri.Prelude.Assoc.{IsDistinct}
use ojuri.Velocity.{
  TransactionRecord, TransactionEvent, VelocityService, Limits, record_transaction,
  cleanup_old_transactions, transactions_of, evict_out_of_window, to_record, insert_ascending,
}
use ojuri.Velocity.Placing.{place, insert_ascending-place}
use ojuri.Velocity.Kept.{IsValid, record_transaction-IsValid}
use ojuri.Velocity.Cleaned.{recent, IsEvicted, cleanup_old_transactions-recent}
use ojuri.Velocity.Cap.{cleanup_capped}
use ojuri.Velocity.Metrics.{Float, calculate_metrics}
use ojuri.Velocity.Windows.{AreCounts, calculate_metrics_counts}

abbrev whole : Float
whole = record {
  Num = ℕ;
  of_nat = λ n. n;
  add = λ a b. a + b;
  sub = λ a b. a - b;
  mul = λ a b. a * b;
  div = λ a b. a / b;
  rem = λ a b. a % b;
  pow = λ a b. a * a;
  sqrt = λ a. a;
  round = λ a. a;
  floor = λ a. a;
  abs = λ a. a;
  max = λ a b. max a b;
  min = λ a b. min a b;
  sin = λ a. a;
  cos = λ a. a;
  atan2 = λ a b. a;
  pi = 3;
  equal = λ a b. a == b;
}

abbrev limits : Limits
limits = record { max_transactions_per_user = 3; max_tracked_users = 1 }

abbrev sent : ℕ → TransactionRecord ℕ
sent t = record { timestamp = t; amount = 10; kind = "transfer"; receiver = "bob" }

abbrev service : VelocityService ℕ
service = record {
  user_transactions =
      ("ann", sent 1000 ∷ sent 5000 ∷ sent 90000 ∷ []) ∷ ("eve", sent 2000 ∷ []) ∷ [];
  truncated = 0;
  evicted_users = 0;
}

abbrev late : TransactionEvent ℕ
late = record {
  sender_id = "ann";
  receiver_id = "bob";
  amount = 10;
  transaction_type = "transfer";
  timestamp = 4000;
}

service-IsValid : IsValid limits service
service-IsValid = (
  record {
    ascending = ((omega arith, (omega arith, tt)), ((omega arith, tt), (tt, tt)));
    capped = omega arith;
  },
  (record { ascending = (tt, tt); capped = omega arith }, tt),
)

insert_ascending-place_example :
    insert_ascending (sent 1000 ∷ sent 5000 ∷ []) (sent 4000)
    ≡ some (sent 1000 ∷ sent 4000 ∷ sent 5000 ∷ [])
unfolding place
insert_ascending-place_example =
    insert_ascending-place (sent 1000 ∷ sent 5000 ∷ []) (sent 4000) ((omega arith, tt), (tt, tt))

record_transaction-IsValid_example :
    (after : VelocityService ℕ) × (record_transaction limits 90000 late service ≡ some after)
    × IsValid limits after
    × (transactions_of after "ann"
        ≡ (evict_out_of_window limits 90000
            (place (to_record late) (transactions_of service "ann"))).0)
    × ((user : String)
        → str_eq "ann" user ≡ false
        → transactions_of after user ≡ transactions_of service user)
record_transaction-IsValid_example =
    record_transaction-IsValid limits 90000 late service service-IsValid

cleanup_capped_example :
    length (cleanup_old_transactions limits 90000 service).user_transactions ≤ 1
unfolding ojuri.Prelude.Assoc.get
cleanup_capped_example = cleanup_capped limits 90000 service (refl, (refl, tt))

calculate_metrics_counts_example :
    AreCounts whole
      (calculate_metrics whole service "ann" 90000)
      (transactions_of service "ann")
      90000
calculate_metrics_counts_example =
    calculate_metrics_counts whole limits service "ann" 90000 service-IsValid

service-IsDistinct : IsDistinct service.user_transactions
unfolding ojuri.Prelude.Assoc.get
service-IsDistinct = (refl, (refl, tt))

cleanup_old_transactions-recent_example :
    (transactions_of (cleanup_old_transactions limits 90000 service) "eve"
      ≡ recent limits 90000 service service-IsDistinct "eve")
    ⊎ IsEvicted limits 90000 service service-IsDistinct
        (cleanup_old_transactions limits 90000 service)
        "eve"
cleanup_old_transactions-recent_example =
    cleanup_old_transactions-recent limits 90000 service service-IsDistinct "eve"
