-- ===== src/Predict/RetryTests.antt =====
-- Retries of one transfer over the tables.
use ojuri.Prelude.{
  ℕ, ◌*◌, ◌≡◌, refl, Bool, true, false, Option, none, some, [], arith, str_eq, if◌then◌else◌,
}
use ojuri.Redis.{answered, live, is_value}
use ojuri.Redis.Store.{tables, tables-IsRedis, tables-HasSortedSets, Tables}
use ojuri.Rules.Value.{str, obj, end, member}
use ojuri.Idempotency.{
  Settings, resp_key, resp_key_of, lock_ttl_seconds, lock_key, lookup, acquire_lock,
}
use ojuri.Idempotency.Replay.{HasRoom}
use ojuri.Idempotency.Sample.{boolean_codec, boolean_codec-IsCodec, by_code}
use ojuri.Predict.Types.{PredictInvocation}
use ojuri.Predict.Execute.{
  PredictOutcome, replayed, conflicting, duplicate, predicted, threw, Texts, Moments, Work,
  run_and_wrap, input_of, hash_of, release_reservation, execute_with_idempotency_key,
  execute_without_idempotency_key,
}
use ojuri.Predict.Retried.{
  locked_store, reserved, execute_with_idempotency_key-retry, execute_with_idempotency_key-release,
  execute_without_idempotency_key-retry_failed, execute_without_idempotency_key-duplicate,
}

abbrev no_keys : Tables
no_keys = record { strings = λ k. none; sets = λ k. ([], tt) }

abbrev settings : Settings
settings = record { compress = true; max_keys_per_tenant = 2 }

abbrev texts : Texts ℕ Bool
texts = record {
  order = by_code;
  stringify = λ v. "{}";
  sha256 = λ t. t;
  value_of = λ r. obj (member "transaction_id" (str r.transaction_id) end);
  codec = boolean_codec;
}

abbrev transfer : PredictInvocation ℕ
transfer = record {
  request = record {
    transaction_id = "t1";
    sender_id = "ann";
    receiver_id = "bob";
    amount = 250;
    transaction_type = "transfer";
    timestamp = 1000;
    segment = none;
    ip_country = none;
    transaction_country = none;
    destination_country = none;
    ip_is_vpn = none;
    device_is_trusted = none;
    is_authenticated = none;
    session_to_txn_seconds = none;
    account_age_days = none;
    channel = none;
    currency = none;
  };
  trace_id = "r1";
  tenant_id = some "acme";
  api_key_id = none;
  idempotency_key = some "k1";
}

abbrev at_first : Moments Tables
at_first = record {
  looked_up = 1000;
  claimed = 1001;
  value = "v1";
  polls = [];
  stored = 1020;
  delivery = answered;
  capping = true;
  released = 1021;
  release_reached = true;
}

abbrev at_retry : Moments Tables
at_retry = record {
  looked_up = 5000;
  claimed = 5001;
  value = "v2";
  polls = [];
  stored = 5020;
  delivery = answered;
  capping = true;
  released = 5021;
  release_reached = true;
}

abbrev accepting : Work Tables Bool
accepting = λ s. (s, predicted true)

abbrev failing : Work Tables Bool
failing = λ s. (s, threw)

abbrev first_store : Tables
first_store =
    locked_store tables tables-IsRedis tables-HasSortedSets texts boolean_codec-IsCodec settings
      60000 at_first (input_of transfer "k1") no_keys

missed :
    lookup boolean_codec tables 1000 (input_of transfer "k1") (hash_of texts transfer) no_keys
    ≡ ojuri.Idempotency.miss
unfolding lookup
missed = refl

got : (acquire_lock tables 1001 "v1" (input_of transfer "k1") no_keys).1 ≡ true
unfolding acquire_lock
got = refl

has_room :
    HasRoom boolean_codec boolean_codec-IsCodec tables tables-IsRedis tables-HasSortedSets settings
      "acme" first_store
unfolding acquire_lock
has_room = omega arith

abbrev answered_once : Tables
answered_once =
    (execute_with_idempotency_key tables texts settings 60000 at_first transfer "k1" accepting
      no_keys).0

-- Another request asks for the lock of its key in the meantime.
abbrev other_locked : Tables
other_locked = (acquire_lock tables 3000 "v9" (input_of transfer "k2") answered_once).0

other_lock : str_eq (lock_key (input_of transfer "k2")) (resp_key (input_of transfer "k1")) ≡ false
unfolding lock_key resp_key_of ojuri.Idempotency.scoped_key ojuri.Idempotency.compose_key
other_lock = refl

other_untouched :
    tables.entry (resp_key (input_of transfer "k1")) other_locked
    ≡ tables.entry (resp_key (input_of transfer "k1")) answered_once
unfolding acquire_lock
other_untouched =
    tables-IsRedis.set_nx_other 3000 (lock_key (input_of transfer "k2")) "v9"
      (resp_key (input_of transfer "k1")) (lock_ttl_seconds * 1000) answered_once other_lock

execute_with_idempotency_key-retry_example :
    execute_with_idempotency_key tables texts settings 60000 at_retry transfer "k1" failing
      other_locked
    ≡ (
      other_locked,
      if str_eq (hash_of texts transfer) (hash_of texts transfer)
          then some (replayed true)
          else some conflicting,
    )
execute_with_idempotency_key-retry_example =
    execute_with_idempotency_key-retry tables tables-IsRedis tables-HasSortedSets texts
      boolean_codec-IsCodec settings 60000 at_first at_retry transfer transfer "k1" accepting
      failing no_keys first_store other_locked true missed got refl (λ e. cc) has_room refl
      (omega arith) other_untouched

execute_with_idempotency_key-release_example :
    tables.entry
      (lock_key (input_of transfer "k1"))
      (execute_with_idempotency_key tables texts settings 60000 at_first transfer "k1" failing
        no_keys).0
    ≡ (if is_value (live 1021 (tables.entry (lock_key (input_of transfer "k1")) first_store)) "v1"
        then none
        else tables.entry (lock_key (input_of transfer "k1")) first_store)
execute_with_idempotency_key-release_example =
    execute_with_idempotency_key-release tables tables-IsRedis tables-HasSortedSets texts
      boolean_codec-IsCodec settings 60000 at_first transfer "k1" failing no_keys missed got refl

abbrev claimed_store : Tables
claimed_store =
    (reserved tables tables-IsRedis tables-HasSortedSets texts boolean_codec-IsCodec settings 60000
      at_first transfer no_keys).0

reserved_first :
    (reserved tables tables-IsRedis tables-HasSortedSets texts boolean_codec-IsCodec settings 60000
      at_first transfer no_keys).1
    ≡ true
unfolding ojuri.Idempotency.reserve_transaction_id
reserved_first = refl

abbrev unkeyed : Moments Tables → Work Tables Bool → Tables → Tables × Option (PredictOutcome Bool)
unkeyed at = execute_without_idempotency_key tables texts settings 60000 at transfer

execute_without_idempotency_key-retry_failed_example :
    unkeyed at_retry accepting (unkeyed at_first failing no_keys).0
    ≡ run_and_wrap (release_reservation tables texts settings 60000 at_retry transfer) (
        accepting
          (reserved tables tables-IsRedis tables-HasSortedSets texts boolean_codec-IsCodec settings
            60000 at_retry transfer
            (unkeyed at_first failing no_keys).0).0)
execute_without_idempotency_key-retry_failed_example =
    execute_without_idempotency_key-retry_failed tables tables-IsRedis tables-HasSortedSets texts
      boolean_codec-IsCodec settings 60000 at_first at_retry transfer failing accepting no_keys
      claimed_store reserved_first refl refl

execute_without_idempotency_key-duplicate_example :
    (unkeyed at_retry accepting (unkeyed at_first accepting no_keys).0).1 ≡ some (duplicate "t1")
execute_without_idempotency_key-duplicate_example =
    execute_without_idempotency_key-duplicate tables tables-IsRedis tables-HasSortedSets texts
      boolean_codec-IsCodec settings 60000 at_first at_retry transfer accepting accepting no_keys
      claimed_store (predicted true) refl refl (λ e. cc) refl (omega arith)
