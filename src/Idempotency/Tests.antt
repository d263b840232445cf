-- ===== src/Idempotency/Tests.antt =====
-- The cache over the tables, with the sample codec.
use ojuri.Prelude.{
  ℕ, ◌≤◌, String, ◌≡◌, refl, sym, eq_iff, true, false, none, some, [], length, arith, str_eq,
  if◌then◌else◌,
}
use mathlib.Core.Bool.{true≢false}
use ojuri.Idempotency.Apart.{IsPlain, IsSame}
use ojuri.Redis.{answered}
use ojuri.Redis.Store.{tables, tables-IsRedis, tables-HasSortedSets, Tables}
use ojuri.Rules.Value.{Value, str, obj, end, member}
use ojuri.Idempotency.{
  Settings, IdempotencyInput, IdempotencyOutcome, encode_entry, decode_entry, lookup, store,
  acquire_lock, enforce_tenant_cap, resp_key, resp_key_of, compose_key, tenant_set_key,
}
use ojuri.Idempotency.Replay.{decode_entry-encode_entry, lookup-store, lookup-store_other, HasRoom}
use ojuri.Idempotency.Capped.{enforce_tenant_cap-length}
use ojuri.Idempotency.Canonical.{
  hash_request, Reordered, in_object, swapped, hash_request-Reordered,
}
use ojuri.Idempotency.Locked.{Requests, Run, start, next, asked, Holds, note, Run-exclusive_lock}
use ojuri.Idempotency.Sample.{boolean_codec, boolean_codec-IsCodec, by_code}

abbrev empty_tables : Tables
empty_tables = record { strings = λ k. none; sets = λ k. ([], tt) }

abbrev settings : Settings
settings = record { compress = true; max_keys_per_tenant = 2 }

abbrev first_key : IdempotencyInput
first_key = record { tenant_id = "acme"; api_key_id = none; key = "k1" }

abbrev second_key : IdempotencyInput
second_key = record { tenant_id = "acme"; api_key_id = none; key = "k2" }

abbrev stored_once : Tables
stored_once =
    store tables boolean_codec settings answered true 1000 first_key "h1" true 60000 empty_tables

decode_entry-encode_entry_example :
    decode_entry boolean_codec
      (encode_entry boolean_codec (record { request_hash = "h1"; response = true }) true)
    ≡ some (record { request_hash = "h1"; response = true })
decode_entry-encode_entry_example =
    decode_entry-encode_entry boolean_codec boolean_codec-IsCodec
      (record { request_hash = "h1"; response = true }) true

has_room :
    HasRoom boolean_codec boolean_codec-IsCodec tables tables-IsRedis tables-HasSortedSets settings
      "acme" empty_tables
has_room = omega arith

-- The response of a second key is stored in the meantime.
abbrev stored_twice : Tables
stored_twice =
    store tables boolean_codec settings answered true 1500 second_key "h2" false 60000 stored_once

first_untouched :
    tables.entry (resp_key first_key) stored_twice ≡ tables.entry (resp_key first_key) stored_once
unfolding store tenant_set_key ojuri.Prelude.Assoc.set resp_key_of compose_key
first_untouched = refl

lookup-store_example :
    lookup boolean_codec tables 2000 first_key "h1" stored_twice
    ≡ (if str_eq "h1" "h1" then IdempotencyOutcome.replay true else IdempotencyOutcome.conflict)
lookup-store_example =
    lookup-store boolean_codec boolean_codec-IsCodec tables tables-IsRedis tables-HasSortedSets
      settings true answered 1000 2000 first_key "h1" "h1" true 60000 empty_tables stored_twice
      (λ e. cc) has_room (omega arith) first_untouched

first_key-IsPlain : IsPlain first_key
first_key-IsPlain = ((refl, (refl, (refl, (refl, tt)))), (refl, (refl, (refl, (refl, tt)))))

second_key-IsPlain : IsPlain second_key
second_key-IsPlain = ((refl, (refl, (refl, (refl, tt)))), (refl, (refl, (refl, (refl, tt)))))

-- A second key of the same tenant, and no API key.
differing : ¬ IsSame first_key second_key
differing (tenant, api, key) = true≢false (sym ((eq_iff "k1" "k2").1 key))

lookup-store_other_example :
    lookup boolean_codec tables 2000 second_key "h1" stored_once
    ≡ lookup boolean_codec tables 2000 second_key "h1" empty_tables
lookup-store_other_example =
    lookup-store_other boolean_codec boolean_codec-IsCodec tables tables-IsRedis
      tables-HasSortedSets settings true answered 1000 2000 first_key second_key "h1" "h1" true
      60000 empty_tables (λ e. cc) has_room first_key-IsPlain second_key-IsPlain differing

abbrev body : Value ℕ
body = obj (member "amount" (str "10") (member "currency" (str "EUR") end))

abbrev reordered : Value ℕ
reordered = obj (member "currency" (str "EUR") (member "amount" (str "10") end))

body-Reordered : Reordered body reordered
body-Reordered = in_object (swapped "amount" "currency" (str "10") (str "EUR") end (λ e. cc))

hash_request-Reordered_example :
    hash_request by_code (λ v. "text") (λ t. t) body
    ≡ hash_request by_code (λ v. "text") (λ t. t) reordered
hash_request-Reordered_example =
    hash_request-Reordered by_code (λ v. "text") (λ t. t) body reordered body-Reordered

enforce_tenant_cap-length_example :
    length (
      tables.members
        (tenant_set_key "acme")
        (enforce_tenant_cap tables settings 2000 "acme" stored_once))
    ≤ 2
enforce_tenant_cap-length_example =
    enforce_tenant_cap-length tables tables-HasSortedSets settings 2000 "acme" stored_once

abbrev asking : Requests Tables
asking = record { now = 1000; store = empty_tables; since = λ v. none }

abbrev locked : Requests Tables
locked = record {
  now = 1000;
  store = (acquire_lock tables 1000 "v1" first_key empty_tables).0;
  since = note (acquire_lock tables 1000 "v1" first_key empty_tables).1 "v1" 1000 (λ v. none);
}

locked-Run : Run tables first_key locked
locked-Run = next (start 1000 empty_tables) (asked "v1")

locked-Holds : Holds tables first_key locked "v1"
unfolding acquire_lock
locked-Holds = (1000, refl, omega arith)

abbrev winner : String
winner = "v1"

Run-exclusive_lock_example : winner ≡ winner
Run-exclusive_lock_example =
    Run-exclusive_lock tables first_key tables-IsRedis locked-Run winner winner locked-Holds
      locked-Holds
