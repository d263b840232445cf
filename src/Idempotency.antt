-- ===== src/Idempotency.antt =====
-- src/shared/idempotency/idempotency.service.ts: the cache of responses by idempotency key, the lock
-- around a prediction and the reservation of a transaction id. Redis is a parameter, and so is the
-- Codec, JSON and gzip. Times are milliseconds.
pub mod Canonical
pub mod Apart
pub mod Replay
pub mod Capped
pub mod Locked
pub mod Elsewhere
pub mod Sample
mod Tests
use Prim.Native.String.{◌++◌ as ◌+++◌, len, slice}
use text.Mathlib.Text.{starts_with}
use ojuri.Prelude.{
  ℕ, ◌+◌, ◌-◌, ◌*◌, ◌/◌, String, ◌≡◌, Bool, true, false, Option, none, some, List, [], ◌∷◌, length,
  take, map, max, get_or_else, str_eq, ◌==◌, if◌then◌else◌,
}
use ojuri.Redis.{Redis, live, is_value, Delivery, answered, reply_lost, unreachable}

pub data IdempotencyOutcome (Response : Type 0) : Type 0 where
  miss conflict in_flight : IdempotencyOutcome Response
  replay : Response → IdempotencyOutcome Response

pub record IdempotencyInput : Type 0 where
  pub tenant_id : String
  pub api_key_id : Option String
  pub key : String

pub record StoredEntry (Response : Type 0) : Type 0 where
  pub request_hash : String
  pub response : Response

-- `IDEMPOTENCY_COMPRESS` and `IDEMPOTENCY_MAX_KEYS_PER_TENANT`
pub record Settings : Type 0 where
  pub compress : Bool
  pub max_keys_per_tenant : ℕ

-- `JSON.stringify` and `JSON.parse` of an entry, `gzipSync(…).toString("base64")` and its inverse;
-- `none` is a throw.
pub record Codec (Response : Type 0) : Type 0 where
  pub stringify : StoredEntry Response → String
  pub parse : String → Option (StoredEntry Response)
  pub gzip : String → String
  pub gunzip : String → Option String

abbrev pub lock_ttl_seconds : ℕ
lock_ttl_seconds = 15

abbrev pub compress_prefix : String
compress_prefix = "gz:"

-- What the two libraries document.
pub record IsCodec {Response : Type 0} (codec : Codec Response) : Type 0 where
  pub parse-stringify : (e : StoredEntry Response) → codec.parse (codec.stringify e) ≡ some e
  pub gunzip-gzip : (s : String) → codec.gunzip (codec.gzip s) ≡ some s
  -- The text of an object opens with a brace.
  pub nonempty : (e : StoredEntry Response) → str_eq (codec.stringify e) "" ≡ false
  pub plain : (e : StoredEntry Response) → starts_with (codec.stringify e) compress_prefix ≡ false

unfoldable pub compose_key : IdempotencyInput → String
compose_key input = ◌+++◌ (get_or_else input.api_key_id "anon") (◌+++◌ "|" input.key)

unfoldable pub scoped_key : String → String → String → String
scoped_key kind tenant rest =
    ◌+++◌ "ojuri:idem:" (◌+++◌ kind (◌+++◌ ":" (◌+++◌ tenant (◌+++◌ ":" rest))))

unfoldable pub resp_key_of : String → String → String
unfolding scoped_key
resp_key_of tenant composite = scoped_key "resp" tenant composite

abbrev pub resp_key : IdempotencyInput → String
resp_key input = resp_key_of input.tenant_id (compose_key input)

unfoldable pub lock_key : IdempotencyInput → String
unfolding scoped_key compose_key
lock_key input = scoped_key "lock" input.tenant_id (compose_key input)

unfoldable pub tenant_set_key : String → String
tenant_set_key tenant = ◌+++◌ "ojuri:idem:tenant:" tenant

unfoldable pub txn_key : String → String → String
unfolding scoped_key
txn_key tenant transaction = scoped_key "txn" tenant transaction

module _ {Response : Type 0} (codec : Codec Response) where
  unfoldable pub encode_entry : StoredEntry Response → Bool → String
  encode_entry entry compress =
      if compress
      then ◌+++◌ compress_prefix (codec.gzip (codec.stringify entry))
      else codec.stringify entry

  abbrev pub parse_unzipped : Option String → Option (StoredEntry Response)
  parse_unzipped none = none
  parse_unzipped (some json) = codec.parse json

  unfoldable pub decode_entry : String → Option (StoredEntry Response)
  decode_entry raw =
      if starts_with raw compress_prefix
      then parse_unzipped (codec.gunzip (slice raw 3 (len raw)))
      else codec.parse raw

  -- What a decoded entry answers to a request of this hash.
  abbrev pub outcome_of : String → Option (StoredEntry Response) → IdempotencyOutcome Response
  outcome_of hash none = miss
  outcome_of hash (some entry) =
      if str_eq entry.request_hash hash then replay entry.response else conflict

  -- An absent and an empty value are falsy.
  abbrev pub outcome_of_raw : String → Option String → IdempotencyOutcome Response
  outcome_of_raw hash none = miss
  outcome_of_raw hash (some raw) =
      if str_eq raw "" then miss else outcome_of hash (decode_entry raw)

  module _ (redis : Redis) where
    open redis use {State}

    unfoldable pub lookup : ℕ → IdempotencyInput → String → State → IdempotencyOutcome Response
    lookup now input hash s = outcome_of_raw hash (live now (redis.entry (resp_key input) s))

    -- The polls of `waitForReplay` that come before its deadline, each with the store it finds.
    unfoldable pub wait_for_replay :
        IdempotencyInput → String → List (ℕ × State) → IdempotencyOutcome Response
    unfolding lookup
    wait_for_replay input hash [] = in_flight
    wait_for_replay input hash ((now, s) ∷ polls) = elim (lookup now input hash s) [
      | replay r ↦ replay r
      | conflict ↦ conflict
      | _ ↦ wait_for_replay input hash polls
    ]

module _ (redis : Redis) where
  open redis use {State}

  abbrev pub del_all : List String → State → State
  del_all [] s = s
  del_all (k ∷ ks) s = del_all ks (redis.del k s)

  -- Over the store without the expired members: the oldest go, with their responses.
  unfoldable pub evict_oldest : ℕ → String → State → State
  evict_oldest overage tenant s =
      let oldest = map (λ m. m.0) (take overage (redis.members (tenant_set_key tenant) s)) in
      redis.zrem (tenant_set_key tenant) oldest (del_all (map (resp_key_of tenant) oldest) s)

  unfoldable pub enforce_tenant_cap : Settings → ℕ → String → State → State
  unfolding evict_oldest
  enforce_tenant_cap settings now tenant s =
      let swept = redis.zremrangebyscore (tenant_set_key tenant) (now - 1) s in
      let overage =
        length (redis.members (tenant_set_key tenant) swept) - settings.max_keys_per_tenant in
      if overage == 0 then swept else evict_oldest overage tenant swept

  abbrev pub ttl_seconds : ℕ → ℕ
  ttl_seconds ttl_ms = max 1 (ttl_ms / 1000)

  -- The transaction of `store`.
  unfoldable pub put_response : ℕ → IdempotencyInput → String → ℕ → State → State
  put_response now input stored ttl s =
      redis.expire now (tenant_set_key input.tenant_id) ((ttl + 60) * 1000) (
        redis.zadd (tenant_set_key input.tenant_id) (now + ttl * 1000) (compose_key input)
          (redis.set_px now (resp_key input) stored (ttl * 1000) s))

  -- The cap is enforced whole, or Redis is out of reach for it.
  unfoldable pub store :
      {Response : Type 0}
      → Codec Response
      → Settings
      → Delivery
      → Bool
      → ℕ
      → IdempotencyInput
      → String
      → Response
      → ℕ
      → State
      → State
  unfolding encode_entry put_response enforce_tenant_cap
  store codec settings unreachable capping now input hash response ttl_ms s = s
  store codec settings reply_lost capping now input hash response ttl_ms s =
      put_response now input
        (encode_entry codec (record { request_hash = hash; response = response }) settings.compress)
        (ttl_seconds ttl_ms) s
  store codec settings answered capping now input hash response ttl_ms s =
      let put =
        put_response now input
          (encode_entry codec (record { request_hash = hash; response = response })
            settings.compress)
          (ttl_seconds ttl_ms) s in
      if capping then enforce_tenant_cap settings now input.tenant_id put else put

  unfoldable pub acquire_lock : ℕ → String → IdempotencyInput → State → State × Bool
  acquire_lock now value input s =
      redis.set_nx now (lock_key input) value (lock_ttl_seconds * 1000) s

  -- The script of `release`.
  unfoldable pub release_lock : ℕ → String → IdempotencyInput → State → State
  release_lock now value input s =
      if is_value (live now (redis.entry (lock_key input) s)) value
      then redis.del (lock_key input) s
      else s

  abbrev pub reservation_ttl : ℕ → ℕ
  reservation_ttl ttl_ms = max 60 (ttl_ms / 1000) * 1000

  unfoldable pub reserve_transaction_id : ℕ → ℕ → String → String → State → State × Bool
  reserve_transaction_id ttl_ms now tenant transaction s =
      redis.set_nx now (txn_key tenant transaction) "1" (reservation_ttl ttl_ms) s

  unfoldable pub release_transaction_id : String → String → State → State
  release_transaction_id tenant transaction s = redis.del (txn_key tenant transaction) s
