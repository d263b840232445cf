-- ===== src/Idempotency/Replay.antt =====
-- What is stored answers the requests that repeat it.
use Prim.Native.String.{◌++◌ as ◌+++◌, len, slice}
use text.Mathlib.TextLemmas.{append-nil, append-eq-nil_iff}
use text.Mathlib.TextPositions.{starts_with-append, slice-append_middle, len-append}
use ojuri.Prelude.{
  ℕ, ◌+◌, ◌-◌, ◌*◌, ◌≤◌, ◌<◌, String, ◌≡◌, ◌≢◌, refl, sym, ap, ◌∙◌, subst, Bool, true, false, some,
  length, arith, ltb, lt→ltb, str_eq, eq_iff, Bool-cases, inl, inr, length-filter, ◌==◌,
  if◌then◌else◌,
}
use mathlib.Core.Bool.{true≢false}
use ojuri.Idempotency.Apart.{IsPlain, IsSame, resp_key-IsSame}
use ojuri.Redis.{Redis, IsRedis, HasSortedSets, Delivery, answered, reply_lost, unreachable}
use ojuri.Idempotency.{
  Codec, IsCodec, Settings, StoredEntry, IdempotencyInput, replay, conflict, encode_entry,
  decode_entry, outcome_of_raw, compress_prefix, lookup, store, put_response, enforce_tenant_cap,
  resp_key, tenant_set_key, compose_key, ttl_seconds,
}

module _ {Response : Type 0} (codec : Codec Response) (good : IsCodec codec) where
  tail_of_prefix :
      (t : String) → slice (◌+++◌ compress_prefix t) 3 (len (◌+++◌ compress_prefix t)) ≡ t
  tail_of_prefix t = rw (len-append compress_prefix t) (
      subst (λ u. slice (◌+++◌ compress_prefix u) 3 (3 + len t) ≡ t) (append-nil t)
        (slice-append_middle compress_prefix t ""))

  -- An encoded entry decodes to itself, compressed or not.
  pub decode_entry-encode_entry :
      (entry : StoredEntry Response) (compress : Bool)
      → decode_entry codec (encode_entry codec entry compress) ≡ some entry
  unfolding decode_entry encode_entry
  decode_entry-encode_entry entry true =
      rw
        (
          starts_with-append compress_prefix (codec.gzip (codec.stringify entry)),
          tail_of_prefix (codec.gzip (codec.stringify entry)),
          good.gunzip-gzip (codec.stringify entry),
        )
        (good.parse-stringify entry)
  decode_entry-encode_entry entry false = rw (good.plain entry) (good.parse-stringify entry)

  ne_of_false : (a b : String) → a ≢ b → str_eq a b ≡ false
  ne_of_false a b apart = elim (Bool-cases (str_eq a b)) [
    | inl same ↦ absurd (apart ((eq_iff a b).0 same))
    | inr other ↦ other
  ]

  encode_entry-nonempty :
      (entry : StoredEntry Response) (compress : Bool)
      → str_eq (encode_entry codec entry compress) "" ≡ false
  unfolding encode_entry
  encode_entry-nonempty entry true =
      ne_of_false _ ""
        (λ e. true≢false (sym ((eq_iff compress_prefix "").1 ((append-eq-nil_iff).0 e).0)))
  encode_entry-nonempty entry false = good.nonempty entry

  -- A live entry answers by its hash.
  outcome-encode_entry :
      (entry : StoredEntry Response) (compress : Bool) (hash : String)
      → outcome_of_raw codec hash (some (encode_entry codec entry compress))
        ≡ (if str_eq entry.request_hash hash then replay entry.response else conflict)
  outcome-encode_entry entry compress hash =
      rw (encode_entry-nonempty entry compress, decode_entry-encode_entry entry compress) refl

  module _ (redis : Redis) (laws : IsRedis redis) (sets : HasSortedSets redis)
      (settings : Settings) where
    open redis use {State}

    -- The tenant has fewer tracked keys than the cap.
    abbrev pub HasRoom : String → State → Type 0
    HasRoom tenant s =
        length (redis.members (tenant_set_key tenant) s) < settings.max_keys_per_tenant

    put-entry :
        (now : ℕ) (input : IdempotencyInput) (stored : String) (ttl : ℕ) (s : State) (k : String)
        → redis.entry k (put_response redis now input stored ttl s)
          ≡ redis.entry k (redis.set_px now (resp_key input) stored (ttl * 1000) s)
    unfolding put_response
    put-entry now input stored ttl s k = sets.expire_entry now _ k _ _ ∙ sets.zadd_entry _ _ k _ _

    put-size :
        (now : ℕ) (input : IdempotencyInput) (stored : String) (ttl : ℕ) (s : State)
        → length (
            redis.members
              (tenant_set_key input.tenant_id)
              (put_response redis now input stored ttl s))
          ≤ length (redis.members (tenant_set_key input.tenant_id) s) + 1
    unfolding put_response
    put-size now input stored ttl s =
        let set = tenant_set_key input.tenant_id in
        let put = redis.set_px now (resp_key input) stored (ttl * 1000) s in
        rw
          (sets.expire_members now set set ((ttl + 60) * 1000)
            (redis.zadd set (now + ttl * 1000) (compose_key input) put))
          (omega (
            arith,
            sets.zadd_size set (compose_key input) (now + ttl * 1000) put,
            ap length (sets.set_px_members now (resp_key input) stored set (ttl * 1000) s),
          ))

    -- With room, the cap removes no response.
    cap-entry :
        (now : ℕ) (tenant : String) (s : State) (k : String)
        → length (redis.members (tenant_set_key tenant) s) ≤ settings.max_keys_per_tenant
        → redis.entry k (enforce_tenant_cap redis settings now tenant s) ≡ redis.entry k s
    unfolding enforce_tenant_cap
    cap-entry now tenant s k room =
        let set = tenant_set_key tenant in
        let swept = redis.zremrangebyscore set (now - 1) s in
        let few : length (redis.members set swept) ≤ length (redis.members set s) =
          rw (sets.zremrangebyscore_members set (now - 1) s)
            (length-filter (λ m. ltb (now - 1) m.1) (redis.members set s)) in
        let none_over : ((length (redis.members set swept) - settings.max_keys_per_tenant) == 0)
            ≡ true =
          ground (arith, few, room) in
        rw none_over (sets.zremrangebyscore_entry set k (now - 1) s)

    -- With room, a transaction that reached Redis leaves the response under its key, and every
    -- other key as it was.
    store-entry :
        (capping : Bool) (d : Delivery) (now : ℕ) (input : IdempotencyInput) (hash : String)
        (response : Response) (ttl_ms : ℕ) (s : State) (k : String)
        → d ≢ unreachable
        → HasRoom input.tenant_id s
        → redis.entry k (store redis codec settings d capping now input hash response ttl_ms s)
          ≡ redis.entry k (
              redis.set_px now
                (resp_key input)
                (encode_entry codec
                  (record { request_hash = hash; response = response })
                  settings.compress)
                (ttl_seconds redis ttl_ms * 1000)
                s)
    unfolding store
    store-entry capping unreachable now input hash response ttl_ms s k reached room =
        absurd (reached refl)
    store-entry capping reply_lost now input hash response ttl_ms s k reached room =
        put-entry now input _ _ s k
    store-entry true answered now input hash response ttl_ms s k reached room =
        let stored =
          encode_entry codec (record { request_hash = hash; response = response })
            settings.compress in
        let ttl = ttl_seconds redis ttl_ms in
        cap-entry now input.tenant_id (put_response redis now input stored ttl s) k
          (omega (arith, put-size now input stored ttl s, room))
        ∙ put-entry now input stored ttl s k
    store-entry false answered now input hash response ttl_ms s k reached room =
        put-entry now input _ _ s k

    -- Only the entry under the response's key answers.
    pub lookup-entry :
        (now : ℕ) (input : IdempotencyInput) (hash : String) (s t : State)
        → redis.entry (resp_key input) s ≡ redis.entry (resp_key input) t
        → lookup codec redis now input hash s ≡ lookup codec redis now input hash t
    unfolding lookup
    lookup-entry now input hash s t same = rw same refl

    -- A response that was stored while its tenant had room answers each request under the same key,
    -- on any later store that has the entry of this key as the storing left it, until the entry
    -- expires: a request of the same hash by itself, any other as a conflict.
    pub lookup-store :
        (capping : Bool) (d : Delivery) (now later : ℕ) (input : IdempotencyInput)
        (hash again : String) (response : Response) (ttl_ms : ℕ) (s after : State)
        → d ≢ unreachable
        → HasRoom input.tenant_id s
        → later < now + ttl_seconds redis ttl_ms * 1000
        → redis.entry (resp_key input) after
          ≡ redis.entry
              (resp_key input)
              (store redis codec settings d capping now input hash response ttl_ms s)
        → lookup codec redis later input again after
          ≡ (if str_eq hash again then replay response else conflict)
    unfolding lookup
    lookup-store capping d now later input hash again response ttl_ms s after reached room alive
          untouched =
        let entry : StoredEntry Response = record { request_hash = hash; response = response } in
        let stored = encode_entry codec entry settings.compress in
        let ttl = ttl_seconds redis ttl_ms * 1000 in
        let kept : ltb later (now + ttl) ≡ true = lt→ltb later (now + ttl) alive in
        rw
          (
            untouched,
            store-entry capping d now input hash response ttl_ms s (resp_key input) reached room,
            laws.set_px_same now (resp_key input) stored ttl s,
            kept,
          )
          (outcome-encode_entry entry settings.compress again)

    -- What is stored for a request, while its tenant has room, changes no answer to a request of
    -- another tenant, another API key or another idempotency key, where the tenants have no colon
    -- and the ids of the API keys no bar in them; a request without an API key counts as one of the
    -- key "anon".
    pub lookup-store_other :
        (capping : Bool) (d : Delivery) (now later : ℕ) (input other : IdempotencyInput)
        (hash asked : String) (response : Response) (ttl_ms : ℕ) (s : State)
        → d ≢ unreachable
        → HasRoom input.tenant_id s
        → IsPlain input
        → IsPlain other
        → ¬ IsSame input other
        → lookup codec redis later other asked
            (store redis codec settings d capping now input hash response ttl_ms s)
          ≡ lookup codec redis later other asked s
    unfolding lookup
    lookup-store_other capping d now later input other hash asked response ttl_ms s reached room
          plain also differ =
        let apart =
          ne_of_false (resp_key input) (resp_key other)
            (λ e. differ (resp_key-IsSame input other plain also e)) in
        rw
          (
            store-entry capping d now input hash response ttl_ms s (resp_key other) reached room,
            laws.set_px_other now (resp_key input) _ (resp_key other) _ s apart,
          )
          refl
