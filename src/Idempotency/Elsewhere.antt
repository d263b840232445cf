-- ===== src/Idempotency/Elsewhere.antt =====
-- What storing a response leaves alone: every key that is not a response's.
use Prim.Native.String.{◌++◌ as ◌+++◌, len, slice}
use text.Mathlib.TextLemmas.{append_assoc}
use text.Mathlib.TextPositions.{slice-append_left}
use mathlib.Core.Bool.{true≢false}
use ojuri.Prelude.{
  ℕ, String, ◌≡◌, ◌≢◌, refl, sym, ap, ◌∙◌, Bool, true, false, List, [], ◌∷◌, map, length, take,
  str_eq, eq_iff, Bool-cases, inl, inr, ◌-◌, ◌==◌,
}
use ojuri.Redis.{Redis, IsRedis, HasSortedSets, Delivery, answered, reply_lost, unreachable}
use ojuri.Idempotency.{
  Codec, Settings, IdempotencyInput, store, put_response, enforce_tenant_cap, evict_oldest, del_all,
  scoped_key, resp_key, resp_key_of, lock_key, compose_key, tenant_set_key,
}

false_of : (a b : String) → a ≢ b → str_eq a b ≡ false
false_of a b apart = elim (Bool-cases (str_eq a b)) [
  | inl same ↦ absurd (apart ((eq_iff a b).0 same))
  | inr other ↦ other
]

-- Keys of two kinds are apart.
kinds_apart :
    (p q t u : String) → len p ≡ len q → str_eq p q ≡ false → str_eq (◌+++◌ p t) (◌+++◌ q u) ≡ false
kinds_apart p q t u long other = false_of _ _ (λ same. true≢false (
    sym (
      (eq_iff p q).1 (
        sym (slice-append_left p t)
        ∙ ap (slice (◌+++◌ p t) 0) long
        ∙ ap (λ s. slice s 0 (len q)) same
        ∙ slice-append_left q u))
    ∙ other))

abbrev scope : String → String
scope kind = ◌+++◌ "ojuri:idem:" kind

scopes_apart :
    (j k tenant rest other more : String)
    → len (scope j) ≡ len (scope k)
    → str_eq (scope j) (scope k) ≡ false
    → str_eq (scoped_key j tenant rest) (scoped_key k other more) ≡ false
unfolding scoped_key
scopes_apart j k tenant rest other more long apart =
    let t = ◌+++◌ ":" (◌+++◌ tenant (◌+++◌ ":" rest)) in
    let u = ◌+++◌ ":" (◌+++◌ other (◌+++◌ ":" more)) in
    rw (sym (append_assoc "ojuri:idem:" j t), sym (append_assoc "ojuri:idem:" k u))
      (kinds_apart (scope j) (scope k) t u long apart)

pub resp-lock :
    (tenant composite : String) (input : IdempotencyInput)
    → str_eq (resp_key_of tenant composite) (lock_key input) ≡ false
unfolding resp_key_of lock_key
resp-lock tenant composite input = scopes_apart "resp" "lock" tenant composite _ _ refl refl

pub lock-resp : (input : IdempotencyInput) → str_eq (lock_key input) (resp_key input) ≡ false
unfolding resp_key_of lock_key
lock-resp input = scopes_apart "lock" "resp" _ _ _ _ refl refl

module _ (redis : Redis) (laws : IsRedis redis) (sets : HasSortedSets redis) where
  open redis use {State}

  -- What the store leaves alone: a key that is no response's.
  abbrev pub NoResponse : String → Type 0
  NoResponse k = (tenant composite : String) → str_eq (resp_key_of tenant composite) k ≡ false

  del_all-elsewhere :
      (tenant : String) (names : List String) (k : String) (s : State)
      → NoResponse k
      → redis.entry k (del_all redis (map (resp_key_of tenant) names) s) ≡ redis.entry k s
  del_all-elsewhere tenant [] k s apart = refl
  del_all-elsewhere tenant (n ∷ ns) k s apart =
      del_all-elsewhere tenant ns k _ apart ∙ laws.del_other _ k s (apart tenant n)

  cap-elsewhere :
      (settings : Settings) (now : ℕ) (tenant k : String) (s : State)
      → NoResponse k
      → redis.entry k (enforce_tenant_cap redis settings now tenant s) ≡ redis.entry k s
  unfolding enforce_tenant_cap evict_oldest
  cap-elsewhere settings now tenant k s apart =
      let set = tenant_set_key tenant in
      let swept = redis.zremrangebyscore set (now - 1) s in
      let over = length (redis.members set swept) - settings.max_keys_per_tenant in
      let oldest : ℕ → List String = λ n. map (λ m. m.0) (take n (redis.members set swept)) in
      let cut : ℕ → State = λ n. del_all redis (map (resp_key_of tenant) (oldest n)) swept in
      let same = sets.zremrangebyscore_entry set k (now - 1) s in
      elim (Bool-cases (over == 0)) [
        | inl fits ↦ rw fits same
        | inr more ↦ rw more (
            sets.zrem_entry set k (oldest over) (cut over)
            ∙ del_all-elsewhere tenant (oldest over) k swept apart
            ∙ same)
      ]

  put-elsewhere :
      (now : ℕ) (input : IdempotencyInput) (stored : String) (ttl : ℕ) (k : String) (s : State)
      → NoResponse k
      → redis.entry k (put_response redis now input stored ttl s) ≡ redis.entry k s
  unfolding put_response
  put-elsewhere now input stored ttl k s apart =
      sets.expire_entry now _ k _ _
      ∙ sets.zadd_entry _ _ k _ _
      ∙ laws.set_px_other now _ _ k _ s (apart input.tenant_id (compose_key input))

  pub store-elsewhere :
      {Response : Type 0} (codec : Codec Response) (settings : Settings) (d : Delivery)
      (capping : Bool) (now : ℕ) (input : IdempotencyInput) (hash : String) (r : Response)
      (ttl_ms : ℕ) (k : String) (s : State)
      → NoResponse k
      → redis.entry k (store redis codec settings d capping now input hash r ttl_ms s)
        ≡ redis.entry k s
  unfolding store
  store-elsewhere codec settings unreachable capping now input hash r ttl_ms k s apart = refl
  store-elsewhere codec settings reply_lost capping now input hash r ttl_ms k s apart =
      put-elsewhere now input _ _ k s apart
  store-elsewhere codec settings answered true now input hash r ttl_ms k s apart =
      cap-elsewhere settings now input.tenant_id k _ apart ∙ put-elsewhere now input _ _ k s apart
  store-elsewhere codec settings answered false now input hash r ttl_ms k s apart =
      put-elsewhere now input _ _ k s apart
