-- ===== src/Idempotency/Capped.antt =====
-- The cap on a tenant's keys binds.
use ojuri.Prelude.{
  ℕ, zero, suc, ◌+◌, ◌-◌, ◌≤◌, String, ◌≡◌, refl, sym, ap, ◌∙◌, Bool, true, false, not, ◌||◌,
  Option, none, some, List, [], ◌∷◌, length, take, map, filter, arith, str_eq, str_eq_refl, eq_iff,
  Bool-cases, inl, inr, min, ltb, length-filter, ◌==◌, if◌then◌else◌,
}
use ojuri.Prelude.Assoc
use ojuri.Prelude.Assoc.{Assoc, IsDistinct}
use ojuri.Redis.{Redis, HasSortedSets, is_member}
use ojuri.Idempotency.{
  Settings, enforce_tenant_cap, evict_oldest, tenant_set_key, del_all, resp_key_of,
}

abbrev names : Assoc ℕ → List String
names = map (λ m. m.0)

abbrev kept : List String → Assoc ℕ → Assoc ℕ
kept gone ms = filter (λ m. not (is_member gone m.0)) ms

-- A name that is not among the members may be named as gone.
kept_of_absent :
    (name : String) (gone : List String) (ms : Assoc ℕ)
    → Assoc.get ms name ≡ none
    → kept (name ∷ gone) ms ≡ kept gone ms
unfolding ojuri.Prelude.Assoc.get
kept_of_absent name gone [] h = refl
kept_of_absent name gone (m ∷ ms) h =
    ground (arith, kept_of_absent name gone ms, eq_iff name m.0, eq_iff m.0 name)

kept_size :
    (n : ℕ) (ms : Assoc ℕ) → IsDistinct ms → length (kept (names (take n ms)) ms) ≤ length ms - n
kept_size zero ms d = omega (arith, length-filter (λ m. not (is_member [] m.0)) ms)
kept_size (suc n) [] d = omega arith
kept_size (suc n) (m ∷ ms) (absent, d) =
    rw (str_eq_refl m.0, kept_of_absent m.0 (names (take n ms)) ms absent)
      (omega (arith, kept_size n ms d))

module _ (redis : Redis) (sets : HasSortedSets redis) where
  open redis use {State}

  members-del_all :
      (ks : List String) (set : String) (s : State)
      → redis.members set (del_all redis ks s) ≡ redis.members set s
  members-del_all [] set s = refl
  members-del_all (k ∷ ks) set s = members-del_all ks set (redis.del k s) ∙ sets.del_members k set s

  evict-length :
      (overage : ℕ) (tenant : String) (s : State)
      → length (redis.members (tenant_set_key tenant) (evict_oldest redis overage tenant s))
        ≤ length (redis.members (tenant_set_key tenant) s) - overage
  unfolding evict_oldest
  evict-length overage tenant s =
      let set = tenant_set_key tenant in
      let oldest = names (take overage (redis.members set s)) in
      rw
        (
          sets.zrem_members set oldest (del_all redis (map (resp_key_of tenant) oldest) s),
          members-del_all (map (resp_key_of tenant) oldest) set s,
        )
        (kept_size overage (redis.members set s) (sets.distinct set s))

  -- Once the cap is enforced, no more keys of the tenant are tracked than it allows.
  pub enforce_tenant_cap-length :
      (settings : Settings) (now : ℕ) (tenant : String) (s : State)
      → length
          (redis.members (tenant_set_key tenant) (enforce_tenant_cap redis settings now tenant s))
        ≤ settings.max_keys_per_tenant
  unfolding enforce_tenant_cap
  enforce_tenant_cap-length settings now tenant s =
      let set = tenant_set_key tenant in
      let swept = redis.zremrangebyscore set (now - 1) s in
      let size = length (redis.members set swept) in
      elim (Bool-cases ((size - settings.max_keys_per_tenant) == 0)) [
        | inl fits ↦ rw fits (ground arith)
        | inr over ↦
            rw over (omega (arith, evict-length (size - settings.max_keys_per_tenant) tenant swept))
      ]
