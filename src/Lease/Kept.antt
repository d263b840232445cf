-- ===== src/Lease/Kept.antt =====
-- Each operation of an instance keeps what backs it, and takes the key from nobody.
use ojuri.Prelude.{
  ℕ, ◌+◌, ◌≤◌, String, ◌≡◌, refl, sym, ap, ◌∙◌, Bool, true, false, Option, none, some, leb, ◌==◌,
  eq_iff, Bool-cases, Option-cases, inl, inr, some-injective, none-some, arith, if◌then◌else◌,
}
use mathlib.Core.Bool.{true≢false}
use ojuri.Redis.{Redis, IsRedis, live, Delivery, answered, reply_lost, unreachable, is_value}
use ojuri.Lease.{
  lease_key, LeaderLease, Waiting, idle, for_set, for_renewal, acquire, renew, release, resume,
  renew_script, release_script, surrender, surrendered, renew_held, release_held, after_set,
  after_failure, after_renewal,
}
use ojuri.Lease.Exclusive.{
  IsClaimed, MayChange, IsBacked, IsTimely, shorter-IsClaimed, fresh-IsClaimed, idle-IsBacked,
}

module _ (redis : Redis) (laws : IsRedis redis) (ttl delay now : ℕ) (s : redis.State)
    (l : LeaderLease) where
  abbrev key : Option (String × ℕ)
  key = redis.entry lease_key s

  abbrev Backed : redis.State → LeaderLease → Waiting → Type 0
  Backed after = IsBacked ttl delay now (redis.entry lease_key after)

  -- What a command of `l` leaves in the store, and what `l` awaits.
  abbrev pub IsSafe : redis.State × Waiting → Type 0
  IsSafe (after, w) = MayChange now l.id key (redis.entry lease_key after) × Backed after l w

  set-MayChange :
      MayChange now l.id key (redis.entry lease_key (redis.set_nx now lease_key l.id ttl s).0)
  set-MayChange = elim (Option-cases (live now key)) [
    | inl free ↦ inr (λ other e. absurd (none-some (sym free ∙ e)))
    | inr (w, taken) ↦ inl (laws.set_nx_taken now lease_key l.id w ttl s taken).0
  ]

  -- An OK is given with a key that is the instance's for a lease.
  set-IsClaimed :
      (redis.set_nx now lease_key l.id ttl s).1 ≡ true
      → IsClaimed now
          (now + ttl)
          (redis.entry lease_key (redis.set_nx now lease_key l.id ttl s).0)
          l.id
  set-IsClaimed ok = elim (Option-cases (live now key)) [
    | inl free ↦
        fresh-IsClaimed now (now + ttl) (now + ttl) _ l.id
          (laws.set_nx_free now lease_key l.id ttl s free).0 (omega arith)
    | inr (w, taken) ↦
        absurd (true≢false (sym ok ∙ (laws.set_nx_taken now lease_key l.id w ttl s taken).1))
  ]

  unheld-Backed :
      (after : redis.State) (sent : ℕ) (reply : Option Bool)
      → l.held ≡ false
      → l.last_renew_ok_at ≤ now
      → (reply ≡ some true → IsClaimed now (sent + ttl) (redis.entry lease_key after) l.id)
      → Backed after l (for_set sent reply)
  unheld-Backed after sent reply free past claim = record {
    owned = λ held. absurd (true≢false (sym held ∙ free));
    past = past;
    promised = (free, claim);
  }

  pub acquire-IsSafe :
      (d : Delivery) → l.held ≡ false → Backed s l idle → IsSafe (acquire redis ttl now d s l)
  unfolding acquire
  acquire-IsSafe answered free b =
      (set-MayChange, unheld-Backed _ now _ free b.past (λ ok. set-IsClaimed (some-injective ok)))
  acquire-IsSafe reply_lost free b =
      (set-MayChange, unheld-Backed _ now none free b.past (λ e. absurd (none-some e)))
  acquire-IsSafe unreachable free b =
      (inl refl, unheld-Backed s now none free b.past (λ e. absurd (none-some e)))

  is_value-live : (o : Option String) → is_value o l.id ≡ true → o ≡ some l.id
  is_value-live none e = absurd (true≢false (sym e))
  is_value-live (some v) e = ap some ((eq_iff v l.id).0 e)

  mine-MayChange :
      (after : Option (String × ℕ)) → live now key ≡ some l.id → MayChange now l.id key after
  mine-MayChange after mine = inr (λ other e. sym (some-injective (sym mine ∙ e)))

  -- The script extends the key where it is the instance's, and changes nothing where it is not.
  renew_script-IsSafe :
      (reply : Option ℕ)
      → (reply ≡ some 1 → (renew_script redis ttl now l.id s).1 ≡ 1)
      → Backed s l idle
      → IsSafe ((renew_script redis ttl now l.id s).0, for_renewal now reply)
  unfolding renew_script
  renew_script-IsSafe reply said b = elim (Bool-cases (is_value (live now key) l.id)) [
    | inl mine ↦
        let here = is_value-live (live now key) mine in
        let (e, one) = laws.pexpire_live now lease_key l.id ttl s here in
        rw mine (
          mine-MayChange _ here,
          record {
            owned = λ held. fresh-IsClaimed now _ (now + ttl) _ l.id e (omega (arith, b.past));
            past = b.past;
            promised = λ held ok. fresh-IsClaimed now _ (now + ttl) _ l.id e (omega arith);
          },
        )
    | inr other ↦ rw other (
      inl refl,
      record {
        owned = b.owned;
        past = b.past;
        promised = λ held ok. absurd (zero-one ((rw other at said ok)));
      },
    )
  ]
    where
      zero-one : ◌≡◌ {A = ℕ} 0 1 → ⊥
      zero-one e = omega (arith, e)

  renew_held-IsSafe : (d : Delivery) → Backed s l idle → IsSafe (renew_held redis ttl now d s l)
  unfolding renew_held
  renew_held-IsSafe answered b = renew_script-IsSafe _ (λ e. some-injective e) b
  renew_held-IsSafe reply_lost b = renew_script-IsSafe none (λ e. absurd (none-some e)) b
  renew_held-IsSafe unreachable b = (
    inl refl,
    record { owned = b.owned; past = b.past; promised = λ held e. absurd (none-some e) },
  )

  either_IsSafe :
      (h : Bool) {x y : redis.State × Waiting} → IsSafe x → IsSafe y → IsSafe (if h then x else y)
  either_IsSafe true p q = p
  either_IsSafe false p q = q

  pub renew-IsSafe : (d : Delivery) → Backed s l idle → IsSafe (renew redis ttl now d s l)
  unfolding renew
  renew-IsSafe d b = either_IsSafe l.held (renew_held-IsSafe d b) (inl refl, b)

  surrendered-IsBacked :
      (h : Bool) → l.held ≡ h → l.last_renew_ok_at ≤ now → Backed s (surrendered h l) idle
  surrendered-IsBacked true e past = idle-IsBacked ttl delay now key _ refl past
  surrendered-IsBacked false e past = idle-IsBacked ttl delay now key l e past

  after_failure-IsBacked :
      (w : Waiting) → Backed s l w → Backed s (after_failure redis ttl now l) idle
  unfolding after_failure surrender
  after_failure-IsBacked w b = elim (Bool-cases (leb (l.last_renew_ok_at + ttl) now)) [
    | inl stale ↦ rw stale (surrendered-IsBacked l.held refl b.past)
    | inr young ↦ rw young (record { owned = b.owned; past = b.past; promised = tt })
  ]

  -- A reply that is handled in time leaves an instance that owns the key, less the delay.
  pub resume-IsBacked :
      (w : Waiting)
      → IsTimely ttl delay now w
      → Backed s l w
      → Backed s (resume redis ttl now w l) idle
  unfolding resume after_set after_renewal surrender
  resume-IsBacked idle t b = b
  resume-IsBacked (for_set sent (some true)) t b = record {
    owned = λ held.
        shorter-IsClaimed now now (sent + ttl) _ key l.id (omega arith) (omega (arith, t))
          (b.promised.1 refl);
    past = omega arith;
    promised = tt;
  }
  resume-IsBacked (for_set sent (some false)) t b = idle-IsBacked ttl delay now key _ refl b.past
  resume-IsBacked (for_set sent none) t b = idle-IsBacked ttl delay now key _ refl b.past
  resume-IsBacked (for_renewal sent none) t b = after_failure-IsBacked _ b
  resume-IsBacked (for_renewal sent (some n)) t b = elim (Bool-cases (n == 1)) [
    | inr other ↦ rw other (surrendered-IsBacked l.held refl b.past)
    | inl one ↦ rw one (record {
      owned = λ held.
          shorter-IsClaimed now now (sent + ttl) _ key l.id (omega arith) (omega (arith, t))
            (b.promised held (ap some (ground (arith, one))));
      past = omega arith;
      promised = tt;
    })
  ]

  surrendered-id : (h : Bool) → (surrendered h l).id ≡ l.id
  surrendered-id true = refl
  surrendered-id false = refl

  either_id :
      (h : Bool) (x y : LeaderLease) → x.id ≡ l.id → y.id ≡ l.id → (if h then x else y).id ≡ l.id
  either_id true x y p q = p
  either_id false x y p q = q

  pub resume-id : (w : Waiting) → (resume redis ttl now w l).id ≡ l.id
  unfolding resume after_set after_renewal after_failure surrender
  resume-id idle = refl
  resume-id (for_set sent (some true)) = refl
  resume-id (for_set sent (some false)) = refl
  resume-id (for_set sent none) = refl
  resume-id (for_renewal sent none) =
      either_id (leb (l.last_renew_ok_at + ttl) now) _ _ (surrendered-id l.held) refl
  resume-id (for_renewal sent (some n)) = either_id (n == 1) _ _ refl (surrendered-id l.held)

  release_script-MayChange :
      MayChange now l.id key (redis.entry lease_key (release_script redis ttl now l.id s))
  unfolding release_script
  release_script-MayChange = elim (Bool-cases (is_value (live now key) l.id)) [
    | inl mine ↦ rw mine (mine-MayChange _ (is_value-live (live now key) mine))
    | inr other ↦ rw other (inl refl)
  ]

  -- What an instance that gives the lease up may still await.
  given_up-IsBacked :
      (after : redis.State) (w : Waiting)
      → l.held ≡ true
      → Backed s l w
      → Backed after (record l { held = false }) w
  given_up-IsBacked after idle held b = idle-IsBacked ttl delay now _ _ refl b.past
  given_up-IsBacked after (for_set sent reply) held b =
      absurd (true≢false (sym held ∙ b.promised.0))
  given_up-IsBacked after (for_renewal sent reply) held b = record {
    owned = λ e. absurd (true≢false (sym e));
    past = b.past;
    promised = λ e. absurd (true≢false (sym e));
  }

  abbrev pub IsReleased : Waiting → redis.State × LeaderLease → Type 0
  IsReleased w (after, l') =
      MayChange now l.id key (redis.entry lease_key after) × Backed after l' w × (l'.id ≡ l.id)

  release_held-IsReleased :
      (d : Delivery) (w : Waiting)
      → l.held ≡ true
      → Backed s l w
      → IsReleased w (release_held redis ttl now d s l)
  unfolding release_held
  release_held-IsReleased unreachable w held b = (inl refl, given_up-IsBacked s w held b, refl)
  release_held-IsReleased answered w held b =
      (release_script-MayChange, given_up-IsBacked _ w held b, refl)
  release_held-IsReleased reply_lost w held b =
      (release_script-MayChange, given_up-IsBacked _ w held b, refl)

  either_IsReleased :
      (h : Bool) (w : Waiting) {x y : redis.State × LeaderLease}
      → (h ≡ true → IsReleased w x)
      → IsReleased w y
      → IsReleased w (if h then x else y)
  either_IsReleased true w p q = p refl
  either_IsReleased false w p q = q

  pub release-IsReleased :
      (d : Delivery) (w : Waiting) → Backed s l w → IsReleased w (release redis ttl now d s l)
  unfolding release
  release-IsReleased d w b =
      either_IsReleased l.held w (λ held. release_held-IsReleased d w held b) (inl refl, b, refl)
