-- ===== src/Lease/Exclusive.antt =====
-- What backs an instance that holds the lease, or that has been promised it.
use ojuri.Prelude.{
  ℕ, ◌+◌, ◌-◌, ◌<◌, ◌≤◌, String, ◌≡◌, ◌≢◌, refl, sym, ◌∙◌, subst, true, false, Option, none, some,
  ltb, inl, inr, ◌⊎◌, arith, lt→ltb,
}
use mathlib.Core.Bool.{true≢false}
use ojuri.Redis.{live}
use ojuri.Lease.{LeaderLease, Waiting, idle, for_set, for_renewal}

-- The key is the instance's until a time, and as long as this is to come.
abbrev pub IsClaimed : ℕ → ℕ → Option (String × ℕ) → String → Type 0
IsClaimed now until entry id =
    now < until → (expiry : ℕ) × (entry ≡ some (id, expiry)) × (until ≤ expiry)

pub live-claimed :
    (now until : ℕ) (entry : Option (String × ℕ)) (id : String)
    → now < until
    → IsClaimed now until entry id
    → live now entry ≡ some id
live-claimed now until entry id early claim =
    let (expiry, e, long) = claim early in
    let late : ltb now expiry ≡ true = lt→ltb now expiry (omega (arith, early, long)) in
    rw e (rw late refl)

pub shorter-IsClaimed :
    (now later until less : ℕ) (entry : Option (String × ℕ)) (id : String)
    → now ≤ later
    → less ≤ until
    → IsClaimed now until entry id
    → IsClaimed later less entry id
shorter-IsClaimed now later until less entry id on short claim early =
    let (expiry, e, long) = claim (omega (arith, early, on, short)) in
    (expiry, e, omega (arith, long, short))

pub fresh-IsClaimed :
    (now until expiry : ℕ) (entry : Option (String × ℕ)) (id : String)
    → entry ≡ some (id, expiry)
    → until ≤ expiry
    → IsClaimed now until entry id
fresh-IsClaimed now until expiry entry id e long early = (expiry, e, long)

-- How an operation of the instance `id` may change the key: not at all, or while nobody else's
-- value is live.
abbrev pub MayChange : ℕ → String → Option (String × ℕ) → Option (String × ℕ) → Type 0
MayChange now id before after =
    (after ≡ before) ⊎ ((other : String) → live now before ≡ some other → other ≡ id)

others-IsClaimed :
    (now until : ℕ) (id other : String) (before after : Option (String × ℕ))
    → other ≢ id
    → MayChange now id before after
    → IsClaimed now until before other
    → IsClaimed now until after other
others-IsClaimed now until id other before after apart (inl same) claim early =
    subst (λ e. IsClaimed now until e other) (sym same) claim early
others-IsClaimed now until id other before after apart (inr free) claim early =
    absurd (apart (free other (live-claimed now until before other early claim)))

module _ (ttl delay : ℕ) where
  -- The instance holds the lease, and what it takes for its last renewal is younger than the lease,
  -- less the delay of a reply.
  abbrev pub IsLeading : ℕ → LeaderLease → Type 0
  IsLeading now l = (l.held ≡ true) × (now + delay < l.last_renew_ok_at + ttl)

  -- What the reply that is awaited promises.
  abbrev pub IsPromised : ℕ → Option (String × ℕ) → LeaderLease → Waiting → Type 0
  IsPromised now entry l idle = Unit
  IsPromised now entry l (for_set sent reply) =
      (l.held ≡ false) × (reply ≡ some true → IsClaimed now (sent + ttl) entry l.id)
  IsPromised now entry l (for_renewal sent reply) =
      l.held ≡ true → reply ≡ some 1 → IsClaimed now (sent + ttl) entry l.id

  pub record IsBacked (now : ℕ) (entry : Option (String × ℕ)) (l : LeaderLease) (w : Waiting)
      : Type 0 where
    pub owned : l.held ≡ true → IsClaimed now (l.last_renew_ok_at + ttl - delay) entry l.id
    pub past : l.last_renew_ok_at ≤ now
    pub promised : IsPromised now entry l w

  -- A reply is handled at most `delay` after its command; an error at any time.
  abbrev pub IsTimely : ℕ → Waiting → Type 0
  IsTimely now idle = Unit
  IsTimely now (for_set sent none) = Unit
  IsTimely now (for_set sent (some reply)) = now ≤ sent + delay
  IsTimely now (for_renewal sent none) = Unit
  IsTimely now (for_renewal sent (some reply)) = now ≤ sent + delay

  pub live-leading :
      (now : ℕ) (entry : Option (String × ℕ)) (l : LeaderLease) (w : Waiting)
      → IsLeading now l
      → IsBacked now entry l w
      → live now entry ≡ some l.id
  live-leading now entry l w (held, young) b =
      live-claimed now (l.last_renew_ok_at + ttl - delay) entry l.id (omega (arith, young))
        (b.owned held)

  map-IsPromised :
      (now later : ℕ) (before after : Option (String × ℕ)) (l : LeaderLease) (w : Waiting)
      → ((until : ℕ) → IsClaimed now until before l.id → IsClaimed later until after l.id)
      → IsPromised now before l w
      → IsPromised later after l w
  map-IsPromised now later before after l idle f p = tt
  map-IsPromised now later before after l (for_set sent reply) f (free, p) =
      (free, λ ok. f (sent + ttl) (p ok))
  map-IsPromised now later before after l (for_renewal sent reply) f p =
      λ held ok. f (sent + ttl) (p held ok)

  pub later-IsBacked :
      (now later : ℕ) (entry : Option (String × ℕ)) (l : LeaderLease) (w : Waiting)
      → now ≤ later
      → IsBacked now entry l w
      → IsBacked later entry l w
  later-IsBacked now later entry l w on b = record {
    owned = λ held. shorter-IsClaimed now later _ _ entry l.id on (omega arith) (b.owned held);
    past = omega (arith, on, b.past);
    promised =
        map-IsPromised now later entry entry l w
          (λ until. shorter-IsClaimed now later until until entry l.id on (omega arith)) b.promised;
  }

  pub others-IsBacked :
      (now : ℕ) (id : String) (before after : Option (String × ℕ)) (l : LeaderLease) (w : Waiting)
      → l.id ≢ id
      → MayChange now id before after
      → IsBacked now before l w
      → IsBacked now after l w
  others-IsBacked now id before after l w apart change b = record {
    owned = λ held. others-IsClaimed now _ id l.id before after apart change (b.owned held);
    past = b.past;
    promised =
        map-IsPromised now now before after l w
          (λ until. others-IsClaimed now until id l.id before after apart change) b.promised;
  }

  pub idle-IsBacked :
      (now : ℕ) (entry : Option (String × ℕ)) (l : LeaderLease)
      → l.held ≡ false
      → l.last_renew_ok_at ≤ now
      → IsBacked now entry l idle
  idle-IsBacked now entry l free past = record {
    owned = λ held. absurd (true≢false (sym held ∙ free));
    past = past;
    promised = tt;
  }
