-- ===== src/Lease/Cluster.antt =====
-- Instances over one Redis: any number of them, their commands and the replies in any order.
use ojuri.Prelude.{
  ℕ, ◌≤◌, String, ◌≡◌, ◌≢◌, refl, sym, ◌∙◌, false, str_eq, eq_iff, Bool-cases, inl, inr,
  some-injective, arith, if◌then◌else◌,
}
use mathlib.Core.Bool.{true≢false}
use ojuri.Redis.{Redis, IsRedis, Delivery}
use ojuri.Lease.{lease_key, LeaderLease, Waiting, idle, acquire, renew, release, resume}
use ojuri.Lease.Exclusive.{
  IsLeading, IsBacked, IsTimely, MayChange, live-leading, later-IsBacked, others-IsBacked,
  idle-IsBacked,
}
use ojuri.Lease.Kept.{acquire-IsSafe, renew-IsSafe, resume-IsBacked, resume-id, release-IsReleased}

-- An instance, and the reply that it awaits.
pub record Peer : Type 0 where
  pub lease : LeaderLease
  pub waiting : Waiting

-- `peers` gives the instance of each id.
pub record Cluster (State : Type 0) : Type 0 where
  pub now : ℕ
  pub store : State
  pub peers : String → Peer

module _ (redis : Redis) (ttl delay : ℕ) where
  open redis use {State}

  -- The instance `id` and the store after an operation.
  abbrev pub put : Cluster State → String → State → Peer → Cluster State
  put c id store peer = record c {
    store = store;
    peers = λ other. if str_eq id other then peer else c.peers other;
  }

  -- The instance's command has taken effect.
  abbrev pub sent : Cluster State → String → State × Waiting → Cluster State
  sent c id (store, w) = put c id store (record { lease = (c.peers id).lease; waiting = w })

  abbrev pub given_up : Cluster State → String → State × LeaderLease → Cluster State
  given_up c id (store, l) = put c id store (record { lease = l; waiting = (c.peers id).waiting })

  -- An instance acquires while it does not hold the lease, and neither acquires nor renews while it
  -- awaits a reply; it may release at any time.
  pub data Step (c : Cluster State) : Cluster State → Type 0 where
    passed : (later : ℕ) → c.now ≤ later → Step c (record c { now = later })
    acquired :
        (id : String) (d : Delivery)
        → (c.peers id).waiting ≡ idle
        → (c.peers id).lease.held ≡ false
        → Step c (sent c id (acquire redis ttl c.now d c.store (c.peers id).lease))
    renewed :
        (id : String) (d : Delivery)
        → (c.peers id).waiting ≡ idle
        → Step c (sent c id (renew redis ttl c.now d c.store (c.peers id).lease))
    resumed :
        (id : String)
        → IsTimely ttl delay c.now (c.peers id).waiting
        → Step c (
            put c id c.store (record {
              lease = resume redis ttl c.now (c.peers id).waiting (c.peers id).lease;
              waiting = idle;
            }))
    released :
        (id : String) (d : Delivery)
        → Step c (given_up c id (release redis ttl c.now d c.store (c.peers id).lease))

  -- No instance holds the lease at the start, whatever the store has.
  pub data Run : Cluster State → Type 0 where
    start :
        (now : ℕ) (store : State)
        → Run (record {
          now = now;
          store = store;
          peers = λ id. record {
            lease = record { id = id; held = false; last_renew_ok_at = 0; lost = 0 };
            waiting = idle;
          };
        })
    next : {b c : Cluster State} → Run b → Step b c → Run c

  abbrev IsGood : ℕ → State → String → Peer → Type 0
  IsGood now store id p =
      IsBacked ttl delay now (redis.entry lease_key store) p.lease p.waiting × (p.lease.id ≡ id)

  abbrev AllBacked : Cluster State → Type 0
  AllBacked c = (id : String) → IsGood c.now c.store id (c.peers id)

  module _ (laws : IsRedis redis) where
    put-AllBacked :
        (c : Cluster State) (id : String) (store : State) (peer : Peer)
        → AllBacked c
        → MayChange c.now
            (c.peers id).lease.id
            (redis.entry lease_key c.store)
            (redis.entry lease_key store)
        → IsBacked ttl delay c.now (redis.entry lease_key store) peer.lease peer.waiting
        → peer.lease.id ≡ (c.peers id).lease.id
        → AllBacked (put c id store peer)
    put-AllBacked c id store peer all change backed same other =
        elim (Bool-cases (str_eq id other)) [
          | inl it ↦
              let here : id ≡ other = (eq_iff id other).0 it in
              rw it (backed, same ∙ (all id).1 ∙ here)
          | inr another ↦
              let apart : (c.peers other).lease.id ≢ (c.peers id).lease.id = λ e.
                let met : id ≡ other = sym ((all id).1) ∙ sym e ∙ (all other).1 in
                true≢false (sym ((eq_iff id other).1 met) ∙ another) in
              rw another (
                others-IsBacked ttl delay c.now (c.peers id).lease.id
                    (redis.entry lease_key c.store) (redis.entry lease_key store)
                    (c.peers other).lease (c.peers other).waiting apart change (all other).0,
                (all other).1,
              )
        ]

    unwaiting :
        (now : ℕ) (store : State) (l : LeaderLease) (w : Waiting)
        → w ≡ idle
        → IsBacked ttl delay now (redis.entry lease_key store) l w
        → IsBacked ttl delay now (redis.entry lease_key store) l idle
    unwaiting now store l w e b = (rw e at b)

    Step-AllBacked : {b c : Cluster State} → Step b c → AllBacked b → AllBacked c
    Step-AllBacked {b} (passed later on) all = λ id. (
      later-IsBacked ttl delay b.now later (redis.entry lease_key b.store) (b.peers id).lease
          (b.peers id).waiting on (all id).0,
      (all id).1,
    )
    Step-AllBacked {b} (acquired id d waits free) all =
        let (change, backed) =
          acquire-IsSafe redis laws ttl delay b.now b.store (b.peers id).lease d free
            (unwaiting b.now b.store (b.peers id).lease _ waits (all id).0) in
        put-AllBacked b id _ _ all change backed refl
    Step-AllBacked {b} (renewed id d waits) all =
        let (change, backed) =
          renew-IsSafe redis laws ttl delay b.now b.store (b.peers id).lease d
            (unwaiting b.now b.store (b.peers id).lease _ waits (all id).0) in
        put-AllBacked b id _ _ all change backed refl
    Step-AllBacked {b} (resumed id timely) all =
        let l = (b.peers id).lease in
        let w = (b.peers id).waiting in
        put-AllBacked b id _ _ all (inl refl)
          (resume-IsBacked redis laws ttl delay b.now b.store l w timely (all id).0)
          (resume-id redis laws ttl delay b.now b.store l w)
    Step-AllBacked {b} (released id d) all =
        let (change, backed, same) =
          release-IsReleased redis laws ttl delay b.now b.store (b.peers id).lease d
            (b.peers id).waiting (all id).0 in
        put-AllBacked b id _ _ all change backed same

    Run-AllBacked : {c : Cluster State} → Run c → AllBacked c
    Run-AllBacked (start now store) =
        λ id. (idle-IsBacked ttl delay now _ _ refl (omega arith), refl)
    Run-AllBacked (next r s) = Step-AllBacked s (Run-AllBacked r)

    -- However the commands of acquisitions, renewals and releases and their replies interleave, with
    -- replies lost and Redis out of reach at any time, and each reply handled at most `delay` after
    -- its command: two instances that hold the lease and whose last renewal, by the time that they
    -- keep of it, is less than the lifetime of the lease minus `delay` ago are one. An instance
    -- acquires while it does not hold the lease, and it neither acquires nor renews while it awaits
    -- a reply.
    pub Run-exclusive :
        {c : Cluster State}
        → Run c
        → (a b : String) → IsLeading ttl delay c.now (c.peers a).lease
        → IsLeading ttl delay c.now (c.peers b).lease
        → a ≡ b
    Run-exclusive {c} r a b leads also =
        let all = Run-AllBacked r in
        let first =
          live-leading ttl delay c.now (redis.entry lease_key c.store) (c.peers a).lease
            (c.peers a).waiting leads (all a).0 in
        let second =
          live-leading ttl delay c.now (redis.entry lease_key c.store) (c.peers b).lease
            (c.peers b).waiting also (all b).0 in
        sym ((all a).1) ∙ some-injective (sym first ∙ second) ∙ (all b).1
