-- ===== src/Idempotency/Locked.antt =====
-- The lock of one idempotency key, under any interleaving of the requests that ask for it.
use ojuri.Prelude.{
  ℕ, ◌+◌, ◌*◌, ◌<◌, ◌≤◌, String, ◌≡◌, refl, sym, ap, ◌∙◌, Bool, true, false, Option, none, some,
  ltb, lt→ltb, str_eq, eq_iff, Bool-cases, Option-cases, inl, inr, some-injective, none-some, arith,
  if◌then◌else◌,
}
use mathlib.Core.Bool.{true≢false}
use ojuri.Redis.{Redis, IsRedis, live, is_value}
use ojuri.Idempotency.{IdempotencyInput, acquire_lock, release_lock, lock_key, lock_ttl_seconds}

abbrev lock_ttl : ℕ
lock_ttl = lock_ttl_seconds * 1000

-- `since` gives, for the random value of a request, when it was told that it has the lock.
pub record Requests (State : Type 0) : Type 0 where
  pub now : ℕ
  pub store : State
  pub since : String → Option ℕ

abbrev pub note : Bool → String → ℕ → (String → Option ℕ) → String → Option ℕ
note won value now since other =
    if str_eq value other then (if won then some now else since other) else since other

abbrev pub forget : String → (String → Option ℕ) → String → Option ℕ
forget value since other = if str_eq value other then none else since other

module _ (redis : Redis) (input : IdempotencyInput) where
  open redis use {State}

  abbrev key : State → Option (String × ℕ)
  key s = redis.entry (lock_key input) s

  pub data Step (c : Requests State) : Requests State → Type 0 where
    passed : (later : ℕ) → c.now ≤ later → Step c (record c { now = later })
    asked :
        (value : String)
        → Step c (record c {
          store = (acquire_lock redis c.now value input c.store).0;
          since = note (acquire_lock redis c.now value input c.store).1 value c.now c.since;
        })
    released :
        (value : String)
        → Step c (record c {
          store = release_lock redis c.now value input c.store;
          since = forget value c.since;
        })
    -- What leaves this lock alone, such as storing a response.
    elsewhere : (after : State) → key after ≡ key c.store → Step c (record c { store = after })

  pub data Run : Requests State → Type 0 where
    start : (now : ℕ) (store : State) → Run (record { now = now; store = store; since = λ v. none })
    next : {b c : Requests State} → Run b → Step b c → Run c

  -- The request holds the lock, for less time than the lock lasts.
  abbrev pub Holds : Requests State → String → Type 0
  Holds c value = (t : ℕ) × (c.since value ≡ some t) × (c.now < t + lock_ttl_seconds * 1000)

  abbrev IsOwned : Option (String × ℕ) → String → ℕ → Type 0
  IsOwned entry value t = (expiry : ℕ) × (entry ≡ some (value, expiry)) × (t + lock_ttl ≤ expiry)

  abbrev AllOwned : Requests State → Type 0
  AllOwned c =
      (value : String) (t : ℕ)
      → c.since value ≡ some t
      → (t ≤ c.now) × (c.now < t + lock_ttl → IsOwned (key c.store) value t)

  live-owned :
      (now t : ℕ) (entry : Option (String × ℕ)) (value : String)
      → now < t + lock_ttl
      → IsOwned entry value t
      → live now entry ≡ some value
  live-owned now t entry value young (expiry, e, long) =
      let late : ltb now expiry ≡ true = lt→ltb now expiry (omega (arith, young, long)) in
      rw (e, late) refl

  note_lost :
      (won : Bool) (value : String) (now : ℕ) (since : String → Option ℕ) (other : String)
      → won ≡ false
      → note won value now since other ≡ since other
  note_lost won value now since other lost = elim (Bool-cases (str_eq value other)) [
    | inl it ↦ rw (it, lost) refl
    | inr another ↦ rw another refl
  ]

  note_won :
      (won : Bool) (value : String) (now : ℕ) (since : String → Option ℕ) (other : String)
      → won ≡ true
      → str_eq value other ≡ true
      → note won value now since other ≡ some now
  note_won won value now since other told it = rw (it, told) refl

  note_other :
      (won : Bool) (value : String) (now : ℕ) (since : String → Option ℕ) (other : String)
      → str_eq value other ≡ false
      → note won value now since other ≡ since other
  note_other won value now since other another = rw another refl

  forgotten :
      (value : String) (since : String → Option ℕ) (other : String) (t : ℕ)
      → forget value since other ≡ some t
      → (str_eq value other ≡ false) × (since other ≡ some t)
  forgotten value since other t e = elim (Bool-cases (str_eq value other)) [
    | inl it ↦ absurd (none-some ((rw it at e)))
    | inr another ↦ (another, (rw another at e))
  ]

  module _ (laws : IsRedis redis) where
    -- A refused request changes nothing.
    refused :
        (c : Requests State) (value w : String)
        → live c.now (key c.store) ≡ some w
        → AllOwned c
        → AllOwned (record c {
          store = (acquire_lock redis c.now value input c.store).0;
          since = note (acquire_lock redis c.now value input c.store).1 value c.now c.since;
        })
    unfolding acquire_lock
    refused c value w taken all other t e =
        let (same, no_reply) =
          laws.set_nx_taken c.now (lock_key input) value w lock_ttl c.store taken in
        let before : c.since other ≡ some t =
          sym (note_lost _ value c.now c.since other no_reply) ∙ e in
        rw same (all other t before)

    granted :
        (c : Requests State) (value : String)
        → live c.now (key c.store) ≡ none
        → AllOwned c
        → AllOwned (record c {
          store = (acquire_lock redis c.now value input c.store).0;
          since = note (acquire_lock redis c.now value input c.store).1 value c.now c.since;
        })
    unfolding acquire_lock
    granted c value free all other t e =
        let (owned, won) = laws.set_nx_free c.now (lock_key input) value lock_ttl c.store free in
        elim (Bool-cases (str_eq value other)) [
          | inl it ↦
              let here : value ≡ other = (eq_iff value other).0 it in
              let at : c.now ≡ t =
                some-injective (sym (note_won _ value c.now c.since other won it) ∙ e) in
              (
                omega (arith, at),
                λ young. (
                  c.now + lock_ttl,
                  owned ∙ ap (λ v. some (v, c.now + lock_ttl)) here,
                  omega (arith, at),
                ),
              )
          | inr another ↦
              let before : c.since other ≡ some t =
                sym (note_other _ value c.now c.since other another) ∙ e in
              let (past, was) = all other t before in
              (
                past,
                λ young. absurd (
                    none-some
                      (sym free ∙ live-owned c.now t (key c.store) other young (was young))),
              )
        ]

    asked-AllOwned :
        (c : Requests State) (value : String)
        → AllOwned c
        → AllOwned (record c {
          store = (acquire_lock redis c.now value input c.store).0;
          since = note (acquire_lock redis c.now value input c.store).1 value c.now c.since;
        })
    asked-AllOwned c value all = elim (Option-cases (live c.now (key c.store))) [
      | inl free ↦ granted c value free all
      | inr (w, taken) ↦ refused c value w taken all
    ]

    is_value-live : (o : Option String) (v : String) → is_value o v ≡ true → o ≡ some v
    is_value-live none v e = absurd (true≢false (sym e))
    is_value-live (some w) v e = ap some ((eq_iff w v).0 e)

    -- The script deletes a key of the request's own value alone.
    released-AllOwned :
        (c : Requests State) (value : String)
        → AllOwned c
        → AllOwned (record c {
          store = release_lock redis c.now value input c.store;
          since = forget value c.since;
        })
    unfolding release_lock
    released-AllOwned c value all other t e =
        let (another, before) = forgotten value c.since other t e in
        let (past, was) = all other t before in
        elim (Bool-cases (is_value (live c.now (key c.store)) value)) [
          | inl mine ↦ (
            past,
            λ young.
                let same : value ≡ other = some-injective (
                  sym (is_value-live (live c.now (key c.store)) value mine)
                  ∙ live-owned c.now t (key c.store) other young (was young)) in
                absurd (true≢false (sym ((eq_iff value other).1 same) ∙ another)),
          )
          | inr theirs ↦ rw theirs (past, was)
        ]

    Step-AllOwned : {b c : Requests State} → Step b c → AllOwned b → AllOwned c
    Step-AllOwned {b} (passed later on) all = λ other t e.
        let (past, was) = all other t e in
        (omega (arith, past, on), λ young. was (omega (arith, young, on)))
    Step-AllOwned {b} (asked value) all = asked-AllOwned b value all
    Step-AllOwned {b} (released value) all = released-AllOwned b value all
    Step-AllOwned {b} (elsewhere after same) all = λ other t e. rw same (all other t e)

    Run-AllOwned : {c : Requests State} → Run c → AllOwned c
    Run-AllOwned (start now store) = λ other t e. absurd (none-some e)
    Run-AllOwned (next r s) = Step-AllOwned s (Run-AllOwned r)

    -- However requests ask for the lock of a key and release it, two that hold it, and were given it
    -- less than its lifetime ago, are one.
    pub Run-exclusive_lock :
        {c : Requests State} → Run c → (a b : String) → Holds c a → Holds c b → a ≡ b
    Run-exclusive_lock {c} r a b (t, ea, young) (u, eb, also) =
        let all = Run-AllOwned r in
        some-injective (
          sym (live-owned c.now t (key c.store) a young ((all a t ea).1 young))
          ∙ live-owned c.now u (key c.store) b also ((all b u eb).1 also))
