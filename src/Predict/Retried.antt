-- ===== src/Predict/Retried.antt =====
-- What a retry of a request is answered, by how its first attempt ended.
use ojuri.Prelude.{
  ℕ, ◌+◌, ◌*◌, ◌<◌, String, ◌≡◌, ◌≢◌, refl, ap, ◌∙◌, Bool, true, false, Option, none, some, lt→ltb,
  str_eq, Bool-cases, inl, inr, if◌then◌else◌,
}
use ojuri.Redis.{Redis, IsRedis, HasSortedSets, live, unreachable, is_value}
use ojuri.Idempotency.{
  IsCodec, Settings, IdempotencyInput, miss, conflict, replay, lookup, store, acquire_lock,
  release_lock, reserve_transaction_id, release_transaction_id, reservation_ttl, resp_key,
  resp_key_of, lock_key, txn_key, ttl_seconds,
}
use ojuri.Idempotency.Replay.{HasRoom, lookup-store, lookup-entry}
use ojuri.Idempotency.Elsewhere.{resp-lock, lock-resp, store-elsewhere}
use ojuri.Predict.Types.{PredictInvocation}
use ojuri.Predict.Execute.{
  PredictOutcome, replayed, conflicting, duplicate, Attempt, predicted, already_recorded, threw,
  Texts, Moments, Work, run_and_wrap, execute_with_idempotency_key, execute_without_idempotency_key,
  locked_run, release_reached, release_reservation, tenant_of, input_of, hash_of, store_ok,
}

module _ (redis : Redis) (laws : IsRedis redis) (sets : HasSortedSets redis) {Num Response : Type 0}
    (texts : Texts Num Response) (good : IsCodec texts.codec) (settings : Settings)
    (ttl_ms : ℕ) where
  open redis use {State}

  abbrev keyed :
      Moments State
      → PredictInvocation Num
      → String
      → Work State Response
      → State
      → State × Option (PredictOutcome Response)
  keyed = execute_with_idempotency_key redis texts settings ttl_ms

  abbrev unkeyed :
      Moments State
      → PredictInvocation Num
      → Work State Response
      → State
      → State × Option (PredictOutcome Response)
  unkeyed = execute_without_idempotency_key redis texts settings ttl_ms

  -- The store in which the prediction runs, and the one it leaves.
  abbrev pub locked_store : Moments State → IdempotencyInput → State → State
  locked_store at input s = (acquire_lock redis at.claimed at.value input s).0

  release-entry :
      (now : ℕ) (value : String) (input : IdempotencyInput) (k : String) (s : State)
      → str_eq (lock_key input) k ≡ false
      → redis.entry k (release_lock redis now value input s) ≡ redis.entry k s
  unfolding release_lock
  release-entry now value input k s apart =
      elim (Bool-cases (is_value (live now (redis.entry (lock_key input) s)) value)) [
        | inl mine ↦ rw mine (laws.del_other (lock_key input) k s apart)
        | inr other ↦ rw other refl
      ]

  -- A request that misses and gets the lock ends as its prediction does, in a store that has its
  -- response where it has one, and its lock released.
  fresh :
      (at : Moments State) (invocation : PredictInvocation Num) (key : String)
      (work : Work State Response) (s : State)
      → lookup texts.codec redis at.looked_up (input_of invocation key) (hash_of texts invocation) s
        ≡ miss
      → (acquire_lock redis at.claimed at.value (input_of invocation key) s).1 ≡ true
      → keyed at invocation key work s
        ≡ locked_run redis texts settings ttl_ms at
            (input_of invocation key)
            (hash_of texts invocation)
            (run_and_wrap (λ t. t) (work (locked_store at (input_of invocation key) s)))
  unfolding execute_with_idempotency_key
  fresh at invocation key work s missed got = rw (missed, got) refl

  lookup-release :
      (now later : ℕ) (value : String) (input : IdempotencyInput) (hash : String) (s : State)
      → lookup texts.codec redis later input hash (release_lock redis now value input s)
        ≡ lookup texts.codec redis later input hash s
  unfolding lookup
  lookup-release now later value input hash s =
      rw (release-entry now value input (resp_key input) s (lock-resp input)) refl

  lookup-release_reached :
      (at : Moments State) (later : ℕ) (input : IdempotencyInput) (hash : String) (s : State)
      → lookup texts.codec redis later input hash
          (release_reached redis texts settings ttl_ms at input s)
        ≡ lookup texts.codec redis later input hash s
  lookup-release_reached at later input hash s = elim (Bool-cases at.release_reached) [
    | inl reached ↦ rw reached (lookup-release at.released later at.value input hash s)
    | inr lost ↦ rw lost refl
  ]

  -- Where the entry answers, nothing runs.
  found :
      (later : Moments State) (again : PredictInvocation Num) (input : IdempotencyInput)
      (key : String) (other : Work State Response) (u : State) (b : Bool) (r : Response)
      → input_of again key ≡ input
      → lookup texts.codec redis later.looked_up input (hash_of texts again) u
        ≡ (if b then replay r else conflict)
      → keyed later again key other u ≡ (u, if b then some (replayed r) else some conflicting)
  unfolding execute_with_idempotency_key
  found later again input key other u true r same answers = rw (same, answers) refl
  found later again input key other u false r same answers = rw (same, answers) refl

  -- What an answered prediction leaves.
  kept :
      (at : Moments State) (invocation : PredictInvocation Num) (key : String)
      (work : Work State Response) (s t : State) (r : Response)
      → lookup texts.codec redis at.looked_up (input_of invocation key) (hash_of texts invocation) s
        ≡ miss
      → (acquire_lock redis at.claimed at.value (input_of invocation key) s).1 ≡ true
      → work (locked_store at (input_of invocation key) s) ≡ (t, predicted r)
      → (keyed at invocation key work s).0
        ≡ release_reached redis texts settings ttl_ms at (input_of invocation key) (
            store redis texts.codec settings at.delivery at.capping at.stored
              (input_of invocation key)
              (hash_of texts invocation)
              r
              ttl_ms
              t)
  unfolding run_and_wrap
  kept at invocation key work s t r missed got ran =
      ap (λ result. result.0) (fresh at invocation key work s missed got) ∙ rw ran refl

  -- The first attempt under an idempotency key missed, got the lock and was answered by its
  -- prediction; its response reached Redis while the tenant had room. On any later store that has the
  -- entry of the response as this attempt left it, and until the entry expires, a request under the
  -- same key is answered by the response, or as a conflict where its body hashes otherwise; nothing
  -- is predicted again, and the store is left as it is.
  pub execute_with_idempotency_key-retry :
      (at later : Moments State) (invocation again : PredictInvocation Num) (key : String)
      (work other : Work State Response) (s t after : State) (r : Response)
      → lookup texts.codec redis at.looked_up (input_of invocation key) (hash_of texts invocation) s
        ≡ miss
      → (acquire_lock redis at.claimed at.value (input_of invocation key) s).1 ≡ true
      → work (locked_store at (input_of invocation key) s) ≡ (t, predicted r)
      → at.delivery ≢ unreachable
      → HasRoom texts.codec good redis laws sets settings (tenant_of invocation) t
      → input_of again key ≡ input_of invocation key
      → later.looked_up < at.stored + ttl_seconds redis ttl_ms * 1000
      → redis.entry (resp_key (input_of invocation key)) after
        ≡ redis.entry (resp_key (input_of invocation key)) (keyed at invocation key work s).0
      → keyed later again key other after ≡ (
        after,
        if str_eq (hash_of texts invocation) (hash_of texts again)
            then some (replayed r)
            else some conflicting,
      )
  execute_with_idempotency_key-retry at later invocation again key work other s t after r missed got
        ran reached room same alive untouched =
      let input = input_of invocation key in
      let answer = hash_of texts again in
      let end = kept at invocation key work s t r missed got ran in
      found later again input key other after (str_eq (hash_of texts invocation) answer) r same (
        lookup-entry texts.codec good redis laws sets settings later.looked_up input answer after _
          (untouched ∙ ap (redis.entry (resp_key input)) end)
        ∙ lookup-release_reached at later.looked_up input answer _
        ∙ lookup-store texts.codec good redis laws sets settings at.capping at.delivery at.stored
            later.looked_up input (hash_of texts invocation) answer r ttl_ms t _ reached room alive
            refl)

  -- The store of a run keeps what the prediction left of every key but the responses.
  store_ok-entry :
      (at : Moments State) (input : IdempotencyInput) (hash : String) (t : State)
      (a : Attempt Response) (k : String)
      → ((tenant composite : String) → str_eq (resp_key_of tenant composite) k ≡ false)
      → redis.entry k
          (store_ok redis texts settings ttl_ms at input hash (run_and_wrap (λ u. u) (t, a)))
        ≡ redis.entry k t
  unfolding run_and_wrap
  store_ok-entry at input hash t (predicted r) k apart =
      store-elsewhere redis laws sets texts.codec settings at.delivery at.capping at.stored input
        hash r ttl_ms k t apart
  store_ok-entry at input hash t (already_recorded id) k apart = refl
  store_ok-entry at input hash t threw k apart = refl

  released-entry :
      (now : ℕ) (value : String) (input : IdempotencyInput) (s t : State)
      → redis.entry (lock_key input) s ≡ redis.entry (lock_key input) t
      → redis.entry (lock_key input) (release_lock redis now value input s) ≡ (
          if is_value (live now (redis.entry (lock_key input) t)) value
          then none
          else redis.entry (lock_key input) t)
  unfolding release_lock
  released-entry now value input s t same =
      elim (Bool-cases (is_value (live now (redis.entry (lock_key input) t)) value)) [
        | inl mine ↦ rw (same, mine) (laws.del_absent (lock_key input) s)
        | inr other ↦ rw (same, other) same
      ]

  -- Of a request that missed and got the lock: however the prediction ends, with a response, as a
  -- duplicate or by a throw, a release that reaches Redis removes the lock where it is still this
  -- request's, and leaves it as the prediction left it where it is not.
  pub execute_with_idempotency_key-release :
      (at : Moments State) (invocation : PredictInvocation Num) (key : String)
      (work : Work State Response) (s : State)
      → lookup texts.codec redis at.looked_up (input_of invocation key) (hash_of texts invocation) s
        ≡ miss
      → (acquire_lock redis at.claimed at.value (input_of invocation key) s).1 ≡ true
      → at.release_reached ≡ true
      → redis.entry (lock_key (input_of invocation key)) (keyed at invocation key work s).0 ≡ (
          if is_value
            (live at.released (
              redis.entry
                (lock_key (input_of invocation key))
                (work (locked_store at (input_of invocation key) s)).0))
            at.value
          then none
          else redis.entry
              (lock_key (input_of invocation key))
              (work (locked_store at (input_of invocation key) s)).0)
  execute_with_idempotency_key-release at invocation key work s missed got reached =
      let input = input_of invocation key in
      let after = work (locked_store at input s) in
      rw (fresh at invocation key work s missed got, reached)
        (released-entry at.released at.value input _ after.0 (
          store_ok-entry at input (hash_of texts invocation) after.0 after.1 (lock_key input)
            (λ tenant composite. resp-lock tenant composite input)))

  abbrev pub reservation : PredictInvocation Num → String
  reservation invocation = txn_key (tenant_of invocation) invocation.request.transaction_id

  -- The store in which the prediction runs, and whether it does.
  abbrev pub reserved : Moments State → PredictInvocation Num → State → State × Bool
  reserved at invocation s =
      reserve_transaction_id redis ttl_ms at.claimed (tenant_of invocation)
        invocation.request.transaction_id s

  run_reserved :
      (at : Moments State) (invocation : PredictInvocation Num) (work : Work State Response)
      (s : State)
      → (reserved at invocation s).1 ≡ true
      → unkeyed at invocation work s
        ≡ run_and_wrap
            (release_reservation redis texts settings ttl_ms at invocation)
            (work (reserved at invocation s).0)
  unfolding execute_without_idempotency_key
  run_reserved at invocation work s got = rw got refl

  run_refused :
      (at : Moments State) (invocation : PredictInvocation Num) (work : Work State Response)
      (s : State)
      → (reserved at invocation s).1 ≡ false
      → (unkeyed at invocation work s).1 ≡ some (duplicate invocation.request.transaction_id)
  unfolding execute_without_idempotency_key
  run_refused at invocation work s taken = rw taken refl

  failed_store :
      (at : Moments State) (invocation : PredictInvocation Num) (t : State)
      → at.release_reached ≡ true
      → redis.entry
          (reservation invocation)
          (run_and_wrap {Response = Response}
            (release_reservation redis texts settings ttl_ms at invocation)
            (t, threw)).0
        ≡ none
  unfolding run_and_wrap release_transaction_id
  failed_store at invocation t reached = rw reached (laws.del_absent (reservation invocation) t)

  reserved_free :
      (at : Moments State) (invocation : PredictInvocation Num) (s : State)
      → live at.claimed (redis.entry (reservation invocation) s) ≡ none
      → (redis.entry (reservation invocation) (reserved at invocation s).0
          ≡ some ("1", at.claimed + reservation_ttl redis ttl_ms))
        × ((reserved at invocation s).1 ≡ true)
  unfolding reserve_transaction_id
  reserved_free at invocation s free =
      laws.set_nx_free at.claimed (reservation invocation) "1" (reservation_ttl redis ttl_ms) s free

  reserved_taken :
      (at : Moments State) (invocation : PredictInvocation Num) (s : State)
      → live at.claimed (redis.entry (reservation invocation) s) ≡ some "1"
      → (reserved at invocation s).1 ≡ false
  unfolding reserve_transaction_id
  reserved_taken at invocation s taken =
      (laws.set_nx_taken at.claimed (reservation invocation) "1" "1" (reservation_ttl redis ttl_ms)
        s taken).1

  run_and_wrap-store :
      (on_failure : State → State) (t : State) (a : Attempt Response)
      → a ≢ threw
      → (run_and_wrap on_failure (t, a)).0 ≡ t
  unfolding run_and_wrap
  run_and_wrap-store on_failure t (predicted r) other = refl
  run_and_wrap-store on_failure t (already_recorded id) other = refl
  run_and_wrap-store on_failure t threw other = absurd (other refl)

  live_until :
      (now expiry : ℕ) (value : String) (entry : Option (String × ℕ))
      → entry ≡ some (value, expiry)
      → now < expiry
      → live now entry ≡ some value
  live_until now expiry value entry e early = rw (e, lt→ltb now expiry early) refl

  -- A prediction without an idempotency key that fails gives its transaction id back, once the
  -- release reaches Redis: at any later time, a retry predicts.
  pub execute_without_idempotency_key-retry_failed :
      (at later : Moments State) (invocation : PredictInvocation Num)
      (work other : Work State Response) (s t : State)
      → (reserved at invocation s).1 ≡ true
      → work (reserved at invocation s).0 ≡ (t, threw)
      → at.release_reached ≡ true
      → unkeyed later invocation other (unkeyed at invocation work s).0
        ≡ run_and_wrap
            (release_reservation redis texts settings ttl_ms later invocation)
            (other (reserved later invocation (unkeyed at invocation work s).0).0)
  execute_without_idempotency_key-retry_failed at later invocation work other s t first failed
        reached =
      let end : (unkeyed at invocation work s).0
          ≡ (run_and_wrap {Response = Response}
              (release_reservation redis texts settings ttl_ms at invocation) (t, threw)).0 =
        ap (λ result. result.0) (run_reserved at invocation work s first) ∙ rw failed refl in
      let gone =
        ap (redis.entry (reservation invocation)) end ∙ failed_store at invocation t reached in
      let free : live later.claimed
            (redis.entry (reservation invocation) (unkeyed at invocation work s).0)
          ≡ none =
        ap (live later.claimed) gone in
      run_reserved later invocation other (unkeyed at invocation work s).0
        (reserved_free later invocation (unkeyed at invocation work s).0 free).1

  -- A prediction without an idempotency key whose transaction id was free, that is answered or finds
  -- its transaction recorded, and that leaves the reservation alone: until the reservation expires,
  -- a retry is a duplicate.
  pub execute_without_idempotency_key-duplicate :
      (at later : Moments State) (invocation : PredictInvocation Num)
      (work other : Work State Response) (s t : State) (a : Attempt Response)
      → live at.claimed (redis.entry (reservation invocation) s) ≡ none
      → work (reserved at invocation s).0 ≡ (t, a)
      → a ≢ threw
      → redis.entry (reservation invocation) t
        ≡ redis.entry (reservation invocation) (reserved at invocation s).0
      → later.claimed < at.claimed + reservation_ttl redis ttl_ms
      → (unkeyed later invocation other (unkeyed at invocation work s).0).1
        ≡ some (duplicate invocation.request.transaction_id)
  execute_without_idempotency_key-duplicate at later invocation work other s t a free ran
        answered_it untouched early =
      let (owned, first) = reserved_free at invocation s free in
      let end : (unkeyed at invocation work s).0 ≡ t =
        ap (λ result. result.0) (run_reserved at invocation work s first)
        ∙ rw ran (run_and_wrap-store _ t a answered_it) in
      let held =
        live_until later.claimed (at.claimed + reservation_ttl redis ttl_ms) "1"
          (redis.entry (reservation invocation) t) (untouched ∙ owned) early in
      rw end (run_refused later invocation other t (reserved_taken later invocation t held))
