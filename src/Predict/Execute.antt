-- ===== src/Predict/Execute.antt =====
-- predict.service.ts, `executePrediction`: the answer to one request, with its idempotency key or
-- without. The prediction, and what other requests do to Redis while it runs, are one parameter.
use ojuri.Prelude.{
  ℕ, String, Bool, true, false, Option, none, some, List, get_or_else, str_eq, if◌then◌else◌,
}
use ojuri.Redis.{Redis, Delivery}
use ojuri.Rules.Value.{Value}
use ojuri.Idempotency.{
  Codec, Settings, IdempotencyInput, IdempotencyOutcome, replay, conflict, lookup, store,
  wait_for_replay, acquire_lock, release_lock, reserve_transaction_id, release_transaction_id,
}
use ojuri.Idempotency.Canonical.{TextOrder, hash_request}
use ojuri.Predict.Types.{PredictRequestDto, PredictInvocation}

pub data PredictOutcome (Response : Type 0) : Type 0 where
  ok : Response → PredictOutcome Response
  replayed : Response → PredictOutcome Response
  conflicting waiting : PredictOutcome Response
  duplicate : String → PredictOutcome Response

-- How `predict` ends: a response, the throw of a DuplicateTransactionError, or another throw.
pub data Attempt (Response : Type 0) : Type 0 where
  predicted : Response → Attempt Response
  already_recorded : String → Attempt Response
  threw : Attempt Response

-- The request as the JSON value it is, what `hashRequest` makes of one, and the stored text.
pub record Texts (Num Response : Type 0) : Type 0 where
  pub order : TextOrder
  pub stringify : Value Num → String
  pub sha256 : String → String
  pub value_of : PredictRequestDto Num → Value Num
  pub codec : Codec Response

-- When a request reaches each of its steps, the polls it makes, and what Redis answers to `store`
-- and to the release. `value` is the lock's random value.
pub record Moments (State : Type 0) : Type 0 where
  pub looked_up : ℕ
  pub claimed : ℕ
  pub value : String
  pub polls : List (ℕ × State)
  pub stored : ℕ
  pub delivery : Delivery
  pub capping : Bool
  pub released : ℕ
  pub release_reached : Bool

-- The prediction over a store: the store it leaves, and how it ends.
abbrev pub Work : Type 0 → Type 0 → Type 0
Work State Response = State → State × Attempt Response

abbrev pub default_tenant : String
default_tenant = "default"

-- `none` is a throw.
abbrev pub Result : Type 0 → Type 0 → Type 0
Result State Response = State × Option (PredictOutcome Response)

module _ {Num : Type 0} where
  abbrev pub tenant_of : PredictInvocation Num → String
  tenant_of invocation = get_or_else invocation.tenant_id default_tenant

  abbrev pub input_of : PredictInvocation Num → String → IdempotencyInput
  input_of invocation key = record {
    tenant_id = tenant_of invocation;
    api_key_id = invocation.api_key_id;
    key = key;
  }

module _ {Num Response : Type 0} (texts : Texts Num Response) where
  abbrev pub hash_of : PredictInvocation Num → String
  hash_of invocation =
      hash_request texts.order texts.stringify texts.sha256 (texts.value_of invocation.request)

module _ {Response : Type 0} where
  abbrev pub answer_waited : IdempotencyOutcome Response → PredictOutcome Response
  answer_waited (replay r) = replayed r
  answer_waited conflict = conflicting
  answer_waited _ = waiting

  unfoldable pub run_and_wrap :
      {State : Type 0} → (State → State) → State × Attempt Response → Result State Response
  run_and_wrap on_failure (s, predicted r) = (s, some (ok r))
  run_and_wrap on_failure (s, already_recorded id) = (s, some (duplicate id))
  run_and_wrap on_failure (s, threw) = (on_failure s, none)

module _ (redis : Redis) {Num Response : Type 0} (texts : Texts Num Response) (settings : Settings)
    (ttl_ms : ℕ) where
  open redis use {State}

  -- A release that does not reach Redis is logged.
  abbrev pub release_reservation : Moments State → PredictInvocation Num → State → State
  release_reservation at invocation s =
      if at.release_reached
      then release_transaction_id redis (tenant_of invocation) invocation.request.transaction_id s
      else s

  abbrev pub after_reservation :
      Moments State
      → PredictInvocation Num
      → Work State Response
      → State × Bool
      → Result State Response
  after_reservation at invocation work (s, false) =
      (s, some (duplicate invocation.request.transaction_id))
  after_reservation at invocation work (s, true) =
      run_and_wrap (release_reservation at invocation) (work s)

  unfoldable pub execute_without_idempotency_key :
      Moments State → PredictInvocation Num → Work State Response → State → Result State Response
  execute_without_idempotency_key at invocation work s = after_reservation at invocation work (
      reserve_transaction_id redis ttl_ms at.claimed (tenant_of invocation)
        invocation.request.transaction_id s)

  abbrev pub store_ok : Moments State → IdempotencyInput → String → Result State Response → State
  store_ok at input hash (s, some (ok r)) =
      store redis texts.codec settings at.delivery at.capping at.stored input hash r ttl_ms s
  store_ok at input hash (s, _) = s

  -- The `finally`: on every way out.
  abbrev pub release_reached : Moments State → IdempotencyInput → State → State
  release_reached at input s =
      if at.release_reached then release_lock redis at.released at.value input s else s

  abbrev pub locked_run :
      Moments State → IdempotencyInput → String → Result State Response → Result State Response
  locked_run at input hash result =
      (release_reached at input (store_ok at input hash result), result.1)

  abbrev pub after_lock :
      Moments State
      → IdempotencyInput
      → String
      → Work State Response
      → State × Bool
      → Result State Response
  after_lock at input hash work (s, false) =
      (s, some (answer_waited (wait_for_replay texts.codec redis input hash at.polls)))
  after_lock at input hash work (s, true) =
      locked_run at input hash (run_and_wrap (λ t. t) (work s))

  abbrev pub after_lookup :
      Moments State
      → IdempotencyInput
      → String
      → Work State Response
      → State
      → IdempotencyOutcome Response
      → Result State Response
  after_lookup at input hash work s (replay r) = (s, some (replayed r))
  after_lookup at input hash work s conflict = (s, some conflicting)
  after_lookup at input hash work s _ =
      after_lock at input hash work (acquire_lock redis at.claimed at.value input s)

  unfoldable pub execute_with_idempotency_key :
      Moments State
      → PredictInvocation Num
      → String
      → Work State Response
      → State
      → Result State Response
  execute_with_idempotency_key at invocation key work s =
      let input = input_of invocation key in
      let hash = hash_of texts invocation in
      after_lookup at input hash work s (lookup texts.codec redis at.looked_up input hash s)

  -- An absent and an empty key are falsy.
  abbrev pub execute_keyed :
      Moments State
      → PredictInvocation Num
      → Option String
      → Work State Response
      → State
      → Result State Response
  execute_keyed at invocation none work s = execute_without_idempotency_key at invocation work s
  execute_keyed at invocation (some key) work s =
      if str_eq key ""
      then execute_without_idempotency_key at invocation work s
      else execute_with_idempotency_key at invocation key work s

  unfoldable pub execute_prediction :
      Moments State → PredictInvocation Num → Work State Response → State → Result State Response
  execute_prediction at invocation work s =
      execute_keyed at invocation invocation.idempotency_key work s
