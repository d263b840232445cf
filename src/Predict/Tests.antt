-- ===== src/Predict/Tests.antt =====
-- Runs of the decision on small inputs.
use ojuri.Prelude.{
  String, str_eq, if◌then◌else◌, ℕ, ◌≡◌, refl, true, false, ◌&&◌, none, some, List, [], ◌∷◌, ltb,
  leb, ◌==◌, is_some, All,
}
use ojuri.Enums.{decline, review, ml, RuleAction, pre}
use ojuri.Audit.Queue.{AuditWriteQueue}
use ojuri.Rules.Value.{
  Value, bool, null, num, str, obj, arr, nil, cons, end, member, Host, undefined,
}
use ojuri.Rules.Service.{RuleRow, reload}
use ojuri.Rules.Validation.Saved.{IsSaved}
use ojuri.Rules.Validation.{validate_expression}
use ojuri.Predict.Types.{PredictInvocation, PredictDecisionContext}
use ojuri.Predict.Decide.{Services, OnnxOutcome, Decided, Late, predict}
use ojuri.Predict.Finalize.{AuditConfig, Answers, unique_violation, finalize}
use ojuri.Predict.Shortcut.{verdict, predict_loading, predict-predict_loading}
use ojuri.Predict.Explained.{IsExplained, predict-IsExplained}
use ojuri.Predict.Investigated.{investigates, investigates-finalize}

-- Whole numbers that no text denotes.
abbrev naturals : Host
naturals = record {
  Num = ℕ;
  zero = 0;
  one = 1;
  nan = 0;
  of_string = λ s. 0;
  to_string = λ n. "n";
  num_lt = ltb;
  num_le = leb;
  num_eq = λ a b. a == b;
  inherited = λ key. undefined;
  property = λ v key. undefined;
  same_object = λ ms ns. false;
}

abbrev services : Services ℕ
services = record {
  Vector = ℕ;
  resolve = λ segment. record {
    champion_version = "v1";
    shadow_version = none;
    threshold = 65;
    review_threshold = some 40;
  };
  load = λ request. some (record { enriched_vector = 80; snapshot = end; is_default = true });
  infer = λ vector. some (record { score = vector; calibrated_score = none; degraded = false });
  shadow = λ vector. none;
  sampled = false;
  explain = λ vector. arr nil;
  enforce = false;
  fallback_decision = review;
}

abbrev transfer : PredictInvocation ℕ
transfer = record {
  request = record {
    transaction_id = "t1";
    sender_id = "ann";
    receiver_id = "bob";
    amount = 250;
    transaction_type = "transfer";
    timestamp = 1000;
    segment = none;
    ip_country = none;
    transaction_country = none;
    destination_country = none;
    ip_is_vpn = none;
    device_is_trusted = none;
    is_authenticated = none;
    session_to_txn_seconds = none;
    account_age_days = none;
    channel = none;
    currency = none;
  };
  trace_id = "r1";
  tenant_id = some "acme";
  api_key_id = none;
  idempotency_key = none;
}

-- `JSON.parse` of two texts.
abbrev parse : String → Value ℕ
parse s = if str_eq s "true" then bool true else null

abbrev large_amount : Value ℕ
large_amount =
    obj (member ">=" (arr (cons (obj (member "var" (str "amount") end)) (cons (num 100) nil))) end)

abbrev rule_table : List (RuleRow ℕ)
rule_table =
    (record {
      id = "large";
      name = "large";
      description = none;
      stage = pre;
      priority = 10;
      action = RuleAction.deny;
      expression = large_amount;
      is_active = true;
      tenant_id = none;
      created_at = 0;
    })
    ∷ []

rule_table-IsSaved : All (IsSaved parse []) rule_table
unfolding validate_expression
rule_table-IsSaved = ((pre, refl), tt)

predict-predict_loading_example :
    verdict (predict naturals services (reload parse rule_table) transfer)
    ≡ verdict (predict_loading naturals services (reload parse rule_table) transfer)
predict-predict_loading_example =
    predict-predict_loading naturals services parse [] rule_table transfer "acme"
      (record { enriched_vector = 80; snapshot = end; is_default = true }) rule_table-IsSaved refl
      refl

-- A decision by score, of 80 against 65.
abbrev declined : PredictDecisionContext ℕ
declined = record {
  invocation = transfer;
  final_decision = decline;
  decision_source = ml;
  hit = none;
  ml_score = 80;
  calibrated_score = none;
  ml_decision = decline;
  threshold = 65;
  champion_version = "v1";
  shadow_version = none;
  shadow_score = none;
  reason_codes = some (arr nil);
  features_snapshot = some end;
  is_default = true;
}

by_score : predict naturals services (reload parse []) transfer ≡ some (declined, none)
unfolding predict ojuri.Predict.Decide.decide_early ojuri.Rules.Service.evaluate_request_only_pre
    reload ojuri.Rules.Service.records ojuri.Rules.Service.list_active_ordered
    ojuri.Predict.Decide.decide_with_features ojuri.Predict.Decide.decide_after_pre
    ojuri.Rules.Service.evaluate_stage ojuri.Predict.Decide.decide_by_score
by_score = refl

predict-IsExplained_example : IsExplained declined
predict-IsExplained_example =
    predict-IsExplained naturals services (reload parse []) transfer declined none by_score

abbrev config : AuditConfig
config = record {
  stream = false;
  sync_write = true;
  queue = record { capacity = 1; batch_size = 1 };
}

abbrev answers : Answers ℕ
answers = record {
  audit_id = "a1";
  latency = 3;
  save = λ r. unique_violation;
  find_existing = λ tenant transaction. some "a0";
  publish_durable = λ ctx id r. true;
  round4 = λ n. n;
}

abbrev empty_queue : AuditWriteQueue ℕ (Value ℕ)
empty_queue = record {
  buffer = [];
  flushing = false;
  batch = [];
  consecutive_failures = 0;
  failures = record { backpressure = 0; duplicate = 0; flush_error = 0; dropped = 0 };
}

investigates-finalize_example :
    investigates (finalize config answers declined none empty_queue).jobs
    ≡ (is_some (finalize config answers declined none empty_queue).response && true)
investigates-finalize_example = investigates-finalize answers declined none empty_queue config
