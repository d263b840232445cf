-- ===== src/Predict/Types.antt =====
-- src/v1/modules/rda/services/predict.types.ts, dtos/predict-request.dto.ts, utils and factories:
-- the values that the decision passes along. Numbers are those of the rules engine's Host; feature
-- snapshots, reason codes and rule expressions are its values.
use mathlib.Core.Option
use ojuri.Prelude.{
  String, Bool, true, false, Option, none, some, [], ◌∷◌, get_or_else, if◌then◌else◌,
}
use ojuri.Enums.{Decision, accept, decline, review, DecisionSource, RuleAction, RuleStage}
use ojuri.Audit.Record.{DecisionAuditRecord}
use ojuri.Rules.Value.{Value, bool, num, str, arr, obj, nil, Members, Host}
use ojuri.Rules.Evaluator.{RuleContext, opt}
use ojuri.Rules.Service.{RuleHit}

-- The fields of the request that the decision and its rules read.
pub record PredictRequestDto (Num : Type 0) : Type 0 where
  pub transaction_id : String
  pub sender_id : String
  pub receiver_id : String
  pub amount : Num
  pub transaction_type : String
  pub timestamp : Num
  pub segment : Option String
  pub ip_country : Option String
  pub transaction_country : Option String
  pub destination_country : Option String
  pub ip_is_vpn : Option Bool
  pub device_is_trusted : Option Bool
  pub is_authenticated : Option Bool
  pub session_to_txn_seconds : Option Num
  pub account_age_days : Option Num
  pub channel : Option String
  pub currency : Option String

pub record PredictInvocation (Num : Type 0) : Type 0 where
  pub request : PredictRequestDto Num
  pub trace_id : String
  pub tenant_id : Option String
  pub api_key_id : Option String
  pub idempotency_key : Option String

pub record ModelMeta (Num : Type 0) : Type 0 where
  pub champion_version : String
  pub shadow_version : Option String
  pub threshold : Num
  pub review_threshold : Option Num

pub record FeaturesPayload (Num Vector : Type 0) : Type 0 where
  pub enriched_vector : Vector
  pub snapshot : Members Num
  pub is_default : Bool

pub record MlOutcome (Num : Type 0) : Type 0 where
  pub score : Num
  pub calibrated_score : Option Num
  pub decision : Decision
  pub degraded : Bool

pub record FinalVerdict (Num : Type 0) : Type 0 where
  pub post_hit : Option (RuleHit Num)
  pub final_decision : Decision
  pub decision_source : DecisionSource

pub record PredictDecisionContext (Num : Type 0) : Type 0 where
  pub invocation : PredictInvocation Num
  pub final_decision : Decision
  pub decision_source : DecisionSource
  pub hit : Option (RuleHit Num)
  pub ml_score : Num
  pub calibrated_score : Option Num
  pub ml_decision : Decision
  pub threshold : Num
  pub champion_version : String
  pub shadow_version : Option String
  pub shadow_score : Option Num
  pub reason_codes : Option (Value Num)
  pub features_snapshot : Option (Members Num)
  pub is_default : Bool

pub record ResponseRule : Type 0 where
  pub id : String
  pub name : String
  pub stage : RuleStage

pub record PredictResponseDto (Num : Type 0) : Type 0 where
  pub transaction_id : String
  pub fraud : Bool
  pub fraud_probability : Num
  pub decision : Decision
  pub decision_source : DecisionSource
  pub reason_codes : Value Num
  pub model_version : String
  pub threshold : Num
  pub rule : Option ResponseRule
  pub audit_id : Option String
  pub latency_ms : Num

-- `NONE` has no entry in the source's table: a hit of that action decides nothing.
abbrev pub rule_action_to_decision : RuleAction → Option Decision
rule_action_to_decision RuleAction.allow = some accept
rule_action_to_decision RuleAction.deny = some decline
rule_action_to_decision RuleAction.review = some review
rule_action_to_decision RuleAction.nothing = none

abbrev pub is_decline : Decision → Bool
is_decline accept = false
is_decline decline = true
is_decline review = false

module _ {Num : Type 0} where
  unfoldable pub build_rule_context :
      PredictRequestDto Num → Option String → Members Num → RuleContext Num
  build_rule_context r tenant features = record {
    tenant_id = tenant;
    request =
        ("transaction_id", str r.transaction_id)
        ∷ ("sender_id", str r.sender_id)
        ∷ ("receiver_id", str r.receiver_id)
        ∷ ("amount", num r.amount)
        ∷ ("transaction_type", str r.transaction_type)
        ∷ ("timestamp", num r.timestamp)
        ∷ ("segment", opt str r.segment)
        ∷ ("ip_country", opt str r.ip_country)
        ∷ ("transaction_country", opt str r.transaction_country)
        ∷ ("destination_country", opt str r.destination_country)
        ∷ ("ip_is_vpn", opt bool r.ip_is_vpn)
        ∷ ("device_is_trusted", opt bool r.device_is_trusted)
        ∷ ("is_authenticated", opt bool r.is_authenticated)
        ∷ ("session_to_txn_seconds", opt num r.session_to_txn_seconds)
        ∷ ("account_age_days", opt num r.account_age_days)
        ∷ ("channel", opt str r.channel)
        ∷ ("currency", opt str r.currency)
        ∷ [];
    features = features;
    ml_score = none;
    ml_decision = none;
  }

  unfoldable pub create_record :
      PredictDecisionContext Num → Num → DecisionAuditRecord Num (Value Num)
  create_record ctx latency = record {
    transaction_id = ctx.invocation.request.transaction_id;
    tenant_id = ctx.invocation.tenant_id;
    api_key_id = ctx.invocation.api_key_id;
    correlation_id = some ctx.invocation.trace_id;
    idempotency_key = ctx.invocation.idempotency_key;
    sender_id = ctx.invocation.request.sender_id;
    receiver_id = some ctx.invocation.request.receiver_id;
    amount = ctx.invocation.request.amount;
    transaction_type = some ctx.invocation.request.transaction_type;
    segment = ctx.invocation.request.segment;
    champion_model_version = ctx.champion_version;
    shadow_model_version = ctx.shadow_version;
    champion_score = ctx.ml_score;
    calibrated_score = ctx.calibrated_score;
    shadow_score = ctx.shadow_score;
    threshold = ctx.threshold;
    ml_decision = ctx.ml_decision;
    final_decision = ctx.final_decision;
    decision_source = ctx.decision_source;
    rule_id = Option.map (λ (h : RuleHit Num). h.rule.id) ctx.hit;
    rule_name = Option.map (λ (h : RuleHit Num). h.rule.name) ctx.hit;
    rule_stage = Option.map (λ (h : RuleHit Num). h.stage) ctx.hit;
    rule_expression = Option.map (λ (h : RuleHit Num). h.rule.expression) ctx.hit;
    rule_action = Option.map (λ (h : RuleHit Num). h.rule.action) ctx.hit;
    reason_codes = ctx.reason_codes;
    features_snapshot = Option.map obj ctx.features_snapshot;
    features_default = some ctx.is_default;
    latency_ms = latency;
  }

  -- `round4` is `Math.round(n * 10000) / 10000` of the engine's numbers.
  module _ (round4 : Num → Num) where
    unfoldable pub create_response :
        PredictDecisionContext Num → Option String → Num → PredictResponseDto Num
    create_response ctx audit_id latency = record {
      transaction_id = ctx.invocation.request.transaction_id;
      fraud = is_decline ctx.final_decision;
      fraud_probability = round4 ctx.ml_score;
      decision = ctx.final_decision;
      decision_source = ctx.decision_source;
      reason_codes = get_or_else ctx.reason_codes (arr nil);
      model_version = ctx.champion_version;
      threshold = ctx.threshold;
      rule =
          Option.map
            (λ (h : RuleHit Num). record { id = h.rule.id; name = h.rule.name; stage = h.stage })
            ctx.hit;
      audit_id = audit_id;
      latency_ms = latency;
    }

-- `score >= threshold` of the engine's numbers is `num_le threshold score`.
module _ (js : Host) where
  open js use {Num}

  abbrev pub reaches_review : Num → Option Num → Bool
  reaches_review score none = false
  reaches_review score (some cut) = js.num_le cut score

  unfoldable pub band_decision : Num → Num → Option Num → Decision
  band_decision score threshold review_threshold =
      if js.num_le threshold score
      then decline
      else if reaches_review score review_threshold
      then review
      else accept
