-- ===== src/Audit/Record.antt =====
-- src/shared/audit/decision-audit.types.ts and factories/audit-row.factory.ts: the audit record,
-- the patch that may follow it, and the row that is inserted. Numbers are of the type `Num`,
-- feature snapshots, rule expressions and reason codes of `Json`. An absent field and `null` are
-- both `none`, since each reader writes `?? null`.
use ojuri.Prelude.{String, Bool, false, Option, none, some, get_or_else}
use mathlib.Core.Option
use ojuri.Enums.{Decision, DecisionSource, RuleAction, RuleStage}

pub record DecisionAuditRecord (Num Json : Type 0) : Type 0 where
  pub transaction_id : String
  pub tenant_id : Option String
  pub api_key_id : Option String
  pub correlation_id : Option String
  pub idempotency_key : Option String
  pub sender_id : String
  pub receiver_id : Option String
  pub amount : Num
  pub transaction_type : Option String
  pub segment : Option String
  pub champion_model_version : String
  pub shadow_model_version : Option String
  pub champion_score : Num
  pub calibrated_score : Option Num
  pub shadow_score : Option Num
  pub threshold : Num
  pub ml_decision : Decision
  pub final_decision : Decision
  pub decision_source : DecisionSource
  pub rule_id : Option String
  pub rule_name : Option String
  pub rule_stage : Option RuleStage
  pub rule_expression : Option Json
  pub rule_action : Option RuleAction
  pub reason_codes : Option Json
  pub features_snapshot : Option Json
  pub features_default : Option Bool
  pub latency_ms : Num

pub record QueuedAuditRecord (Num Json : Type 0) : Type 0 where
  pub id : String
  pub rec : DecisionAuditRecord Num Json

-- The fields that resolve late: `none` where the key is absent, `some none` where it is `null`.
pub record AuditEnrichmentFields (Num Json : Type 0) : Type 0 where
  pub shadow_score : Option (Option Num)
  pub features_snapshot : Option (Option Json)
  pub features_default : Option Bool
  pub reason_codes : Option (Option Json)

-- The columns of an inserted row; JSON columns hold text.
pub record AuditInsertRow (Num : Type 0) : Type 0 where
  pub id : Option String
  pub transaction_id : String
  pub tenant_id : Option String
  pub api_key_id : Option String
  pub correlation_id : Option String
  pub idempotency_key : Option String
  pub sender_id : String
  pub receiver_id : Option String
  pub amount : Num
  pub transaction_type : Option String
  pub segment : Option String
  pub champion_model_version : String
  pub shadow_model_version : Option String
  pub champion_score : Num
  pub calibrated_score : Option Num
  pub shadow_score : Option Num
  pub threshold : Num
  pub ml_decision : Decision
  pub final_decision : Decision
  pub decision_source : DecisionSource
  pub rule_id : Option String
  pub rule_name : Option String
  pub rule_stage : Option RuleStage
  pub rule_expression : Option String
  pub rule_action : Option RuleAction
  pub reason_codes : Option String
  pub features_snapshot : Option String
  pub features_default : Bool
  pub latency_ms : Num

-- `fields.x !== undefined ? fields.x : old`, what `Object.assign` does to one key
abbrev pub assign {ℓ} : {A : Type ℓ} → Option A → A → A
assign none old = old
assign (some new) old = new

module _ {Num Json : Type 0} where
  -- `Object.assign(rec, fields)`
  unfoldable pub apply_patch :
      AuditEnrichmentFields Num Json → DecisionAuditRecord Num Json → DecisionAuditRecord Num Json
  apply_patch fields r = record r {
    shadow_score = assign fields.shadow_score r.shadow_score;
    features_snapshot = assign fields.features_snapshot r.features_snapshot;
    features_default = elim fields.features_default [ none ↦ r.features_default | some b ↦ some b ];
    reason_codes = assign fields.reason_codes r.reason_codes;
  }

  module _ (stringify : Json → String) where
    unfoldable pub to_insert_row : QueuedAuditRecord Num Json → AuditInsertRow Num
    to_insert_row q = record {
      id = some q.id;
      transaction_id = q.rec.transaction_id;
      tenant_id = q.rec.tenant_id;
      api_key_id = q.rec.api_key_id;
      correlation_id = q.rec.correlation_id;
      idempotency_key = q.rec.idempotency_key;
      sender_id = q.rec.sender_id;
      receiver_id = q.rec.receiver_id;
      amount = q.rec.amount;
      transaction_type = q.rec.transaction_type;
      segment = q.rec.segment;
      champion_model_version = q.rec.champion_model_version;
      shadow_model_version = q.rec.shadow_model_version;
      champion_score = q.rec.champion_score;
      calibrated_score = q.rec.calibrated_score;
      shadow_score = q.rec.shadow_score;
      threshold = q.rec.threshold;
      ml_decision = q.rec.ml_decision;
      final_decision = q.rec.final_decision;
      decision_source = q.rec.decision_source;
      rule_id = q.rec.rule_id;
      rule_name = q.rec.rule_name;
      rule_stage = q.rec.rule_stage;
      rule_expression = Option.map stringify q.rec.rule_expression;
      rule_action = q.rec.rule_action;
      reason_codes = Option.map stringify q.rec.reason_codes;
      features_snapshot = Option.map stringify q.rec.features_snapshot;
      features_default = get_or_else q.rec.features_default false;
      latency_ms = q.rec.latency_ms;
    }
