-- ===== src/Predict/Decide.antt =====
-- src/v1/modules/rda/services/predict.service.ts, `predict` up to `finalize`: which rule or score
-- decides. What the other services answer is the record Services; `none` is an answer that throws.
use ojuri.Prelude.{String, Bool, true, false, Option, none, some, get_or_else, if◌then◌else◌}
use ojuri.Enums.{Decision, accept, ml, pre_rule, post_rule, breaker_fallback, pre, post}
use ojuri.Audit.Record.{AuditEnrichmentFields}
use ojuri.Rules.Value.{Value, obj, end, Host}
use ojuri.Rules.Evaluator.{RuleContext}
use ojuri.Rules.Service.{scope, RuleHit, RulesService, evaluate_stage, evaluate_request_only_pre}
use ojuri.Predict.Types.{
  PredictRequestDto, PredictInvocation, ModelMeta, FeaturesPayload, MlOutcome, FinalVerdict,
  PredictDecisionContext, rule_action_to_decision, build_rule_context, band_decision,
}

-- An answer of the model: a degraded one is the circuit breaker's fallback.
pub record OnnxOutcome (Num : Type 0) : Type 0 where
  pub score : Num
  pub calibrated_score : Option Num
  pub degraded : Bool

pub record Services (Num : Type 0) : Type 1 where
  pub Vector : Type 0
  pub resolve : String → ModelMeta Num
  -- `loadFeatures`
  pub load : PredictRequestDto Num → Option (FeaturesPayload Num Vector)
  -- `onnxService.predict` and `predictShadow`
  pub infer : Vector → Option (OnnxOutcome Num)
  pub shadow : Vector → Option (Option Num)
  pub sampled : Bool
  pub explain : Vector → Value Num
  -- `calibrationMode === ENFORCE`
  pub enforce : Bool
  pub fallback_decision : Decision

-- What waits behind the response: `none` for no promise, `some none` for one that rejects.
abbrev pub Late : Type 0 → Type 0
Late Num = Option (Option (AuditEnrichmentFields Num (Value Num)))

abbrev pub decided_by :
    {Num : Type 0} → RuleHit Num → Option Decision → Option (RuleHit Num × Decision)
decided_by hit none = none
decided_by hit (some d) = some (hit, d)

-- A hit that decides, with its decision.
abbrev pub hard_decision : {Num : Type 0} → Option (RuleHit Num) → Option (RuleHit Num × Decision)
hard_decision none = none
hard_decision (some hit) = decided_by hit (rule_action_to_decision hit.rule.action)

module _ (js : Host) (services : Services js.Num) where
  open js use {Num}
  open services use {Vector}

  abbrev pub score_shadow : ModelMeta Num → Vector → Late Num
  score_shadow meta vector = elim (scope meta.shadow_version) [
    | none ↦ none
    | some version ↦
        if services.sampled
        then some (elim (services.shadow vector) [
          | none ↦ none
          | some score ↦ some (record {
            shadow_score = some score;
            features_snapshot = none;
            features_default = none;
            reason_codes = none;
          })
        ])
        else none
  ]

  abbrev pub load_features_for_audit : PredictRequestDto Num → Late Num
  load_features_for_audit request = some (elim (services.load request) [
    | none ↦ none
    | some features ↦ some (record {
      shadow_score = none;
      features_snapshot = some (some (obj features.snapshot));
      features_default = some features.is_default;
      reason_codes = some (some (services.explain features.enriched_vector));
    })
  ])

  abbrev decision_score : OnnxOutcome Num → Num
  decision_score outcome = elim outcome.calibrated_score [
    | none ↦ outcome.score
    | some calibrated ↦ if services.enforce then calibrated else outcome.score
  ]

  unfoldable pub outcome_of : Num → Option Num → OnnxOutcome Num → MlOutcome Num
  unfolding band_decision
  outcome_of threshold review_threshold outcome =
      if outcome.degraded
      then record {
        score = outcome.score;
        calibrated_score = none;
        decision = services.fallback_decision;
        degraded = true;
      }
      else record {
        score = outcome.score;
        calibrated_score = outcome.calibrated_score;
        decision = band_decision js (decision_score outcome) threshold review_threshold;
        degraded = false;
      }

  unfoldable pub run_inference : Vector → Num → Option Num → Option (MlOutcome Num)
  unfolding outcome_of
  run_inference vector threshold review_threshold = elim (services.infer vector) [
    | none ↦ none
    | some outcome ↦ some (outcome_of threshold review_threshold outcome)
  ]

  abbrev pub verdict_of : MlOutcome Num → Option (RuleHit Num × Decision) → FinalVerdict Num
  verdict_of outcome (some (hit, d)) = record {
    post_hit = some hit;
    final_decision = d;
    decision_source = post_rule;
  }
  verdict_of outcome none = record {
    post_hit = none;
    final_decision = outcome.decision;
    decision_source = if outcome.degraded then breaker_fallback else ml;
  }

  unfoldable pub evaluate_post_rules :
      RulesService Num → RuleContext Num → MlOutcome Num → FinalVerdict Num
  evaluate_post_rules rules base outcome =
      let ctx = record base {
        ml_score = some outcome.score;
        ml_decision = some outcome.decision;
      } in
      verdict_of outcome (hard_decision (evaluate_stage js rules post ctx))

  unfoldable pub from_pre_rule :
      PredictInvocation Num
      → ModelMeta Num
      → RuleHit Num
      → Decision
      → Option (FeaturesPayload Num Vector)
      → PredictDecisionContext Num
  from_pre_rule invocation meta hit d loaded = record {
    invocation = invocation;
    final_decision = d;
    decision_source = pre_rule;
    hit = some hit;
    ml_score = js.zero;
    calibrated_score = none;
    ml_decision = accept;
    threshold = meta.threshold;
    champion_version = meta.champion_version;
    shadow_version = meta.shadow_version;
    shadow_score = none;
    reason_codes = elim loaded [ none ↦ none | some f ↦ some (services.explain f.enriched_vector) ];
    features_snapshot = elim loaded [ none ↦ none | some f ↦ some f.snapshot ];
    is_default = elim loaded [ none ↦ false | some f ↦ f.is_default ];
  }

  unfoldable pub from_ml_decision :
      PredictInvocation Num
      → ModelMeta Num
      → FinalVerdict Num
      → MlOutcome Num
      → FeaturesPayload Num Vector
      → PredictDecisionContext Num
  from_ml_decision invocation meta verdict outcome features = record {
    invocation = invocation;
    final_decision = verdict.final_decision;
    decision_source = verdict.decision_source;
    hit = verdict.post_hit;
    ml_score = outcome.score;
    calibrated_score = outcome.calibrated_score;
    ml_decision = outcome.decision;
    threshold = meta.threshold;
    champion_version = meta.champion_version;
    shadow_version = meta.shadow_version;
    shadow_score = none;
    reason_codes = some (services.explain features.enriched_vector);
    features_snapshot = some features.snapshot;
    is_default = features.is_default;
  }

  -- A decision and what waits behind it.
  abbrev pub Decided : Type 0
  Decided = PredictDecisionContext Num × Late Num

  -- The inference threw, or scored.
  unfoldable pub decide_scored :
      RulesService Num
      → PredictInvocation Num
      → ModelMeta Num
      → RuleContext Num
      → FeaturesPayload Num Vector
      → Option (MlOutcome Num)
      → Option Decided
  unfolding evaluate_post_rules from_ml_decision
  decide_scored rules invocation meta ctx features none = none
  decide_scored rules invocation meta ctx features (some outcome) = some (
    from_ml_decision invocation meta (evaluate_post_rules rules ctx outcome) outcome features,
    score_shadow meta features.enriched_vector,
  )

  -- From the inference on.
  unfoldable pub decide_by_score :
      RulesService Num
      → PredictInvocation Num
      → ModelMeta Num
      → RuleContext Num
      → FeaturesPayload Num Vector
      → Option Decided
  unfolding decide_scored run_inference
  decide_by_score rules invocation meta ctx features =
      decide_scored rules invocation meta ctx features
        (run_inference features.enriched_vector meta.threshold meta.review_threshold)

  -- The full PRE pass found a rule that decides, or none.
  unfoldable pub decide_after_pre :
      RulesService Num
      → PredictInvocation Num
      → ModelMeta Num
      → RuleContext Num
      → FeaturesPayload Num Vector
      → Option (RuleHit Num × Decision)
      → Option Decided
  unfolding from_pre_rule
  decide_after_pre rules invocation meta ctx features (some (hit, d)) =
      some (from_pre_rule invocation meta hit d (some features), none)
  decide_after_pre rules invocation meta ctx features none =
      decide_by_score rules invocation meta ctx features

  -- From the feature load on.
  unfoldable pub decide_with_features :
      RulesService Num
      → PredictInvocation Num
      → ModelMeta Num
      → RuleContext Num
      → Option (FeaturesPayload Num Vector)
      → Option Decided
  decide_with_features rules invocation meta base none = none
  decide_with_features rules invocation meta base (some features) =
      let ctx = record base { features = features.snapshot } in
      decide_after_pre rules invocation meta ctx features
        (hard_decision (evaluate_stage js rules pre ctx))

  abbrev pub model_of : PredictInvocation Num → ModelMeta Num
  model_of invocation =
      services.resolve (get_or_else invocation.request.segment invocation.request.transaction_type)

  abbrev pub base_context : PredictInvocation Num → RuleContext Num
  base_context invocation = build_rule_context invocation.request invocation.tenant_id end

  -- The early pass found a rule that decides, or none.
  unfoldable pub decide_early :
      RulesService Num → PredictInvocation Num → Option (RuleHit Num × Decision) → Option Decided
  unfolding from_pre_rule
  decide_early rules invocation (some (hit, d)) = some (
    from_pre_rule invocation (model_of invocation) hit d none,
    load_features_for_audit invocation.request,
  )
  decide_early rules invocation none =
      decide_with_features rules invocation (model_of invocation) (base_context invocation)
        (services.load invocation.request)

  unfoldable pub predict : RulesService Num → PredictInvocation Num → Option Decided
  predict rules invocation =
      decide_early rules invocation
        (hard_decision (evaluate_request_only_pre js rules (base_context invocation)))
