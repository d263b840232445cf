-- ===== src/Predict/Explained.antt =====
-- Every decision is explained by its source: a rule whose action it is, or the model's own verdict.
use ojuri.Prelude.{◌≡◌, refl, Option, none, some, Bool-cases, inl, inr, subst}
use ojuri.Enums.{Decision, DecisionSource, ml, pre_rule, post_rule, breaker_fallback, pre, post}
use ojuri.Rules.Value.{Host}
use ojuri.Rules.Evaluator.{RuleContext}
use ojuri.Rules.Service.{RuleHit, RulesService, evaluate_stage}
use ojuri.Predict.Types.{
  PredictInvocation, PredictDecisionContext, FeaturesPayload, MlOutcome, ModelMeta,
  rule_action_to_decision,
}
use ojuri.Predict.Decide.{
  Services, Late, decided_by, hard_decision, predict, decide_early, decide_with_features,
  decide_after_pre, decide_scored, decide_by_score, evaluate_post_rules, from_pre_rule,
  from_ml_decision, model_of, base_context, run_inference, verdict_of,
}

module _ {Num : Type 0} where
  abbrev IsDecidedBy : Option (RuleHit Num) → Decision → Type 0
  IsDecidedBy none d = ⊥
  IsDecidedBy (some hit) d = rule_action_to_decision hit.rule.action ≡ some d

  abbrev Explains : DecisionSource → Option (RuleHit Num) → Decision → Decision → Type 0
  Explains ml hit d ml_decision = (hit ≡ none) × (d ≡ ml_decision)
  Explains breaker_fallback hit d ml_decision = (hit ≡ none) × (d ≡ ml_decision)
  Explains pre_rule hit d ml_decision = IsDecidedBy hit d
  Explains post_rule hit d ml_decision = IsDecidedBy hit d

  abbrev pub IsExplained : PredictDecisionContext Num → Type 0
  IsExplained ctx = Explains ctx.decision_source ctx.hit ctx.final_decision ctx.ml_decision

  abbrev AllExplained : Option (PredictDecisionContext Num × Late Num) → Type 0
  AllExplained none = Unit
  AllExplained (some (ctx, late)) = IsExplained ctx

  -- A hard decision is the action of its hit.
  abbrev Follows : Option (RuleHit Num × Decision) → Type 0
  Follows none = Unit
  Follows (some (hit, d)) = rule_action_to_decision hit.rule.action ≡ some d

  decided_by-Follows :
      (hit : RuleHit Num) (o : Option Decision)
      → rule_action_to_decision hit.rule.action ≡ o
      → Follows (decided_by hit o)
  decided_by-Follows hit none e = tt
  decided_by-Follows hit (some d) e = e

  hard_decision-Follows : (o : Option (RuleHit Num)) → Follows (hard_decision o)
  hard_decision-Follows none = tt
  hard_decision-Follows (some hit) =
      decided_by-Follows hit (rule_action_to_decision hit.rule.action) refl

module _ (js : Host) (services : Services js.Num) (rules : RulesService js.Num)
    (invocation : PredictInvocation js.Num) where
  open js use {Num}

  verdict_explained :
      (outcome : MlOutcome Num) (o : Option (RuleHit Num × Decision))
      → Follows o
      → (let v = verdict_of js services outcome o in
          Explains v.decision_source v.post_hit v.final_decision outcome.decision)
  verdict_explained outcome none h = elim (Bool-cases outcome.degraded) [
    | inl degraded ↦ rw degraded (refl, refl)
    | inr sound ↦ rw sound (refl, refl)
  ]
  verdict_explained outcome (some (hit, d)) h = h

  scored :
      (meta : ModelMeta Num) (ctx : RuleContext Num)
      (features : FeaturesPayload Num services.Vector) (o : Option (MlOutcome Num))
      → AllExplained (decide_scored js services rules invocation meta ctx features o)
  unfolding decide_scored from_ml_decision evaluate_post_rules
  scored meta ctx features none = tt
  scored meta ctx features (some outcome) =
      verdict_explained outcome
        (hard_decision (
          evaluate_stage js rules post
            (record ctx { ml_score = some outcome.score; ml_decision = some outcome.decision })))
        (hard_decision-Follows _)

  by_score :
      (meta : ModelMeta Num) (ctx : RuleContext Num)
      (features : FeaturesPayload Num services.Vector)
      → AllExplained (decide_by_score js services rules invocation meta ctx features)
  unfolding decide_by_score
  by_score meta ctx features =
      scored meta ctx features
        (run_inference js services features.enriched_vector meta.threshold meta.review_threshold)

  after_pre :
      (meta : ModelMeta Num) (ctx : RuleContext Num)
      (features : FeaturesPayload Num services.Vector) (o : Option (RuleHit Num × Decision))
      → Follows o
      → AllExplained (decide_after_pre js services rules invocation meta ctx features o)
  unfolding decide_after_pre from_pre_rule
  after_pre meta ctx features none h = by_score meta ctx features
  after_pre meta ctx features (some (hit, d)) h = h

  with_features :
      (meta : ModelMeta Num) (ctx : RuleContext Num)
      (loaded : Option (FeaturesPayload Num services.Vector))
      → AllExplained (decide_with_features js services rules invocation meta ctx loaded)
  unfolding decide_with_features
  with_features meta ctx none = tt
  with_features meta ctx (some features) =
      after_pre meta (record ctx { features = features.snapshot }) features
        (hard_decision (evaluate_stage js rules pre (record ctx { features = features.snapshot })))
        (hard_decision-Follows _)

  early :
      (o : Option (RuleHit Num × Decision))
      → Follows o
      → AllExplained (decide_early js services rules invocation o)
  unfolding decide_early from_pre_rule
  early none h =
      with_features (model_of js services invocation) (base_context js services invocation)
        (services.load invocation.request)
  early (some (hit, d)) h = h

  predict_all : AllExplained (predict js services rules invocation)
  unfolding predict
  predict_all = early _ (hard_decision-Follows _)

  -- A decision whose source is a rule is the action of the hit it names; any other decision is the
  -- model's own, or the fallback's, and names no rule.
  pub predict-IsExplained :
      (ctx : PredictDecisionContext Num) (late : Late Num)
      → predict js services rules invocation ≡ some (ctx, late)
      → IsExplained ctx
  predict-IsExplained ctx late e = subst AllExplained e predict_all
