-- ===== src/Predict/Shortcut.antt =====
-- The pass before the features are loaded changes no decision.
use ojuri.Prelude.{String, ◌≡◌, refl, Option, none, some, List, All, Option-cases, inl, inr}
use ojuri.Enums.{Decision, DecisionSource, pre}
use ojuri.Rules.Value.{Value, Host}
use ojuri.Rules.Service.{
  RuleRow, RuleHit, RulesService, reload, scope, evaluate_request_only_pre, evaluate_stage,
}
use ojuri.Rules.Validation.Saved.{IsSaved, shortcut_saved}
use ojuri.Predict.Types.{
  PredictInvocation, PredictDecisionContext, FeaturesPayload, build_rule_context,
  rule_action_to_decision,
}
use ojuri.Predict.Decide.{
  Services, Decided, Late, hard_decision, predict, decide_early, decide_with_features,
  decide_after_pre, from_pre_rule, model_of, base_context,
}

-- What the client and the audit are told of who decided and how.
abbrev pub Verdict : Type 0 → Type 0
Verdict Num = Decision × DecisionSource × Option (RuleHit Num)

abbrev pub verdict :
    {Num : Type 0} → Option (PredictDecisionContext Num × Late Num) → Option (Verdict Num)
verdict none = none
verdict (some (ctx, late)) = some (ctx.final_decision, ctx.decision_source, ctx.hit)

module _ (js : Host) (services : Services js.Num) where
  open js use {Num}

  -- The decision without the early pass.
  unfoldable pub predict_loading :
      RulesService Num → PredictInvocation Num → Option (Decided js services)
  predict_loading rules invocation =
      decide_with_features js services rules invocation (model_of js services invocation)
        (base_context js services invocation) (services.load invocation.request)

  module _ (rules : RulesService Num) (invocation : PredictInvocation Num)
      (features : FeaturesPayload Num services.Vector)
      (loaded : services.load invocation.request ≡ some features) where
    -- A hit of the early pass that the full pass finds too.
    same_hit :
        (hit : RuleHit Num)
        → evaluate_stage js rules pre
            (record (base_context js services invocation) { features = features.snapshot })
          ≡ some hit
        → verdict (decide_early js services rules invocation (hard_decision (some hit)))
          ≡ verdict (predict_loading rules invocation)
    unfolding predict_loading decide_early decide_with_features decide_after_pre from_pre_rule
    same_hit hit again = elim (Option-cases (rule_action_to_decision hit.rule.action)) [
      | inl undecided ↦ rw undecided refl
      | inr (d, decides) ↦ rw (loaded, again, decides) refl
    ]

  -- Over a table of rules that pass the validation as they are loaded, and for a request of a named tenant whose features load, the
  -- decision, its source and the rule behind it are those of the decision without the early pass.
  pub predict-predict_loading :
      (parse : String → Value Num) (names : List String) (table : List (RuleRow Num))
      (invocation : PredictInvocation Num) (tenant : String)
      (features : FeaturesPayload Num services.Vector)
      → All (IsSaved parse names) table
      → scope invocation.tenant_id ≡ some tenant
      → services.load invocation.request ≡ some features
      → verdict (predict js services (reload parse table) invocation)
        ≡ verdict (predict_loading (reload parse table) invocation)
  unfolding predict build_rule_context
  predict-predict_loading parse names table invocation tenant features saved named loaded =
      let base = base_context js services invocation in
      elim (Option-cases (evaluate_request_only_pre js (reload parse table) base)) [
        | inl no_hit ↦ rw no_hit (unfold decide_early predict_loading in refl)
        | inr (hit, early) ↦ rw early (
            same_hit (reload parse table) invocation features loaded hit (
              shortcut_saved js parse names table base features.snapshot tenant hit saved named
                early))
      ]
