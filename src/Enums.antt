-- ===== src/Enums.antt =====
-- src/shared/enums: decision.enum.ts, decision-source.enum.ts, rule-action.enum.ts and
-- rule-stage.enum.ts.
pub data Decision : Type 0 where
  accept decline review : Decision

pub data DecisionSource : Type 0 where
  ml pre_rule post_rule breaker_fallback : DecisionSource

pub data RuleAction : Type 0 where
  allow deny review nothing : RuleAction

pub data RuleStage : Type 0 where
  pre post : RuleStage
