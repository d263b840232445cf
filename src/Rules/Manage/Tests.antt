-- ===== src/Rules/Manage/Tests.antt =====
-- A rule is created and runs.
use ojuri.Prelude.{
  ℕ, String, ◌≡◌, refl, Bool, true, false, Option, none, some, List, [], ◌∷◌, ltb, leb, ◌==◌, All,
  str_eq, if◌then◌else◌,
}
use ojuri.Enums.{RuleAction, pre}
use ojuri.Rules.Value.{
  Value, bool, null, undefined, num, str, arr, obj, nil, cons, Members, end, member, Host,
}
use ojuri.Rules.Evaluator.{RuleContext}
use ojuri.Rules.Service.{
  RuleRow, RuleHit, reload, to_record, evaluate_request_only_pre, evaluate_stage,
}
use ojuri.Rules.Manage.{Rules, CreateRuleInput, create, created_row}
use ojuri.Rules.Manage.Kept.{Managed, start, created, Managed-shortcut}

-- Whole numbers that no text denotes.
abbrev naturals : Host
naturals = record {
  Num = ℕ;
  zero = 0;
  one = 1;
  nan = 0;
  of_string = λ s. 0;
  to_string = λ n. "n";
  num_lt = ltb;
  num_le = leb;
  num_eq = λ a b. a == b;
  inherited = λ key. undefined;
  property = λ v key. undefined;
  same_object = λ ms ns. false;
}

-- `JSON.parse` of two texts.
abbrev parse : String → Value ℕ
parse s = if str_eq s "true" then bool true else null

abbrev large : CreateRuleInput ℕ
large = record {
  name = "large";
  description = none;
  stage = some pre;
  priority = some 10;
  action = RuleAction.deny;
  expression =
      obj
        (member ">=" (arr (cons (obj (member "var" (str "amount") end)) (cons (num 100) nil))) end);
  tenant_id = none;
  is_active = some true;
}

abbrev no_rules : Rules ℕ
no_rules = record { table = []; cache = reload parse [] }

abbrev with_rule : Rules ℕ
with_rule = (create parse ("velocity_1h" ∷ []) true "r1" 5 large no_rules).0

with_rule-Managed : Managed parse ("velocity_1h" ∷ []) with_rule
with_rule-Managed = created true "r1" 5 large refl start

abbrev request : RuleContext ℕ
request = record {
  tenant_id = some "acme";
  request = ("amount", num 250) ∷ [];
  features = end;
  ml_score = none;
  ml_decision = none;
}

abbrev large_hit : RuleHit ℕ
large_hit = record { rule = to_record parse (created_row "r1" 5 large); stage = pre }

early_hit : evaluate_request_only_pre naturals with_rule.cache request ≡ some large_hit
unfolding create ojuri.Rules.Manage.create_checked ojuri.Rules.Manage.written created_row
    ojuri.Rules.Validation.validate_expression ojuri.Rules.Service.evaluate_request_only_pre reload
    to_record ojuri.Rules.Service.records ojuri.Rules.Service.list_active_ordered
    ojuri.Rules.Service.note_all ojuri.Rules.Service.note_best ojuri.Rules.Service.note_scoped
    ojuri.Rules.Service.feature_dependent_cutoff ojuri.Rules.Service.tenant_mismatch
    ojuri.Rules.Service.matches ojuri.Rules.Evaluator.evaluate ojuri.Rules.Evaluator.apply_operator
    ojuri.Rules.Evaluator.resolve_binary ojuri.Rules.Evaluator.resolve_var
    ojuri.Rules.Evaluator.resolve_parts ojuri.Rules.Evaluator.context_members ojuri.Rules.Value.own
    ojuri.Rules.Value.prepend ojuri.Rules.Value.number ojuri.Rules.Value.truthy
    ojuri.Rules.Evaluator.collect_var_paths ojuri.Prelude.Assoc.get ojuri.Rules.Value.text
early_hit = refl

Managed-shortcut_example :
    evaluate_stage naturals with_rule.cache pre
      (record request { features = member "velocity_1h" (num 9) end })
    ≡ some large_hit
Managed-shortcut_example =
    Managed-shortcut naturals parse ("velocity_1h" ∷ []) request (member "velocity_1h" (num 9) end)
      "acme" large_hit with_rule-Managed refl early_hit
