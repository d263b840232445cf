-- ===== src/Rules/Tests.antt =====
-- Runs of the rules engine on small inputs.
use ojuri.Prelude.{
  ℕ, ◌≡◌, refl, String, Bool, true, false, Option, none, some, List, [], ◌∷◌, ltb, leb, ◌==◌, All,
  str_eq, if◌then◌else◌, ◌≤◌,
}
use ojuri.Enums.{RuleAction, pre, post}
use ojuri.Rules.Value.{
  Value, bool, null, undefined, num, str, arr, obj, nil, cons, Members, end, member, Host, text,
  number, truthy,
}
use ojuri.Rules.Evaluator.{
  RuleContext, ok, evaluate, resolve_binary, apply_operator, resolve_var, resolve_parts,
  context_members, includes, collect_var_paths, has_string_haystack,
}
use ojuri.Rules.Value.{own, prepend}
use ojuri.Rules.Evaluator.Features.{avoids_features, evaluate-features}
use ojuri.Rules.Service.{
  RuleRow, RuleHit, reload, to_record, records, list_active_ordered, note_all, note_best,
  note_scoped, evaluate_request_only_pre, evaluate_stage, feature_dependent_cutoff, tenant_mismatch,
  matches,
}
use ojuri.Rules.Validation.{validate_expression, known_vars, max_nodes, max_depth}
use ojuri.Rules.Validation.Form.{size, height}
use ojuri.Rules.Validation.Saved.{IsSaved, shortcut_saved, validate_expression_sound}

-- Whole numbers that no text denotes.
abbrev naturals : Host
naturals = record {
  Num = ℕ;
  zero = 0;
  one = 1;
  nan = 0;
  of_string = λ s. 0;
  to_string = λ n. "n";
  num_lt = ltb;
  num_le = leb;
  num_eq = λ a b. a == b;
  inherited = λ key. undefined;
  property = λ v key. undefined;
  same_object = λ ms ns. false;
}

abbrev variable : String → Value ℕ
variable path = obj (member "var" (str path) end)

abbrev binary : String → Value ℕ → Value ℕ → Value ℕ
binary op a b = obj (member op (arr (cons a (cons b nil))) end)

-- `JSON.parse` of two texts.
abbrev parse : String → Value ℕ
parse s = if str_eq s "true" then bool true else null

abbrev large_amount : Value ℕ
large_amount = binary ">=" (variable "amount") (num 100)

abbrev fast_sender : Value ℕ
fast_sender = binary ">" (variable "features.velocity_1h") (num 5)

abbrev request : Members ℕ → RuleContext ℕ
request features = record {
  tenant_id = some "acme";
  request = ("amount", num 250) ∷ ("ip_country", str "NG") ∷ [];
  features = features;
  ml_score = none;
  ml_decision = none;
}

abbrev rule : String → ℕ → Value ℕ → RuleRow ℕ
rule id priority expression = record {
  id = id;
  name = id;
  description = none;
  stage = pre;
  priority = priority;
  action = RuleAction.deny;
  expression = expression;
  is_active = true;
  tenant_id = none;
  created_at = 0;
}

abbrev rule_table : List (RuleRow ℕ)
rule_table = rule "slow" 20 fast_sender ∷ rule "large" 10 large_amount ∷ []

evaluate_large : evaluate naturals (request end) large_amount ≡ ok true
unfolding evaluate apply_operator resolve_binary resolve_var resolve_parts context_members own
    prepend number truthy text
evaluate_large = refl

evaluate_features_example :
    evaluate naturals (request end) large_amount
    ≡ evaluate naturals (request (member "velocity_1h" (num 9) end)) large_amount
unfolding avoids_features ojuri.Rules.Path.split_dot
evaluate_features_example =
    evaluate-features naturals (request end) (member "velocity_1h" (num 9) end) large_amount refl

large_hit : RuleHit ℕ
large_hit = record { rule = to_record parse (rule "large" 10 large_amount); stage = pre }

rule_table-IsSaved : All (IsSaved parse ("velocity_1h" ∷ [])) rule_table
unfolding validate_expression
rule_table-IsSaved = ((pre, refl), ((pre, refl), tt))

early_hit :
    evaluate_request_only_pre naturals (reload parse rule_table) (request end) ≡ some large_hit
unfolding evaluate_request_only_pre reload large_hit to_record records list_active_ordered note_all
    note_best note_scoped feature_dependent_cutoff tenant_mismatch matches evaluate apply_operator
    resolve_binary resolve_var resolve_parts context_members own prepend number truthy
    collect_var_paths ojuri.Prelude.Assoc.get text
early_hit = refl

shortcut_saved_example :
    evaluate_stage naturals
      (reload parse rule_table)
      pre
      (request (member "velocity_1h" (num 9) end))
    ≡ some large_hit
shortcut_saved_example =
    shortcut_saved naturals parse ("velocity_1h" ∷ []) rule_table (request end)
      (member "velocity_1h" (num 9) end) "acme" large_hit rule_table-IsSaved refl early_hit

validate_expression_sound_example :
    All (λ p. includes (known_vars [] post) p ≡ true) (collect_var_paths large_amount)
    × (has_string_haystack large_amount ≡ false)
    × (size large_amount ≤ max_nodes)
    × (height large_amount ≤ max_depth)
unfolding validate_expression
validate_expression_sound_example = validate_expression_sound [] large_amount post refl
