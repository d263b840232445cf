-- ===== src/Rules/Validation/Saved.antt =====
-- The short-circuit of the rules service over a table of rules that pass the validation as they are
-- loaded.
use ojuri.Prelude.{
  ◌≤◌, ◌≡◌, refl, String, Bool, true, false, not, List, [], ◌∷◌, Bool-cases, inl, inr, All, some,
  filter, All-filter,
}
use ojuri.Enums.{RuleStage, pre}
use ojuri.Rules.Value.{Host, Members, Value}
use ojuri.Rules.Evaluator.{RuleContext, includes, has_string_haystack, collect_var_paths}
use ojuri.Rules.Validation.{known_vars, validate_expression, max_nodes, max_depth}
use ojuri.Rules.Validation.Form.{size, height}
use ojuri.Rules.Validation.Reads.{paths_allowed, haystack_free}
use ojuri.Rules.Validation.Sound.{validate_with_sound}
use ojuri.Rules.Validation.Classed.{avoids, features_unknown}
use ojuri.Rules.Service.{
  RuleRow, RuleHit, RuleRecord, loaded_expression, to_record, records, order_rows, insert_row,
  before, list_active_ordered, reload, scope, evaluate_request_only_pre, evaluate_stage, is_pre,
}
use ojuri.Rules.Service.Shortcut.{IsClassed, shortcut_sound}

-- The expression, as it is loaded, passes `validateExpression`, for one of the stages.
abbrev pub IsSaved : {Num : Type 0} → (String → Value Num) → List String → RuleRow Num → Type 0
IsSaved parse names row =
    (stage : RuleStage) × (validate_expression names (loaded_expression parse row.expression) stage
      ≡ [])

module _ {Num : Type 0} (P : RuleRow Num → Type 0) where
  insert_row-All :
      (r : RuleRow Num) (rows : List (RuleRow Num)) → P r → All P rows → All P (insert_row r rows)
  unfolding insert_row
  insert_row-All r [] p h = (p, tt)
  insert_row-All r (q ∷ rows) p (k, h) = elim (Bool-cases (before r q)) [
    | inl first ↦ rw first (p, (k, h))
    | inr later ↦ rw later (k, insert_row-All r rows p h)
  ]

  order_rows-All : (rows : List (RuleRow Num)) → All P rows → All P (order_rows rows)
  unfolding order_rows
  order_rows-All [] h = tt
  order_rows-All (r ∷ rows) (p, h) = insert_row-All r (order_rows rows) p (order_rows-All rows h)

  records-All :
      (parse : String → Value Num) (Q : RuleRecord Num → Type 0)
      → ((r : RuleRow Num) → P r → Q (to_record parse r))
      → (test : RuleStage → Bool) (rows : List (RuleRow Num)) → All P rows
      → All Q (records parse test rows)
  unfolding records
  records-All parse Q f test [] h = tt
  records-All parse Q f test (r ∷ rows) (p, h) = elim (Bool-cases (test r.stage)) [
    | inl kept ↦ rw kept (f r p, records-All parse Q f test rows h)
    | inr left ↦ rw left (records-All parse Q f test rows h)
  ]

-- A saved expression reads known variables alone, has no `in` over anything but an array, counts at
-- most 500 nodes and nests at most 32 operators.
pub validate_expression_sound :
    {Num : Type 0} (names : List String) (expr : Value Num) (stage : RuleStage)
    → validate_expression names expr stage ≡ []
    → All (λ p. includes (known_vars names stage) p ≡ true) (collect_var_paths expr)
      × (has_string_haystack expr ≡ false)
      × (size expr ≤ max_nodes)
      × (height expr ≤ max_depth)
unfolding validate_expression
validate_expression_sound names expr stage h =
    let (form, few, low) = validate_with_sound (known_vars names stage) expr h in
    (
      paths_allowed (known_vars names stage) expr form,
      haystack_free (known_vars names stage) expr form,
      few,
      low,
    )

module _ (js : Host) (parse : String → Value js.Num) (names : List String) where
  open js use {Num}

  not-true : (b : Bool) → not b ≡ true → b ≡ false
  not-true false h = refl
  not-true true h = cc

  IsSaved-IsClassed : (r : RuleRow Num) → IsSaved parse names r → IsClassed js (to_record parse r)
  unfolding to_record validate_expression
  IsSaved-IsClassed r (stage, valid) only =
      avoids (known_vars names stage) (features_unknown names stage)
        (loaded_expression parse r.expression)
        (validate_with_sound (known_vars names stage) (loaded_expression parse r.expression)
          valid).0
        (not-true _ only)

  -- Over a table of rules that pass the validation as they are loaded, and for a request of a named tenant, a hit of the pass that
  -- runs before the features are loaded is the hit of the full ordered PRE pass, whatever the
  -- features turn out to be.
  pub shortcut_saved :
      (table : List (RuleRow Num)) (ctx : RuleContext Num) (loaded : Members Num) (tenant : String)
      (hit : RuleHit Num)
      → All (IsSaved parse names) table
      → scope ctx.tenant_id ≡ some tenant
      → evaluate_request_only_pre js (reload parse table) ctx ≡ some hit
      → evaluate_stage js (reload parse table) pre (record ctx { features = loaded }) ≡ some hit
  unfolding reload list_active_ordered
  shortcut_saved table ctx loaded tenant hit saved named e =
      let kept = All-filter (IsSaved parse names) (λ r. r.is_active) table saved in
      shortcut_sound js parse table ctx loaded tenant hit named
        (records-All (IsSaved parse names) parse (IsClassed js) IsSaved-IsClassed is_pre
          (order_rows (filter (λ r. r.is_active) table))
          (order_rows-All (IsSaved parse names) (filter (λ r. r.is_active) table) kept))
        e
