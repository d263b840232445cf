-- ===== src/Rules/Manage.antt =====
-- rules.service.ts, `create`, `update` and `delete`, over the stored rows of rule.repo.ts. The new
-- id and the time of creation are the database's. Whether the reload that follows a write succeeds
-- is an argument. An expression is stored as it is given; a text and the JSON that it denotes are
-- loaded alike. The broadcast to other instances is not modelled.
pub mod Kept
mod Tests
use ojuri.Prelude.{
  ℕ, String, Bool, true, false, Option, none, some, List, [], ◌∷◌, ◌++◌, get_or_else, is_some, ◌||◌,
  length, filter, not, str_eq, if◌then◌else◌,
}
use ojuri.Enums.{RuleAction, RuleStage, pre, post}
use ojuri.Rules.Value.{Value}
use ojuri.Rules.Service.{RuleRow, RulesService, reload}
use ojuri.Rules.Validation.{Problem, validate_expression}

pub record CreateRuleInput (Num : Type 0) : Type 0 where
  pub name : String
  pub description : Option String
  pub stage : Option RuleStage
  pub priority : Option ℕ
  pub action : RuleAction
  pub expression : Value Num
  pub tenant_id : Option String
  pub is_active : Option Bool

-- `none` is a key that the patch does not have.
pub record UpdateRuleInput (Num : Type 0) : Type 0 where
  pub name : Option String
  pub description : Option (Option String)
  pub stage : Option RuleStage
  pub priority : Option ℕ
  pub action : Option RuleAction
  pub expression : Option (Value Num)
  pub is_active : Option Bool

-- The stored rows and the cache over them.
pub record Rules (Num : Type 0) : Type 0 where
  pub table : List (RuleRow Num)
  pub cache : RulesService Num

-- The answer of an operation: the problems that validation threw, or its result.
pub data Reply (A : Type 0) : Type 0 where
  rejected : List Problem → Reply A
  returned : A → Reply A

module _ {Num : Type 0} where
  -- The cache is that of the stored rows, where the reload succeeded.
  unfoldable pub written : (String → Value Num) → Bool → List (RuleRow Num) → Rules Num → Rules Num
  written parse true table s = record { table = table; cache = reload parse table }
  written parse false table s = record s { table = table }

  unfoldable pub created_row : String → ℕ → CreateRuleInput Num → RuleRow Num
  created_row id at input = record {
    id = id;
    name = input.name;
    description = input.description;
    stage = get_or_else input.stage post;
    priority = get_or_else input.priority 100;
    action = input.action;
    expression = input.expression;
    is_active = get_or_else input.is_active false;
    tenant_id = input.tenant_id;
    created_at = at;
  }

  -- The rest of `create`, once validation has found these problems.
  unfoldable pub create_checked :
      (String → Value Num)
      → Bool
      → RuleRow Num
      → Rules Num
      → List Problem
      → Rules Num × Reply (RuleRow Num)
  unfolding written
  create_checked parse reloads row s (p ∷ problems) = (s, rejected (p ∷ problems))
  create_checked parse reloads row s [] =
      (written parse reloads (s.table ++ row ∷ []) s, returned row)

  unfoldable pub create :
      (String → Value Num)
      → List String
      → Bool
      → String
      → ℕ
      → CreateRuleInput Num
      → Rules Num
      → Rules Num × Reply (RuleRow Num)
  unfolding create_checked created_row
  create parse names reloads id at input s =
      create_checked parse reloads (created_row id at input) s
        (validate_expression names input.expression (get_or_else input.stage post))

  abbrev pub find_by_id : List (RuleRow Num) → String → Option (RuleRow Num)
  find_by_id [] id = none
  find_by_id (row ∷ rows) id = if str_eq row.id id then some row else find_by_id rows id

  unfoldable pub patched_row : UpdateRuleInput Num → RuleRow Num → RuleRow Num
  patched_row fields row = record row {
    name = get_or_else fields.name row.name;
    description = get_or_else fields.description row.description;
    stage = get_or_else fields.stage row.stage;
    priority = get_or_else fields.priority row.priority;
    action = get_or_else fields.action row.action;
    expression = get_or_else fields.expression row.expression;
    is_active = get_or_else fields.is_active row.is_active;
  }

  unfoldable pub patch_by_id :
      UpdateRuleInput Num → String → List (RuleRow Num) → List (RuleRow Num)
  unfolding patched_row
  patch_by_id fields id [] = []
  patch_by_id fields id (row ∷ rows) =
      let rest = patch_by_id fields id rows in
      if str_eq row.id id then patched_row fields row ∷ rest else row ∷ rest

  abbrev pub is_empty_patch : UpdateRuleInput Num → Bool
  is_empty_patch fields = not (
      is_some fields.name
      || is_some fields.description
      || is_some fields.stage
      || is_some fields.priority
      || is_some fields.action
      || is_some fields.expression
      || is_some fields.is_active)

  unfoldable pub update_checked :
      (String → Value Num)
      → Bool
      → String
      → UpdateRuleInput Num
      → Rules Num
      → List Problem
      → Rules Num × Reply (Option (RuleRow Num))
  unfolding written patch_by_id
  update_checked parse reloads id fields s (p ∷ problems) = (s, rejected (p ∷ problems))
  update_checked parse reloads id fields s [] =
      let table = patch_by_id fields id s.table in
      (written parse reloads table s, returned (find_by_id table id))

  -- The problems of the patch's expression for its stage, or for the stage of the stored row.
  unfoldable pub update_with :
      (String → Value Num)
      → List String
      → Bool
      → String
      → UpdateRuleInput Num
      → Rules Num
      → Option (Value Num)
      → Option (RuleRow Num)
      → Rules Num × Reply (Option (RuleRow Num))
  unfolding update_checked
  update_with parse names reloads id fields s none existing =
      update_checked parse reloads id fields s []
  update_with parse names reloads id fields s (some expr) none = (s, returned none)
  update_with parse names reloads id fields s (some expr) (some row) =
      update_checked parse reloads id fields s
        (validate_expression names expr (get_or_else fields.stage row.stage))

  unfoldable pub update :
      (String → Value Num)
      → List String
      → Bool
      → String
      → UpdateRuleInput Num
      → Rules Num
      → Rules Num × Reply (Option (RuleRow Num))
  unfolding update_with
  update parse names reloads id fields s =
      if is_empty_patch fields
      then (s, returned none)
      else update_with parse names reloads id fields s fields.expression (find_by_id s.table id)

  -- `delete`; the answer is whether a row went.
  unfoldable pub remove : (String → Value Num) → Bool → String → Rules Num → Rules Num × Bool
  unfolding written
  remove parse reloads id s =
      if is_some (find_by_id s.table id)
      then (written parse reloads (filter (λ row. not (str_eq row.id id)) s.table) s, true)
      else (s, false)
