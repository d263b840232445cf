-- ===== src/Rules/Manage/Kept.antt =====
-- The rules that the service stores and caches pass the validation, where their expressions are not
-- texts.
use ojuri.Prelude.{
  ℕ, String, ◌≡◌, refl, sym, ap, ◌∙◌, subst, Bool, true, false, not, Option, none, some, List, [],
  ◌∷◌, ◌++◌, get_or_else, is_some, str_eq, All, All-append, All-filter, Bool-cases, inl, inr,
}
use ojuri.Enums.{RuleStage, pre, post}
use ojuri.Rules.Value.{Value, undefined, null, bool, num, str, arr, obj, Members, Host}
use ojuri.Rules.Evaluator.{RuleContext}
use ojuri.Rules.Service.{
  RuleRow, RuleHit, reload, scope, evaluate_request_only_pre, evaluate_stage, is_text,
  loaded_expression,
}
use ojuri.Rules.Validation.{Problem, validate_expression}
use ojuri.Rules.Validation.Saved.{IsSaved, shortcut_saved}
use ojuri.Rules.Manage.{
  Rules, CreateRuleInput, UpdateRuleInput, written, created_row, create_checked, create, find_by_id,
  patched_row, patch_by_id, is_empty_patch, update_checked, update_with, update, remove,
}

module _ {Num : Type 0} (parse : String → Value Num) (names : List String) where
  loaded_expression-plain :
      (expr : Value Num) → is_text expr ≡ false → loaded_expression parse expr ≡ expr
  loaded_expression-plain undefined h = refl
  loaded_expression-plain null h = refl
  loaded_expression-plain (bool b) h = refl
  loaded_expression-plain (num n) h = refl
  loaded_expression-plain (str s) h = cc
  loaded_expression-plain (arr es) h = refl
  loaded_expression-plain (obj ms) h = refl

  loaded-checked :
      (expr : Value Num) (stage : RuleStage)
      → is_text expr ≡ false
      → validate_expression names expr stage ≡ []
      → validate_expression names (loaded_expression parse expr) stage ≡ []
  loaded-checked expr stage plain valid = rw (loaded_expression-plain expr plain) valid

  -- The patch has no expression, or one that is not a text.
  abbrev pub HasNoText : UpdateRuleInput Num → Type 0
  HasNoText fields = is_text (get_or_else fields.expression undefined) ≡ false

  -- The stored rules pass the validation as they are loaded, and so do the rules that the cache was
  -- loaded from.
  pub record AllSaved (s : Rules Num) : Type 0 where
    pub stored : All (IsSaved parse names) s.table
    pub source : List (RuleRow Num)
    pub validated : All (IsSaved parse names) source
    pub loaded : s.cache ≡ reload parse source

  written-AllSaved :
      (reloads : Bool) (table : List (RuleRow Num)) (s : Rules Num)
      → All (IsSaved parse names) table
      → AllSaved s
      → AllSaved (written parse reloads table s)
  unfolding written
  written-AllSaved true table s h k = record {
    stored = h;
    source = table;
    validated = h;
    loaded = refl;
  }
  written-AllSaved false table s h k = record {
    stored = h;
    source = k.source;
    validated = k.validated;
    loaded = k.loaded;
  }

  create_checked-AllSaved :
      (reloads : Bool) (row : RuleRow Num) (s : Rules Num) (problems : List Problem)
      → (problems ≡ [] → IsSaved parse names row)
      → AllSaved s
      → AllSaved (create_checked parse reloads row s problems).0
  unfolding create_checked
  create_checked-AllSaved reloads row s (p ∷ problems) valid h = h
  create_checked-AllSaved reloads row s [] valid h =
      written-AllSaved reloads (s.table ++ row ∷ []) s
        (All-append (IsSaved parse names) s.table (row ∷ []) h.stored (valid refl, tt)) h

  create-AllSaved :
      (reloads : Bool) (id : String) (at : ℕ) (input : CreateRuleInput Num) (s : Rules Num)
      → is_text input.expression ≡ false
      → AllSaved s
      → AllSaved (create parse names reloads id at input s).0
  unfolding create created_row
  create-AllSaved reloads id at input s plain h =
      create_checked-AllSaved reloads (created_row id at input) s
        (validate_expression names input.expression (get_or_else input.stage post))
        (λ none_found. (
          get_or_else input.stage post,
          loaded-checked input.expression (get_or_else input.stage post) plain none_found,
        ))
        h

  -- The expression of a patch, as it is loaded, passes the validation, where it has one.
  abbrev IsChecked : Option (Value Num) → Type 0
  IsChecked none = Unit
  IsChecked (some expr) =
      (stage : RuleStage) × (validate_expression names (loaded_expression parse expr) stage ≡ [])

  patched-IsSaved :
      (o : Option (Value Num)) (row : RuleRow Num)
      → IsChecked o
      → IsSaved parse names row
      → (stage : RuleStage) × (validate_expression names
            (loaded_expression parse (get_or_else o row.expression))
            stage
          ≡ [])
  patched-IsSaved none row c h = h
  patched-IsSaved (some expr) row c h = c

  patch_by_id-AllSaved :
      (fields : UpdateRuleInput Num) (id : String) (table : List (RuleRow Num))
      → IsChecked fields.expression
      → All (IsSaved parse names) table
      → All (IsSaved parse names) (patch_by_id fields id table)
  unfolding patch_by_id patched_row
  patch_by_id-AllSaved fields id [] c h = tt
  patch_by_id-AllSaved fields id (row ∷ rows) c (p, h) = elim (Bool-cases (str_eq row.id id)) [
    | inl it ↦
        rw it (patched-IsSaved fields.expression row c p, patch_by_id-AllSaved fields id rows c h)
    | inr other ↦ rw other (p, patch_by_id-AllSaved fields id rows c h)
  ]

  update_checked-AllSaved :
      (reloads : Bool) (id : String) (fields : UpdateRuleInput Num) (s : Rules Num)
      (problems : List Problem)
      → (problems ≡ [] → IsChecked fields.expression)
      → AllSaved s
      → AllSaved (update_checked parse reloads id fields s problems).0
  unfolding update_checked
  update_checked-AllSaved reloads id fields s (p ∷ problems) c h = h
  update_checked-AllSaved reloads id fields s [] c h =
      written-AllSaved reloads (patch_by_id fields id s.table) s
        (patch_by_id-AllSaved fields id s.table (c refl) h.stored) h

  update_with-AllSaved :
      (reloads : Bool) (id : String) (fields : UpdateRuleInput Num) (s : Rules Num)
      (o : Option (Value Num)) (existing : Option (RuleRow Num))
      → HasNoText fields
      → fields.expression ≡ o
      → AllSaved s
      → AllSaved (update_with parse names reloads id fields s o existing).0
  unfolding update_with
  update_with-AllSaved reloads id fields s none existing plain e h =
      update_checked-AllSaved reloads id fields s [] (λ _. rw e tt) h
  update_with-AllSaved reloads id fields s (some expr) none plain e h = h
  update_with-AllSaved reloads id fields s (some expr) (some row) plain e h =
      update_checked-AllSaved reloads id fields s _
        (λ none_found. rw e (
          get_or_else fields.stage row.stage,
          loaded-checked expr (get_or_else fields.stage row.stage)
              (ap (λ o. is_text (get_or_else o undefined)) (sym e) ∙ plain) none_found,
        ))
        h

  update-AllSaved :
      (reloads : Bool) (id : String) (fields : UpdateRuleInput Num) (s : Rules Num)
      → HasNoText fields
      → AllSaved s
      → AllSaved (update parse names reloads id fields s).0
  unfolding update
  update-AllSaved reloads id fields s plain h = elim (Bool-cases (is_empty_patch fields)) [
    | inl empty ↦ rw empty h
    | inr filled ↦ rw filled (
        update_with-AllSaved reloads id fields s fields.expression (find_by_id s.table id) plain
          refl h)
  ]

  remove-AllSaved :
      (reloads : Bool) (id : String) (s : Rules Num)
      → AllSaved s
      → AllSaved (remove parse reloads id s).0
  unfolding remove
  remove-AllSaved reloads id s h = elim (Bool-cases (is_some (find_by_id s.table id))) [
    | inl there ↦ rw there (
        written-AllSaved reloads _ s
          (All-filter (IsSaved parse names) (λ row. not (str_eq row.id id)) s.table h.stored) h)
    | inr missing ↦ rw missing h
  ]

  -- What the operations make of an empty table, in any order, where no expression that they are
  -- given is a text.
  pub data Managed : Rules Num → Type 0 where
    start : Managed (record { table = []; cache = reload parse [] })
    created :
        {s : Rules Num} (reloads : Bool) (id : String) (at : ℕ) (input : CreateRuleInput Num)
        → is_text input.expression ≡ false
        → Managed s
        → Managed (create parse names reloads id at input s).0
    updated :
        {s : Rules Num} (reloads : Bool) (id : String) (fields : UpdateRuleInput Num)
        → HasNoText fields
        → Managed s
        → Managed (update parse names reloads id fields s).0
    removed :
        {s : Rules Num} (reloads : Bool) (id : String)
        → Managed s
        → Managed (remove parse reloads id s).0

  pub Managed-AllSaved : {s : Rules Num} → Managed s → AllSaved s
  Managed-AllSaved start = record { stored = tt; source = []; validated = tt; loaded = refl }
  Managed-AllSaved (created {s} reloads id at input plain m) =
      create-AllSaved reloads id at input s plain (Managed-AllSaved m)
  Managed-AllSaved (updated {s} reloads id fields plain m) =
      update-AllSaved reloads id fields s plain (Managed-AllSaved m)
  Managed-AllSaved (removed {s} reloads id m) = remove-AllSaved reloads id s (Managed-AllSaved m)

module _ (js : Host) (parse : String → Value js.Num) (names : List String) where
  open js use {Num}

  -- For a request of a named tenant, a hit of the early pass over the cache is the hit of the full
  -- PRE pass, at every moment of creating, updating and deleting rules whose expressions are not
  -- texts, and whatever the features are.
  pub Managed-shortcut :
      {s : Rules Num} (ctx : RuleContext Num) (loaded : Members Num) (tenant : String)
      (hit : RuleHit Num)
      → Managed parse names s
      → scope ctx.tenant_id ≡ some tenant
      → evaluate_request_only_pre js s.cache ctx ≡ some hit
      → evaluate_stage js s.cache pre (record ctx { features = loaded }) ≡ some hit
  Managed-shortcut {s} ctx loaded tenant hit m named early =
      let kept = Managed-AllSaved parse names m in
      subst (λ c. evaluate_stage js c pre (record ctx { features = loaded }) ≡ some hit)
        (sym kept.loaded)
        (shortcut_saved js parse names kept.source ctx loaded tenant hit kept.validated named
          (subst (λ c. evaluate_request_only_pre js c ctx ≡ some hit) kept.loaded early))
