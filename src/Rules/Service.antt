-- ===== src/Rules/Service.antt =====
-- src/shared/rules/rules.service.ts and repositories/rule.repo.ts: the cache of the active rules
-- and the choice of the first hit. A priority is a natural number; `none` stands for
-- `Number.POSITIVE_INFINITY`.
pub mod Cutoff
pub mod Ordered
pub mod Shortcut
use text.Mathlib.Text.{starts_with}
use ojuri.Prelude.{
  ℕ, String, Bool, true, false, not, ◌&&◌, ◌||◌, Option, none, some, List, [], ◌∷◌, ltb, leb, ◌==◌,
  str_eq, if◌then◌else◌, any, filter, length, min, ◌++◌,
}
use ojuri.Prelude.Assoc
use ojuri.Prelude.Assoc.{Assoc}
use ojuri.Enums.{RuleAction, RuleStage, pre, post}
use ojuri.Rules.Value.{Value, str, Host}
use ojuri.Rules.Evaluator.{RuleContext, Result, ok, err, evaluate, collect_var_paths}

-- A stored rule.
pub record RuleRow (Num : Type 0) : Type 0 where
  pub id : String
  pub name : String
  pub description : Option String
  pub stage : RuleStage
  pub priority : ℕ
  pub action : RuleAction
  pub expression : Value Num
  pub is_active : Bool
  pub tenant_id : Option String
  pub created_at : ℕ

-- A cached rule: `row` has the expression parsed.
pub record RuleRecord (Num : Type 0) : Type 0 where
  pub row : RuleRow Num
  pub open row use *
  -- Reads no `features.*` path.
  pub request_only : Bool

pub record RuleHit (Num : Type 0) : Type 0 where
  pub rule : RuleRecord Num
  pub stage : RuleStage

-- The best priority of the PRE rules that read features: those for every tenant, and by tenant.
pub record Cutoffs : Type 0 where
  pub shared : Option ℕ
  pub by_tenant : Assoc ℕ

pub record RulesService (Num : Type 0) : Type 0 where
  pub pre_rules : List (RuleRecord Num)
  pub post_rules : List (RuleRecord Num)
  pub best : Cutoffs
  pub loaded : Bool

-- `Math.min` and `a >= b` where an absent number is infinite.
abbrev pub min_priority : Option ℕ → Option ℕ → Option ℕ
min_priority none b = b
min_priority (some a) none = some a
min_priority (some a) (some b) = some (min a b)

abbrev pub least : Option ℕ → ℕ → ℕ
least none p = p
least (some q) p = min q p

abbrev pub reaches : ℕ → Option ℕ → Bool
reaches p none = false
reaches p (some cutoff) = leb cutoff p

-- The tenant that a text names: the absent and the empty text are falsy.
abbrev pub scope : Option String → Option String
scope none = none
scope (some s) = if str_eq s "" then none else some s

abbrev pub differs : Option String → Option String → Bool
differs none b = false
differs (some s) none = false
differs (some s) (some t) = not (str_eq s t)

abbrev pub is_pre : RuleStage → Bool
is_pre pre = true
is_pre post = false

unfoldable pub note_scoped : Option String → ℕ → Cutoffs → Cutoffs
note_scoped none p c = record c { shared = min_priority c.shared (some p) }
note_scoped (some tenant) p c = record c {
  by_tenant = Assoc.set c.by_tenant tenant (least (Assoc.get c.by_tenant tenant) p);
}

unfoldable pub feature_dependent_cutoff : Cutoffs → Option String → Option ℕ
feature_dependent_cutoff c tenant =
    min_priority c.shared (elim (scope tenant) [ none ↦ none | some t ↦ Assoc.get c.by_tenant t ])

module _ {Num : Type 0} where
  -- `where({ isActive: true }).orderBy(priority, createdAt)`
  abbrev pub before : RuleRow Num → RuleRow Num → Bool
  before a b =
      ltb a.priority b.priority || a.priority == b.priority && leb a.created_at b.created_at

  unfoldable pub insert_row : RuleRow Num → List (RuleRow Num) → List (RuleRow Num)
  insert_row r [] = r ∷ []
  insert_row r (q ∷ rows) = if before r q then r ∷ q ∷ rows else q ∷ insert_row r rows

  unfoldable pub order_rows : List (RuleRow Num) → List (RuleRow Num)
  unfolding insert_row
  order_rows [] = []
  order_rows (r ∷ rows) = insert_row r (order_rows rows)

  unfoldable pub list_active_ordered : List (RuleRow Num) → List (RuleRow Num)
  unfolding order_rows
  list_active_ordered table = order_rows (filter (λ r. r.is_active) table)

  abbrev pub is_text : Value Num → Bool
  is_text (str s) = true
  is_text _ = false

  -- `JSON.parse` of an expression that is a text. `parse` is `JSON.parse` on the texts that it takes;
  -- a reload in which it throws is one that fails, which leaves the cache as it was.
  abbrev pub loaded_expression : (String → Value Num) → Value Num → Value Num
  loaded_expression parse (str s) = parse s
  loaded_expression parse expression = expression

  unfoldable pub to_record : (String → Value Num) → RuleRow Num → RuleRecord Num
  to_record parse row =
      let expression = loaded_expression parse row.expression in
      record {
        row = record row { expression = expression };
        request_only = not (any (λ v. starts_with v "features.") (collect_var_paths expression));
      }

  -- One round of the loop of `reload` over the PRE rules.
  unfoldable pub note_best : RuleRecord Num → Cutoffs → Cutoffs
  note_best rule c =
      if rule.request_only then c else note_scoped (scope rule.tenant_id) rule.priority c

  unfoldable pub note_all : List (RuleRecord Num) → Cutoffs → Cutoffs
  note_all [] c = c
  note_all (r ∷ rs) c = note_all rs (note_best r c)

  unfoldable pub records :
      (String → Value Num) → (RuleStage → Bool) → List (RuleRow Num) → List (RuleRecord Num)
  records parse p [] = []
  records parse p (row ∷ rows) =
      let rest = records parse p rows in if p row.stage then to_record parse row ∷ rest else rest

  -- The state after `reload` over the stored rows.
  unfoldable pub reload : (String → Value Num) → List (RuleRow Num) → RulesService Num
  reload parse table =
      let rows = list_active_ordered table in
      let pre_rules = records parse is_pre rows in
      record {
        pre_rules = pre_rules;
        post_rules = records parse (λ st. not (is_pre st)) rows;
        best = note_all pre_rules (record { shared = none; by_tenant = [] });
        loaded = true;
      }

module _ (js : Host) where
  open js use {Num}

  unfoldable pub tenant_mismatch : RuleRecord Num → RuleContext Num → Bool
  tenant_mismatch rule ctx = differs (scope rule.tenant_id) (scope ctx.tenant_id)

  abbrev holds : Result Bool → Bool
  holds (ok b) = b
  holds (err e) = false

  -- An expression that throws does not match.
  unfoldable pub matches : RuleRecord Num → RuleContext Num → Bool
  matches rule ctx = holds (evaluate js ctx rule.expression)

  unfoldable pub first_hit :
      RuleStage → List (RuleRecord Num) → RuleContext Num → Option (RuleHit Num)
  first_hit stage [] ctx = none
  first_hit stage (rule ∷ rules) ctx =
      let rest = first_hit stage rules ctx in
      if tenant_mismatch rule ctx
      then rest
      else if matches rule ctx
      then some (record { rule = rule; stage = stage })
      else rest

  unfoldable pub evaluate_stage :
      RulesService Num → RuleStage → RuleContext Num → Option (RuleHit Num)
  unfolding first_hit
  evaluate_stage s stage ctx =
      first_hit stage (if is_pre stage then s.pre_rules else s.post_rules) ctx

  unfoldable pub first_request_only_hit :
      Option ℕ → List (RuleRecord Num) → RuleContext Num → Option (RuleHit Num)
  first_request_only_hit cutoff [] ctx = none
  first_request_only_hit cutoff (rule ∷ rules) ctx =
      let rest = first_request_only_hit cutoff rules ctx in
      if not rule.request_only
      then rest
      else if reaches rule.priority cutoff
      then none
      else if tenant_mismatch rule ctx
      then rest
      else if matches rule ctx
      then some (record { rule = rule; stage = pre })
      else rest

  unfoldable pub evaluate_request_only_pre :
      RulesService Num → RuleContext Num → Option (RuleHit Num)
  unfolding first_request_only_hit
  evaluate_request_only_pre s ctx =
      first_request_only_hit (feature_dependent_cutoff s.best ctx.tenant_id) s.pre_rules ctx
