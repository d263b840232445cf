-- ===== src/Rules/Validation.antt =====
-- src/shared/rules/rule-validation.ts: what a rule must satisfy when it is saved.
pub mod Form
pub mod Sound
pub mod Reads
pub mod Classed
pub mod Saved
use text.Mathlib.Text.{starts_with}
use ojuri.Prelude.{
  ℕ, ◌+◌, String, Bool, true, false, not, ◌&&◌, ◌||◌, List, [], ◌∷◌, ◌++◌, ltb, str_eq, map, length,
  if◌then◌else◌,
}
use Prim.Native.String.{◌++◌ as ◌+++◌}
use ojuri.Enums.{RuleStage}
use ojuri.Rules.Value.{
  Value, undefined, null, bool, num, str, arr, obj, Items, nil, cons, Members, end, member, items,
  is_array,
}
use ojuri.Rules.Evaluator.{includes, rule_operators}
use ojuri.Rules.Service.{is_pre}

abbrev pub max_depth : ℕ
max_depth = 32

abbrev pub max_nodes : ℕ
max_nodes = 500

abbrev pub max_haystack : ℕ
max_haystack = 200

pub data Problem : Type 0 where
  too_many_nodes too_deep bad_var bad_in in_not_array haystack_too_long : Problem
  not_single : List String → Problem
  unknown_operator unknown_feature unknown_variable : String → Problem

abbrev pub request_vars : List String
request_vars =
    "transaction_id" ∷ "sender_id" ∷ "receiver_id" ∷ "amount" ∷ "transaction_type" ∷ "timestamp"
    ∷ "segment" ∷ "tenant_id" ∷ "ip_country" ∷ "transaction_country" ∷ "destination_country"
    ∷ "ip_is_vpn" ∷ "device_is_trusted" ∷ "is_authenticated" ∷ "session_to_txn_seconds"
    ∷ "account_age_days" ∷ "channel" ∷ "currency" ∷ []

abbrev pub post_only_vars : List String
post_only_vars = "ml_score" ∷ "ml_decision" ∷ []

-- `names` are those of the feature catalogue.
unfoldable pub known_vars : List String → RuleStage → List String
known_vars names stage =
    request_vars
    ++ ((if is_pre stage then [] else post_only_vars) ++ map (λ n. ◌+++◌ "features." n) names)

-- The problems found so far and the nodes counted.
pub record Walk : Type 0 where
  pub nodes : ℕ
  pub problems : List Problem

abbrev pub push : Problem → Walk → Walk
push p w = record w { problems = w.problems ++ p ∷ [] }

abbrev pub counted : Walk → Walk
counted w = record w { nodes = w.nodes + 1 }

-- The tests at the head of `walk`; `rest` is what follows them.
unfoldable pub guarded : ℕ → Walk → Walk → Walk
guarded depth w rest =
    if ltb max_nodes (w.nodes + 1)
    then push too_many_nodes (counted w)
    else if ltb max_depth depth
    then push too_deep (counted w)
    else rest

module _ {Num : Type 0} where
  abbrev pub keys : Members Num → List String
  keys end = []
  keys (member k v ms) = k ∷ keys ms

  unfoldable pub check_haystack : Value Num → Walk → Walk
  check_haystack (arr vs) w =
      if ltb max_haystack (length (items vs)) then push haystack_too_long w else w
  check_haystack _ w = push in_not_array w

  module _ (allowed : List String) where
    unfoldable pub check_var : Value Num → Walk → Walk
    check_var (str s) w =
        if str_eq s ""
        then push bad_var w
        else if includes allowed s
        then w
        else if starts_with s "features."
        then push (unknown_feature s) w
        else push (unknown_variable s) w
    check_var _ w = push bad_var w

    unfoldable mutual
      pub walk : Value Num → ℕ → Walk → Walk
      walk (arr vs) depth w = let rest = walk_items vs depth (counted w) in guarded depth w rest
      walk (obj ms) depth w = let rest = walk_operator ms depth (counted w) in guarded depth w rest
      walk _ depth w = guarded depth w (counted w)

      pub walk_items : Items Num → ℕ → Walk → Walk
      walk_items nil depth w = w
      walk_items (cons v vs) depth w = walk_items vs depth (walk v depth w)

      pub walk_operator : Members Num → ℕ → Walk → Walk
      walk_operator end depth w = push (not_single []) w
      walk_operator (member op args end) depth w =
          let within = walk_in args depth w in
          let deeper = walk args (depth + 1) w in
          if not (includes rule_operators op)
          then push (unknown_operator op) w
          else if str_eq op "var"
          then check_var args w
          else if str_eq op "in"
          then within
          else deeper
      walk_operator (member op args (member k v ms)) depth w =
          push (not_single (keys (member op args (member k v ms)))) w

      -- The branch of `in`.
      pub walk_in : Value Num → ℕ → Walk → Walk
      walk_in (arr (cons a (cons b nil))) depth w =
          walk b (depth + 1) (walk a (depth + 1) (check_haystack b w))
      walk_in _ depth w = push bad_in w

    unfoldable pub validate_with : Value Num → List Problem
    unfolding walk guarded check_var check_haystack
    validate_with expr = (walk expr 0 (record { nodes = 0; problems = [] })).problems

  -- The problems that `validateExpression` throws; it returns where there is none.
  unfoldable pub validate_expression : List String → Value Num → RuleStage → List Problem
  unfolding validate_with known_vars
  validate_expression names expr stage = validate_with (known_vars names stage) expr
