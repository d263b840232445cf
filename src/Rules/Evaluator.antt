-- ===== src/Rules/Evaluator.antt =====
-- src/shared/rules/evaluator.ts. Arguments are evaluated to results that an operator reads or
-- leaves alone: a result that is not read does not throw.
pub mod Features
use ojuri.Prelude.{
  ◌≡◌, refl, String, Bool, true, false, not, ◌||◌, ◌&&◌, Option, none, some, List, [], ◌∷◌, ◌++◌,
  str_eq, if◌then◌else◌, any, get_or_else, map,
}
use Prim.Native.Char.{Char}
use ojuri.Enums.{Decision, accept, decline, review}
use ojuri.Rules.Value.{
  Value, undefined, null, bool, num, str, arr, obj, Items, nil, cons, Members, end, member, Host,
  own, prepend, is_array, text, number, truthy, loose_eq,
}
use ojuri.Rules.Path.{split_dot}

pub data RuleError : Type 0 where
  not_single : RuleError
  unknown_operator : String → RuleError
  type_error : RuleError

pub data Result {ℓ} (A : Type ℓ) : Type ℓ where
  ok : A → Result A
  err : RuleError → Result A

infixl 5 ◌>>=◌
abbrev pub ◌>>=◌ {ℓ κ} : {A : Type ℓ} {B : Type κ} → Result A → (A → Result B) → Result B
ok a >>= f = f a
err e >>= f = err e

abbrev pub rule_operators : List String
rule_operators = "var" ∷ "==" ∷ "!=" ∷ ">" ∷ ">=" ∷ "<" ∷ "<=" ∷ "and" ∷ "or" ∷ "not" ∷ "in" ∷ []

abbrev pub includes : List String → String → Bool
includes l s = any (λ t. str_eq t s) l

-- `RuleContext`: the request's fields by name, the features, and what the POST stage adds.
pub record RuleContext (Num : Type 0) : Type 0 where
  pub tenant_id : Option String
  pub request : List (String × Value Num)
  pub features : Members Num
  pub ml_score : Option Num
  pub ml_decision : Option Decision

abbrev pub decision_text : Decision → String
decision_text accept = "ACCEPT"
decision_text decline = "DECLINE"
decision_text review = "REVIEW"

module _ {Num : Type 0} where
  abbrev pub opt : {A : Type 0} → (A → Value Num) → Option A → Value Num
  opt f none = undefined
  opt f (some a) = f a

  abbrev pub post_members : RuleContext Num → Members Num
  post_members ctx =
      member "ml_score" (opt num ctx.ml_score)
        (member "ml_decision" (opt (λ d. str (decision_text d)) ctx.ml_decision) end)

  unfoldable pub context_members : RuleContext Num → Members Num
  context_members ctx =
      member "tenant_id" (opt str ctx.tenant_id)
        (prepend ctx.request (member "features" (obj ctx.features) (post_members ctx)))

  abbrev pub first_is_array : Items Num → Bool
  first_is_array nil = false
  first_is_array (cons v vs) = is_array v

  abbrev pub second_is_array : Items Num → Bool
  second_is_array nil = false
  second_is_array (cons v vs) = first_is_array vs

  -- `Array.isArray(args) && !Array.isArray(args[1])`
  abbrev pub bad_in : Value Num → Bool
  bad_in (arr vs) = not (second_is_array vs)
  bad_in _ = false

  unfoldable mutual
    -- True when any `in` uses a haystack that is not an array.
    pub has_string_haystack : Value Num → Bool
    has_string_haystack (arr vs) = haystack_items vs
    has_string_haystack (obj ms) = haystack_members ms
    has_string_haystack _ = false

    pub haystack_items : Items Num → Bool
    haystack_items nil = false
    haystack_items (cons v vs) = has_string_haystack v || haystack_items vs

    pub haystack_members : Members Num → Bool
    haystack_members end = false
    haystack_members (member op args ms) =
        (not (str_eq op "var") && (str_eq op "in" && bad_in args || has_string_haystack args))
        || haystack_members ms

  abbrev pub var_path : Value Num → List String
  var_path (str s) = s ∷ []
  var_path _ = []

  unfoldable mutual
    -- The set as a list: only membership is asked of it.
    pub collect_var_paths : Value Num → List String
    collect_var_paths (arr vs) = collect_items vs
    collect_var_paths (obj ms) = collect_members ms
    collect_var_paths _ = []

    pub collect_items : Items Num → List String
    collect_items nil = []
    collect_items (cons v vs) = collect_var_paths v ++ collect_items vs

    pub collect_members : Members Num → List String
    collect_members end = []
    collect_members (member op args ms) =
        let inside = collect_var_paths args in
        let rest = collect_members ms in (if str_eq op "var" then var_path args else inside) ++ rest

-- The arguments of an operator, evaluated: by index if they are an array or a text, by name if
-- they are an object.
pub data Args (Num : Type 0) : Type 0 where
  indexed : List (Result (Value Num)) → Args Num
  letters : List (Result (Value Num)) → Args Num
  named : List (String × Result (Value Num)) → Args Num
  plain : Args Num
  nullish : Args Num

module _ {Num : Type 0} where
  abbrev pub at_0 : List (Result (Value Num)) → Result (Value Num)
  at_0 [] = ok undefined
  at_0 (r ∷ rs) = r

  abbrev pub at_1 : List (Result (Value Num)) → Result (Value Num)
  at_1 [] = ok undefined
  at_1 (r ∷ rs) = at_0 rs

  abbrev pub lookup_result : String → List (String × Result (Value Num)) → Result (Value Num)
  lookup_result key [] = ok undefined
  lookup_result key ((k, r) ∷ rs) = if str_eq k key then r else lookup_result key rs

  -- `evaluateAny(args[0])` and `evaluateAny(args[1])`
  unfoldable pub pair : Args Num → Result (Value Num × Value Num)
  pair (indexed rs) = at_0 rs >>= λ a. at_1 rs >>= λ b. ok (a, b)
  pair (letters rs) = at_0 rs >>= λ a. at_1 rs >>= λ b. ok (a, b)
  pair (named rs) = lookup_result "0" rs >>= λ a. lookup_result "1" rs >>= λ b. ok (a, b)
  pair plain = ok (undefined, undefined)
  pair nullish = err type_error

  -- `const [needle, haystack] = args`, each evaluated
  unfoldable pub destructured : Args Num → Result (Value Num × Value Num)
  destructured (indexed rs) = at_0 rs >>= λ a. at_1 rs >>= λ b. ok (a, b)
  destructured (letters rs) = at_0 rs >>= λ a. at_1 rs >>= λ b. ok (a, b)
  destructured _ = err type_error

  -- `.every` and `.some` are methods of arrays alone.
  unfoldable pub elements : Args Num → Result (List (Result (Value Num)))
  elements (indexed rs) = ok rs
  elements _ = err type_error

  -- `expr.map(...)`
  unfoldable pub collect : List (Result (Value Num)) → Result (Items Num)
  collect [] = ok nil
  collect (r ∷ rs) = r >>= λ v. collect rs >>= λ vs. ok (cons v vs)

  unfoldable pub letter_results : String → List (Result (Value Num))
  letter_results String.[] = []
  letter_results (String.◌∷◌ c t) = ok (str (String.◌∷◌ c String.[])) ∷ letter_results t

  -- `every` stops at the first value that is falsy, `some` at the first that is truthy.
  unfoldable pub every : (Value Num → Bool) → List (Result (Value Num)) → Result Bool
  every p [] = ok true
  every p (r ∷ rs) = let rest = every p rs in r >>= λ v. if p v then rest else ok false

  unfoldable pub some_of : (Value Num → Bool) → List (Result (Value Num)) → Result Bool
  some_of p [] = ok false
  some_of p (r ∷ rs) = let rest = some_of p rs in r >>= λ v. if p v then ok true else rest

module _ (js : Host) where
  open js use {Num, num_lt, num_le, inherited, property}

  -- `cursor[p]` along the parts of a path
  abbrev pub read : Value Num → String → Value Num
  read (obj ms) key = get_or_else (own ms key) (inherited key)
  read v key = property v key

  unfoldable pub resolve_parts : Value Num → List String → Value Num
  resolve_parts cursor [] = cursor
  resolve_parts undefined (p ∷ parts) = undefined
  resolve_parts null (p ∷ parts) = undefined
  resolve_parts cursor (p ∷ parts) = resolve_parts (read cursor p) parts

  unfoldable pub resolve_var : String → RuleContext Num → Value Num
  unfolding split_dot
  resolve_var path ctx =
      if str_eq path ""
      then undefined
      else resolve_parts (obj (context_members ctx)) (split_dot path)

  -- `resolveBinary(args, ctx, cmp)`
  unfoldable pub resolve_binary : (Value Num → Value Num → Bool) → Args Num → Result (Value Num)
  unfolding pair
  resolve_binary cmp args = pair args >>= λ ab. ok (bool (cmp ab.0 ab.1))

  unfoldable pub among : Value Num → Items Num → Bool
  among n nil = false
  among n (cons v vs) = loose_eq js v n || among n vs

  -- `h.some((v) => v == n)` where `h` is an array
  abbrev pub member_of : Value Num → Value Num → Bool
  member_of n (arr vs) = among n vs
  member_of n _ = false

  -- The `switch` of `evaluateAny`: `args` as it stands, `whole` its value, `parts` those of its
  -- parts.
  unfoldable pub apply_operator :
      RuleContext Num → String → Value Num → Result (Value Num) → Args Num → Result (Value Num)
  apply_operator ctx op args whole parts =
      if str_eq op "var"
      then ok (resolve_var (text js args) ctx)
      else if str_eq op "=="
      then resolve_binary (loose_eq js) parts
      else if str_eq op "!="
      then resolve_binary (λ a b. not (loose_eq js a b)) parts
      else if str_eq op ">"
      then resolve_binary (λ a b. num_lt (number js b) (number js a)) parts
      else if str_eq op ">="
      then resolve_binary (λ a b. num_le (number js b) (number js a)) parts
      else if str_eq op "<"
      then resolve_binary (λ a b. num_lt (number js a) (number js b)) parts
      else if str_eq op "<="
      then resolve_binary (λ a b. num_le (number js a) (number js b)) parts
      else if str_eq op "and"
      then (elements parts >>= λ rs. every (truthy js) rs >>= λ b. ok (bool b))
      else if str_eq op "or"
      then (elements parts >>= λ rs. some_of (truthy js) rs >>= λ b. ok (bool b))
      else if str_eq op "not"
      then (whole >>= λ v. ok (bool (not (truthy js v))))
      else if str_eq op "in"
      then (destructured parts >>= λ nh. ok (bool (member_of nh.0 nh.1)))
      else err (unknown_operator op)

  module _ (ctx : RuleContext Num) where
    unfoldable mutual
      -- `evaluateAny(expr, ctx)` with the results of the parts.
      pub evaluate_parts : Value Num → Result (Value Num) × Args Num
      evaluate_parts undefined = (ok undefined, nullish)
      evaluate_parts null = (ok null, nullish)
      evaluate_parts (bool b) = (ok (bool b), plain)
      evaluate_parts (num n) = (ok (num n), plain)
      evaluate_parts (str s) = (ok (str s), letters (letter_results s))
      evaluate_parts (arr vs) =
          let rs = evaluate_items vs in (collect rs >>= λ ws. ok (arr ws), indexed rs)
      evaluate_parts (obj ms) = (evaluate_operator ms, named (evaluate_members ms))

      pub evaluate_items : Items Num → List (Result (Value Num))
      evaluate_items nil = []
      evaluate_items (cons v vs) = (evaluate_parts v).0 ∷ evaluate_items vs

      pub evaluate_members : Members Num → List (String × Result (Value Num))
      evaluate_members end = []
      evaluate_members (member k v ms) = (k, (evaluate_parts v).0) ∷ evaluate_members ms

      -- An object must have a single key, its operator.
      pub evaluate_operator : Members Num → Result (Value Num)
      evaluate_operator end = err not_single
      evaluate_operator (member op args end) =
          apply_operator ctx op args (evaluate_parts args).0 (evaluate_parts args).1
      evaluate_operator (member op args (member k v ms)) = err not_single

    unfoldable pub evaluate_any : Value Num → Result (Value Num)
    unfolding evaluate_parts
    evaluate_any expr = (evaluate_parts expr).0

    unfoldable pub evaluate : Value Num → Result Bool
    unfolding evaluate_any
    evaluate expr = evaluate_any expr >>= λ v. ok (truthy js v)
