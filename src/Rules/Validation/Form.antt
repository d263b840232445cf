-- ===== src/Rules/Validation/Form.antt =====
-- What a valid rule expression is, without the walk: its form, its size and its nesting.
use ojuri.Prelude.{ℕ, ◌+◌, max, String, Bool, true, false, not, ◌&&◌, List, str_eq, if◌then◌else◌}
use ojuri.Rules.Value.{Value, str, arr, obj, Items, nil, cons, Members, end, member, is_array}
use ojuri.Rules.Evaluator.{includes, rule_operators}

-- A `var` takes a text that is not empty, the name of an allowed variable.
abbrev pub var_form : {Num : Type 0} → List String → Value Num → Bool
var_form allowed (str s) = not (str_eq s "") && includes allowed s
var_form allowed _ = false

module _ {Num : Type 0} (allowed : List String) where
  unfoldable mutual
    -- Every object has one key, a known operator; `var` names an allowed variable; `in` takes a
    -- needle and an array.
    pub well_formed : Value Num → Bool
    well_formed (arr vs) = well_formed_items vs
    well_formed (obj ms) = well_formed_operator ms
    well_formed _ = true

    pub well_formed_items : Items Num → Bool
    well_formed_items nil = true
    well_formed_items (cons v vs) = well_formed v && well_formed_items vs

    pub well_formed_operator : Members Num → Bool
    well_formed_operator end = false
    well_formed_operator (member op args end) =
        let within = well_formed_in args in
        let deeper = well_formed args in
        includes rule_operators op
        && (if str_eq op "var"
            then var_form allowed args
            else if str_eq op "in"
            then within
            else deeper)
    well_formed_operator (member op args (member k v ms)) = false

    pub well_formed_in : Value Num → Bool
    well_formed_in (arr (cons a (cons b nil))) = is_array b && (well_formed a && well_formed b)
    well_formed_in _ = false

module _ {Num : Type 0} where
  unfoldable mutual
    -- The nodes that count against the budget: an `in` and its argument list are one.
    pub size : Value Num → ℕ
    size (arr vs) = 1 + size_items vs
    size (obj ms) = 1 + size_operator ms
    size _ = 1

    pub size_items : Items Num → ℕ
    size_items nil = 0
    size_items (cons v vs) = size v + size_items vs

    pub size_operator : Members Num → ℕ
    size_operator end = 0
    size_operator (member op args end) =
        let within = size_in args in
        let deeper = size args in
        if str_eq op "var" then 0 else if str_eq op "in" then within else deeper
    size_operator (member op args (member k v ms)) = 0

    pub size_in : Value Num → ℕ
    size_in (arr (cons a (cons b nil))) = size a + size b
    size_in _ = 0

  unfoldable mutual
    -- How deep operators nest; an argument list is no level.
    pub height : Value Num → ℕ
    height (arr vs) = height_items vs
    height (obj ms) = height_operator ms
    height _ = 0

    pub height_items : Items Num → ℕ
    height_items nil = 0
    height_items (cons v vs) = max (height v) (height_items vs)

    pub height_operator : Members Num → ℕ
    height_operator end = 0
    height_operator (member op args end) =
        let within = height_in args in
        let deeper = height args in
        if str_eq op "var" then 0 else if str_eq op "in" then 1 + within else 1 + deeper
    height_operator (member op args (member k v ms)) = 0

    pub height_in : Value Num → ℕ
    height_in (arr (cons a (cons b nil))) = max (height a) (height b)
    height_in _ = 0
