-- ===== src/Rules/Value.antt =====
-- The JavaScript values that src/shared/rules/evaluator.ts computes with. A `RuleExpression` is
-- such a value too: it is JSON. Of numbers only what the evaluator does with them is known.
use ojuri.Prelude.{
  String, Bool, true, false, not, ◌&&◌, Option, none, some, List, [], ◌∷◌, str_eq, if◌then◌else◌,
}
use Prim.Native.String.{◌++◌ as ◌+++◌}

mutual
  pub data Value (Num : Type 0) : Type 0 where
    undefined null : Value Num
    bool : Bool → Value Num
    num : Num → Value Num
    str : String → Value Num
    arr : Items Num → Value Num
    obj : Members Num → Value Num

  pub data Items (Num : Type 0) : Type 0 where
    nil : Items Num
    cons : Value Num → Items Num → Items Num

  -- The own properties of an object, each key once.
  pub data Members (Num : Type 0) : Type 0 where
    end : Members Num
    member : String → Value Num → Members Num → Members Num

-- What the host gives: numbers, their conversions and comparisons; the properties that a plain
-- object inherits and those of all other values; and whether two objects are one.
pub record Host : Type 1 where
  pub Num : Type 0
  pub zero : Num
  pub one : Num
  pub nan : Num
  pub of_string : String → Num
  pub to_string : Num → String
  pub num_lt : Num → Num → Bool
  pub num_le : Num → Num → Bool
  pub num_eq : Num → Num → Bool
  pub inherited : String → Value Num
  pub property : Value Num → String → Value Num
  pub same_object : Members Num → Members Num → Bool

module _ {Num : Type 0} where
  abbrev pub items : Items Num → List (Value Num)
  items nil = []
  items (cons v vs) = v ∷ items vs

  unfoldable pub own : Members Num → String → Option (Value Num)
  own end key = none
  own (member k v ms) key = if str_eq k key then some v else own ms key

  unfoldable pub prepend : List (String × Value Num) → Members Num → Members Num
  prepend [] ms = ms
  prepend ((k, v) ∷ l) ms = member k v (prepend l ms)

  abbrev pub is_array : Value Num → Bool
  is_array (arr vs) = true
  is_array _ = false

abbrev join_items : List String → String
join_items [] = ""
join_items (s ∷ []) = s
join_items (s ∷ t ∷ rest) = ◌+++◌ s (◌+++◌ "," (join_items (t ∷ rest)))

module _ (js : Host) where
  open js use {Num, zero, one, nan, of_string, num_lt, num_le, num_eq, same_object}

  -- `Array.prototype.join` writes nothing for `null` and `undefined`.
  abbrev blank : Value Num → String → String
  blank undefined s = ""
  blank null s = ""
  blank _ s = s

  unfoldable mutual
    -- `String(v)`
    pub text : Value Num → String
    text undefined = "undefined"
    text null = "null"
    text (bool true) = "true"
    text (bool false) = "false"
    text (num n) = js.to_string n
    text (str s) = s
    text (arr vs) = join_items (texts vs)
    text (obj ms) = "[object Object]"

    pub texts : Items Num → List String
    texts nil = []
    texts (cons v vs) = blank v (text v) ∷ texts vs

  -- `Number(v)`
  unfoldable pub number : Value Num → Num
  number undefined = nan
  number null = zero
  number (bool true) = one
  number (bool false) = zero
  number (num n) = n
  number (str s) = of_string s
  number (arr vs) = of_string (text (arr vs))
  number (obj ms) = of_string (text (obj ms))

  -- `Boolean(v)`
  unfoldable pub truthy : Value Num → Bool
  truthy undefined = false
  truthy null = false
  truthy (bool b) = b
  truthy (num n) = num_eq n n && not (num_eq n zero)
  truthy (str s) = not (str_eq s "")
  truthy (arr vs) = true
  truthy (obj ms) = true

  -- `a == b` of two primitives.
  unfoldable pub primitive_eq : Value Num → Value Num → Bool
  primitive_eq undefined undefined = true
  primitive_eq undefined null = true
  primitive_eq null undefined = true
  primitive_eq null null = true
  primitive_eq undefined _ = false
  primitive_eq null _ = false
  primitive_eq _ undefined = false
  primitive_eq _ null = false
  primitive_eq (str s) (str t) = str_eq s t
  primitive_eq a b = num_eq (number a) (number b)

  -- `a == b`: an object meets a primitive as its text, and another object by identity. The arrays
  -- that the evaluator makes are new each time.
  unfoldable pub loose_eq : Value Num → Value Num → Bool
  loose_eq (arr vs) (arr ws) = false
  loose_eq (arr vs) (obj ms) = false
  loose_eq (obj ms) (arr ws) = false
  loose_eq (obj ms) (obj ns) = same_object ms ns
  loose_eq (arr vs) b = primitive_eq (str (text (arr vs))) b
  loose_eq (obj ms) b = primitive_eq (str (text (obj ms))) b
  loose_eq a (arr ws) = primitive_eq a (str (text (arr ws)))
  loose_eq a (obj ns) = primitive_eq a (str (text (obj ns)))
  loose_eq a b = primitive_eq a b
