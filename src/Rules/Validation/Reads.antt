-- ===== src/Rules/Validation/Reads.antt =====
-- What a well-formed expression reads.
use mathlib.Core.Bool.{and-eq-true_iff}
use ojuri.Prelude.{
  ◌≡◌, refl, String, Bool, true, false, not, ◌&&◌, ◌||◌, List, [], ◌++◌, str_eq, if◌then◌else◌, All,
  All-append,
}
use ojuri.Rules.Value.{Value, str, arr, obj, Items, nil, cons, Members, end, member, is_array}
use ojuri.Rules.Evaluator.{
  includes, rule_operators, has_string_haystack, haystack_items, haystack_members, bad_in,
  collect_var_paths, collect_items, collect_members, var_path,
}
use ojuri.Rules.Validation.Form.{
  var_form, well_formed, well_formed_items, well_formed_operator, well_formed_in,
}

-- The form of an operator's arguments, by its branch.
pub branch_form :
    (known var within a b c : Bool)
    → (known && (if var then a else if within then b else c)) ≡ true
    → (if var then a else if within then b else c) ≡ true
branch_form true var within a b c h = h
branch_form false var within a b c h = cc

branch_haystack :
    (var within a b c bad inside : Bool)
    → (if var then a else if within then b else c) ≡ true
    → (b ≡ true → (bad ≡ false) × (inside ≡ false))
    → (c ≡ true → inside ≡ false)
    → (not var && (within && bad || inside) || false) ≡ false
branch_haystack true within a b c bad inside h hb hc = refl
branch_haystack false true a b c bad inside h hb hc = let (p, q) = hb h in rw (p, q) refl
branch_haystack false false a b c bad inside h hb hc = rw (hc h) refl

-- The same for a property of the paths that the arguments read.
branch_paths :
    (P : List String → Type 0) (var within a b c : Bool) (direct inside : List String)
    → (if var then a else if within then b else c) ≡ true
    → (a ≡ true → P direct)
    → (b ≡ true → P inside)
    → (c ≡ true → P inside)
    → P (if var then direct else inside)
branch_paths P true within a b c direct inside h ha hb hc = ha h
branch_paths P false true a b c direct inside h ha hb hc = hb h
branch_paths P false false a b c direct inside h ha hb hc = hc h

module _ {Num : Type 0} (allowed : List String) where
  mutual
    unfolding well_formed has_string_haystack

    pub haystack_free :
        (v : Value Num) → well_formed allowed v ≡ true → has_string_haystack v ≡ false
    haystack_free (arr vs) h = haystack_free_items vs h
    haystack_free (obj ms) h = haystack_free_operator ms h
    haystack_free _ h = refl

    haystack_free_items :
        (vs : Items Num) → well_formed_items allowed vs ≡ true → haystack_items vs ≡ false
    haystack_free_items nil h = refl
    haystack_free_items (cons v vs) h =
        let (p, q) = (and-eq-true_iff _ _).0 h in
        rw (haystack_free v p, haystack_free_items vs q) refl

    haystack_free_operator :
        (ms : Members Num) → well_formed_operator allowed ms ≡ true → haystack_members ms ≡ false
    haystack_free_operator end h = refl
    haystack_free_operator (member op args end) h =
        let within = haystack_free_in args in
        let deeper = haystack_free args in
        branch_haystack (str_eq op "var") (str_eq op "in") (var_form allowed args)
          (well_formed_in allowed args) (well_formed allowed args) (bad_in args)
          (has_string_haystack args)
          (branch_form (includes rule_operators op) (str_eq op "var") (str_eq op "in") _ _ _ h)
          within deeper
    haystack_free_operator (member op args (member k v ms)) h = cc

    haystack_free_in :
        (args : Value Num)
        → well_formed_in allowed args ≡ true
        → (bad_in args ≡ false) × (has_string_haystack args ≡ false)
    haystack_free_in (arr (cons a (cons b nil))) h =
        let (array, rest) =
          (and-eq-true_iff (is_array b) (well_formed allowed a && well_formed allowed b)).0 h in
        let (p, q) = (and-eq-true_iff (well_formed allowed a) (well_formed allowed b)).0 rest in
        rw (array, haystack_free a p, haystack_free b q) (refl, refl)
    haystack_free_in _ h = cc

  var_form_allowed :
      (args : Value Num)
      → var_form allowed args ≡ true
      → All (λ p. includes allowed p ≡ true) (var_path args)
  var_form_allowed (str s) h = (((and-eq-true_iff _ _).0 h).1, tt)
  var_form_allowed _ h = cc

  mutual
    unfolding well_formed collect_var_paths

    pub paths_allowed :
        (v : Value Num)
        → well_formed allowed v ≡ true
        → All (λ p. includes allowed p ≡ true) (collect_var_paths v)
    paths_allowed (arr vs) h = paths_allowed_items vs h
    paths_allowed (obj ms) h = paths_allowed_operator ms h
    paths_allowed _ h = tt

    paths_allowed_items :
        (vs : Items Num)
        → well_formed_items allowed vs ≡ true
        → All (λ p. includes allowed p ≡ true) (collect_items vs)
    paths_allowed_items nil h = tt
    paths_allowed_items (cons v vs) h =
        let (p, q) = (and-eq-true_iff _ _).0 h in
        All-append _ (collect_var_paths v) (collect_items vs) (paths_allowed v p)
          (paths_allowed_items vs q)

    paths_allowed_operator :
        (ms : Members Num)
        → well_formed_operator allowed ms ≡ true
        → All (λ p. includes allowed p ≡ true) (collect_members ms)
    paths_allowed_operator end h = tt
    paths_allowed_operator (member op args end) h =
        let within = paths_allowed_in args in
        let deeper = paths_allowed args in
        All-append (λ p. includes allowed p ≡ true)
          (if str_eq op "var" then var_path args else collect_var_paths args) []
          (branch_paths (All (λ p. includes allowed p ≡ true)) (str_eq op "var") (str_eq op "in")
            (var_form allowed args) (well_formed_in allowed args) (well_formed allowed args)
            (var_path args) (collect_var_paths args)
            (branch_form (includes rule_operators op) (str_eq op "var") (str_eq op "in") _ _ _ h)
            (var_form_allowed args) within deeper)
          tt
    paths_allowed_operator (member op args (member k v ms)) h = cc

    paths_allowed_in :
        (args : Value Num)
        → well_formed_in allowed args ≡ true
        → All (λ p. includes allowed p ≡ true) (collect_var_paths args)
    paths_allowed_in (arr (cons a (cons b nil))) h =
        let (array, rest) = (and-eq-true_iff _ _).0 h in
        let (p, q) = (and-eq-true_iff _ _).0 rest in
        All-append (λ s. includes allowed s ≡ true) (collect_var_paths a)
          (collect_var_paths b ++ []) (paths_allowed a p)
          (All-append (λ s. includes allowed s ≡ true) (collect_var_paths b) [] (paths_allowed b q)
            tt)
    paths_allowed_in _ h = cc
