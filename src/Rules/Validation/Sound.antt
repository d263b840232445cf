-- ===== src/Rules/Validation/Sound.antt =====
-- What `validateExpression` lets pass has the form, the size and the nesting that it should.
use ojuri.Prelude.{
  ℕ, ◌+◌, ◌≤◌, ◌≡◌, refl, String, Bool, true, false, not, ◌&&◌, List, [], ◌∷◌, ◌++◌, str_eq,
  if◌then◌else◌, arith,
}
use ojuri.Rules.Value.{Value, str, arr, obj, Items, nil, cons, Members, end, member, is_array}
use ojuri.Rules.Evaluator.{includes, rule_operators}
use ojuri.Rules.Validation.{
  Walk, Problem, push, counted, guarded, check_haystack, check_var, walk, walk_items, walk_operator,
  walk_in, max_depth, max_nodes, validate_with,
}
use ojuri.Rules.Validation.Form.{
  var_form, well_formed, well_formed_items, well_formed_operator, well_formed_in, size, size_items,
  size_operator, size_in, height, height_items, height_operator, height_in,
}

push-ne-nil {ℓ} : {A : Type ℓ} (ps : List A) (p : A) → ps ++ p ∷ [] ≡ [] → ⊥
push-ne-nil [] p h = cc
push-ne-nil (q ∷ ps) p h = cc

-- What a part of the walk that leaves no problem says: none before, the form, the nodes counted.
abbrev Passed : Walk → Walk → Bool → ℕ → Type 0
Passed w after form n = (w.problems ≡ []) × (form ≡ true) × (after.nodes ≡ w.nodes + n)

-- The dispatch on an operator, its branches given.
branch-Passed :
    (known var within : Bool) (p : Problem) (w a b c : Walk) (form_a form_b form_c : Bool)
    (size_b size_c : ℕ)
    → (a.problems ≡ [] → Passed w a form_a 0)
    → (b.problems ≡ [] → Passed w b form_b size_b)
    → (c.problems ≡ [] → Passed w c form_c size_c)
    → (if not known then push p w else if var then a else if within then b else c).problems ≡ []
    → Passed w
        (if not known then push p w else if var then a else if within then b else c)
        (known && (if var then form_a else if within then form_b else form_c))
        (if var then 0 else if within then size_b else size_c)
branch-Passed false var within p w a b c fa fb fc nb nc ha hb hc h =
    absurd (push-ne-nil w.problems p h)
branch-Passed true true within p w a b c fa fb fc nb nc ha hb hc h = ha h
branch-Passed true false true p w a b c fa fb fc nb nc ha hb hc h = hb h
branch-Passed true false false p w a b c fa fb fc nb nc ha hb hc h = hc h

guarded_passed :
    (depth : ℕ) (w rest : Walk)
    → (guarded depth w rest).problems ≡ []
    → (guarded depth w rest ≡ rest)
      × (rest.problems ≡ [])
      × (w.nodes + 1 ≤ max_nodes)
      × (depth ≤ max_depth)
unfolding guarded
guarded_passed depth w rest h =
    ground (
      arith,
      push-ne-nil w.problems Problem.too_many_nodes,
      push-ne-nil w.problems Problem.too_deep,
    )

-- Where the walk ends: within the budget of nodes and the depth.
abbrev Fits : ℕ → Walk → ℕ → Type 0
Fits depth after h = (after.nodes ≤ max_nodes) × (depth + h ≤ max_depth)

branch-Fits :
    (known var within : Bool) (p : Problem) (depth : ℕ) (w a b c : Walk) (height_b height_c : ℕ)
    → (a.problems ≡ [] → Fits depth a 0)
    → (b.problems ≡ [] → Fits depth b (1 + height_b))
    → (c.problems ≡ [] → Fits depth c (1 + height_c))
    → (if not known then push p w else if var then a else if within then b else c).problems ≡ []
    → Fits depth
        (if not known then push p w else if var then a else if within then b else c)
        (if var then 0 else if within then 1 + height_b else 1 + height_c)
branch-Fits false var within p d w a b c nb nc ha hb hc h = absurd (push-ne-nil w.problems p h)
branch-Fits true true within p d w a b c nb nc ha hb hc h = ha h
branch-Fits true false true p d w a b c nb nc ha hb hc h = hb h
branch-Fits true false false p d w a b c nb nc ha hb hc h = hc h

module _ {Num : Type 0} (allowed : List String) where
  check_var-Passed :
      (args : Value Num) (w : Walk)
      → (check_var allowed args w).problems ≡ []
      → Passed w (check_var allowed args w) (var_form allowed args) 0
  unfolding check_var
  check_var-Passed (str s) w h = ground (
    arith,
    push-ne-nil w.problems Problem.bad_var,
    push-ne-nil w.problems (Problem.unknown_feature s),
    push-ne-nil w.problems (Problem.unknown_variable s),
  )
  check_var-Passed _ w h = absurd (push-ne-nil w.problems Problem.bad_var h)

  check_haystack-Passed :
      (b : Value Num) (w : Walk)
      → (check_haystack b w).problems ≡ []
      → Passed w (check_haystack b w) (is_array b) 0
  unfolding check_haystack
  check_haystack-Passed (arr vs) w h =
      ground (arith, push-ne-nil w.problems Problem.haystack_too_long)
  check_haystack-Passed _ w h = absurd (push-ne-nil w.problems Problem.in_not_array h)

  mutual
    unfolding walk well_formed size

    walk-Passed :
        (v : Value Num) (depth : ℕ) (w : Walk)
        → (walk allowed v depth w).problems ≡ []
        → Passed w (walk allowed v depth w) (well_formed allowed v) (size v)
    walk-Passed (arr vs) depth w h =
        let (same, none, _, _) =
          guarded_passed depth w (walk_items allowed vs depth (counted w)) h in
        let (before, form, sum) = walk_items-Passed vs depth (counted w) none in
        (before, form, rw same (omega arith))
    walk-Passed (obj ms) depth w h =
        let (same, none, _, _) =
          guarded_passed depth w (walk_operator allowed ms depth (counted w)) h in
        let (before, form, sum) = walk_operator-Passed ms depth (counted w) none in
        (before, form, rw same (omega arith))
    walk-Passed _ depth w h =
        let (same, none, _, _) = guarded_passed depth w (counted w) h in (none, refl, rw same refl)

    walk_items-Passed :
        (vs : Items Num) (depth : ℕ) (w : Walk)
        → (walk_items allowed vs depth w).problems ≡ []
        → Passed w (walk_items allowed vs depth w) (well_formed_items allowed vs) (size_items vs)
    walk_items-Passed nil depth w h = (h, refl, omega arith)
    walk_items-Passed (cons v vs) depth w h =
        let (none, form', sum') = walk_items-Passed vs depth (walk allowed v depth w) h in
        let (before, form, sum) = walk-Passed v depth w none in
        (before, rw (form, form') refl, omega arith)

    walk_operator-Passed :
        (ms : Members Num) (depth : ℕ) (w : Walk)
        → (walk_operator allowed ms depth w).problems ≡ []
        → Passed w
            (walk_operator allowed ms depth w)
            (well_formed_operator allowed ms)
            (size_operator ms)
    walk_operator-Passed end depth w h = absurd (push-ne-nil w.problems (Problem.not_single []) h)
    walk_operator-Passed (member op args end) depth w h =
        let within = walk_in-Passed args depth w in
        let deeper = walk-Passed args (depth + 1) w in
        branch-Passed (includes rule_operators op) (str_eq op "var") (str_eq op "in")
          (Problem.unknown_operator op) w (check_var allowed args w) (walk_in allowed args depth w)
          (walk allowed args (depth + 1) w) (var_form allowed args) (well_formed_in allowed args)
          (well_formed allowed args) (size_in args) (size args) (check_var-Passed args w) within
          deeper h
    walk_operator-Passed (member op args (member k v ms)) depth w h =
        absurd (push-ne-nil w.problems (Problem.not_single _) h)

    walk_in-Passed :
        (args : Value Num) (depth : ℕ) (w : Walk)
        → (walk_in allowed args depth w).problems ≡ []
        → Passed w (walk_in allowed args depth w) (well_formed_in allowed args) (size_in args)
    walk_in-Passed (arr (cons a (cons b nil))) depth w h =
        let (none_b, form_b, sum_b) =
          walk-Passed b (depth + 1) (walk allowed a (depth + 1) (check_haystack b w)) h in
        let (none_a, form_a, sum_a) = walk-Passed a (depth + 1) (check_haystack b w) none_b in
        let (none, array, sum) = check_haystack-Passed b w none_a in
        (none, rw (array, form_a, form_b) refl, omega arith)
    walk_in-Passed _ depth w h = absurd (push-ne-nil w.problems Problem.bad_in h)

  mutual
    unfolding walk height

    walk-Fits :
        (v : Value Num) (depth : ℕ) (w : Walk)
        → (walk allowed v depth w).problems ≡ []
        → Fits depth (walk allowed v depth w) (height v)
    walk-Fits (arr vs) depth w h =
        let (same, none, few, low) =
          guarded_passed depth w (walk_items allowed vs depth (counted w)) h in
        let (nodes, deep) = walk_items-Fits vs depth (counted w) few low none in
        (rw same nodes, deep)
    walk-Fits (obj ms) depth w h =
        let (same, none, few, low) =
          guarded_passed depth w (walk_operator allowed ms depth (counted w)) h in
        let (nodes, deep) = walk_operator-Fits ms depth (counted w) few low none in
        (rw same nodes, deep)
    walk-Fits _ depth w h =
        let (same, none, few, low) = guarded_passed depth w (counted w) h in
        (rw same few, omega arith)

    walk_items-Fits :
        (vs : Items Num) (depth : ℕ) (w : Walk)
        → w.nodes ≤ max_nodes
        → depth ≤ max_depth
        → (walk_items allowed vs depth w).problems ≡ []
        → Fits depth (walk_items allowed vs depth w) (height_items vs)
    walk_items-Fits nil depth w few low h = (few, omega arith)
    walk_items-Fits (cons v vs) depth w few low h =
        let (none, _, _) = walk_items-Passed vs depth (walk allowed v depth w) h in
        let (few', deep) = walk-Fits v depth w none in
        let (nodes, deep') = walk_items-Fits vs depth (walk allowed v depth w) few' low h in
        (nodes, omega arith)

    walk_operator-Fits :
        (ms : Members Num) (depth : ℕ) (w : Walk)
        → w.nodes ≤ max_nodes
        → depth ≤ max_depth
        → (walk_operator allowed ms depth w).problems ≡ []
        → Fits depth (walk_operator allowed ms depth w) (height_operator ms)
    walk_operator-Fits end depth w few low h =
        absurd (push-ne-nil w.problems (Problem.not_single []) h)
    walk_operator-Fits (member op args end) depth w few low h =
        let within = walk_in-Fits args depth w in
        let deeper = walk-Fits args (depth + 1) w in
        branch-Fits (includes rule_operators op) (str_eq op "var") (str_eq op "in")
          (Problem.unknown_operator op) depth w (check_var allowed args w)
          (walk_in allowed args depth w) (walk allowed args (depth + 1) w) (height_in args)
          (height args) (λ e. (omega (arith, (check_var-Passed args w e).2), omega arith)) within
          (λ e. ((deeper e).0, omega (arith, (deeper e).1))) h
    walk_operator-Fits (member op args (member k v ms)) depth w few low h =
        absurd (push-ne-nil w.problems (Problem.not_single _) h)

    walk_in-Fits :
        (args : Value Num) (depth : ℕ) (w : Walk)
        → (walk_in allowed args depth w).problems ≡ []
        → Fits depth (walk_in allowed args depth w) (1 + height_in args)
    walk_in-Fits (arr (cons a (cons b nil))) depth w h =
        let (none_b, _, _) =
          walk-Passed b (depth + 1) (walk allowed a (depth + 1) (check_haystack b w)) h in
        let (_, deep_a) = walk-Fits a (depth + 1) (check_haystack b w) none_b in
        let (nodes, deep_b) =
          walk-Fits b (depth + 1) (walk allowed a (depth + 1) (check_haystack b w)) h in
        (nodes, omega arith)
    walk_in-Fits _ depth w h = absurd (push-ne-nil w.problems Problem.bad_in h)

  -- An expression that is saved has the form, at most 500 counted nodes and at most 32 levels.
  pub validate_with_sound :
      (expr : Value Num)
      → validate_with allowed expr ≡ []
      → (well_formed allowed expr ≡ true) × (size expr ≤ max_nodes) × (height expr ≤ max_depth)
  unfolding validate_with
  validate_with_sound expr h =
      let start : Walk = record { nodes = 0; problems = [] } in
      let (_, form, sum) = walk-Passed expr 0 start h in
      let (nodes, deep) = walk-Fits expr 0 start h in (form, omega arith, omega arith)
