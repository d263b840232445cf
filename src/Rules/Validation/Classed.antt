-- ===== src/Rules/Validation/Classed.antt =====
-- A saved rule that `toRecord` classes as request-only reads no feature, so the short-circuit of
-- the rules service is right for every saved rule set.
use mathlib.Core.Bool.{and-eq-true_iff}
use text.Mathlib.Text.{starts_with}
use text.Mathlib.TextLemmas.{length-append}
use Prim.Native.String.{count, ◌++◌ as ◌+++◌}
use ojuri.Prelude.{
  ◌≡◌, ◌≢◌, refl, ap, String, Bool, true, false, not, ◌&&◌, ◌||◌, List, [], ◌∷◌, ◌++◌, str_eq,
  eq_iff, if◌then◌else◌, arith, Bool-cases, inl, inr, any, map,
}
use ojuri.Enums.{RuleStage, pre, post}
use ojuri.Rules.Value.{Value, str, arr, obj, Items, nil, cons, Members, end, member, is_array}
use ojuri.Rules.Path.{first-ne-features, first, split_dot}
use ojuri.Rules.Evaluator.{
  includes, rule_operators, collect_var_paths, collect_items, collect_members, var_path,
}
use ojuri.Rules.Evaluator.Features.{avoids_features, avoids_items, avoids_members, reads_other}
use ojuri.Rules.Validation.{known_vars}
use ojuri.Rules.Validation.Form.{
  var_form, well_formed, well_formed_items, well_formed_operator, well_formed_in,
}
use ojuri.Rules.Validation.Reads.{branch_form}

abbrev reads_feature : List String → Bool
reads_feature paths = any (λ v. starts_with v "features.") paths

reads_feature-append :
    (xs ys : List String)
    → reads_feature (xs ++ ys) ≡ false
    → (reads_feature xs ≡ false) × (reads_feature ys ≡ false)
reads_feature-append [] ys h = (refl, h)
reads_feature-append (x ∷ xs) ys h = elim (Bool-cases (starts_with x "features.")) [
  | inl reads ↦ absurd (cc (rw reads at h))
  | inr other ↦ let (p, q) = reads_feature-append xs ys (rw other at h) in (rw (other, p) refl, q)
]

branch_avoids :
    (var within a b c other inside direct_reads inside_reads : Bool)
    → (if var then a else if within then b else c) ≡ true
    → (if var then direct_reads else inside_reads) ≡ false
    → (a ≡ true → direct_reads ≡ false → other ≡ true)
    → (b ≡ true → inside_reads ≡ false → inside ≡ true)
    → (c ≡ true → inside_reads ≡ false → inside ≡ true)
    → ((if var then other else inside) && true) ≡ true
branch_avoids true within a b c other inside d i h k ha hb hc = rw (ha h k) refl
branch_avoids false true a b c other inside d i h k ha hb hc = rw (hb h k) refl
branch_avoids false false a b c other inside d i h k ha hb hc = rw (hc h k) refl

reads_if :
    (var : Bool) (xs ys : List String)
    → reads_feature ((if var then xs else ys) ++ []) ≡ false
    → (if var then reads_feature xs else reads_feature ys) ≡ false
reads_if true xs ys h = (reads_feature-append xs [] h).0
reads_if false xs ys h = (reads_feature-append ys [] h).0

module _ (allowed : List String) (bare : includes allowed "features" ≡ false) where
  -- A path that is allowed, and does not start with `features.`, reads another property first.
  away :
      (s : String)
      → includes allowed s ≡ true
      → starts_with s "features." ≡ false
      → not (str_eq (first (split_dot s)) "features") ≡ true
  away s listed h =
      let other : s ≢ "features" = λ e. cc (ap (includes allowed) e, listed, bare) in
      let moved = first-ne-features s h other in
      ground (arith, eq_iff (first (split_dot s)) "features", moved)

  module _ {Num : Type 0} where
    var_avoids :
        (args : Value Num)
        → var_form allowed args ≡ true
        → reads_feature (var_path args) ≡ false
        → reads_other args ≡ true
    var_avoids (str s) h k =
        away s ((and-eq-true_iff _ _).0 h).1 (reads_one (starts_with s "features.") k)
      where
        reads_one : (b : Bool) → (b || false) ≡ false → b ≡ false
        reads_one false e = refl
        reads_one true e = e
    var_avoids _ h k = cc

    mutual
      unfolding well_formed collect_var_paths avoids_features

      pub avoids :
          (v : Value Num)
          → well_formed allowed v ≡ true
          → reads_feature (collect_var_paths v) ≡ false
          → avoids_features v ≡ true
      avoids (arr vs) h k = avoids_each vs h k
      avoids (obj ms) h k = avoids_operator ms h k
      avoids _ h k = refl

      avoids_each :
          (vs : Items Num)
          → well_formed_items allowed vs ≡ true
          → reads_feature (collect_items vs) ≡ false
          → avoids_items vs ≡ true
      avoids_each nil h k = refl
      avoids_each (cons v vs) h k =
          let (p, q) = (and-eq-true_iff _ _).0 h in
          let (r, s) = reads_feature-append (collect_var_paths v) (collect_items vs) k in
          rw (avoids v p r, avoids_each vs q s) refl

      avoids_operator :
          (ms : Members Num)
          → well_formed_operator allowed ms ≡ true
          → reads_feature (collect_members ms) ≡ false
          → avoids_members ms ≡ true
      avoids_operator end h k = refl
      avoids_operator (member op args end) h k =
          let within = avoids_within args in
          let deeper = avoids args in
          branch_avoids (str_eq op "var") (str_eq op "in") (var_form allowed args)
            (well_formed_in allowed args) (well_formed allowed args) (reads_other args)
            (avoids_features args) (reads_feature (var_path args))
            (reads_feature (collect_var_paths args))
            (branch_form (includes rule_operators op) (str_eq op "var") (str_eq op "in") _ _ _ h)
            (reads_if (str_eq op "var") (var_path args) (collect_var_paths args) k)
            (var_avoids args) within deeper
      avoids_operator (member op args (member n v ms)) h k = cc

      avoids_within :
          (args : Value Num)
          → well_formed_in allowed args ≡ true
          → reads_feature (collect_var_paths args) ≡ false
          → avoids_features args ≡ true
      avoids_within (arr (cons a (cons b nil))) h k =
          let (array, rest) =
            (and-eq-true_iff (is_array b) (well_formed allowed a && well_formed allowed b)).0 h in
          let (p, q) = (and-eq-true_iff (well_formed allowed a) (well_formed allowed b)).0 rest in
          let (r, s) = reads_feature-append (collect_var_paths a) (collect_var_paths b ++ []) k in
          let (s', _) = reads_feature-append (collect_var_paths b) [] s in
          rw (avoids a p r, avoids b q s') refl
      avoids_within _ h k = cc

-- No variable is called `features`.
feature_names :
    (names : List String) → includes (map (λ n. ◌+++◌ "features." n) names) "features" ≡ false
feature_names [] = refl
feature_names (n ∷ names) =
    let longer : ◌+++◌ "features." n ≢ "features" =
      λ e. absurd (omega (arith, ap count e, length-append "features." n)) in
    ground (arith, eq_iff (◌+++◌ "features." n) "features", longer, feature_names names)

pub features_unknown :
    (names : List String) (stage : RuleStage) → includes (known_vars names stage) "features" ≡ false
unfolding known_vars
features_unknown names pre = feature_names names
features_unknown names post = feature_names names
