-- ===== src/Rules/Evaluator/Features.antt =====
-- An expression that reads no feature has the same value whatever the features are.
use mathlib.Core.Bool.{and-eq-true_iff}
use ojuri.Prelude.{
  ◌≡◌, ◌≢◌, refl, ap, ◌∙◌, String, Bool, true, false, not, ◌&&◌, some, List, [], ◌∷◌, str_eq,
  eq_iff, if◌then◌else◌, Bool-cases, inl, inr, arith, get_or_else,
}
use ojuri.Rules.Value.{
  Value, undefined, null, bool, num, str, arr, obj, Items, nil, cons, Members, end, member, Host,
  own, prepend, text, truthy,
}
use ojuri.Rules.Path.{split_dot, first, others, split_dot-parts}
use ojuri.Rules.Evaluator.{
  RuleContext, Result, ok, Args, named, indexed, context_members, opt, post_members, resolve_parts,
  resolve_var, apply_operator, evaluate_parts, evaluate_items, evaluate_members, evaluate_operator,
  evaluate, collect, ◌>>=◌,
}

module _ {Num : Type 0} where
  -- A `var` takes a text whose first part is not `features`.
  abbrev pub reads_other : Value Num → Bool
  reads_other (str s) = not (str_eq (first (split_dot s)) "features")
  reads_other _ = false

  unfoldable mutual
    -- Every `var` of the expression reads something else than the features.
    pub avoids_features : Value Num → Bool
    avoids_features (arr vs) = avoids_items vs
    avoids_features (obj ms) = avoids_members ms
    avoids_features _ = true

    pub avoids_items : Items Num → Bool
    avoids_items nil = true
    avoids_items (cons v vs) = avoids_features v && avoids_items vs

    pub avoids_members : Members Num → Bool
    avoids_members end = true
    avoids_members (member op args ms) =
        let inside = avoids_features args in
        let rest = avoids_members ms in
        (if str_eq op "var" then reads_other args else inside) && rest

  avoids_members-member :
      (op : String) (args : Value Num) (ms : Members Num)
      → avoids_members (member op args ms) ≡ true
      → ((if str_eq op "var" then reads_other args else avoids_features args) ≡ true)
        × (avoids_members ms ≡ true)
  unfolding avoids_members
  avoids_members-member op args ms h = (and-eq-true_iff _ _).0 h

  own-prepend :
      (l : List (String × Value Num)) (ms ns : Members Num) (key : String)
      → own ms key ≡ own ns key
      → own (prepend l ms) key ≡ own (prepend l ns) key
  unfolding own prepend
  own-prepend [] ms ns key h = h
  own-prepend ((k, v) ∷ l) ms ns key h =
      ap (λ o. if str_eq k key then some v else o) (own-prepend l ms ns key h)

module _ (js : Host) where
  open js use {Num}

  module _ (ctx : RuleContext Num) (other : Members Num) where
    abbrev ctx' : RuleContext Num
    ctx' = record ctx { features = other }

    own-context_members :
        (key : String)
        → key ≢ "features"
        → own (context_members ctx) key ≡ own (context_members ctx') key
    unfolding own context_members
    own-context_members key away =
        let tail : own (member "features" (obj ctx.features) (post_members ctx)) key
            ≡ own (member "features" (obj other) (post_members ctx')) key =
          ground (arith, eq_iff "features" key) in
        ap (λ o. if str_eq "tenant_id" key then some (opt str ctx.tenant_id) else o)
          (own-prepend ctx.request (member "features" (obj ctx.features) (post_members ctx))
            (member "features" (obj other) (post_members ctx')) key tail)

    resolve_first :
        (parts : List String)
        → parts ≡ first parts ∷ others parts
        → first parts ≢ "features"
        → resolve_parts js (obj (context_members ctx)) parts
          ≡ resolve_parts js (obj (context_members ctx')) parts
    unfolding resolve_parts
    resolve_first [] e away = cc
    resolve_first (p ∷ parts) e away =
        ap (λ o. resolve_parts js (get_or_else o (js.inherited p)) parts)
          (own-context_members p away)

    resolve_var-features :
        (s : String)
        → not (str_eq (first (split_dot s)) "features") ≡ true
        → resolve_var js s ctx ≡ resolve_var js s ctx'
    unfolding resolve_var
    resolve_var-features s h =
        ap (λ v. if str_eq s "" then undefined else v)
          (resolve_first (split_dot s) (split_dot-parts s)
            (ground (arith, eq_iff (first (split_dot s)) "features")))

    apply_operator-features :
        (op : String) (args : Value Num) (whole : Result (Value Num)) (parts : Args Num)
        → str_eq op "var" ≡ false
        → apply_operator js ctx op args whole parts ≡ apply_operator js ctx' op args whole parts
    unfolding apply_operator
    apply_operator-features op args whole parts h = rw h refl

    apply_var-features :
        (op : String) (args : Value Num)
        → str_eq op "var" ≡ true
        → reads_other args ≡ true
        → (apply_operator js ctx op args
              (evaluate_parts js ctx args).0
              (evaluate_parts js ctx args).1
            ≡ apply_operator js ctx' op args
                (evaluate_parts js ctx' args).0
                (evaluate_parts js ctx' args).1)
          × (evaluate_parts js ctx args ≡ evaluate_parts js ctx' args)
    unfolding apply_operator text evaluate_parts
    apply_var-features op (str s) h k = (rw h (ap ok (resolve_var-features s k)), refl)
    apply_var-features op _ h k = cc

    reads_other-same :
        (args : Value Num)
        → reads_other args ≡ true
        → evaluate_parts js ctx args ≡ evaluate_parts js ctx' args
    unfolding evaluate_parts
    reads_other-same (str s) h = refl
    reads_other-same _ h = cc

    mutual
      unfolding evaluate_parts avoids_features

      same :
          (v : Value Num)
          → avoids_features v ≡ true
          → evaluate_parts js ctx v ≡ evaluate_parts js ctx' v
      same undefined h = refl
      same null h = refl
      same (bool b) h = refl
      same (num n) h = refl
      same (str s) h = refl
      same (arr vs) h = ap (λ rs. (collect rs >>= λ ws. ok (arr ws), indexed rs)) (same_items vs h)
      same (obj ms) h = λ i. (same_operator ms h i, named (same_members ms h i))

      same_items :
          (vs : Items Num)
          → avoids_items vs ≡ true
          → evaluate_items js ctx vs ≡ evaluate_items js ctx' vs
      same_items nil h = refl
      same_items (cons v vs) h =
          let (p, q) = (and-eq-true_iff _ _).0 h in λ i. (same v p i).0 ∷ same_items vs q i

      same_members :
          (ms : Members Num)
          → avoids_members ms ≡ true
          → evaluate_members js ctx ms ≡ evaluate_members js ctx' ms
      same_members end h = refl
      same_members (member op args ms) h =
          let (p, q) = avoids_members-member op args ms h in
          let rest = same_members ms q in
          let deep = same args in
          elim (Bool-cases (str_eq op "var")) [
            | inl var ↦ λ i. (op, (reads_other-same args (rw var at p) i).0) ∷ rest i
            | inr not_var ↦ λ i. (op, (deep (rw not_var at p) i).0) ∷ rest i
          ]

      same_operator :
          (ms : Members Num)
          → avoids_members ms ≡ true
          → evaluate_operator js ctx ms ≡ evaluate_operator js ctx' ms
      same_operator end h = refl
      same_operator (member op args end) h =
          let (p, q) = avoids_members-member op args end h in
          let deep = same args in
          elim (Bool-cases (str_eq op "var")) [
            | inl var ↦ (apply_var-features op args var (rw var at p)).0
            | inr not_var ↦
                ap (λ r. apply_operator js ctx op args r.0 r.1) (deep (rw not_var at p))
                ∙ apply_operator-features op args (evaluate_parts js ctx' args).0
                    (evaluate_parts js ctx' args).1 not_var
          ]
      same_operator (member op args (member k v ms)) h = refl

    -- An expression whose `var` paths all start elsewhere is evaluated alike, errors included, under
    -- any two feature snapshots.
    pub evaluate-features :
        (expr : Value Num)
        → avoids_features expr ≡ true
        → evaluate js ctx expr ≡ evaluate js (record ctx { features = other }) expr
    unfolding evaluate
    evaluate-features expr h = ap (λ r. r.0 >>= λ v. ok (truthy js v)) (same expr h)
