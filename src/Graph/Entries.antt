-- ===== src/Graph/Entries.antt =====
-- The entries of a table of nodes: by name, in sorted order, taken and left.
use ojuri.Prelude.{
  ℕ, zero, suc, ◌+◌, ◌-◌, ◌/◌, ◌≤◌, ◌<◌, max, String, ◌≡◌, refl, sym, ap, ◌∙◌, subst, Bool, true,
  false, ◌||◌, Option, none, some, List, [], ◌∷◌, map, length, take, drop, filter, arith, ltb,
  ltb→lt, ltb→le, leb, ◌==◌, str_eq, str_eq_refl, eq_iff, some-injective, none-some, Bool-cases,
  inl, inr, All, All-filter, All-drop, if◌then◌else◌,
}
use mathlib.Core.Bool.{true≢false}
use ojuri.Prelude.Assoc
use ojuri.Prelude.Assoc.{Assoc, IsDistinct}
use ojuri.Redis.{is_member}
use ojuri.Graph.Service.{insert_by, sort_by}

module _ {V : Type 0} where
  abbrev pub names : Assoc V → List String
  names = map (λ n. n.0)

  abbrev pub IsEntry : Assoc V → String × V → Type 0
  IsEntry m e = Assoc.get m e.0 ≡ some e.1

  pub All-take : (P : String × V → Type 0) (k : ℕ) (es : Assoc V) → All P es → All P (take k es)
  All-take P zero es h = tt
  All-take P (suc k) [] h = tt
  All-take P (suc k) (e ∷ es) (h, hs) = (h, All-take P k es hs)

  pub All-both :
      (P Q : String × V → Type 0) (es : Assoc V) → All P es → All Q es → All (λ e. P e × Q e) es
  All-both P Q [] p q = tt
  All-both P Q (e ∷ es) (p, ps) (q, qs) = ((p, q), All-both P Q es ps qs)

  pub behind :
      (m es : Assoc V) (j : String) (w : V)
      → Assoc.get m j ≡ none
      → All (IsEntry m) es
      → All (IsEntry ((j, w) ∷ m)) es
  unfolding ojuri.Prelude.Assoc.get
  behind m [] j w absent h = tt
  behind m (e ∷ es) j w absent (h, hs) = elim (Bool-cases (str_eq j e.0)) [
    | inl same ↦
        absurd
          (none-some (sym (subst (λ i. Assoc.get m i ≡ none) ((eq_iff j e.0).0 same) absent) ∙ h))
    | inr other ↦ (rw other h, behind m es j w absent hs)
  ]

  -- In a table that holds each key once, every entry is what its key gives.
  pub all-IsEntry : (m : Assoc V) → IsDistinct m → All (IsEntry m) m
  unfolding ojuri.Prelude.Assoc.get
  all-IsEntry [] d = tt
  all-IsEntry ((j, w) ∷ m) (absent, d) =
      (rw (str_eq_refl j) refl, behind m m j w absent (all-IsEntry m d))

  -- The entry of a name.
  pub pick :
      (P : String × V → Type 0) (es : Assoc V) (i : String)
      → All P es
      → is_member (names es) i ≡ true
      → (v : V) × P (i, v)
  pick P [] i h m = absurd (true≢false (sym m))
  pick P ((j, v) ∷ es) i (h, hs) m = elim (Bool-cases (str_eq j i)) [
    | inl same ↦ (v, subst (λ k. P (k, v)) ((eq_iff j i).0 same) h)
    | inr other ↦ pick P es i hs ((rw other at m))
  ]

  pub named :
      (p : String × V → Bool) (m : Assoc V) (j : String) (v : V)
      → Assoc.get m j ≡ some v
      → p (j, v) ≡ true
      → is_member (names (filter p m)) j ≡ true
  unfolding ojuri.Prelude.Assoc.get
  named p [] j v e h = absurd (none-some e)
  named p ((i, w) ∷ m) j v e h = elim (Bool-cases (str_eq i j)) [
    | inl same ↦
        let value : w ≡ v = some-injective ((rw same at e)) in
        let keep : p (i, w) ≡ true =
          subst (λ u. p (i, u) ≡ true) (sym value)
            (subst (λ k. p (k, v) ≡ true) (sym ((eq_iff i j).0 same)) h) in
        rw (keep, same) refl
    | inr other ↦
        let later = named p m j v ((rw other at e)) h in
        elim (Bool-cases (p (i, w))) [
          | inl keep ↦ rw (keep, other) later
          | inr leave ↦ rw leave later
        ]
  ]

  pub present :
      (m : Assoc V) (j : String) (v : V) → Assoc.get m j ≡ some v → is_member (names m) j ≡ true
  unfolding ojuri.Prelude.Assoc.get
  present [] j v e = absurd (none-some e)
  present ((i, w) ∷ m) j v e = elim (Bool-cases (str_eq i j)) [
    | inl same ↦ rw same refl
    | inr other ↦ rw other (present m j v ((rw other at e)))
  ]

  pub all_pass : (p : String × V → Bool) (es : Assoc V) → All (λ e. p e ≡ true) (filter p es)
  all_pass p [] = tt
  all_pass p (e ∷ es) = elim (Bool-cases (p e)) [
    | inl keep ↦ rw keep (keep, all_pass p es)
    | inr leave ↦ rw leave (all_pass p es)
  ]

  -- What was removed was named, and what was not is as it was.
  pub removed :
      (b : Bool) (o : Option V) (v : V) → o ≡ some v → (if b then none else o) ≡ none → b ≡ true
  removed true o v e h = refl
  removed false o v e h = absurd (none-some (sym h ∙ e))

  pub remains :
      (b : Bool) (o : Option V) (v : V)
      → (if b then none else o) ≡ some v
      → (b ≡ false) × (o ≡ some v)
  remains true o v h = absurd (none-some h)
  remains false o v h = (refl, h)

  pub split_named :
      (k : ℕ) (es : Assoc V) (j : String)
      → is_member (names es) j ≡ true
      → is_member (names (take k es)) j ≡ false
      → is_member (names (drop k es)) j ≡ true
  split_named zero es j h left = h
  split_named (suc k) [] j h left = h
  split_named (suc k) ((i, w) ∷ es) j h left = elim (Bool-cases (str_eq i j)) [
    | inl same ↦ absurd (true≢false (sym (rw same refl) ∙ left))
    | inr other ↦ split_named k es j ((rw other at h)) ((rw other at left))
  ]

  module _ (rank : String × V → ℕ) where
    pub insert_named :
        (e : String × V) (es : Assoc V) (j : String)
        → is_member (names (insert_by rank e es)) j ≡ (str_eq e.0 j || is_member (names es) j)
    unfolding insert_by
    insert_named e [] j = refl
    insert_named e (f ∷ es) j = ground (arith, insert_named e es j)

    pub sort_named :
        (es : Assoc V) (j : String) → is_member (names (sort_by rank es)) j ≡ is_member (names es) j
    unfolding sort_by
    sort_named [] j = refl
    sort_named (e ∷ es) j =
        insert_named e (sort_by rank es) j ∙ ap (λ b. str_eq e.0 j || b) (sort_named es j)
