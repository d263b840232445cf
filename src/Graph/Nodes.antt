-- ===== src/Graph/Nodes.antt =====
-- Nodes as a list: sorted, looked up and removed.
use ojuri.Prelude.{
  ℕ, zero, suc, ◌+◌, ◌-◌, ◌*◌, ◌/◌, ◌≤◌, ◌<◌, max, String, ◌≡◌, ◌≢◌, refl, sym, ap, ◌∙◌, subst,
  Bool, true, false, not, ◌&&◌, Option, none, some, List, [], ◌∷◌, map, length, take, filter, arith,
  is_some, some-injective, none-some, ltb, leb, leb→le, str_eq, str_eq_refl, ◌==◌, Bool-cases,
  Option-cases, inl, inr, All, All-filter, if◌then◌else◌,
}
use ojuri.Prelude.Assoc
use ojuri.Prelude.Assoc.{Assoc, IsDistinct, length-delete}
use ojuri.Graph.Service.{insert_by, sort_by}

module _ {A : Type 0} (rank : A → ℕ) where
  length-insert_by : (x : A) (xs : List A) → length (insert_by rank x xs) ≡ suc (length xs)
  unfolding insert_by
  length-insert_by x [] = refl
  length-insert_by x (y ∷ ys) = elim (Bool-cases (leb (rank x) (rank y))) [
    | inl low ↦ rw low refl
    | inr high ↦ rw high (ap suc (length-insert_by x ys))
  ]

  pub length-sort_by : (xs : List A) → length (sort_by rank xs) ≡ length xs
  unfolding sort_by
  length-sort_by [] = refl
  length-sort_by (x ∷ xs) = length-insert_by x (sort_by rank xs) ∙ ap suc (length-sort_by xs)

  module _ (P : A → Type 0) where
    All-insert_by : (x : A) (xs : List A) → P x → All P xs → All P (insert_by rank x xs)
    unfolding insert_by
    All-insert_by x [] p ps = (p, tt)
    All-insert_by x (y ∷ ys) p (q, ps) = elim (Bool-cases (leb (rank x) (rank y))) [
      | inl low ↦ rw low (p, (q, ps))
      | inr high ↦ rw high (q, All-insert_by x ys p ps)
    ]

    pub All-sort_by : (xs : List A) → All P xs → All P (sort_by rank xs)
    unfolding sort_by
    All-sort_by [] ps = tt
    All-sort_by (x ∷ xs) (p, ps) = All-insert_by x (sort_by rank xs) p (All-sort_by xs ps)

module _ {V : Type 0} where
  abbrev pub Has : Assoc V → String × V → Type 0
  Has m n = (v : V) × (Assoc.get m n.0 ≡ some v)

  Has-cons : (m : Assoc V) (n e : String × V) → Has m e → Has (n ∷ m) e
  unfolding ojuri.Prelude.Assoc.get
  Has-cons m (j, w) (k, u) (v, h) = elim (Bool-cases (str_eq j k)) [
    | inl same ↦ (w, rw same refl)
    | inr other ↦ (v, rw other h)
  ]

  All-Has_cons :
      (m : Assoc V) (n : String × V) (es : Assoc V) → All (Has m) es → All (Has (n ∷ m)) es
  All-Has_cons m n [] hs = tt
  All-Has_cons m n (e ∷ es) (h, hs) = (Has-cons m n e h, All-Has_cons m n es hs)

  pub all-Has : (m : Assoc V) → All (Has m) m
  unfolding ojuri.Prelude.Assoc.get
  all-Has [] = tt
  all-Has ((j, v) ∷ m) = ((v, rw (str_eq_refl j) refl), All-Has_cons m (j, v) m (all-Has m))

pub delete-length : {V : Type 0} (m : Assoc V) (k : String) → length (Assoc.delete m k) ≤ length m
unfolding ojuri.Prelude.Assoc.delete
delete-length [] k = omega arith
delete-length (n ∷ m) k = ground (arith, delete-length m k)
