-- ===== src/Prelude/Assoc.antt =====
-- `Map<string, V>` as an association list in insertion order: `get`, `set` and `delete`.
use Prim.Native.Nat.{suc}
use mathlib.Core.Path.{◌≡◌, refl, ap, subst}
use ojuri.Prelude.Lists.{length}
use mathlib.Core.Logic.{inl, inr}
use mathlib.Core.Bool.{Bool, true, false}
use mathlib.Core.Option.{Option, none, some}
use mathlib.Core.List.{List, [], ◌∷◌}
use Prim.Native.String.{String}
use native.Mathlib.Omega.{arith}
use text.Mathlib.Text.{◌==◌}
use text.Mathlib.TextEquality.{eq_iff}
use ojuri.Prelude.Tests.{if◌then◌else◌}
use ojuri.Prelude.Cases.{Bool-cases, some-injective}

abbrev pub Assoc {ℓ} : Type ℓ → Type ℓ
Assoc V = List (String × V)

module _ {ℓ} {V : Type ℓ} where
  unfoldable pub get : Assoc V → String → Option V
  get [] k = none
  get ((j, v) ∷ m) k = if j == k then some v else get m k

  unfoldable pub set : Assoc V → String → V → Assoc V
  set [] k v = (k, v) ∷ []
  set ((j, w) ∷ m) k v = if j == k then (j, v) ∷ m else (j, w) ∷ set m k v

  unfoldable pub delete : Assoc V → String → Assoc V
  delete [] k = []
  delete ((j, w) ∷ m) k = let rest = delete m k in if j == k then rest else (j, w) ∷ rest

  pub get-set :
      (m : Assoc V) (k : String) (v : V) (j : String)
      → get (set m k v) j ≡ (if k == j then some v else get m j)
  unfolding get set
  get-set [] k v j = refl
  get-set ((i, w) ∷ m) k v j = ground (arith, eq_iff k j, eq_iff i k, eq_iff i j, get-set m k v j)

  pub get-delete :
      (m : Assoc V) (k j : String) → get (delete m k) j ≡ (if k == j then none else get m j)
  unfolding get delete
  get-delete [] k j = ground arith
  get-delete ((i, w) ∷ m) k j = ground (arith, eq_iff k j, eq_iff i k, eq_iff i j, get-delete m k j)

module _ {ℓ κ} {V : Type ℓ} (P : V → Type κ) where
  -- Every value has the property.
  abbrev pub AllValues : Assoc V → Type κ
  AllValues [] = Unit
  AllValues ((j, v) ∷ m) = P v × AllValues m

  first_or :
      (b : Bool) (w v : V) (later : Option V)
      → (if b then some w else later) ≡ some v
      → P w
      → (later ≡ some v → P v)
      → P v
  first_or true w v later e p h = subst P (some-injective e) p
  first_or false w v later e p h = h e

  pub AllValues-get : (m : Assoc V) (k : String) → AllValues m → (v : V) → get m k ≡ some v → P v
  unfolding get
  AllValues-get [] k h v e = cc
  AllValues-get ((j, w) ∷ m) k (p, h) v e =
      first_or (j == k) w v (get m k) e p (AllValues-get m k h v)

  pub AllValues-set : (m : Assoc V) (k : String) (v : V) → AllValues m → P v → AllValues (set m k v)
  unfolding set
  AllValues-set [] k v h p = (p, tt)
  AllValues-set ((j, w) ∷ m) k v (q, h) p = elim (Bool-cases (j == k)) [
    | inl same ↦ rw same (p, h)
    | inr other ↦ rw other (q, AllValues-set m k v h p)
  ]

  pub AllValues-delete : (m : Assoc V) (k : String) → AllValues m → AllValues (delete m k)
  unfolding delete
  AllValues-delete [] k h = tt
  AllValues-delete ((j, w) ∷ m) k (q, h) = elim (Bool-cases (j == k)) [
    | inl same ↦ rw same (AllValues-delete m k h)
    | inr other ↦ rw other (q, AllValues-delete m k h)
  ]

module _ {ℓ} {V : Type ℓ} where
  -- No key stands twice, as in a `Map`.
  abbrev pub IsDistinct : Assoc V → Type ℓ
  IsDistinct [] = Unit
  IsDistinct ((j, v) ∷ m) = (get m j ≡ none) × IsDistinct m

  delete_absent : (m : Assoc V) (k : String) → get m k ≡ none → delete m k ≡ m
  unfolding get delete
  delete_absent [] k e = refl
  delete_absent ((j, v) ∷ m) k e = ground (arith, delete_absent m k)

  pub length-delete :
      (m : Assoc V) (k : String) (v : V)
      → IsDistinct m
      → get m k ≡ some v
      → suc (length (delete m k)) ≡ length m
  unfolding get delete
  length-delete [] k v d e = cc
  length-delete ((j, w) ∷ m) k v (absent, d) e = elim (Bool-cases (j == k)) [
    | inl same ↦
        let here : j ≡ k = (eq_iff j k).0 same in
        rw (same, delete_absent m k (subst (λ i. get m i ≡ none) here absent)) refl
    | inr other ↦ rw other (ap suc (length-delete m k v d (ground arith)))
  ]

  pub delete-IsDistinct : (m : Assoc V) (k : String) → IsDistinct m → IsDistinct (delete m k)
  unfolding delete
  delete-IsDistinct [] k d = tt
  delete-IsDistinct ((j, w) ∷ m) k (absent, d) = elim (Bool-cases (j == k)) [
    | inl same ↦ rw same (delete-IsDistinct m k d)
    | inr other ↦ rw other (ground (arith, get-delete m k j, absent), delete-IsDistinct m k d)
  ]

  pub set-IsDistinct : (m : Assoc V) (k : String) (v : V) → IsDistinct m → IsDistinct (set m k v)
  unfolding set get
  set-IsDistinct [] k v d = (refl, tt)
  set-IsDistinct ((j, w) ∷ m) k v (absent, d) = elim (Bool-cases (j == k)) [
    | inl same ↦ rw same (absent, d)
    | inr other ↦
        rw other
          (ground (arith, get-set m k v j, absent, eq_iff k j, eq_iff j k), set-IsDistinct m k v d)
  ]
