-- ===== src/Graph/Triangles.antt =====
-- The local clustering coefficient is a part of the whole.
use ojuri.Prelude.{
  ℕ, zero, suc, ◌+◌, ◌-◌, ◌*◌, ◌≤◌, String, ◌≡◌, sym, subst, List, [], ◌∷◌, length, arith,
  Bool-cases, inl, inr,
}
use native.Mathlib.Nat.{suc-mul, mul-suc, le-div_iff_mul-le, mul_comm}
use ojuri.Graph.Graphology.{Graphology}
use ojuri.Graph.Service.{NodeAttributes, EdgeAttributes, Config, Numbers}
use ojuri.Graph.Metrics.{is_linked, count_linked, count_triangles, possible_triangles}

-- One more neighbour makes a pair with each of the others.
step : (n c t : ℕ) → c ≤ n → 2 * t ≤ n * (n - 1) → 2 * (c + t) ≤ suc n * (suc n - 1)
step zero c t few pairs = omega (arith, few, pairs)
step (suc k) c t few pairs =
    let less : suc (suc k) - 1 ≡ suc k = omega arith in
    let before : suc k - 1 ≡ k = omega arith in
    let known : 2 * t ≤ suc k * k = subst (λ m. 2 * t ≤ suc k * m) before pairs in
    subst (λ m. 2 * (c + t) ≤ suc (suc k) * m) (sym less)
      (omega (arith, few, known, suc-mul (suc k) (suc k), mul-suc (suc k) k))

module _ {Num : Type 0} (numbers : Numbers Num)
    (graphology : Graphology (NodeAttributes Num) (EdgeAttributes Num)) (config : Config) where
  open graphology use {State}

  linked-bound :
      (g : State) (a : String) (bs : List String)
      → count_linked numbers graphology config g a bs ≤ length bs
  linked-bound g a [] = omega arith
  linked-bound g a (b ∷ bs) = elim (Bool-cases (is_linked numbers graphology config g a b)) [
    | inl joined ↦ rw joined (omega (arith, linked-bound g a bs))
    | inr apart ↦ rw apart (omega (arith, linked-bound g a bs))
  ]

  twice-bound :
      (g : State) (xs : List String)
      → 2 * count_triangles numbers graphology config g xs ≤ length xs * (length xs - 1)
  twice-bound g [] = omega arith
  twice-bound g (a ∷ bs) =
      step (length bs) (count_linked numbers graphology config g a bs)
        (count_triangles numbers graphology config g bs) (linked-bound g a bs) (twice-bound g bs)

  -- No more pairs of some neighbours are counted as linked than there are pairs of them.
  pub count_triangles-possible_triangles :
      (g : State) (neighbors : List String)
      → count_triangles numbers graphology config g neighbors
        ≤ possible_triangles numbers graphology config (length neighbors)
  count_triangles-possible_triangles g neighbors =
      let n = count_triangles numbers graphology config g neighbors in
      (le-div_iff_mul-le (omega arith)).1 (omega (arith, mul_comm n 2, twice-bound g neighbors))
