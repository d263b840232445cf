-- ===== src/Graph/Oldest.antt =====
-- A cap-driven prune drops the nodes that were seen longest ago.
use ojuri.Prelude.{
  ℕ, zero, suc, ◌≤◌, List, [], ◌∷◌, take, drop, arith, leb, leb→le, Bool-cases, inl, inr, All,
}
use ojuri.Graph.Service.{insert_by, sort_by}

module _ {A : Type 0} (rank : A → ℕ) where
  abbrev Above : ℕ → List A → Type 0
  Above n = All (λ x. n ≤ rank x)

  abbrev pub IsSorted : List A → Type 0
  IsSorted [] = Unit
  IsSorted (x ∷ xs) = Above (rank x) xs × IsSorted xs

  Above-weaken : (m n : ℕ) (xs : List A) → m ≤ n → Above n xs → Above m xs
  Above-weaken m n [] less h = tt
  Above-weaken m n (x ∷ xs) less (h, hs) = (omega (arith, less, h), Above-weaken m n xs less hs)

  insert_by-Above :
      (n : ℕ) (x : A) (xs : List A) → n ≤ rank x → Above n xs → Above n (insert_by rank x xs)
  unfolding insert_by
  insert_by-Above n x [] h hs = (h, tt)
  insert_by-Above n x (y ∷ ys) h (k, ks) = elim (Bool-cases (leb (rank x) (rank y))) [
    | inl low ↦ rw low (h, (k, ks))
    | inr high ↦ rw high (k, insert_by-Above n x ys h ks)
  ]

  insert_by-IsSorted : (x : A) (xs : List A) → IsSorted xs → IsSorted (insert_by rank x xs)
  unfolding insert_by
  insert_by-IsSorted x [] s = (tt, tt)
  insert_by-IsSorted x (y ∷ ys) (a, s) = elim (Bool-cases (leb (rank x) (rank y))) [
    | inl low ↦
        let le = leb→le (rank x) (rank y) low in
        rw low ((le, Above-weaken (rank x) (rank y) ys le a), (a, s))
    | inr high ↦
        let ge : rank y ≤ rank x = ground (arith, high) in
        rw high (insert_by-Above (rank y) x ys ge a, insert_by-IsSorted x ys s)
  ]

  pub sort_by-IsSorted : (xs : List A) → IsSorted (sort_by rank xs)
  unfolding sort_by
  sort_by-IsSorted [] = tt
  sort_by-IsSorted (x ∷ xs) = insert_by-IsSorted x (sort_by rank xs) (sort_by-IsSorted xs)

  -- Every one taken is at most every one left.
  abbrev pub IsSplit : List A → List A → Type 0
  IsSplit taken left = All (λ x. Above (rank x) left) taken

  Above-drop : (k n : ℕ) (xs : List A) → Above n xs → Above n (drop k xs)
  Above-drop zero n xs h = h
  Above-drop (suc k) n [] h = tt
  Above-drop (suc k) n (x ∷ xs) (h, hs) = Above-drop k n xs hs

  pub IsSplit-take : (k : ℕ) (xs : List A) → IsSorted xs → IsSplit (take k xs) (drop k xs)
  IsSplit-take zero xs s = tt
  IsSplit-take (suc k) [] s = tt
  IsSplit-take (suc k) (x ∷ xs) (a, s) = (Above-drop k (rank x) xs a, IsSplit-take k xs s)
