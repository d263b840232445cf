-- ===== src/Calibration/Pieces.antt =====
-- A calibrated score is that of an end, or on the piece around the score.
use ojuri.Prelude.{
  ℕ, zero, suc, ◌+◌, ◌-◌, ◌/◌, ◌≤◌, ◌<◌, ◌≡◌, refl, sym, subst, Bool, true, false, ◌⊎◌, Option,
  some, List, [], ◌∷◌, length, get_elem?, arith, ltb, ltb→lt, ltb→le, ==_iff, Bool-cases, inl, inr,
  some-injective, none-some, ◌==◌,
}
use ojuri.Calibration.{
  CalibrationSpec, Arithmetic, is_ascending, load_calibration, search, line, interpolate,
  apply_calibration,
}

get_elem?-some :
    {A : Type 0} (i : ℕ) (xs : List A) → i < length xs → (x : A) × (get_elem? xs i ≡ some x)
get_elem?-some i [] h = absurd (omega (arith, h))
get_elem?-some zero (x ∷ xs) h = (x, refl)
get_elem?-some (suc i) (x ∷ xs) h = get_elem?-some i xs (omega (arith, h))

module _ {Num : Type 0} (arithmetic : Arithmetic Num) (raw : Num) where
  abbrev IsBelow : List Num → ℕ → Type 0
  IsBelow xs i = (x : Num) × (get_elem? xs i ≡ some x) × (arithmetic.le x raw ≡ true)

  abbrev IsAbove : List Num → ℕ → Type 0
  IsAbove xs i = (x : Num) × (get_elem? xs i ≡ some x) × (arithmetic.le x raw ≡ false)

  -- The bracket is one piece around the score.
  abbrev IsFound : List Num → Option (ℕ × ℕ) → Type 0
  IsFound xs o = (lo : ℕ) × (o ≡ some (lo, suc lo)) × IsBelow xs lo × IsAbove xs (suc lo)

  -- As many rounds as the bracket is wide are enough.
  search-IsFound :
      (rounds : ℕ) (xs : List Num) (lo hi : ℕ)
      → lo < hi
      → hi < length xs
      → hi ≤ lo + rounds
      → IsBelow xs lo
      → IsAbove xs hi
      → IsFound xs (search arithmetic rounds xs raw lo hi)
  unfolding search
  search-IsFound zero xs lo hi apart inside wide below above = absurd (omega (arith, apart, wide))
  search-IsFound (suc rounds) xs lo hi apart inside wide below above =
      elim (Bool-cases (ltb 1 (hi - lo))) [
        | inl more ↦
            let gap = ltb→lt 1 (hi - lo) more in
            let (x, at) = get_elem?-some ((lo + hi) / 2) xs (omega (arith, apart, inside)) in
            elim (Bool-cases (arithmetic.le x raw)) [
              | inl under ↦
                  rw (more, at, under)
                    (search-IsFound rounds xs ((lo + hi) / 2) hi (omega (arith, gap)) inside
                      (omega (arith, gap, wide)) (x, at, under) above)
              | inr over ↦
                  rw (more, at, over)
                    (search-IsFound rounds xs lo ((lo + hi) / 2) (omega (arith, gap))
                      (omega (arith, gap, inside)) (omega (arith, gap, wide)) below (x, at, over))
            ]
        | inr done ↦
            let next : hi ≡ suc lo = omega (arith, apart, ltb→le 1 (hi - lo) done) in
            rw (done, next) (lo, refl, below, subst (IsAbove xs) next above)
      ]

  -- Two points of the breakpoints, by their index.
  abbrev IsPoint : CalibrationSpec Num → ℕ → Num → Num → Type 0
  IsPoint spec i x y =
      (get_elem? spec.x_thresholds i ≡ some x) × (get_elem? spec.y_thresholds i ≡ some y)

  abbrev IsEnd : CalibrationSpec Num → ℕ → (Num → Bool) → Option Num → Type 0
  IsEnd spec i beyond result =
      (x y : Num) × IsPoint spec i x y × (beyond x ≡ true) × (result ≡ some y)

  abbrev IsOnPiece : CalibrationSpec Num → Option Num → Type 0
  IsOnPiece spec result =
      (i : ℕ) × ((xl yl xh yh : Num) × IsPoint spec i xl yl
        × IsPoint spec (suc i) xh yh
        × (arithmetic.le xl raw ≡ true)
        × (arithmetic.le xh raw ≡ false)
        × (result ≡ some (line arithmetic xl xh yl yh raw)))

  -- The first point, the last, or the line through the two around the score.
  abbrev pub IsCalibrated : CalibrationSpec Num → Option Num → Type 0
  IsCalibrated spec result =
      IsEnd spec 0 (λ x. arithmetic.le raw x) result
      ⊎ (IsEnd spec (length spec.x_thresholds - 1) (λ x. arithmetic.le x raw) result
          ⊎ IsOnPiece spec result)

  abbrev IsUsable : CalibrationSpec Num → Type 0
  IsUsable spec =
      (2 ≤ length spec.x_thresholds) × (length spec.y_thresholds ≡ length spec.x_thresholds)

  load_calibration-IsUsable :
      (xs ys : List Num) (spec : CalibrationSpec Num)
      → load_calibration arithmetic xs ys ≡ some spec
      → IsUsable spec
  unfolding load_calibration
  load_calibration-IsUsable xs ys spec e = elim (Bool-cases (ltb (length xs) 2)) [
    | inl short ↦ absurd (none-some ((rw short at e)))
    | inr long ↦ elim (Bool-cases (length xs == length ys)) [
      | inr odd ↦ absurd (none-some ((rw (long, odd) at e)))
      | inl even ↦ elim (Bool-cases (is_ascending arithmetic xs)) [
        | inr falling ↦ absurd (none-some ((rw (long, even, falling) at e)))
        | inl rising ↦
            subst IsUsable (some-injective ((rw (long, even, rising) at e)))
              (ltb→le (length xs) 2 long, sym ((==_iff (length xs) (length ys)).0 even))
      ]
    ]
  ]

  point :
      (spec : CalibrationSpec Num) (i : ℕ)
      → IsUsable spec
      → i < length spec.x_thresholds
      → (y : Num) × (get_elem? spec.y_thresholds i ≡ some y)
  point spec i (many, even) inside =
      get_elem?-some i spec.y_thresholds (omega (arith, even, inside))

  -- An index that is read is inside.
  inside_of : (i : ℕ) (xs : List Num) (x : Num) → get_elem? xs i ≡ some x → i < length xs
  inside_of i [] x e = absurd (none-some e)
  inside_of zero (y ∷ xs) x e = omega arith
  inside_of (suc i) (y ∷ xs) x e = omega (arith, inside_of i xs x e)

  interpolate-IsOnPiece :
      (spec : CalibrationSpec Num) (o : Option (ℕ × ℕ))
      → IsUsable spec
      → IsFound spec.x_thresholds o
      → IsOnPiece spec (interpolate arithmetic spec raw o)
  interpolate-IsOnPiece spec o usable (lo, found, (xl, at_lo, under), (xh, at_hi, over)) =
      let (yl, y_lo) = point spec lo usable (inside_of lo spec.x_thresholds xl at_lo) in
      let (yh, y_hi) = point spec (suc lo) usable (inside_of (suc lo) spec.x_thresholds xh at_hi) in
      (
        lo,
        (
          xl,
          yl,
          xh,
          yh,
          (at_lo, y_lo),
          (at_hi, y_hi),
          under,
          over,
          rw (found, at_lo, at_hi, y_lo, y_hi) refl,
        ),
      )

  -- For finite numbers, one of two is at most the other. Every score that a loaded calibration is
  -- applied to gets a value: the first where it is at most the first breakpoint, the last where it
  -- is at least the last, and else that of the line through the two points around it. The search
  -- for these ends, and nothing is read past the end of a list.
  pub apply_calibration-IsCalibrated :
      (xs ys : List Num) (spec : CalibrationSpec Num)
      → ((a b : Num) → arithmetic.le a b ≡ false → arithmetic.le b a ≡ true)
      → load_calibration arithmetic xs ys ≡ some spec
      → IsCalibrated spec (apply_calibration arithmetic spec raw)
  unfolding apply_calibration
  apply_calibration-IsCalibrated xs ys spec total loaded =
      let usable = load_calibration-IsUsable xs ys spec loaded in
      let n = length spec.x_thresholds in
      let (first, at_first) = get_elem?-some 0 spec.x_thresholds (omega (arith, usable.0)) in
      let (last, at_last) = get_elem?-some (n - 1) spec.x_thresholds (omega (arith, usable.0)) in
      let (y0, y_first) = point spec 0 usable (omega (arith, usable.0)) in
      let (yn, y_last) = point spec (n - 1) usable (omega (arith, usable.0)) in
      elim (Bool-cases (arithmetic.le raw first)) [
        | inl low ↦ inl (first, y0, (at_first, y_first), low, rw (at_first, at_last, low) y_first)
        | inr above_first ↦ elim (Bool-cases (arithmetic.le last raw)) [
          | inl high ↦ inr (
              inl (
                last,
                yn,
                (at_last, y_last),
                high,
                rw (at_first, at_last, above_first, high, usable.1) y_last,
              ))
          | inr below_last ↦
              rw (at_first, at_last, above_first, below_last)
                (inr (
                  inr (
                    interpolate-IsOnPiece spec _ usable (
                      search-IsFound n spec.x_thresholds 0 (n - 1) (omega (arith, usable.0))
                        (omega (arith, usable.0)) (omega arith)
                        (first, at_first, total raw first above_first)
                        (last, at_last, below_last)))))
        ]
      ]
