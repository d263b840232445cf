-- ===== src/Calibration.antt =====
-- src/shared/onnx/calibration.ts: the calibration of a score. Numbers are the host's, a parameter; the
-- model's file is read by others. `none` is a number read past the end of a list, undefined.

pub mod Pieces
mod Tests
use ojuri.Prelude.{
  ℕ, zero, suc, ◌+◌, ◌-◌, ◌/◌, String, Bool, true, false, not, ◌&&◌, ◌||◌, Option, none, some, List,
  [], ◌∷◌, length, get_elem?, ltb, ◌==◌, ◌>>=◌, if◌then◌else◌,
}

pub record CalibrationSpec (Num : Type 0) : Type 0 where
  pub x_thresholds : List Num
  pub y_thresholds : List Num

-- Finite numbers: `<=`, and the arithmetic of the interpolation.
pub record Arithmetic (Num : Type 0) : Type 0 where
  pub le : Num → Num → Bool
  pub zero : Num
  pub add : Num → Num → Num
  pub sub : Num → Num → Num
  pub mul : Num → Num → Num
  pub quotient : Num → Num → Num

module _ {Num : Type 0} (arithmetic : Arithmetic Num) where
  -- No breakpoint is below the one before it.
  abbrev pub is_ascending : List Num → Bool
  is_ascending [] = true
  is_ascending (x ∷ []) = true
  is_ascending (x ∷ y ∷ xs) = arithmetic.le x y && is_ascending (y ∷ xs)

  -- Of the two arrays of numbers in the model's block.
  unfoldable pub load_calibration : List Num → List Num → Option (CalibrationSpec Num)
  load_calibration xs ys =
      if ltb (length xs) 2 || not (length xs == length ys)
      then none
      else if is_ascending xs
      then some (record { x_thresholds = xs; y_thresholds = ys })
      else none

  -- The half of the bracket that the middle point leaves.
  abbrev pub next_lo : Num → Num → ℕ → ℕ → ℕ
  next_lo x raw lo mid = if arithmetic.le x raw then mid else lo

  abbrev pub next_hi : Num → Num → ℕ → ℕ → ℕ
  next_hi x raw hi mid = if arithmetic.le x raw then hi else mid

  abbrev pub halve : (ℕ → ℕ → Option (ℕ × ℕ)) → Num → ℕ → ℕ → Option Num → Option (ℕ × ℕ)
  halve next raw lo hi none = none
  halve next raw lo hi (some x) =
      next (next_lo x raw lo ((lo + hi) / 2)) (next_hi x raw hi ((lo + hi) / 2))

  -- `while (hi - lo > 1)`, with the bracket at its end, on a number of rounds; `none` where the rounds are
  -- not enough, or past the end.
  unfoldable pub search : ℕ → List Num → Num → ℕ → ℕ → Option (ℕ × ℕ)
  search zero xs raw lo hi = none
  search (suc rounds) xs raw lo hi =
      let next = search rounds xs raw in
      if ltb 1 (hi - lo) then halve next raw lo hi (get_elem? xs ((lo + hi) / 2)) else some (lo, hi)

  abbrev pub line : Num → Num → Num → Num → Num → Num
  line xl xh yl yh raw =
      let span = arithmetic.sub xh xl in
      if arithmetic.le span arithmetic.zero
      then yl
      else arithmetic.add yl
          (arithmetic.mul (arithmetic.quotient (arithmetic.sub raw xl) span) (arithmetic.sub yh yl))

  abbrev pub interpolate : CalibrationSpec Num → Num → Option (ℕ × ℕ) → Option Num
  interpolate spec raw none = none
  interpolate spec raw (some (lo, hi)) = do
    xl ← get_elem? spec.x_thresholds lo
    xh ← get_elem? spec.x_thresholds hi
    yl ← get_elem? spec.y_thresholds lo
    yh ← get_elem? spec.y_thresholds hi
    some (line xl xh yl yh raw)

  -- The ends, then the piece between two breakpoints.
  abbrev pub within : CalibrationSpec Num → Num → Num → Num → Option Num
  within spec raw first last =
      if arithmetic.le raw first
      then get_elem? spec.y_thresholds 0
      else if arithmetic.le last raw
      then get_elem? spec.y_thresholds (length spec.y_thresholds - 1)
      else interpolate spec raw
          (search (length spec.x_thresholds) spec.x_thresholds raw 0 (length spec.x_thresholds - 1))

  unfoldable pub apply_calibration : CalibrationSpec Num → Num → Option Num
  unfolding search
  apply_calibration spec raw = do
    first ← get_elem? spec.x_thresholds 0
    last ← get_elem? spec.x_thresholds (length spec.x_thresholds - 1)
    within spec raw first last
