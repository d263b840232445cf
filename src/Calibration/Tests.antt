-- ===== src/Calibration/Tests.antt =====
-- Three breakpoints, with whole numbers.
use ojuri.Prelude.{ℕ, ◌+◌, ◌-◌, ◌*◌, ◌/◌, ◌≡◌, refl, some, [], ◌∷◌, arith, leb}
use ojuri.Calibration.{CalibrationSpec, Arithmetic, load_calibration, apply_calibration}
use ojuri.Calibration.Pieces.{IsCalibrated, apply_calibration-IsCalibrated}

abbrev whole : Arithmetic ℕ
whole = record {
  le = leb;
  zero = 0;
  add = λ a b. a + b;
  sub = λ a b. a - b;
  mul = λ a b. a * b;
  quotient = λ a b. a / b;
}

abbrev spec : CalibrationSpec ℕ
spec = record { x_thresholds = 10 ∷ 20 ∷ 30 ∷ []; y_thresholds = 5 ∷ 40 ∷ 90 ∷ [] }

loaded : load_calibration whole (10 ∷ 20 ∷ 30 ∷ []) (5 ∷ 40 ∷ 90 ∷ []) ≡ some spec
unfolding load_calibration
loaded = refl

at_breakpoint : apply_calibration whole spec 20 ≡ some 40
unfolding apply_calibration
at_breakpoint = refl

apply_calibration-IsCalibrated_example :
    IsCalibrated whole 15 spec (apply_calibration whole spec 15)
apply_calibration-IsCalibrated_example =
    apply_calibration-IsCalibrated whole 15 (10 ∷ 20 ∷ 30 ∷ []) (5 ∷ 40 ∷ 90 ∷ []) spec
      (λ a b h. ground arith) loaded
