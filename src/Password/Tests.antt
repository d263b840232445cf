-- ===== src/Password/Tests.antt =====
-- Two passwords, of characters that are lower case already or have none.
use ojuri.Prelude.{String, ◌≡◌, refl, true, false, not, ◌&&◌, str_eq}
use ojuri.Password.{all_hold, evaluate_password}
use ojuri.Password.Accepted.{evaluate_password-checks}

abbrev lowered : String → String
lowered s = s

good : (evaluate_password lowered "Tr0ub4dor&3x" "ann" "").ok ≡ true
unfolding evaluate_password
good = refl

common : (evaluate_password lowered "A1!password_" "ann" "").ok ≡ false
unfolding evaluate_password
common = refl

evaluate_password-checks_example :
    (evaluate_password lowered "Tr0ub4dor&3x" "ann" "Tr0ub4dor&3x").ok ≡ (
      all_hold (evaluate_password lowered "Tr0ub4dor&3x" "ann" "Tr0ub4dor&3x").checks
      && not (not (str_eq "Tr0ub4dor&3x" "") && str_eq "Tr0ub4dor&3x" "Tr0ub4dor&3x"))
evaluate_password-checks_example =
    evaluate_password-checks lowered "Tr0ub4dor&3x" "ann" "Tr0ub4dor&3x"
