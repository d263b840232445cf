-- ===== src/Password/Accepted.antt =====
-- Which passwords are accepted.
use ojuri.Prelude.{
  ℕ, characters, String, ◌≡◌, refl, Bool, true, false, not, ◌&&◌, leb, str_eq, Bool-cases, inl, inr,
}
use ojuri.Password.{
  Checks, min_score, units, checks_of, issues_of, score_of, is_empty, all_hold, evaluate_password,
}

-- The score of a password that passes every check is the highest.
all_points :
    (size : ℕ)
    → leb min_score (
        score_of
          (record {
            length = true;
            upper = true;
            lower = true;
            digit = true;
            symbol = true;
            not_username = true;
            not_common = true;
          })
          size)
      ≡ true
unfolding score_of
all_points size = elim (Bool-cases (leb 16 size)) [
  | inl long ↦ rw long refl
  | inr short ↦ rw short refl
]

abbrev verdict : Checks → ℕ → Bool → Bool
verdict checks size same =
    is_empty (issues_of checks same) && (leb min_score (score_of checks size) && all_hold checks)

verdict-checks :
    (size : ℕ) (same length upper lower digit symbol not_username not_common : Bool)
    → verdict
        (record {
          length = length;
          upper = upper;
          lower = lower;
          digit = digit;
          symbol = symbol;
          not_username = not_username;
          not_common = not_common;
        })
        size
        same
      ≡ (all_hold (record {
        length = length;
        upper = upper;
        lower = lower;
        digit = digit;
        symbol = symbol;
        not_username = not_username;
        not_common = not_common;
      })
          && not same)
unfolding issues_of
verdict-checks size same false upper lower digit symbol name common = refl
verdict-checks size same true false lower digit symbol name common = refl
verdict-checks size same true true false digit symbol name common = refl
verdict-checks size same true true true false symbol name common = refl
verdict-checks size same true true true true false name common = refl
verdict-checks size same true true true true true false common = refl
verdict-checks size same true true true true true true false = refl
verdict-checks size true true true true true true true true = refl
verdict-checks size false true true true true true true true = rw (all_points size) refl

-- A password is accepted just where it passes all seven checks and differs from a current one that
-- is given: its score never decides.
pub evaluate_password-checks :
    (to_lower : String → String) (pw user current : String)
    → (evaluate_password to_lower pw user current).ok ≡ (
        all_hold (evaluate_password to_lower pw user current).checks
        && not (not (str_eq current "") && str_eq current pw))
unfolding evaluate_password
evaluate_password-checks to_lower pw user current =
    let checks = checks_of to_lower pw user in
    verdict-checks (units (characters pw)) (not (str_eq current "") && str_eq current pw)
      checks.length checks.upper checks.lower checks.digit checks.symbol checks.not_username
      checks.not_common
