-- ===== src/Password.antt =====
-- src/shared/authz/password-policy.ts: the strength of a password. `toLowerCase` is a parameter.
pub mod Accepted
mod Tests
use Prim.Native.Char.{Char, code}
use ojuri.Prelude.{
  ℕ, ◌+◌, ◌-◌, min, max, characters, String, Bool, true, false, not, ◌&&◌, ◌||◌, List, [], ◌∷◌,
  ◌++◌, length, any, all, ltb, leb, str_eq, ◌==◌, if◌then◌else◌,
}
use ojuri.Redis.{is_member}

abbrev pub min_length : ℕ
min_length = 12

abbrev pub min_score : ℕ
min_score = 3

pub data Issue : Type 0 where
  too_short no_upper no_lower no_digit no_symbol has_username is_common is_current : Issue

pub record Checks : Type 0 where
  pub length : Bool
  pub upper : Bool
  pub lower : Bool
  pub digit : Bool
  pub symbol : Bool
  pub not_username : Bool
  pub not_common : Bool

pub record PolicyResult : Type 0 where
  pub ok : Bool
  pub score : ℕ
  pub issues : List Issue
  pub checks : Checks

abbrev pub common : List String
common =
    "password" ∷ "password1" ∷ "password123" ∷ "qwerty" ∷ "qwerty123" ∷ "letmein" ∷ "welcome"
    ∷ "welcome1" ∷ "admin" ∷ "admin123" ∷ "administrator" ∷ "root" ∷ "changeme" ∷ "iloveyou"
    ∷ "monkey" ∷ "dragon" ∷ "sentinel" ∷ "sentinel1" ∷ "fraudit" ∷ "admin@fraudit" ∷ []

-- `length` of a text: a character above the first plane counts twice.
abbrev pub units : List Char → ℕ
units [] = 0
units (c ∷ cs) = (if leb 65536 (code c) then 2 else 1) + units cs

abbrev pub is_prefix : List Char → List Char → Bool
is_prefix [] ds = true
is_prefix (c ∷ cs) [] = false
is_prefix (c ∷ cs) (d ∷ ds) = let rest = is_prefix cs ds in if code c == code d then rest else false

-- `text.includes(part)`
abbrev pub includes : List Char → List Char → Bool
includes [] part = is_prefix part []
includes (c ∷ cs) part = is_prefix part (c ∷ cs) || includes cs part

abbrev pub is_between : ℕ → ℕ → Char → Bool
is_between low high c = leb low (code c) && leb (code c) high

abbrev pub is_upper : Char → Bool
is_upper = is_between b'A' b'Z'

abbrev pub is_lower : Char → Bool
is_lower = is_between b'a' b'z'

abbrev pub is_digit : Char → Bool
is_digit = is_between b'0' b'9'

abbrev pub is_symbol : Char → Bool
is_symbol c = not (is_upper c || (is_lower c || is_digit c))

-- An empty or absent user name is falsy.
unfoldable pub checks_of : (String → String) → String → String → Checks
checks_of to_lower pw user =
    let cs = characters pw in
    let lc = to_lower pw in
    let username = to_lower user in
    record {
      length = leb min_length (units cs);
      upper = any is_upper cs;
      lower = any is_lower cs;
      digit = any is_digit cs;
      symbol = any is_symbol cs;
      not_username = str_eq username "" || not (includes (characters lc) (characters username));
      not_common =
          not (is_member common lc)
          && not (
              any (λ c. ltb 4 (units (characters c)) && includes (characters lc) (characters c))
                common);
    }

abbrev pub issue_unless : Bool → Issue → List Issue
issue_unless true issue = []
issue_unless false issue = issue ∷ []

unfoldable pub issues_of : Checks → Bool → List Issue
issues_of checks same =
    issue_unless checks.length too_short
    ++ issue_unless checks.upper no_upper
    ++ issue_unless checks.lower no_lower
    ++ issue_unless checks.digit no_digit
    ++ issue_unless checks.symbol no_symbol
    ++ issue_unless checks.not_username has_username
    ++ issue_unless checks.not_common is_common
    ++ issue_unless (not same) is_current

abbrev pub point : Bool → ℕ
point b = if b then 1 else 0

unfoldable pub score_of : Checks → ℕ → ℕ
score_of checks size =
    let classes =
      point checks.upper + point checks.lower + point checks.digit + point checks.symbol in
    let long = if leb 16 size then min 4 (classes + 1) else classes in
    let known = if not checks.not_common || not checks.not_username then long - 2 else long in
    if checks.length then min 4 known else 0

abbrev pub is_empty : List Issue → Bool
is_empty [] = true
is_empty (i ∷ is) = false

abbrev pub all_hold : Checks → Bool
all_hold checks =
    checks.length
    && (checks.upper
        && (checks.lower
            && (checks.digit && (checks.symbol && (checks.not_username && checks.not_common)))))

-- `current` is the password in use, empty where none is given.
unfoldable pub evaluate_password : (String → String) → String → String → String → PolicyResult
unfolding checks_of issues_of score_of
evaluate_password to_lower pw user current =
    let checks = checks_of to_lower pw user in
    let issues = issues_of checks (not (str_eq current "") && str_eq current pw) in
    let score = score_of checks (units (characters pw)) in
    record {
      ok = is_empty issues && (leb min_score score && all_hold checks);
      score = score;
      issues = issues;
      checks = checks;
    }
