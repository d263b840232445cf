-- ===== src/Rules/Path.antt =====
-- `path.split(".")` and `startsWith("features.")`, of evaluator.ts and rules.service.ts.
use Prim.Native.Char.{Char, code}
use Prim.Native.String.{String, [], ◌∷◌, ◌++◌}
use mathlib.Core.List.{List}
use text.Mathlib.Text.{starts_with}
use text.Mathlib.TextEquality.{Char-path}
use text.Mathlib.TextLemmas.{nil-append, cons-append, append_assoc}
use text.Mathlib.TextPositions.{starts_with-append}
use ojuri.Prelude.{
  ◌≡◌, refl, sym, ap, ◌∙◌, ◌≢◌, false, ◌⊎◌, inl, inr, ◌==◌, ==_iff, if◌then◌else◌, Bool-cases,
}

abbrev pub cons_first : Char → List String → List String
cons_first c List.[] = List.◌∷◌ (c ∷ []) List.[]
cons_first c (List.◌∷◌ s rest) = List.◌∷◌ (c ∷ s) rest

unfoldable pub split_dot : String → List String
split_dot [] = List.◌∷◌ "" List.[]
split_dot (c ∷ s) =
    let rest = split_dot s in if code c == b'.' then List.◌∷◌ "" rest else cons_first c rest

abbrev pub first : List String → String
first List.[] = ""
first (List.◌∷◌ s rest) = s

first-cons_first : (c : Char) (l : List String) → first (cons_first c l) ≡ c ∷ first l
first-cons_first c List.[] = refl
first-cons_first c (List.◌∷◌ s rest) = refl

-- A path is its first part, or that part, a dot and the rest.
abbrev pub IsFirst : String → String → Type 0
IsFirst h s = (s ≡ h) ⊎ ((u : String) × (s ≡ h ++ ("." ++ u)))

IsFirst-cons : (c : Char) (h s : String) → IsFirst h s → IsFirst (c ∷ h) (c ∷ s)
IsFirst-cons c h s (inl e) = inl (ap (λ (t : String). c ∷ t) e)
IsFirst-cons c h s (inr (u, e)) =
    inr (u, ap (λ (t : String). c ∷ t) e ∙ sym (cons-append c h ("." ++ u)))

dot_of_code : (c : Char) (s : String) → code c ≡ b'.' → c ∷ s ≡ "" ++ ("." ++ s)
dot_of_code c s e =
    let dot : Char = "." in
    ap (λ (d : Char). d ∷ s) (Char-path c dot e)
    ∙ sym (
        nil-append ("." ++ s)
        ∙ (cons-append dot [] s ∙ ap (λ (t : String). dot ∷ t) (nil-append s)))

pub split_dot-IsFirst : (s : String) → IsFirst (first (split_dot s)) s
unfolding split_dot
split_dot-IsFirst [] = inl refl
split_dot-IsFirst (c ∷ s) = elim (Bool-cases (code c == b'.')) [
  | inl dot ↦ rw dot (inr (s, dot_of_code c s ((==_iff _ _).0 dot)))
  | inr other ↦
      rw (other, first-cons_first c (split_dot s))
        (IsFirst-cons c (first (split_dot s)) s (split_dot-IsFirst s))
]

-- A path that does not start with `features.` and is not `features` reads another property first.
pub first-ne-features :
    (path : String)
    → starts_with path "features." ≡ false
    → path ≢ "features"
    → first (split_dot path) ≢ "features"
first-ne-features path away bare e = go (split_dot-IsFirst path)
  where
    go : IsFirst (first (split_dot path)) path → ⊥
    go (inl same) = bare (same ∙ e)
    go (inr (u, same)) =
        let whole : path ≡ "features." ++ u =
          same ∙ (ap (λ (t : String). t ++ ("." ++ u)) e ∙ sym (append_assoc "features" "." u)) in
        cc (
          away,
          ap (λ (t : String). starts_with t "features.") whole,
          starts_with-append "features." u,
        )

abbrev pub others : List String → List String
others List.[] = List.[]
others (List.◌∷◌ s rest) = rest

cons_first-parts :
    (c : Char) (l : List String)
    → cons_first c l ≡ List.◌∷◌ (first (cons_first c l)) (others (cons_first c l))
cons_first-parts c List.[] = refl
cons_first-parts c (List.◌∷◌ s rest) = refl

-- A split has a first part.
pub split_dot-parts :
    (s : String) → split_dot s ≡ List.◌∷◌ (first (split_dot s)) (others (split_dot s))
unfolding split_dot
split_dot-parts [] = refl
split_dot-parts (c ∷ s) = elim (Bool-cases (code c == b'.')) [
  | inl dot ↦ rw dot refl
  | inr other ↦ rw other (cons_first-parts c (split_dot s))
]
