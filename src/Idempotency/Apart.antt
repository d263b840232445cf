-- ===== src/Idempotency/Apart.antt =====
-- Two requests of different tenants, API keys or idempotency keys have two entries.
use Prim.Native.Char.{Char, code}
use Prim.Native.String.{◌++◌ as ◌+++◌, [] as empty, ◌∷◌ as ◌∷∷◌}
use Prim.Native.String.append
use text.Mathlib.TextLemmas.{append_cancel_left}
use mathlib.Core.Bool.{true≢false}
use ojuri.Prelude.{
  ℕ, String, ◌≡◌, refl, sym, ap, ◌∙◌, true, false, List, [], ◌∷◌, ◌++◌, ◌==◌, All, characters,
  of_characters, of_characters-characters, get_or_else,
}
use ojuri.Idempotency.{IdempotencyInput, compose_key, scoped_key, resp_key_of, resp_key}

-- The character of this code is not in the text.
abbrev pub Lacks : ℕ → String → Type 0
Lacks k s = All (λ c. (code c == k) ≡ false) (characters s)

abbrev pub api_key_of : IdempotencyInput → String
api_key_of input = get_or_else input.api_key_id "anon"

-- No colon in the tenant and no bar in the id of the API key.
abbrev pub IsPlain : IdempotencyInput → Type 0
IsPlain input = Lacks b':' input.tenant_id × Lacks b'|' (api_key_of input)

-- Of one tenant, one API key, or none, and one idempotency key.
abbrev pub IsSame : IdempotencyInput → IdempotencyInput → Type 0
IsSame a b = (a.tenant_id ≡ b.tenant_id) × (api_key_of a ≡ api_key_of b) × (a.key ≡ b.key)

characters-append : (s t : String) → characters (◌+++◌ s t) ≡ characters s ++ characters t
characters-append empty t = ap characters (append.nil t)
characters-append (c ∷∷ s) t =
    ap characters (append.cons c s t) ∙ ap (λ r. c ∷ r) (characters-append s t)

characters-injective : (s t : String) → characters s ≡ characters t → s ≡ t
characters-injective s t e =
    sym (of_characters-characters s) ∙ ap of_characters e ∙ of_characters-characters t

cons-injective : {A : Type 0} (x y : A) (xs ys : List A) → x ∷ xs ≡ y ∷ ys → (x ≡ y) × (xs ≡ ys)
cons-injective x y xs ys e = (cc, cc)

-- Texts are split in one way at a character that is in neither of the first parts.
split_once :
    (k : ℕ) (c : Char) (xs us ys vs : List Char)
    → (code c == k) ≡ true
    → All (λ x. (code x == k) ≡ false) xs
    → All (λ x. (code x == k) ≡ false) us
    → xs ++ c ∷ ys ≡ us ++ c ∷ vs
    → (xs ≡ us) × (ys ≡ vs)
split_once k c [] [] ys vs it p q e = (refl, (cons-injective c c ys vs e).1)
split_once k c [] (u ∷ us) ys vs it p (q, qs) e =
    let same = (cons-injective c u ys (us ++ c ∷ vs) e).0 in
    absurd (true≢false (sym it ∙ ap (λ x. code x == k) same ∙ q))
split_once k c (x ∷ xs) [] ys vs it (p, ps) q e =
    let same = (cons-injective x c (xs ++ c ∷ ys) vs e).0 in
    absurd (true≢false (sym it ∙ ap (λ x. code x == k) (sym same) ∙ p))
split_once k c (x ∷ xs) (u ∷ us) ys vs it (p, ps) (q, qs) e =
    let (first, rest) = cons-injective x u (xs ++ c ∷ ys) (us ++ c ∷ vs) e in
    let (left, right) = split_once k c xs us ys vs it ps qs rest in (rw (first, left) refl, right)

one-append : (c : Char) (u : String) → ◌+++◌ (c ∷∷ empty) u ≡ c ∷∷ u
one-append c u = append.cons c empty u ∙ ap (λ r. c ∷∷ r) (append.nil u)

split_text :
    (k : ℕ) (c : Char) (s t u v : String)
    → (code c == k) ≡ true
    → Lacks k s
    → Lacks k t
    → ◌+++◌ s (◌+++◌ (c ∷∷ empty) u) ≡ ◌+++◌ t (◌+++◌ (c ∷∷ empty) v)
    → (s ≡ t) × (u ≡ v)
split_text k c s t u v it p q e =
    let spelled : characters s ++ c ∷ characters u ≡ characters t ++ c ∷ characters v =
      ap (λ r. characters s ++ characters r) (sym (one-append c u))
      ∙ sym (characters-append s (◌+++◌ (c ∷∷ empty) u))
      ∙ ap characters e
      ∙ characters-append t (◌+++◌ (c ∷∷ empty) v)
      ∙ ap (λ r. characters t ++ characters r) (one-append c v) in
    let (left, right) =
      split_once k c (characters s) (characters t) (characters u) (characters v) it p q spelled in
    (characters-injective s t left, characters-injective u v right)

-- The key of a response tells the tenant, the API key and the idempotency key.
pub resp_key-IsSame :
    (a b : IdempotencyInput) → IsPlain a → IsPlain b → resp_key a ≡ resp_key b → IsSame a b
unfolding resp_key_of scoped_key compose_key
resp_key-IsSame a b (tenant_a, api_a) (tenant_b, api_b) e =
    let kind = append_cancel_left "ojuri:idem:" _ _ e in
    let tail = append_cancel_left ":" _ _ (append_cancel_left "resp" _ _ kind) in
    let (tenant, composite) =
      split_text b':' ":" a.tenant_id b.tenant_id _ _ refl tenant_a tenant_b tail in
    let (api, key) =
      split_text b'|' "|" (api_key_of a) (api_key_of b) _ _ refl api_a api_b composite in
    (tenant, api, key)
