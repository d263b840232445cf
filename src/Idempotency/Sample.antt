-- ===== src/Idempotency/Sample.antt =====
-- A codec of Boolean responses and the order of texts by code points, which have the behaviour that
-- the laws state.
use Prim.Native.Char.{Char, code}
use Prim.Native.String.{◌++◌ as ◌+++◌, len, slice}
use text.Mathlib.Text.{starts_with}
use text.Mathlib.TextBridge.{to_list, of_list, of_list-to_list}
use text.Mathlib.TextEquality.{starts_with_iff, Char-path}
use text.Mathlib.TextLemmas.{append_assoc, append-eq-nil_iff}
use text.Mathlib.TextPositions.{
  starts_with-append, slice-append_left, slice-append_right, len-append,
}
use mathlib.Core.Bool.{true≢false}
use ojuri.Prelude.{
  String, ◌≡◌, ◌≢◌, refl, sym, ap, ◌∙◌, Bool, true, false, Option, some, List, [], ◌∷◌, arith, ltb,
  str_eq, eq_iff, Bool-cases, inl, inr, ◌==◌, if◌then◌else◌,
}
use ojuri.Idempotency.{Codec, IsCodec, StoredEntry}
use ojuri.Idempotency.Canonical.{TextOrder}

abbrev pub text_of : StoredEntry Bool → String
text_of e = ◌+++◌ (if e.response then "{t" else "{f") e.request_hash

abbrev pub of_text : String → Option (StoredEntry Bool)
of_text s =
    if starts_with s "{t"
    then some (record { request_hash = slice s 2 (len s); response = true })
    else some (record { request_hash = slice s 2 (len s); response = false })

abbrev pub boolean_codec : Codec Bool
boolean_codec = record { stringify = text_of; parse = of_text; gzip = λ s. s; gunzip = λ s. some s }

rest_of : (p t : String) → slice (◌+++◌ p t) (len p) (len (◌+++◌ p t)) ≡ t
rest_of p t = rw (len-append p t) (slice-append_right p t)

-- Two texts whose beginnings of one length differ are not one a prefix of the other.
not_prefix :
    (p q r t : String) → len p ≡ len q → p ≢ q → starts_with (◌+++◌ p t) (◌+++◌ q r) ≡ false
not_prefix p q r t long apart = elim (Bool-cases (starts_with (◌+++◌ p t) (◌+++◌ q r))) [
  | inr other ↦ other
  | inl begins ↦
      let (u, e) = (starts_with_iff (◌+++◌ p t) (◌+++◌ q r)).0 begins in
      absurd (
        apart (
          sym (slice-append_left p t)
          ∙ ap (slice (◌+++◌ p t) 0) long
          ∙ ap (λ s. slice s 0 (len q)) (sym e ∙ append_assoc q r u)
          ∙ slice-append_left q (◌+++◌ r u)))
]

apart_of : (a b : String) → str_eq a b ≡ false → a ≢ b
apart_of a b other same = true≢false (sym ((eq_iff a b).1 same) ∙ other)

of_text-text_of :
    (response : Bool) (h : String)
    → of_text (text_of (record { request_hash = h; response = response }))
      ≡ some (record { request_hash = h; response = response })
of_text-text_of true h = rw (starts_with-append "{t" h, rest_of "{t" h) refl
of_text-text_of false h =
    rw (not_prefix "{f" "{t" "" h refl (apart_of "{f" "{t" refl), rest_of "{f" h) refl

not_zipped :
    (response : Bool) (h : String)
    → starts_with (text_of (record { request_hash = h; response = response })) "gz:" ≡ false
not_zipped true h = not_prefix "{t" "gz" ":" h refl (apart_of "{t" "gz" refl)
not_zipped false h = not_prefix "{f" "gz" ":" h refl (apart_of "{f" "gz" refl)

not_empty : (e : StoredEntry Bool) → str_eq (text_of e) "" ≡ false
not_empty e = elim (Bool-cases (str_eq (text_of e) "")) [
  | inr other ↦ other
  | inl empty ↦ absurd (
      apart_of (if e.response then "{t" else "{f") "" (both e.response)
        ((append-eq-nil_iff).0 ((eq_iff (text_of e) "").0 empty)).0)
]
  where
    both : (b : Bool) → str_eq (if b then "{t" else "{f") "" ≡ false
    both true = refl
    both false = refl

pub boolean_codec-IsCodec : IsCodec boolean_codec
boolean_codec-IsCodec = record {
  parse-stringify = λ e. of_text-text_of e.response e.request_hash;
  gunzip-gzip = λ s. refl;
  nonempty = not_empty;
  plain = λ e. not_zipped e.response e.request_hash;
}

abbrev pub le_codes : List Char → List Char → Bool
le_codes [] ds = true
le_codes (c ∷ cs) [] = false
le_codes (c ∷ cs) (d ∷ ds) =
    if ltb (code c) (code d) then true else if code c == code d then le_codes cs ds else false

pub le_codes-total : (cs ds : List Char) → le_codes cs ds ≡ false → le_codes ds cs ≡ true
le_codes-total [] ds h = absurd (true≢false h)
le_codes-total (c ∷ cs) [] h = refl
le_codes-total (c ∷ cs) (d ∷ ds) h = ground (arith, le_codes-total cs ds)

pub le_codes-antisymmetric :
    (cs ds : List Char) → le_codes cs ds ≡ true → le_codes ds cs ≡ true → cs ≡ ds
le_codes-antisymmetric [] [] h k = refl
le_codes-antisymmetric [] (d ∷ ds) h k = absurd (true≢false (sym k))
le_codes-antisymmetric (c ∷ cs) [] h k = absurd (true≢false (sym h))
le_codes-antisymmetric (c ∷ cs) (d ∷ ds) h k =
    ground (arith, le_codes-antisymmetric cs ds, Char-path c d)

pub le_codes-transitive :
    (cs ds es : List Char) → le_codes cs ds ≡ true → le_codes ds es ≡ true → le_codes cs es ≡ true
le_codes-transitive [] ds es h k = refl
le_codes-transitive (c ∷ cs) [] es h k = absurd (true≢false (sym h))
le_codes-transitive (c ∷ cs) (d ∷ ds) [] h k = absurd (true≢false (sym k))
le_codes-transitive (c ∷ cs) (d ∷ ds) (e ∷ es) h k = ground (arith, le_codes-transitive cs ds es)

abbrev pub by_code : TextOrder
by_code = record {
  le = λ a b. le_codes (to_list a) (to_list b);
  total = λ a b. le_codes-total (to_list a) (to_list b);
  antisymmetric = λ a b h k.
      sym (of_list-to_list a)
      ∙ ap of_list (le_codes-antisymmetric (to_list a) (to_list b) h k)
      ∙ of_list-to_list b;
  transitive = λ a b c. le_codes-transitive (to_list a) (to_list b) (to_list c);
}
