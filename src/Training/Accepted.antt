-- ===== src/Training/Accepted.antt =====
-- Which rows are accepted.
use ojuri.Prelude.{
  String, ◌≡◌, refl, sym, ap, ◌∙◌, subst, Bool, true, false, not, ◌&&◌, Option, none, some, List,
  [], ◌∷◌, length, any, get_or_else, str_eq, All, Bool-cases, some-injective, none-some, inl, inr,
  ==_iff, ◌==◌,
}
use mathlib.Core.Bool.{true≢false}
use ojuri.Prelude.Assoc
use ojuri.Prelude.Assoc.{Assoc}
use ojuri.Training.{
  CsvHost, TrainingTransformSpec, ParsedTransactionRow, parsed, is_filled, first_missing, field,
  required_columns, split_csv, positive, row_of, with_timestamp, with_amount, with_required,
  check_row, read_row, parse_csv_row,
}

first_missing-none :
    (cs : List String) (row : Assoc String)
    → first_missing cs row ≡ none
    → All (λ c. is_filled (Assoc.get row c) ≡ true) cs
first_missing-none [] row e = tt
first_missing-none (c ∷ cs) row e = elim (Bool-cases (is_filled (Assoc.get row c))) [
  | inl there ↦ (there, first_missing-none cs row ((rw there at e)))
  | inr absent ↦ absurd (none-some (sym ((rw absent at e))))
]

filled-text : (o : Option String) → is_filled o ≡ true → str_eq (get_or_else o "") "" ≡ false
filled-text none e = absurd (true≢false (sym e))
filled-text (some v) e = elim (Bool-cases (str_eq v "")) [
  | inl empty ↦ absurd (true≢false (sym e ∙ rw empty refl))
  | inr other ↦ other
]

module _ (host : CsvHost) where
  open host use {Num}

  abbrev IsText : String → Type 0
  IsText v = str_eq v "" ≡ false

  -- The amount and the time are above 0, and the required texts are there.
  abbrev pub IsAccepted : ParsedTransactionRow Num → Type 0
  IsAccepted row =
      (host.is_positive row.amount ≡ true)
      × (host.is_positive row.timestamp ≡ true)
      × IsText row.transaction_id
      × IsText row.sender_id
      × IsText row.receiver_id
      × IsText row.transaction_type

  positive-is_positive :
      (o : Option Num) (n : Num) → positive host o ≡ some n → host.is_positive n ≡ true
  positive-is_positive none n e = absurd (none-some e)
  positive-is_positive (some m) n e = elim (Bool-cases (host.is_positive m)) [
    | inl above ↦ ap host.is_positive (sym (some-injective ((rw above at e)))) ∙ above
    | inr below ↦ absurd (none-some ((rw below at e)))
  ]

  parsed-injective : (a b : ParsedTransactionRow Num) → parsed a ≡ parsed b → a ≡ b
  parsed-injective a b e = cc

  with_timestamp-parsed :
      (row : Assoc String) (amount : Num) (o : Option Num) (result : ParsedTransactionRow Num)
      → with_timestamp host row amount o ≡ parsed result
      → (t : Num) × (o ≡ some t) × (row_of host row amount t ≡ result)
  with_timestamp-parsed row amount none result e = cc
  with_timestamp-parsed row amount (some t) result e = (t, refl, parsed-injective _ _ e)

  with_amount-parsed :
      (row : Assoc String) (o : Option Num) (result : ParsedTransactionRow Num)
      → with_amount host row o ≡ parsed result
      → (a t : Num) × (o ≡ some a)
        × (positive host (host.number (field row "timestamp")) ≡ some t)
        × (row_of host row a t ≡ result)
  with_amount-parsed row none result e = cc
  with_amount-parsed row (some a) result e =
      let (t, timed, same) = with_timestamp-parsed row a _ result e in (a, t, refl, timed, same)

  with_required-parsed :
      (row : Assoc String) (o : Option String) (result : ParsedTransactionRow Num)
      → first_missing required_columns row ≡ o
      → with_required host row o ≡ parsed result
      → IsAccepted result
  with_required-parsed row (some c) result missing e = cc
  with_required-parsed row none result missing e =
      let (a, t, counted, timed, same) = with_amount-parsed row _ result e in
      let (id, (sender, (receiver, (amount, (type, (timestamp, end)))))) =
        first_missing-none required_columns row missing in
      subst IsAccepted same (
        positive-is_positive _ a counted,
        positive-is_positive _ t timed,
        filled-text (Assoc.get row "transactionId") id,
        filled-text (Assoc.get row "senderId") sender,
        filled-text (Assoc.get row "receiverId") receiver,
        filled-text (Assoc.get row "transactionType") type,
      )

  check_row-parsed :
      (drop_empty : Bool) (row : Assoc String) (result : ParsedTransactionRow Num)
      → check_row host drop_empty row ≡ parsed result
      → IsAccepted result
  check_row-parsed drop_empty row result e =
      elim (Bool-cases (drop_empty && not (any (λ entry. is_filled (some entry.1)) row))) [
        | inl empty ↦ cc
        | inr some_value ↦ with_required-parsed row _ result refl ((rw some_value at e))
      ]

  -- A row that is accepted has as many values as the file has columns, an amount and a time above 0,
  -- and none of the required texts empty.
  pub parse_csv_row-IsAccepted :
      (columns : List String) (line : String) (spec : TrainingTransformSpec)
      (result : ParsedTransactionRow Num)
      → parse_csv_row host columns line spec ≡ parsed result
      → (length (split_csv line) ≡ length columns) × IsAccepted result
  unfolding parse_csv_row
  parse_csv_row-IsAccepted columns line spec result e =
      elim (Bool-cases (length (split_csv line) == length columns)) [
        | inl even ↦ (
          (==_iff _ _).0 even,
          check_row-parsed spec.drop_empty_rows (read_row host columns (split_csv line) spec) result
              ((rw even at e)),
        )
        | inr odd ↦ cc
      ]
