-- ===== src/Training/Tests.antt =====
-- Rows of a small file, with whole numbers.
use Prim.Native.Char.{Char, code}
use ojuri.Prelude.{
  ℕ, ◌+◌, ◌-◌, ◌*◌, characters, String, ◌≡◌, refl, Bool, true, false, ◌&&◌, Option, none, some,
  List, [], ◌∷◌, length, ltb, leb, if◌then◌else◌,
}
use ojuri.Training.{
  CsvHost, TrainingTransformSpec, ParsedTransactionRow, parsed, required_columns, split_csv,
  parse_csv_row,
}
use ojuri.Training.Quoted.{print_csv, split_csv-print_csv}
use ojuri.Training.Accepted.{IsAccepted, parse_csv_row-IsAccepted}

abbrev decimal : ℕ → List Char → Option ℕ
decimal n [] = some n
decimal n (c ∷ cs) =
    let rest = decimal (n * 10 + (code c - b'0')) cs in
    if leb b'0' (code c) && leb (code c) b'9' then rest else none

abbrev host : CsvHost
host = record {
  Num = ℕ;
  number = λ s. decimal 0 (characters s);
  is_positive = λ n. ltb 0 n;
  floor = λ n. n;
  trim = λ s. s;
  to_lower = λ s. s;
}

split : split_csv "a,\"c,d\",\"e\"\"f\",g\"h\"" ≡ "a" ∷ "c,d" ∷ "e\"f" ∷ "gh" ∷ []
unfolding split_csv
split = refl

split_csv-print_csv_example :
    split_csv (print_csv "a,b" ("c\"d" ∷ "" ∷ [])) ≡ "a,b" ∷ "c\"d" ∷ "" ∷ []
split_csv-print_csv_example = split_csv-print_csv "a,b" ("c\"d" ∷ "" ∷ [])

abbrev as_is : TrainingTransformSpec
as_is = record { header_map = []; column_defaults = []; drop_empty_rows = true }

abbrev first_row : ParsedTransactionRow ℕ
first_row = record {
  transaction_id = "t1";
  sender_id = "ann";
  receiver_id = "bob";
  amount = 250;
  transaction_type = "transfer";
  timestamp = 1000;
  fraud_label = none;
  ground_truth_fraud = none;
  channel = none;
  currency = none;
  account_age_days = none;
  ip_country = none;
  transaction_country = none;
  session_to_txn_seconds = none;
  device_is_trusted = none;
  is_authenticated = none;
}

read_first :
    parse_csv_row host required_columns "t1,ann,bob,250,transfer,1000" as_is ≡ parsed first_row
unfolding parse_csv_row ojuri.Prelude.Assoc.get ojuri.Prelude.Assoc.set
read_first = refl

parse_csv_row-IsAccepted_example :
    (length (split_csv "t1,ann,bob,250,transfer,1000") ≡ length required_columns)
    × IsAccepted host first_row
parse_csv_row-IsAccepted_example =
    parse_csv_row-IsAccepted host required_columns "t1,ann,bob,250,transfer,1000" as_is first_row
      read_first
