-- ===== src/Training.antt =====
-- src/v1/modules/training/services/csv-row.parser.ts: the rows of an uploaded training file. Numbers,
-- `trim` and `toLowerCase` are the host's, a parameter.

pub mod Quoted
pub mod Accepted
mod Tests
use Prim.Native.Char.{Char, code}
use ojuri.Prelude.{
  ℕ, characters, of_characters, String, Bool, true, false, not, ◌&&◌, ◌||◌, Option, none, some,
  List, [], ◌∷◌, ◌++◌, map, filter, length, any, get_or_else, is_some, str_eq, ◌==◌, if◌then◌else◌,
}
use ojuri.Prelude.Assoc
use ojuri.Prelude.Assoc.{Assoc}
use ojuri.Redis.{is_member}

-- `number` is `Number(s)` where that is finite; `is_positive` is `> 0`.
pub record CsvHost : Type 1 where
  pub Num : Type 0
  pub number : String → Option Num
  pub is_positive : Num → Bool
  pub floor : Num → Num
  pub trim : String → String
  pub to_lower : String → String

-- Objects as lists of their own properties; no specification is one of two empty objects.
pub record TrainingTransformSpec : Type 0 where
  pub header_map : Assoc String
  pub column_defaults : Assoc String
  pub drop_empty_rows : Bool

pub record ParsedTransactionRow (Num : Type 0) : Type 0 where
  pub transaction_id : String
  pub sender_id : String
  pub receiver_id : String
  pub amount : Num
  pub transaction_type : String
  pub timestamp : Num
  pub fraud_label : Option Bool
  pub ground_truth_fraud : Option Bool
  pub channel : Option String
  pub currency : Option String
  pub account_age_days : Option Num
  pub ip_country : Option String
  pub transaction_country : Option String
  pub session_to_txn_seconds : Option Num
  pub device_is_trusted : Option Bool
  pub is_authenticated : Option Bool

-- The errors with what their texts name.
pub data CsvRowParseResult (Num : Type 0) : Type 0 where
  column_count_mismatch : ℕ → ℕ → CsvRowParseResult Num
  row_is_empty : CsvRowParseResult Num
  missing_required_column invalid_amount invalid_timestamp : String → CsvRowParseResult Num
  parsed : ParsedTransactionRow Num → CsvRowParseResult Num

abbrev pub required_columns : List String
required_columns =
    "transactionId" ∷ "senderId" ∷ "receiverId" ∷ "amount" ∷ "transactionType" ∷ "timestamp" ∷ []

abbrev pub is_quote : Char → Bool
is_quote c = code c == b'"'

abbrev pub is_comma : Char → Bool
is_comma c = code c == b','

-- The fields after the current one, once it is ended.
abbrev pub push_field : List Char → List String → List String
push_field cur rest = of_characters cur ∷ rest

-- The loop over the characters. `in_quotes` is the state; `cur` is what is read of the field.
unfoldable pub split_from : Bool → List Char → List Char → List String
split_from in_quotes cur [] = push_field cur []
split_from true cur (c ∷ []) =
    if is_quote c then push_field cur [] else push_field (cur ++ c ∷ []) []
split_from true cur (c ∷ d ∷ cs) =
    if is_quote c
    then (if is_quote d then split_from true (cur ++ c ∷ []) cs else split_from false cur (d ∷ cs))
    else split_from true (cur ++ c ∷ []) (d ∷ cs)
split_from false cur (c ∷ cs) =
    if is_quote c
    then split_from true cur cs
    else if is_comma c
    then push_field cur (split_from false [] cs)
    else split_from false (cur ++ c ∷ []) cs

unfoldable pub split_csv : String → List String
unfolding split_from
split_csv line = split_from false [] (characters line)

unfoldable pub apply_header_map : List String → TrainingTransformSpec → List String
apply_header_map columns spec = map (λ c. get_or_else (Assoc.get spec.header_map c) c) columns

-- `map[column] = value` by column.
abbrev pub put_values : List String → List String → Assoc String → Assoc String
put_values [] values row = row
put_values (c ∷ cs) [] row = put_values cs [] (Assoc.set row c "")
put_values (c ∷ cs) (v ∷ vs) row = put_values cs vs (Assoc.set row c v)

-- An absent and an empty text are falsy.
abbrev pub is_filled : Option String → Bool
is_filled none = false
is_filled (some v) = not (str_eq v "")

abbrev pub put_defaults : Assoc String → Assoc String → Assoc String
put_defaults [] row = row
put_defaults ((c, v) ∷ ds) row =
    put_defaults ds (if is_filled (Assoc.get row c) then row else Assoc.set row c v)

abbrev pub first_missing : List String → Assoc String → Option String
first_missing [] row = none
first_missing (c ∷ cs) row =
    let rest = first_missing cs row in if is_filled (Assoc.get row c) then rest else some c

abbrev pub field : Assoc String → String → String
field row c = get_or_else (Assoc.get row c) ""

abbrev pub empty_to_null : Option String → Option String
empty_to_null none = none
empty_to_null (some v) = if str_eq v "" then none else some v

module _ (host : CsvHost) where
  open host use {Num}

  unfoldable pub parse_csv_header : String → TrainingTransformSpec → List String × List String
  unfolding split_csv apply_header_map
  parse_csv_header line spec =
      let columns = apply_header_map (map host.trim (split_csv line)) spec in
      (
        columns,
        filter (λ c. not (is_member columns c) && not (is_some (Assoc.get spec.column_defaults c)))
            required_columns,
      )

  abbrev pub bool_of : String → Option Bool
  bool_of lower =
      if str_eq lower "true" || (str_eq lower "1" || str_eq lower "yes")
      then some true
      else if str_eq lower "false" || (str_eq lower "0" || str_eq lower "no")
      then some false
      else none

  abbrev pub parse_optional_bool : Option String → Option Bool
  parse_optional_bool none = none
  parse_optional_bool (some v) = if str_eq v "" then none else bool_of (host.to_lower v)

  abbrev pub floored : Option Num → Option Num
  floored none = none
  floored (some n) = some (host.floor n)

  abbrev pub parse_optional_int : Option String → Option Num
  parse_optional_int none = none
  parse_optional_int (some v) = if str_eq v "" then none else floored (host.number v)

  abbrev pub row_of : Assoc String → Num → Num → ParsedTransactionRow Num
  row_of row amount timestamp = record {
    transaction_id = field row "transactionId";
    sender_id = field row "senderId";
    receiver_id = field row "receiverId";
    amount = amount;
    transaction_type = field row "transactionType";
    timestamp = timestamp;
    fraud_label = parse_optional_bool (Assoc.get row "fraudLabel");
    ground_truth_fraud = parse_optional_bool (Assoc.get row "groundTruthFraud");
    channel = empty_to_null (Assoc.get row "channel");
    currency = empty_to_null (Assoc.get row "currency");
    account_age_days = parse_optional_int (Assoc.get row "accountAgeDays");
    ip_country = empty_to_null (Assoc.get row "ipCountry");
    transaction_country = empty_to_null (Assoc.get row "transactionCountry");
    session_to_txn_seconds = parse_optional_int (Assoc.get row "sessionToTxnSeconds");
    device_is_trusted = parse_optional_bool (Assoc.get row "deviceIsTrusted");
    is_authenticated = parse_optional_bool (Assoc.get row "isAuthenticated");
  }

  -- Finite and above 0.
  abbrev pub positive : Option Num → Option Num
  positive none = none
  positive (some n) = if host.is_positive n then some n else none

  abbrev pub with_timestamp : Assoc String → Num → Option Num → CsvRowParseResult Num
  with_timestamp row amount none = invalid_timestamp (field row "timestamp")
  with_timestamp row amount (some timestamp) = parsed (row_of row amount timestamp)

  abbrev pub with_amount : Assoc String → Option Num → CsvRowParseResult Num
  with_amount row none = invalid_amount (field row "amount")
  with_amount row (some amount) =
      with_timestamp row amount (positive (host.number (field row "timestamp")))

  abbrev pub with_required : Assoc String → Option String → CsvRowParseResult Num
  with_required row (some c) = missing_required_column c
  with_required row none = with_amount row (positive (host.number (field row "amount")))

  abbrev pub read_row : List String → List String → TrainingTransformSpec → Assoc String
  read_row columns values spec =
      put_defaults spec.column_defaults (put_values columns (map host.trim values) [])

  abbrev pub check_row : Bool → Assoc String → CsvRowParseResult Num
  check_row drop_empty row =
      if drop_empty && not (any (λ e. is_filled (some e.1)) row)
      then row_is_empty
      else with_required row (first_missing required_columns row)

  unfoldable pub parse_csv_row :
      List String → String → TrainingTransformSpec → CsvRowParseResult Num
  unfolding split_csv
  parse_csv_row columns line spec =
      let values = split_csv line in
      if length values == length columns
      then check_row spec.drop_empty_rows (read_row columns values spec)
      else column_count_mismatch (length values) (length columns)
