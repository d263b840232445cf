-- ===== src/Training/Quoted.antt =====
-- What is written in quotes is read back.
use Prim.Native.Char.{Char}
use ojuri.Prelude.{
  characters, of_characters, characters-of_characters, of_characters-characters, String, ◌≡◌, refl,
  sym, ap, ◌∙◌, true, false, List, [], ◌∷◌, ◌++◌, map, Bool-cases, inl, inr, if◌then◌else◌,
}
use ojuri.Training.{is_quote, split_from, split_csv}

abbrev quote : Char
quote = "\""

abbrev comma : Char
comma = ","

-- A field with each of its quotes doubled.
abbrev pub escape : List Char → List Char
escape [] = []
escape (c ∷ cs) = let rest = escape cs in if is_quote c then c ∷ c ∷ rest else c ∷ rest

-- The fields in quotes, with commas between.
abbrev pub print : List Char → List (List Char) → List Char
print first [] = quote ∷ escape first ++ quote ∷ []
print first (next ∷ rest) = quote ∷ escape first ++ quote ∷ comma ∷ print next rest

abbrev pub print_csv : String → List String → String
print_csv first rest = of_characters (print (characters first) (map characters rest))

append_one : (xs : List Char) (c : Char) (ys : List Char) → (xs ++ c ∷ []) ++ ys ≡ xs ++ c ∷ ys
append_one [] c ys = refl
append_one (x ∷ xs) c ys = ap (λ zs. x ∷ zs) (append_one xs c ys)

append_empty : (xs : List Char) → xs ++ [] ≡ xs
append_empty [] = refl
append_empty (x ∷ xs) = ap (λ zs. x ∷ zs) (append_empty xs)

-- What follows does not open with a quote.
abbrev Ends : List Char → Type 0
Ends [] = Unit
Ends (c ∷ cs) = is_quote c ≡ false

close : (cur cs : List Char) → Ends cs → split_from true cur (quote ∷ cs) ≡ split_from false cur cs
unfolding split_from
close cur [] ends = refl
close cur (c ∷ cs) ends = rw ends refl

double :
    (cur cs : List Char) (c : Char)
    → is_quote c ≡ true
    → split_from true cur (c ∷ c ∷ cs) ≡ split_from true (cur ++ c ∷ []) cs
unfolding split_from
double cur cs c quoted = rw quoted refl

single :
    (cur field cs : List Char) (c : Char)
    → is_quote c ≡ false
    → split_from true cur (c ∷ (field ++ quote ∷ cs))
      ≡ split_from true (cur ++ c ∷ []) (field ++ quote ∷ cs)
unfolding split_from
single cur [] cs c plain = rw plain refl
single cur (d ∷ field) cs c plain = rw plain refl

-- A field is read to its closing quote.
read_escape :
    (cur field cs : List Char)
    → Ends cs
    → split_from true cur (escape field ++ quote ∷ cs) ≡ split_from false (cur ++ field) cs
read_escape cur [] cs ends =
    close cur cs ends ∙ ap (λ c. split_from false c cs) (sym (append_empty cur))
read_escape cur (c ∷ field) cs ends =
    let rest =
      read_escape (cur ++ c ∷ []) field cs ends
      ∙ ap (λ d. split_from false d cs) (append_one cur c field) in
    elim (Bool-cases (is_quote c)) [
      | inl quoted ↦ rw quoted (double cur (escape field ++ quote ∷ cs) c quoted ∙ rest)
      | inr plain ↦ rw plain (single cur (escape field) cs c plain ∙ rest)
    ]

open_quote : (cs : List Char) → split_from false [] (quote ∷ cs) ≡ split_from true [] cs
unfolding split_from
open_quote cs = refl

end_field : (cur : List Char) → split_from false cur [] ≡ of_characters cur ∷ []
unfolding split_from
end_field cur = refl

next_field :
    (cur cs : List Char)
    → split_from false cur (comma ∷ cs) ≡ of_characters cur ∷ split_from false [] cs
unfolding split_from
next_field cur cs = refl

read_print :
    (first : List Char) (rest : List (List Char))
    → split_from false [] (print first rest) ≡ of_characters first ∷ map of_characters rest
read_print first [] =
    open_quote (escape first ++ quote ∷ []) ∙ read_escape [] first [] tt ∙ end_field first
read_print first (next ∷ rest) =
    open_quote (escape first ++ quote ∷ comma ∷ print next rest)
    ∙ read_escape [] first (comma ∷ print next rest) refl
    ∙ next_field first (print next rest)
    ∙ ap (λ r. of_characters first ∷ r) (read_print next rest)

map_back : (fs : List String) → map of_characters (map characters fs) ≡ fs
map_back [] = refl
map_back (f ∷ fs) = rw (of_characters-characters f, map_back fs) refl

-- Fields that are written in quotes, with their own quotes doubled and commas between, are read back
-- as they were, whatever characters they hold.
pub split_csv-print_csv :
    (first : String) (rest : List String) → split_csv (print_csv first rest) ≡ first ∷ rest
unfolding split_csv
split_csv-print_csv first rest =
    ap (split_from false [])
      (characters-of_characters (print (characters first) (map characters rest)))
    ∙ read_print (characters first) (map characters rest)
    ∙ rw (of_characters-characters first, map_back rest) refl
