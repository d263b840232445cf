-- ===== src/Rules/Service/Ordered.antt =====
-- The cached rules stand in order of priority.
use ojuri.Prelude.{ℕ, String, ◌≤◌, Bool, List, [], ◌∷◌, arith, Bool-cases, inl, inr, All, filter}
use ojuri.Enums.{RuleStage}
use ojuri.Rules.Value.{Value}
use ojuri.Rules.Service.{
  RuleRow, RuleRecord, before, insert_row, order_rows, list_active_ordered, records, to_record,
}

module _ {Num : Type 0} where
  abbrev RowsFrom : ℕ → List (RuleRow Num) → Type 0
  RowsFrom p = All (λ r. p ≤ r.priority)

  abbrev RowsOrdered : List (RuleRow Num) → Type 0
  RowsOrdered [] = Unit
  RowsOrdered (r ∷ rows) = RowsFrom r.priority rows × RowsOrdered rows

  abbrev pub RulesFrom : ℕ → List (RuleRecord Num) → Type 0
  RulesFrom p = All (λ r. p ≤ r.priority)

  abbrev pub IsOrdered : List (RuleRecord Num) → Type 0
  IsOrdered [] = Unit
  IsOrdered (r ∷ rules) = RulesFrom r.priority rules × IsOrdered rules

  RowsFrom-le : (p q : ℕ) (rows : List (RuleRow Num)) → p ≤ q → RowsFrom q rows → RowsFrom p rows
  RowsFrom-le p q [] h f = tt
  RowsFrom-le p q (r ∷ rows) h (k, f) = (omega arith, RowsFrom-le p q rows h f)

  insert_row-RowsFrom :
      (p : ℕ) (r : RuleRow Num) (rows : List (RuleRow Num))
      → p ≤ r.priority
      → RowsFrom p rows
      → RowsFrom p (insert_row r rows)
  unfolding insert_row
  insert_row-RowsFrom p r [] h f = (h, tt)
  insert_row-RowsFrom p r (q ∷ rows) h (k, f) = elim (Bool-cases (before r q)) [
    | inl first ↦ rw first (h, (k, f))
    | inr later ↦ rw later (k, insert_row-RowsFrom p r rows h f)
  ]

  insert_row-RowsOrdered :
      (r : RuleRow Num) (rows : List (RuleRow Num))
      → RowsOrdered rows
      → RowsOrdered (insert_row r rows)
  unfolding insert_row
  insert_row-RowsOrdered r [] o = (tt, tt)
  insert_row-RowsOrdered r (q ∷ rows) (f, o) = elim (Bool-cases (before r q)) [
    | inl first ↦
        let low : r.priority ≤ q.priority = ground arith in
        rw first ((low, RowsFrom-le r.priority q.priority rows low f), (f, o))
    | inr later ↦
        rw later
          (insert_row-RowsFrom q.priority r rows (ground arith) f, insert_row-RowsOrdered r rows o)
  ]

  order_rows-RowsOrdered : (rows : List (RuleRow Num)) → RowsOrdered (order_rows rows)
  unfolding order_rows
  order_rows-RowsOrdered [] = tt
  order_rows-RowsOrdered (r ∷ rows) =
      insert_row-RowsOrdered r (order_rows rows) (order_rows-RowsOrdered rows)

  records-RulesFrom :
      (parse : String → Value Num) (p : ℕ) (test : RuleStage → Bool) (rows : List (RuleRow Num))
      → RowsFrom p rows
      → RulesFrom p (records parse test rows)
  unfolding records to_record
  records-RulesFrom parse p test [] f = tt
  records-RulesFrom parse p test (r ∷ rows) (k, f) = elim (Bool-cases (test r.stage)) [
    | inl kept ↦ rw kept (k, records-RulesFrom parse p test rows f)
    | inr left ↦ rw left (records-RulesFrom parse p test rows f)
  ]

  records-IsOrdered :
      (parse : String → Value Num) (test : RuleStage → Bool) (rows : List (RuleRow Num))
      → RowsOrdered rows
      → IsOrdered (records parse test rows)
  unfolding records to_record
  records-IsOrdered parse test [] o = tt
  records-IsOrdered parse test (r ∷ rows) (f, o) = elim (Bool-cases (test r.stage)) [
    | inl kept ↦
        rw kept
          (records-RulesFrom parse r.priority test rows f, records-IsOrdered parse test rows o)
    | inr left ↦ rw left (records-IsOrdered parse test rows o)
  ]

  -- What `reload` caches of a stage is ordered.
  pub list_active_ordered-IsOrdered :
      (parse : String → Value Num) (test : RuleStage → Bool) (table : List (RuleRow Num))
      → IsOrdered (records parse test (list_active_ordered table))
  unfolding list_active_ordered
  list_active_ordered-IsOrdered parse test table =
      records-IsOrdered parse test (order_rows (filter (λ r. r.is_active) table))
        (order_rows-RowsOrdered (filter (λ r. r.is_active) table))
