-- ===== src/Velocity/Seen.antt =====
-- The senders in the order in which they were last seen, as the cap of velocity.service.ts sorts
-- them.
use ojuri.Prelude.{
  ℕ, zero, suc, ◌-◌, ◌≤◌, ◌==◌, String, ◌≡◌, refl, sym, ap, ◌∙◌, Bool, true, false, Option, none,
  some, List, [], ◌∷◌, length, length-filter, take, filter, arith, leb, str_eq, eq_iff, Bool-cases,
  Option-cases, inl, inr, ◌⊎◌, none-some, some-injective, subst, if◌then◌else◌,
}
use ojuri.Prelude.Assoc
use ojuri.Prelude.Assoc.{Assoc, IsDistinct}
use ojuri.Velocity.{TransactionRecord, by_last_seen, insert_seen, last_seen}

abbrev pub AllFrom : ℕ → Assoc ℕ → Type 0
AllFrom at = Assoc.AllValues (λ later. at ≤ later)

abbrev pub IsSorted : Assoc ℕ → Type 0
IsSorted [] = Unit
IsSorted (u ∷ us) = AllFrom u.1 us × IsSorted us

AllFrom-le : (p q : ℕ) (us : Assoc ℕ) → p ≤ q → AllFrom q us → AllFrom p us
AllFrom-le p q [] h f = tt
AllFrom-le p q (u ∷ us) h (k, f) = (omega (arith, h, k), AllFrom-le p q us h f)

insert_seen-AllFrom :
    (p : ℕ) (u : String × ℕ) (us : Assoc ℕ) → p ≤ u.1 → AllFrom p us → AllFrom p (insert_seen u us)
unfolding insert_seen
insert_seen-AllFrom p u [] h f = (h, tt)
insert_seen-AllFrom p u (other ∷ us) h (k, f) = elim (Bool-cases (leb u.1 other.1)) [
  | inl first ↦ rw first (h, (k, f))
  | inr later ↦ rw later (k, insert_seen-AllFrom p u us h f)
]

insert_seen-IsSorted : (u : String × ℕ) (us : Assoc ℕ) → IsSorted us → IsSorted (insert_seen u us)
unfolding insert_seen
insert_seen-IsSorted u [] s = (tt, tt)
insert_seen-IsSorted u (other ∷ us) (f, s) = elim (Bool-cases (leb u.1 other.1)) [
  | inl first ↦
      let low : u.1 ≤ other.1 = ground (arith, first) in
      rw first ((low, AllFrom-le u.1 other.1 us low f), (f, s))
  | inr later ↦
      rw later
        (insert_seen-AllFrom other.1 u us (ground (arith, later)) f, insert_seen-IsSorted u us s)
]

-- What stands in the first part of a sorted list is not newer than what does not.
pub take-oldest :
    (n : ℕ) (us : Assoc ℕ) (j k : String) (x y : ℕ)
    → IsSorted us
    → Assoc.get (take n us) j ≡ some x
    → Assoc.get (take n us) k ≡ none
    → Assoc.get us k ≡ some y
    → x ≤ y
unfolding ojuri.Prelude.Assoc.get
take-oldest zero us j k x y s e missed f = cc
take-oldest (suc n) [] j k x y s e missed f = cc
take-oldest (suc n) ((user, at) ∷ us) j k x y (low, s) e missed f =
    elim (Bool-cases (str_eq user k)) [
      | inl same ↦ absurd (none-some (sym ((rw same at missed))))
      | inr apart ↦
          let behind : Assoc.get us k ≡ some y = (rw apart at f) in
          elim (Bool-cases (str_eq user j)) [
            | inl here ↦
                let first : at ≡ x = some-injective ((rw here at e)) in
                let newer : at ≤ y = Assoc.AllValues-get (λ later. at ≤ later) us k low y behind in
                omega (arith, first, newer)
            | inr there ↦ take-oldest n us j k x y s ((rw there at e)) ((rw apart at missed)) behind
          ]
    ]

pub take-positive :
    (n : ℕ) (us : Assoc ℕ) (k : String) (at : ℕ) → Assoc.get (take n us) k ≡ some at → 1 ≤ n
unfolding ojuri.Prelude.Assoc.get
take-positive zero us k at e = cc
take-positive (suc n) us k at e = omega arith

module _ {Num : Type 0} where
  pub by_last_seen-IsSorted :
      (users : Assoc (List (TransactionRecord Num))) → IsSorted (by_last_seen users)
  unfolding by_last_seen
  by_last_seen-IsSorted [] = tt
  by_last_seen-IsSorted ((user, txns) ∷ users) =
      insert_seen-IsSorted (user, last_seen txns) (by_last_seen users) (by_last_seen-IsSorted users)
