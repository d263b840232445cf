-- ===== src/Velocity/Placing.antt =====
-- The insertion by binary search, against the insertion that walks the list.
use ojuri.Prelude.{
  ℕ, zero, suc, ◌+◌, ◌/◌, ◌≤◌, ◌<◌, ◌≡◌, ◌≢◌, refl, sym, subst, some-injective, List, [], ◌∷◌, ◌++◌,
  none, some, length, take, drop, last, get_elem?, All, arith, leb, ltb, leb→le, ltb→lt, Bool-cases,
  Option-cases, inl, inr, if◌then◌else◌,
}
use ojuri.Velocity.{TransactionRecord, search, insert_before, insert_ascending}

module _ {Num : Type 0} where
  abbrev pub IsAscending : List (TransactionRecord Num) → Type 0
  IsAscending [] = Unit
  IsAscending (txn ∷ txns) = All (λ next. txn.timestamp ≤ next.timestamp) txns × IsAscending txns

  -- The place of a record: behind all that are not newer.
  unfoldable pub place :
      TransactionRecord Num → List (TransactionRecord Num) → List (TransactionRecord Num)
  place rec [] = rec ∷ []
  place rec (txn ∷ txns) =
      if leb txn.timestamp rec.timestamp then txn ∷ place rec txns else rec ∷ txn ∷ txns

  abbrev AllUpTo : ℕ → List (TransactionRecord Num) → Type 0
  AllUpTo t = All (λ txn. txn.timestamp ≤ t)

  abbrev AllAfter : ℕ → List (TransactionRecord Num) → Type 0
  AllAfter t = All (λ txn. t < txn.timestamp)

  All-after :
      (a t : ℕ) (txns : List (TransactionRecord Num))
      → t < a
      → All (λ next. a ≤ next.timestamp) txns
      → AllAfter t txns
  All-after a t [] h k = tt
  All-after a t (txn ∷ txns) h (p, k) = (omega (arith, p, h), All-after a t txns h k)

  All-le :
      (b a : ℕ) (txns : List (TransactionRecord Num))
      → b ≤ a
      → All (λ next. a ≤ next.timestamp) txns
      → All (λ next. b ≤ next.timestamp) txns
  All-le b a [] h k = tt
  All-le b a (txn ∷ txns) h (p, k) = (omega (arith, p, h), All-le b a txns h k)

  at_least :
      (a i : ℕ) (txns : List (TransactionRecord Num)) (txn : TransactionRecord Num)
      → All (λ next. a ≤ next.timestamp) txns
      → get_elem? txns i ≡ some txn
      → a ≤ txn.timestamp
  at_least a i [] txn k e = cc
  at_least a zero (x ∷ txns) txn (p, k) e = subst (λ q. a ≤ q.timestamp) (some-injective e) p
  at_least a (suc i) (x ∷ txns) txn (p, k) e = at_least a i txns txn k e

  -- What stands before an element that is not newer is not newer.
  take-AllUpTo :
      (t i : ℕ) (txns : List (TransactionRecord Num)) (txn : TransactionRecord Num)
      → IsAscending txns
      → get_elem? txns i ≡ some txn
      → txn.timestamp ≤ t
      → AllUpTo t (take (suc i) txns)
  take-AllUpTo t i [] txn s e h = tt
  take-AllUpTo t zero (x ∷ txns) txn s e h =
      (subst (λ q. q.timestamp ≤ t) (sym (some-injective e)) h, tt)
  take-AllUpTo t (suc i) (x ∷ txns) txn (p, s) e h =
      (omega (arith, at_least x.timestamp i txns txn p e, h), take-AllUpTo t i txns txn s e h)

  -- What stands behind an element that is newer is newer.
  drop-AllAfter :
      (t i : ℕ) (txns : List (TransactionRecord Num)) (txn : TransactionRecord Num)
      → IsAscending txns
      → get_elem? txns i ≡ some txn
      → t < txn.timestamp
      → AllAfter t (drop i txns)
  drop-AllAfter t i [] txn s e h = cc
  drop-AllAfter t zero (x ∷ txns) txn (p, s) e h =
      let newer = subst (λ q. t < q.timestamp) (sym (some-injective e)) h in
      (newer, All-after x.timestamp t txns newer p)
  drop-AllAfter t (suc i) (x ∷ txns) txn (p, s) e h = drop-AllAfter t i txns txn s e h

  get_elem?-some :
      (i : ℕ) (txns : List (TransactionRecord Num))
      → i < length txns
      → (txn : TransactionRecord Num) × (get_elem? txns i ≡ some txn)
  get_elem?-some i [] h = absurd (omega arith)
  get_elem?-some zero (x ∷ txns) h = (x, refl)
  get_elem?-some (suc i) (x ∷ txns) h = get_elem?-some i txns (omega arith)

  place-between :
      (rec : TransactionRecord Num) (i : ℕ) (txns : List (TransactionRecord Num))
      → AllUpTo rec.timestamp (take i txns)
      → AllAfter rec.timestamp (drop i txns)
      → place rec txns ≡ take i txns ++ rec ∷ drop i txns
  unfolding place
  place-between rec zero [] h k = refl
  place-between rec zero (x ∷ txns) h (p, k) = ground arith
  place-between rec (suc i) [] h k = refl
  place-between rec (suc i) (x ∷ txns) (p, h) k = ground (arith, place-between rec i txns h k)

  search_step :
      (fuel lo hi t : ℕ) (txns : List (TransactionRecord Num)) (txn : TransactionRecord Num)
      → lo < hi
      → get_elem? txns ((lo + hi) / 2) ≡ some txn
      → search (suc fuel) txns t lo hi ≡ (
          if leb txn.timestamp t
          then search fuel txns t ((lo + hi) / 2 + 1) hi
          else search fuel txns t lo ((lo + hi) / 2))
  unfolding search
  search_step fuel lo hi t txns txn apart at = ground (arith, at)

  -- In an ascending list, the search from a split range ends at the record's place.
  search_lem :
      (fuel lo hi t : ℕ) (txns : List (TransactionRecord Num))
      → IsAscending txns
      → lo ≤ hi
      → hi ≤ length txns
      → hi < fuel + lo
      → AllUpTo t (take lo txns)
      → AllAfter t (drop hi txns)
      → (i : ℕ) × (search fuel txns t lo hi ≡ some i)
        × AllUpTo t (take i txns)
        × AllAfter t (drop i txns)
  search_lem zero lo hi t txns s a b c up after = absurd (omega arith)
  search_lem (suc fuel) lo hi t txns s a b c up after = elim (Bool-cases (ltb lo hi)) [
    | inr met ↦
        let same : hi ≡ lo = ground arith in
        (lo, unfold search in ground arith, up, subst (λ j. AllAfter t (drop j txns)) same after)
    | inl apart ↦
        let less : lo < hi = ltb→lt lo hi apart in
        let below : (lo + hi) / 2 < hi = omega (arith, less) in
        let above : lo ≤ (lo + hi) / 2 = omega (arith, less) in
        let (txn, at) = get_elem?-some ((lo + hi) / 2) txns (omega (arith, below, b)) in
        elim (Bool-cases (leb txn.timestamp t)) [
          | inl older ↦
              let step : suc ((lo + hi) / 2) ≡ (lo + hi) / 2 + 1 = omega arith in
              rw (search_step fuel lo hi t txns txn less at, older)
                (search_lem fuel ((lo + hi) / 2 + 1) hi t txns s (omega (arith, below)) b
                  (omega (arith, above, c))
                  (subst (λ n. AllUpTo t (take n txns)) step
                    (take-AllUpTo t ((lo + hi) / 2) txns txn s at (leb→le txn.timestamp t older)))
                  after)
          | inr newer ↦
              rw (search_step fuel lo hi t txns txn less at, newer)
                (search_lem fuel lo ((lo + hi) / 2) t txns s above (omega (arith, below, b))
                  (omega (arith, below, c)) up
                  (drop-AllAfter t ((lo + hi) / 2) txns txn s at (ground arith)))
        ]
  ]

  place-behind :
      (rec : TransactionRecord Num) (txns : List (TransactionRecord Num))
      → AllUpTo rec.timestamp txns
      → place rec txns ≡ txns ++ rec ∷ []
  unfolding place
  place-behind rec [] h = refl
  place-behind rec (txn ∷ txns) (p, h) = ground (arith, place-behind rec txns h)

  -- Nothing in an ascending list is newer than its last.
  last-AllUpTo :
      (t : ℕ) (txns : List (TransactionRecord Num)) (newest : TransactionRecord Num)
      → IsAscending txns
      → last txns ≡ some newest
      → newest.timestamp ≤ t
      → AllUpTo t txns
  last-AllUpTo t [] newest s e h = tt
  last-AllUpTo t (txn ∷ []) newest s e h =
      (subst (λ q. q.timestamp ≤ t) (sym (some-injective e)) h, tt)
  last-AllUpTo t (txn ∷ (next ∷ txns)) newest ((p, q), s) e h =
      let (r, u) = last-AllUpTo t (next ∷ txns) newest s e h in (omega (arith, p, r), (r, u))

  last-some :
      (txn : TransactionRecord Num) (txns : List (TransactionRecord Num)) → last (txn ∷ txns) ≢ none
  last-some txn [] = λ e. cc
  last-some txn (next ∷ txns) = last-some next txns

  last_missing : (t : ℕ) (txns : List (TransactionRecord Num)) → last txns ≡ none → AllUpTo t txns
  last_missing t [] e = tt
  last_missing t (txn ∷ []) e = cc
  last_missing t (txn ∷ (next ∷ txns)) e = absurd (last-some next txns e)

  drop_all : (t : ℕ) (txns : List (TransactionRecord Num)) → AllAfter t (drop (length txns) txns)
  drop_all t [] = tt
  drop_all t (txn ∷ txns) = drop_all t txns

  insert_before-place :
      (txns : List (TransactionRecord Num)) (rec : TransactionRecord Num)
      → IsAscending txns
      → insert_before txns rec ≡ some (place rec txns)
  unfolding insert_before
  insert_before-place txns rec s =
      let (i, found, up, after) =
        search_lem (suc (length txns)) 0 (length txns) rec.timestamp txns s (omega arith)
          (omega arith) (omega arith) tt (drop_all rec.timestamp txns) in
      rw (found, place-between rec i txns up after) refl

  -- Into an ascending list, the insertion by binary search puts a record behind all that are not
  -- newer and in front of the rest; it never reads past the end.
  pub insert_ascending-place :
      (txns : List (TransactionRecord Num)) (rec : TransactionRecord Num)
      → IsAscending txns
      → insert_ascending txns rec ≡ some (place rec txns)
  unfolding insert_ascending
  insert_ascending-place txns rec s = elim (Option-cases (last txns)) [
    | inl no_last ↦
        rw (no_last, place-behind rec txns (last_missing rec.timestamp txns no_last)) refl
    | inr (newest, e) ↦ elim (Bool-cases (leb newest.timestamp rec.timestamp)) [
      | inl older ↦
          rw
            (
              e,
              older,
              place-behind rec txns (
                  last-AllUpTo rec.timestamp txns newest s e
                    (leb→le newest.timestamp rec.timestamp older)),
            )
            refl
      | inr newer ↦ rw (e, newer) (insert_before-place txns rec s)
    ]
  ]

  All-place :
      (P : TransactionRecord Num → Type 0) (rec : TransactionRecord Num)
      (txns : List (TransactionRecord Num))
      → P rec
      → All P txns
      → All P (place rec txns)
  unfolding place
  All-place P rec [] p h = (p, tt)
  All-place P rec (txn ∷ txns) p (q, h) = elim (Bool-cases (leb txn.timestamp rec.timestamp)) [
    | inl older ↦ rw older (q, All-place P rec txns p h)
    | inr newer ↦ rw newer (p, (q, h))
  ]

  pub place-IsAscending :
      (rec : TransactionRecord Num) (txns : List (TransactionRecord Num))
      → IsAscending txns
      → IsAscending (place rec txns)
  unfolding place
  place-IsAscending rec [] s = (tt, tt)
  place-IsAscending rec (txn ∷ txns) (p, s) = elim (Bool-cases (leb txn.timestamp rec.timestamp)) [
    | inl older ↦ rw older (
      All-place (λ next. txn.timestamp ≤ next.timestamp) rec txns
          (leb→le txn.timestamp rec.timestamp older) p,
      place-IsAscending rec txns s,
    )
    | inr newer ↦
        let less : rec.timestamp ≤ txn.timestamp = ground arith in
        rw newer ((less, All-le rec.timestamp txn.timestamp txns less p), (p, s))
  ]

  pub length-place :
      (rec : TransactionRecord Num) (txns : List (TransactionRecord Num))
      → length (place rec txns) ≡ suc (length txns)
  unfolding place
  length-place rec [] = refl
  length-place rec (txn ∷ txns) = ground (arith, length-place rec txns)
