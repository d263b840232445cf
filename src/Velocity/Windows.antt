-- ===== src/Velocity/Windows.antt =====
-- The counts by window, against the transactions that lie in the window.
use ojuri.Prelude.{
  ℕ, suc, ◌+◌, ◌≤◌, String, ◌≡◌, refl, sym, ◌∙◌, false, List, [], ◌∷◌, ◌++◌, length, filter,
  reverse, All, arith, leb, Bool-cases, inl, inr, if◌then◌else◌, ◌==◌, All-append,
}
use ojuri.Velocity.{
  TransactionRecord, VelocityService, Limits, transactions_of, within, one_minute, five_minutes,
  fifteen_minutes, one_hour, one_day, seven_days,
}
use ojuri.Velocity.Placing.{IsAscending}
use ojuri.Velocity.Kept.{IsValid, transactions_of-IsAscending}
use ojuri.Velocity.Metrics.{
  Float, VelocityMetrics, count_in_window, metrics_of, calculate_metrics, get_default_metrics,
}

module _ {Num : Type 0} where
  -- Newest first.
  abbrev IsDescending : List (TransactionRecord Num) → Type 0
  IsDescending [] = Unit
  IsDescending (txn ∷ txns) = All (λ next. next.timestamp ≤ txn.timestamp) txns × IsDescending txns

  append-IsDescending :
      (txns : List (TransactionRecord Num)) (txn : TransactionRecord Num)
      → IsDescending txns
      → All (λ next. txn.timestamp ≤ next.timestamp) txns
      → IsDescending (txns ++ txn ∷ [])
  append-IsDescending [] txn d h = (tt, tt)
  append-IsDescending (x ∷ txns) txn (p, d) (q, h) = (
    All-append (λ next. next.timestamp ≤ x.timestamp) txns (txn ∷ []) p (q, tt),
    append-IsDescending txns txn d h,
  )

  All-reverse :
      (P : TransactionRecord Num → Type 0) (txns : List (TransactionRecord Num))
      → All P txns
      → All P (reverse txns)
  All-reverse P [] h = tt
  All-reverse P (txn ∷ txns) (p, h) =
      All-append P (reverse txns) (txn ∷ []) (All-reverse P txns h) (p, tt)

  reverse-IsDescending :
      (txns : List (TransactionRecord Num)) → IsAscending txns → IsDescending (reverse txns)
  reverse-IsDescending [] s = tt
  reverse-IsDescending (txn ∷ txns) (p, s) =
      append-IsDescending (reverse txns) txn (reverse-IsDescending txns s)
        (All-reverse (λ next. txn.timestamp ≤ next.timestamp) txns p)

  filter-older :
      (now window t : ℕ) (txns : List (TransactionRecord Num))
      → leb now (t + window) ≡ false
      → All (λ next. next.timestamp ≤ t) txns
      → length (filter (within now window) txns) ≡ 0
  filter-older now window t [] h k = refl
  filter-older now window t (txn ∷ txns) h (p, k) =
      ground (arith, p, filter-older now window t txns h k)

  -- Where the newest stand first, the count that stops early misses nothing.
  count_in_window-filter :
      (now window : ℕ) (txns : List (TransactionRecord Num))
      → IsDescending txns
      → count_in_window txns now window ≡ length (filter (within now window) txns)
  unfolding count_in_window
  count_in_window-filter now window [] d = refl
  count_in_window-filter now window (txn ∷ txns) (p, d) =
      elim (Bool-cases (within now window txn)) [
        | inl inside ↦ rw inside (omega (arith, count_in_window-filter now window txns d))
        | inr outside ↦ rw outside (sym (filter-older now window txn.timestamp txns outside p))
      ]

  length-filter-append :
      (now window : ℕ) (xs ys : List (TransactionRecord Num))
      → length (filter (within now window) (xs ++ ys))
        ≡ length (filter (within now window) xs) + length (filter (within now window) ys)
  length-filter-append now window [] ys = omega arith
  length-filter-append now window (x ∷ xs) ys =
      ground (arith, length-filter-append now window xs ys)

  length-filter-reverse :
      (now window : ℕ) (txns : List (TransactionRecord Num))
      → length (filter (within now window) (reverse txns))
        ≡ length (filter (within now window) txns)
  length-filter-reverse now window [] = refl
  length-filter-reverse now window (txn ∷ txns) = ground (
    arith,
    length-filter-append now window (reverse txns) (txn ∷ []),
    length-filter-reverse now window txns,
  )

  -- The stored transactions of a window.
  abbrev pub in_window : List (TransactionRecord Num) → ℕ → ℕ → ℕ
  in_window txns now window = length (filter (within now window) txns)

  pub count_reversed :
      (now window : ℕ) (txns : List (TransactionRecord Num))
      → IsAscending txns
      → count_in_window (reverse txns) now window ≡ in_window txns now window
  count_reversed now window txns s =
      count_in_window-filter now window (reverse txns) (reverse-IsDescending txns s)
      ∙ length-filter-reverse now window txns

module _ (float : Float) where
  open float use {Num}

  -- The six counts of some metrics are those of the windows.
  abbrev pub AreCounts : VelocityMetrics Num → List (TransactionRecord Num) → ℕ → Type 0
  AreCounts m txns now =
      (m.velocity_1m ≡ in_window txns now one_minute)
      × (m.velocity_5m ≡ in_window txns now five_minutes)
      × (m.velocity_15m ≡ in_window txns now fifteen_minutes)
      × (m.velocity_1h ≡ in_window txns now one_hour)
      × (m.velocity_24h ≡ in_window txns now one_day)
      × (m.velocity_7d ≡ in_window txns now seven_days)

  default-AreCounts : (now : ℕ) → AreCounts (get_default_metrics float) [] now
  unfolding get_default_metrics
  default-AreCounts now = (refl, refl, refl, refl, refl, refl)

  metrics_of-AreCounts :
      (txns : List (TransactionRecord Num)) (now : ℕ)
      → IsAscending txns
      → AreCounts (metrics_of float (reverse txns) now) txns now
  unfolding metrics_of
  metrics_of-AreCounts txns now s = (
    count_reversed now one_minute txns s,
    count_reversed now five_minutes txns s,
    count_reversed now fifteen_minutes txns s,
    count_reversed now one_hour txns s,
    count_reversed now one_day txns s,
    count_reversed now seven_days txns s,
  )

  metrics-AreCounts :
      (txns : List (TransactionRecord Num)) (now : ℕ)
      → IsAscending txns
      → AreCounts
          (if length txns == 0
            then get_default_metrics float
            else metrics_of float (reverse txns) now)
          txns
          now
  metrics-AreCounts [] now s = default-AreCounts now
  metrics-AreCounts (txn ∷ txns) now s =
      let filled : (suc (length txns) == 0) ≡ false = ground arith in
      rw filled (metrics_of-AreCounts (txn ∷ txns) now s)

  -- In a valid table, each velocity of a sender is the number of the sender's stored transactions
  -- in its window, although the counting stops at the first transaction outside.
  pub calculate_metrics_counts :
      (limits : Limits) (s : VelocityService Num) (user : String) (now : ℕ)
      → IsValid limits s
      → AreCounts (calculate_metrics float s user now) (transactions_of s user) now
  unfolding calculate_metrics
  calculate_metrics_counts limits s user now v =
      metrics-AreCounts (transactions_of s user) now (transactions_of-IsAscending limits s user v)
