-- ===== src/Velocity/Metrics.antt =====
-- velocity.service.ts, `calculateMetrics` and `calculatePairMetrics`: what is read off a sender's
-- transactions. Amounts are floating-point numbers, whose operations are those of the engine: the
-- record Float, a parameter.
use ojuri.Prelude.{
  ℕ, ◌+◌, ◌*◌, ◌/◌, ◌%◌, ◌==◌, String, Bool, ◌&&◌, ◌||◌, Option, none, some, List, [], ◌∷◌, length,
  filter, reverse, any, str_eq, min, if◌then◌else◌,
}
use ojuri.Velocity.{
  TransactionRecord, VelocityService, transactions_of, within, one_minute, five_minutes,
  fifteen_minutes, one_hour, one_day, seven_days, thirty_days,
}

pub record Float : Type 1 where
  pub Num : Type 0
  pub of_nat : ℕ → Num
  pub add : Num → Num → Num
  pub sub : Num → Num → Num
  pub mul : Num → Num → Num
  pub div : Num → Num → Num
  -- `a % b`
  pub rem : Num → Num → Num
  pub pow : Num → Num → Num
  pub sqrt : Num → Num
  pub round : Num → Num
  pub floor : Num → Num
  pub abs : Num → Num
  pub max : Num → Num → Num
  pub min : Num → Num → Num
  pub sin : Num → Num
  pub cos : Num → Num
  pub atan2 : Num → Num → Num
  pub pi : Num
  -- `a === b`
  pub equal : Num → Num → Bool

pub record AmountStats (Num : Type 0) : Type 0 where
  pub avg : Num
  pub std : Num

pub record VelocityMetrics (Num : Type 0) : Type 0 where
  pub velocity_1m : ℕ
  pub velocity_5m : ℕ
  pub velocity_15m : ℕ
  pub velocity_1h : ℕ
  pub velocity_24h : ℕ
  pub velocity_7d : ℕ
  pub amount_mean_24h : Num
  pub amount_max_24h : Num
  pub avg_amount_30d : Num
  pub std_amount_30d : Num
  pub unique_receivers_24h : ℕ
  pub unique_receivers_7d : ℕ
  pub hour_dev_from_norm : Num
  pub time_since_last_txn : Num

pub record PairVelocityMetrics (Num : Type 0) : Type 0 where
  pub forward_count_30d : ℕ
  pub amount_mean_30d : Num
  pub round_trip_count_30d : ℕ
  pub seconds_since_prev_send : Option Num

-- Stops at the first transaction that is outside: expects the newest first.
unfoldable pub count_in_window : {Num : Type 0} → List (TransactionRecord Num) → ℕ → ℕ → ℕ
count_in_window [] now window = 0
count_in_window (txn ∷ txns) now window =
    let rest = count_in_window txns now window in if within now window txn then rest + 1 else 0

abbrev pub filter_by_window :
    {Num : Type 0} → List (TransactionRecord Num) → ℕ → ℕ → List (TransactionRecord Num)
filter_by_window txns now window = filter (within now window) txns

-- The set that the loop of `countUniqueReceivers` builds.
unfoldable pub receivers_seen :
    {Num : Type 0} → List String → List (TransactionRecord Num) → List String
receivers_seen seen [] = seen
receivers_seen seen (txn ∷ txns) =
    receivers_seen
      (if str_eq txn.receiver "" || any (λ r. str_eq r txn.receiver) seen
        then seen
        else txn.receiver ∷ seen)
      txns

unfoldable pub count_unique_receivers : {Num : Type 0} → List (TransactionRecord Num) → ℕ
unfolding receivers_seen
count_unique_receivers txns = length (receivers_seen [] txns)

-- `new Date(t).getUTCHours()`
abbrev pub utc_hours : ℕ → ℕ
utc_hours t = t / (60 * 60 * 1000) % 24

module _ (float : Float) where
  open float use {Num}

  -- `Math.round(a * 100) / 100`
  abbrev pub cents : Num → Num
  cents a = float.div (float.round (float.mul a (float.of_nat 100))) (float.of_nat 100)

  abbrev pub add_amounts : Num → List (TransactionRecord Num) → Num
  add_amounts acc [] = acc
  add_amounts acc (txn ∷ txns) = add_amounts (float.add acc txn.amount) txns

  abbrev pub add_squares : Num → Num → List (TransactionRecord Num) → Num
  add_squares avg acc [] = acc
  add_squares avg acc (txn ∷ txns) =
      add_squares avg (float.add acc (float.pow (float.sub txn.amount avg) (float.of_nat 2))) txns

  abbrev pub max_amount : Num → List (TransactionRecord Num) → Num
  max_amount acc [] = acc
  max_amount acc (txn ∷ txns) = max_amount (float.max acc txn.amount) txns

  unfoldable pub calculate_amount_stats : List (TransactionRecord Num) → AmountStats Num
  calculate_amount_stats [] = record { avg = float.of_nat 0; std = float.of_nat 0 }
  calculate_amount_stats (txn ∷ []) = record {
    avg = float.div (add_amounts (float.of_nat 0) (txn ∷ [])) (float.of_nat 1);
    std = float.of_nat 0;
  }
  calculate_amount_stats (a ∷ (b ∷ txns)) =
      let count = float.of_nat (length (a ∷ b ∷ txns)) in
      let avg = float.div (add_amounts (float.of_nat 0) (a ∷ b ∷ txns)) count in
      let spread = float.div (add_squares avg (float.of_nat 0) (a ∷ b ∷ txns)) count in
      record { avg = cents avg; std = cents (float.sqrt spread) }

  -- `(hours / 24) * 2 * Math.PI`
  abbrev pub hour_angle : TransactionRecord Num → Num
  hour_angle txn =
      float.mul
        (float.mul (float.div (float.of_nat (utc_hours txn.timestamp)) (float.of_nat 24))
          (float.of_nat 2))
        float.pi

  abbrev pub sum_angles : (Num → Num) → Num → List (TransactionRecord Num) → Num
  sum_angles f acc [] = acc
  sum_angles f acc (txn ∷ txns) = sum_angles f (float.add acc (f (hour_angle txn))) txns

  abbrev pub deviation_from : Num → Num → ℕ → Num
  deviation_from sin_sum cos_sum now =
      let full = float.of_nat 24 in
      let mean = float.atan2 sin_sum cos_sum in
      let turns = float.mul (float.div mean (float.mul (float.of_nat 2) float.pi)) full in
      let typical = float.rem (float.add turns full) full in
      let raw = float.abs (float.sub (float.of_nat (utc_hours now)) typical) in
      cents (float.min raw (float.sub full raw))

  unfoldable pub hour_deviation_from_norm : List (TransactionRecord Num) → ℕ → Num
  hour_deviation_from_norm [] now = float.of_nat 0
  hour_deviation_from_norm (txn ∷ txns) now =
      let sin_sum = sum_angles float.sin (float.of_nat 0) (txn ∷ txns) in
      let cos_sum = sum_angles float.cos (float.of_nat 0) (txn ∷ txns) in
      if float.equal sin_sum (float.of_nat 0) && float.equal cos_sum (float.of_nat 0)
      then float.of_nat 0
      else deviation_from sin_sum cos_sum now

  unfoldable pub get_default_metrics : VelocityMetrics Num
  get_default_metrics = record {
    velocity_1m = 0;
    velocity_5m = 0;
    velocity_15m = 0;
    velocity_1h = 0;
    velocity_24h = 0;
    velocity_7d = 0;
    amount_mean_24h = float.of_nat 0;
    amount_max_24h = float.of_nat 0;
    avg_amount_30d = float.of_nat 0;
    std_amount_30d = float.of_nat 0;
    unique_receivers_24h = 0;
    unique_receivers_7d = 0;
    hour_dev_from_norm = float.of_nat 0;
    time_since_last_txn = float.of_nat 0;
  }

  -- `Math.floor((a - b) / 1000)`
  abbrev pub seconds_between : ℕ → ℕ → Num
  seconds_between a b =
      float.floor (float.div (float.sub (float.of_nat a) (float.of_nat b)) (float.of_nat 1000))

  abbrev pub since_newest : List (TransactionRecord Num) → ℕ → Num
  since_newest [] now = float.floor (float.div (float.of_nat 0) (float.of_nat 1000))
  since_newest (newest ∷ older) now = seconds_between now newest.timestamp

  -- The metrics of transactions with the newest first.
  unfoldable pub metrics_of : List (TransactionRecord Num) → ℕ → VelocityMetrics Num
  unfolding count_in_window count_unique_receivers calculate_amount_stats hour_deviation_from_norm
  metrics_of sorted now =
      let day = filter_by_window sorted now one_day in
      let week = filter_by_window sorted now seven_days in
      let month = filter_by_window sorted now thirty_days in
      record {
        velocity_1m = count_in_window sorted now one_minute;
        velocity_5m = count_in_window sorted now five_minutes;
        velocity_15m = count_in_window sorted now fifteen_minutes;
        velocity_1h = count_in_window sorted now one_hour;
        velocity_24h = count_in_window sorted now one_day;
        velocity_7d = count_in_window sorted now seven_days;
        amount_mean_24h = (calculate_amount_stats day).avg;
        amount_max_24h = max_amount (float.of_nat 0) day;
        avg_amount_30d = (calculate_amount_stats month).avg;
        std_amount_30d = (calculate_amount_stats month).std;
        unique_receivers_24h = count_unique_receivers day;
        unique_receivers_7d = count_unique_receivers week;
        hour_dev_from_norm = hour_deviation_from_norm month now;
        time_since_last_txn = since_newest sorted now;
      }

  unfoldable pub calculate_metrics : VelocityService Num → String → ℕ → VelocityMetrics Num
  unfolding metrics_of get_default_metrics
  calculate_metrics s user now =
      let txns = transactions_of s user in
      if length txns == 0 then get_default_metrics else metrics_of (reverse txns) now

  abbrev pub since_previous : List (TransactionRecord Num) → Option Num
  since_previous (newest ∷ (previous ∷ older)) =
      some (seconds_between newest.timestamp previous.timestamp)
  since_previous _ = none

  unfoldable pub calculate_pair_metrics :
      VelocityService Num → String → String → ℕ → PairVelocityMetrics Num
  unfolding calculate_amount_stats
  calculate_pair_metrics s sender receiver now =
      let forward =
        reverse (filter (λ txn. str_eq txn.receiver receiver) (transactions_of s sender)) in
      let back = filter (λ txn. str_eq txn.receiver sender) (transactions_of s receiver) in
      let forward_month = filter_by_window forward now thirty_days in
      let back_month = filter_by_window back now thirty_days in
      record {
        forward_count_30d = length forward_month;
        amount_mean_30d = (calculate_amount_stats forward_month).avg;
        round_trip_count_30d = min (length forward_month) (length back_month);
        seconds_since_prev_send = since_previous forward;
      }
