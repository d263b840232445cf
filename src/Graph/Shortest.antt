-- ===== src/Graph/Shortest.antt =====
-- The search by breadth finds the shortest way to a fraud user.
use ojuri.Prelude.{
  ℕ, zero, suc, ◌+◌, ◌≤◌, ◌<◌, String, ◌≡◌, refl, sym, subst, true, false, List, [], ◌∷◌, length,
  arith, ◌⊎◌, inl, inr, Bool-cases,
}
use mathlib.Core.Bool.{true≢false}
use ojuri.Redis.{is_member}
use ojuri.Graph.Path.{
  Scan, hit, capped, swept, search, search_on, shortest_path_to_fraud, fraud_path_max_depth,
  fraud_path_max_visited, fraud_path_unknown, is_empty,
}
use ojuri.Graph.Sweep.{
  IsIn, AreDistinct, in_cons, in_here, IsFraud, Sweep, IsScan, Beside, scan_frontier-IsScan,
}

module _ (neighbors : String → List String) (fraud_users : List String) (user : String) where
  -- A way of so many steps from the user.
  pub data Walk : ℕ → String → Type 0 where
    stay : Walk zero user
    step : {n : ℕ} {x : String} (y : String) → Walk n x → IsIn (neighbors x) y → Walk (suc n) y

  abbrev pub IsHonest : String → Type 0
  IsHonest x = is_member fraud_users x ≡ false

  -- A fraud user stands at this distance, and none nearer.
  abbrev pub IsNearest : ℕ → Type 0
  IsNearest d =
      ((x : String) × IsFraud neighbors fraud_users x × Walk d x)
      × ((m : ℕ) (x : String) → m < d → Walk m x → IsHonest x)

  abbrev pub NoneWithin : ℕ → Type 0
  NoneWithin bound = (m : ℕ) (x : String) → m ≤ bound → Walk m x → IsHonest x

  -- So many users within the distance that the search gives up.
  abbrev pub IsCrowded : ℕ → Type 0
  IsCrowded bound =
      (xs : List String) × (fraud_path_max_visited ≤ length xs)
      × AreDistinct xs
      × ((x : String) → IsIn xs x → (m : ℕ) × (m ≤ bound) × Walk m x)

  abbrev pub IsAnswer : ℕ → ℕ → Type 0
  IsAnswer bound d =
      ((d ≤ bound) × IsNearest d)
      ⊎ ((d ≡ fraud_path_unknown) × (NoneWithin bound ⊎ IsCrowded bound))

  -- What the search knows once it has been through the distances up to `k`.
  record Reached (k : ℕ) (visited frontier : List String) : Type 0 where
    front : (x : String) → IsIn frontier x → Walk k x
    near : (x : String) → IsIn visited x → (m : ℕ) × (m ≤ k) × Walk m x
    honest : (x : String) → IsIn visited x → IsHonest x
    whole : (m : ℕ) (x : String) → m ≤ k → Walk m x → IsIn visited x
    closed :
        (x : String)
        → IsIn visited x
        → IsIn frontier x ⊎ ((y : String) → IsIn (neighbors x) y → IsIn visited y)
    distinct : AreDistinct visited

  abbrev Swept : ℕ → List String → List String → List String → List String → Type 0
  Swept k visited frontier visited' next =
      Sweep neighbors fraud_users (Walk (suc k)) (Beside neighbors fraud_users frontier) visited []
        visited' next

  -- The neighbours of what was visited are visited after the pass.
  beside_visited :
      (k : ℕ) (visited frontier visited' next : List String)
      → Reached k visited frontier
      → Swept k visited frontier visited' next
      → (x y : String) → IsIn visited x
      → IsIn (neighbors x) y
      → IsIn visited' y
  beside_visited k visited frontier visited' next r s x y h beside = elim (r.closed x h) [
    | inl on ↦ s.whole y (x, on, beside)
    | inr all ↦ s.before y (all y beside)
  ]

  advance :
      (k : ℕ) (visited frontier visited' next : List String)
      → Reached k visited frontier
      → Swept k visited frontier visited' next
      → Reached (suc k) visited' next
  advance k visited frontier visited' next r s = record {
    front =
        λ x h. elim (s.fresh x h) [ inl empty ↦ absurd (true≢false (sym empty)) | inr walk ↦ walk ];
    near = λ x h. elim (s.clean x h) [
      | inl old ↦ let (m, short, walk) = r.near x old in (m, omega (arith, short), walk)
      | inr (honest, walk) ↦ (suc k, omega arith, walk)
    ];
    honest = λ x h. elim (s.clean x h) [ inl old ↦ r.honest x old | inr (honest, walk) ↦ honest ];
    whole = walked;
    closed = λ x h. elim (s.split x h) [
      | inl old ↦
          inr (λ y beside. beside_visited k visited frontier visited' next r s x y old beside)
      | inr new ↦ inl new
    ];
    distinct = s.distinct;
  }
    where
      walked : (m : ℕ) (x : String) → m ≤ suc k → Walk m x → IsIn visited' x
      walked _ _ short stay = s.before user (r.whole 0 user (omega arith) stay)
      walked _ _ short (step {n} {x} y walk beside) =
          beside_visited k visited frontier visited' next r s x y
            (r.whole n x (omega (arith, short)) walk) beside

  -- With no next frontier, every way has been visited.
  exhausted :
      (k : ℕ) (visited : List String)
      → Reached k visited []
      → (m : ℕ) (x : String) → Walk m x
      → IsIn visited x
  exhausted k visited r _ _ stay = r.whole 0 user (omega arith) stay
  exhausted k visited r _ _ (step {n} {x} y walk beside) =
      elim (r.closed x (exhausted k visited r n x walk)) [
        | inl empty ↦ absurd (true≢false (sym empty))
        | inr all ↦ all y beside
      ]

  search_on-IsAnswer :
      (k bound : ℕ) (visited frontier : List String) (deeper : List String → List String → ℕ)
      (scan : Scan)
      → suc k ≤ bound
      → Reached k visited frontier
      → ((v f : List String) → Reached (suc k) v f → IsAnswer bound (deeper v f))
      → IsScan neighbors fraud_users
          (Walk (suc k))
          (Beside neighbors fraud_users frontier)
          visited
          []
          scan
      → IsAnswer bound (search_on neighbors fraud_users deeper (suc k) scan)
  search_on-IsAnswer k bound visited frontier deeper hit short r rest found =
      inl (short, (found, λ m x less walk. r.honest x (r.whole m x (omega (arith, less)) walk)))
  search_on-IsAnswer k bound visited frontier deeper (capped v) short r rest
        (many, distinct, near) =
      inr (
        refl,
        inr (
          v,
          many,
          distinct,
          λ x h. elim (near x h) [
            | inl old ↦ let (m, less, walk) = r.near x old in (m, omega (arith, less, short), walk)
            | inr walk ↦ (suc k, short, walk)
          ],
        ),
      )
  search_on-IsAnswer k bound visited frontier deeper (swept v []) short r rest s =
      let after = advance k visited frontier v [] r s in
      inr (refl, inl (λ m x less walk. after.honest x (exhausted (suc k) v after m x walk)))
  search_on-IsAnswer k bound visited frontier deeper (swept v (w ∷ next)) short r rest s =
      rest v (w ∷ next) (advance k visited frontier v (w ∷ next) r s)

  search-IsAnswer :
      (left k bound : ℕ) (visited frontier : List String)
      → bound ≡ left + k
      → Reached k visited frontier
      → IsAnswer bound (search neighbors fraud_users left (suc k) visited frontier)
  unfolding search
  search-IsAnswer zero k bound visited frontier e r =
      inr (refl, inl (λ m x less walk. r.honest x (r.whole m x (omega (arith, less, e)) walk)))
  search-IsAnswer (suc left) k bound visited frontier e r =
      search_on-IsAnswer k bound visited frontier _ _ (omega (arith, e)) r
        (λ v f after. search-IsAnswer left (suc k) bound v f (omega (arith, e)) after)
        (scan_frontier-IsScan neighbors fraud_users (Walk (suc k)) frontier visited [] r.distinct
          (λ y (w, on, beside). step y (r.front w on) beside))

  only_user : (x : String) → IsIn (user ∷ []) x → user ≡ x
  only_user x h = elim (in_cons user [] x h) [
    | inl same ↦ same
    | inr empty ↦ absurd (true≢false (sym empty))
  ]

  not_below : (m : ℕ) (x : String) → m ≤ 0 → Walk m x → user ≡ x
  not_below _ _ short stay = refl
  not_below _ _ short (step {n} {x} y walk beside) = absurd (omega (arith, short))

  at_user : IsHonest user → Reached 0 (user ∷ []) (user ∷ [])
  at_user honest = record {
    front = λ x h. subst (Walk 0) (only_user x h) stay;
    near = λ x h. (0, omega arith, subst (Walk 0) (only_user x h) stay);
    honest = λ x h. subst IsHonest (only_user x h) honest;
    whole = λ m x short walk. subst (IsIn (user ∷ [])) (not_below m x short walk) (in_here user []);
    closed = λ x h. inl h;
    distinct = (refl, tt);
  }

  honest_of_empty :
      (xs : List String)
      → is_empty neighbors fraud_users xs ≡ true
      → (x : String) → is_member xs x ≡ false
  honest_of_empty [] e x = refl
  honest_of_empty (y ∷ ys) e x = absurd (true≢false (sym e))

  -- The answer is 0 to 4 where a fraud user stands at exactly that distance from the user and none
  -- nearer, and else 99: then either no fraud user stands within four steps, or a thousand users
  -- do, at which the search gives up.
  pub shortest_path_to_fraud-IsAnswer :
      IsAnswer fraud_path_max_depth (shortest_path_to_fraud neighbors fraud_users user)
  unfolding shortest_path_to_fraud
  shortest_path_to_fraud-IsAnswer = elim (Bool-cases (is_empty neighbors fraud_users fraud_users)) [
    | inl empty ↦ rw empty (inr (refl, inl (λ m x less walk. honest_of_empty fraud_users empty x)))
    | inr some_left ↦ elim (Bool-cases (is_member fraud_users user)) [
      | inl fraud ↦
          rw (some_left, fraud)
            (inl
              (omega arith, ((user, fraud, stay), λ m x less walk. absurd (omega (arith, less)))))
      | inr honest ↦
          rw (some_left, honest)
            (search-IsAnswer 4 0 4 (user ∷ []) (user ∷ []) refl (at_user honest))
    ]
  ]
