-- ===== src/Graph/Sweep.antt =====
-- What one pass over a frontier makes of the visited users and the next frontier.
use ojuri.Prelude.{
  ◌≤◌, String, ◌≡◌, refl, sym, subst, true, false, List, [], ◌∷◌, ◌++◌, length, leb, leb→le, str_eq,
  str_eq_refl, eq_iff, ◌⊎◌, inl, inr, Bool-cases,
}
use mathlib.Core.Bool.{true≢false}
use ojuri.Redis.{is_member}
use ojuri.Graph.Path.{
  Scan, hit, capped, swept, scan_neighbors, scan_on, scan_frontier, fraud_path_max_visited,
}

abbrev pub IsIn : List String → String → Type 0
IsIn xs x = is_member xs x ≡ true

pub in_cons : (n : String) (xs : List String) (x : String) → IsIn (n ∷ xs) x → (n ≡ x) ⊎ IsIn xs x
in_cons n xs x h = elim (Bool-cases (str_eq n x)) [
  | inl same ↦ inl ((eq_iff n x).0 same)
  | inr other ↦ inr ((rw other at h))
]

pub in_here : (n : String) (xs : List String) → IsIn (n ∷ xs) n
in_here n xs = rw (str_eq_refl n) refl

in_there : (n : String) (xs : List String) (x : String) → IsIn xs x → IsIn (n ∷ xs) x
in_there n xs x h = elim (Bool-cases (str_eq n x)) [
  | inl same ↦ rw same refl
  | inr other ↦ rw other h
]

in_snoc : (xs : List String) (n x : String) → IsIn (xs ++ n ∷ []) x → IsIn xs x ⊎ (n ≡ x)
in_snoc [] n x h = elim (in_cons n [] x h) [ inl same ↦ inr same | inr none_left ↦ inl none_left ]
in_snoc (m ∷ xs) n x h = elim (in_cons m (xs ++ n ∷ []) x h) [
  | inl same ↦ inl (subst (IsIn (m ∷ xs)) same (in_here m xs))
  | inr later ↦ elim (in_snoc xs n x later) [
    | inl before ↦ inl (in_there m xs x before)
    | inr last ↦ inr last
  ]
]

in_front : (xs : List String) (n x : String) → IsIn xs x → IsIn (xs ++ n ∷ []) x
in_front [] n x h = absurd (true≢false (sym h))
in_front (m ∷ xs) n x h = elim (in_cons m xs x h) [
  | inl same ↦ subst (IsIn (m ∷ xs ++ n ∷ [])) same (in_here m (xs ++ n ∷ []))
  | inr later ↦ in_there m (xs ++ n ∷ []) x (in_front xs n x later)
]

in_last : (xs : List String) (n : String) → IsIn (xs ++ n ∷ []) n
in_last [] n = in_here n []
in_last (m ∷ xs) n = in_there m (xs ++ n ∷ []) n (in_last xs n)

-- Each stands once.
abbrev pub AreDistinct : List String → Type 0
AreDistinct [] = Unit
AreDistinct (x ∷ xs) = (is_member xs x ≡ false) × AreDistinct xs

module _ (neighbors : String → List String) (fraud_users : List String) where
  abbrev pub IsFraud : String → Type 0
  IsFraud x = is_member fraud_users x ≡ true

  -- What a scan of those `Due` made of the visited and the next frontier, where all it adds is `Near`.
  pub record Sweep (Near Due : String → Type 0) (visited next visited' next' : List String)
      : Type 0 where
    pub before : (x : String) → IsIn visited x → IsIn visited' x
    pub next_before : (x : String) → IsIn next x → IsIn next' x
    pub split : (x : String) → IsIn visited' x → IsIn visited x ⊎ IsIn next' x
    pub fresh : (x : String) → IsIn next' x → IsIn next x ⊎ Near x
    pub clean :
        (x : String)
        → IsIn visited' x
        → IsIn visited x ⊎ ((is_member fraud_users x ≡ false) × Near x)
    pub whole : (x : String) → Due x → IsIn visited' x
    pub distinct : AreDistinct visited'

  abbrev pub IsScan :
      (String → Type 0) → (String → Type 0) → List String → List String → Scan → Type 0
  IsScan Near Due visited next hit = (x : String) × IsFraud x × Near x
  IsScan Near Due visited next (capped visited') =
      (fraud_path_max_visited ≤ length visited')
      × AreDistinct visited'
      × ((x : String) → IsIn visited' x → IsIn visited x ⊎ Near x)
  IsScan Near Due visited next (swept visited' next') = Sweep Near Due visited next visited' next'

  -- A neighbour that is passed over.
  skip-IsScan :
      (Near : String → Type 0) (n : String) (ns visited next : List String) (scan : Scan)
      → IsIn visited n
      → IsScan Near (IsIn ns) visited next scan
      → IsScan Near (IsIn (n ∷ ns)) visited next scan
  skip-IsScan Near n ns visited next hit known s = s
  skip-IsScan Near n ns visited next (capped v) known s = s
  skip-IsScan Near n ns visited next (swept v m) known s = record {
    before = s.before;
    next_before = s.next_before;
    split = s.split;
    fresh = s.fresh;
    clean = s.clean;
    whole = λ x h. elim (in_cons n ns x h) [
      | inl same ↦ s.before x (subst (IsIn visited) same known)
      | inr later ↦ s.whole x later
    ];
    distinct = s.distinct;
  }

  -- One that is pushed.
  push-IsScan :
      (Near : String → Type 0) (n : String) (ns visited next : List String) (scan : Scan)
      → is_member fraud_users n ≡ false
      → Near n
      → IsScan Near (IsIn ns) (n ∷ visited) (next ++ n ∷ []) scan
      → IsScan Near (IsIn (n ∷ ns)) visited next scan
  push-IsScan Near n ns visited next hit honest near s = s
  push-IsScan Near n ns visited next (capped v) honest near (many, distinct, s) = (
    many,
    distinct,
    λ x h. elim (s x h) [
      | inl earlier ↦ elim (in_cons n visited x earlier) [
        | inl same ↦ inr (subst Near same near)
        | inr old ↦ inl old
      ]
      | inr close ↦ inr close
    ],
  )
  push-IsScan Near n ns visited next (swept v m) honest near s = record {
    before = λ x h. s.before x (in_there n visited x h);
    next_before = λ x h. s.next_before x (in_front next n x h);
    split = λ x h. elim (s.split x h) [
      | inl earlier ↦ elim (in_cons n visited x earlier) [
        | inl same ↦ inr (s.next_before x (subst (IsIn (next ++ n ∷ [])) same (in_last next n)))
        | inr old ↦ inl old
      ]
      | inr new ↦ inr new
    ];
    fresh = λ x h. elim (s.fresh x h) [
      | inl earlier ↦ elim (in_snoc next n x earlier) [
        | inl old ↦ inl old
        | inr same ↦ inr (subst Near same near)
      ]
      | inr close ↦ inr close
    ];
    clean = λ x h. elim (s.clean x h) [
      | inl earlier ↦ elim (in_cons n visited x earlier) [
        | inl same ↦
            inr (subst (λ y. is_member fraud_users y ≡ false) same honest, subst Near same near)
        | inr old ↦ inl old
      ]
      | inr close ↦ inr close
    ];
    whole = λ x h. elim (in_cons n ns x h) [
      | inl same ↦ subst (IsIn v) same (s.before n (in_here n visited))
      | inr later ↦ s.whole x later
    ];
    distinct = s.distinct;
  }

  scan_neighbors-IsScan :
      (Near : String → Type 0) (ns visited next : List String)
      → AreDistinct visited
      → ((x : String) → IsIn ns x → Near x)
      → IsScan Near (IsIn ns) visited next (scan_neighbors neighbors fraud_users ns visited next)
  unfolding scan_neighbors
  scan_neighbors-IsScan Near [] visited next distinct near = record {
    before = λ x h. h;
    next_before = λ x h. h;
    split = λ x h. inl h;
    fresh = λ x h. inl h;
    clean = λ x h. inl h;
    whole = λ x h. absurd (true≢false (sym h));
    distinct = distinct;
  }
  scan_neighbors-IsScan Near (n ∷ ns) visited next distinct near =
      let close = near n (in_here n ns) in
      let rest : (x : String) → IsIn ns x → Near x = λ x h. near x (in_there n ns x h) in
      elim (Bool-cases (is_member visited n)) [
        | inl known ↦ rw known (
            skip-IsScan Near n ns visited next _ known
              (scan_neighbors-IsScan Near ns visited next distinct rest))
        | inr new ↦ elim (Bool-cases (is_member fraud_users n)) [
          | inl fraud ↦ rw (new, fraud) (n, fraud, close)
          | inr honest ↦ elim (Bool-cases (leb fraud_path_max_visited (length (n ∷ visited)))) [
            | inl many ↦
                rw (new, honest, many)
                  (
                    leb→le _ _ many,
                    (new, distinct),
                    λ x h. elim (in_cons n visited x h) [
                      | inl same ↦ inr (subst Near same close)
                      | inr old ↦ inl old
                    ],
                  )
            | inr few ↦
                rw (new, honest, few)
                  (push-IsScan Near n ns visited next _ honest close (
                    scan_neighbors-IsScan Near ns (n ∷ visited) (next ++ n ∷ []) (new, distinct)
                      rest))
          ]
        ]
      ]

  -- One scan after another.
  scan_on-IsScan :
      (Near First Second Due : String → Type 0) (visited next visited' next' : List String)
      (scan : Scan)
      → ((x : String) → Due x → First x ⊎ Second x)
      → Sweep Near First visited next visited' next'
      → IsScan Near Second visited' next' scan
      → IsScan Near Due visited next scan
  scan_on-IsScan Near First Second Due visited next visited' next' hit either s r = r
  scan_on-IsScan Near First Second Due visited next visited' next' (capped v) either s
        (many, distinct, r) =
      (
        many,
        distinct,
        λ x h. elim (r x h) [
          | inl earlier ↦ elim (s.clean x earlier) [
            | inl old ↦ inl old
            | inr (honest, close) ↦ inr close
          ]
          | inr close ↦ inr close
        ],
      )
  scan_on-IsScan Near First Second Due visited next visited' next' (swept v m) either s r = record {
    before = λ x h. r.before x (s.before x h);
    next_before = λ x h. r.next_before x (s.next_before x h);
    split = λ x h. elim (r.split x h) [
      | inl earlier ↦ elim (s.split x earlier) [
        | inl old ↦ inl old
        | inr new ↦ inr (r.next_before x new)
      ]
      | inr new ↦ inr new
    ];
    fresh = λ x h. elim (r.fresh x h) [ inl earlier ↦ s.fresh x earlier | inr close ↦ inr close ];
    clean = λ x h. elim (r.clean x h) [ inl earlier ↦ s.clean x earlier | inr close ↦ inr close ];
    whole = λ x h. elim (either x h) [
      | inl first ↦ r.before x (s.whole x first)
      | inr second ↦ r.whole x second
    ];
    distinct = r.distinct;
  }

  -- A neighbour of one of the frontier.
  abbrev pub Beside : List String → String → Type 0
  Beside ws y = (w : String) × IsIn ws w × IsIn (neighbors w) y

  split-Beside :
      (w : String) (ws : List String) (y : String)
      → Beside (w ∷ ws) y
      → IsIn (neighbors w) y ⊎ Beside ws y
  split-Beside w ws y (v, h, beside) = elim (in_cons w ws v h) [
    | inl same ↦ inl (subst (λ u. IsIn (neighbors u) y) (sym same) beside)
    | inr later ↦ inr (v, later, beside)
  ]

  -- The rest of the frontier, from where the first of it left the scan.
  rest-IsScan :
      (Near : String → Type 0) (w : String) (ws visited next : List String) (scan : Scan)
      → ((v m : List String)
          → AreDistinct v
          → IsScan Near (Beside ws) v m (scan_frontier neighbors fraud_users ws v m))
      → IsScan Near (IsIn (neighbors w)) visited next scan
      → IsScan Near
          (Beside (w ∷ ws))
          visited
          next
          (scan_on neighbors fraud_users (scan_frontier neighbors fraud_users ws) scan)
  rest-IsScan Near w ws visited next hit rest s = s
  rest-IsScan Near w ws visited next (capped v) rest s = s
  rest-IsScan Near w ws visited next (swept v m) rest s =
      scan_on-IsScan Near (IsIn (neighbors w)) (Beside ws) (Beside (w ∷ ws)) visited next v m _
        (split-Beside w ws) s (rest v m s.distinct)

  pub scan_frontier-IsScan :
      (Near : String → Type 0) (ws visited next : List String)
      → AreDistinct visited
      → ((y : String) → Beside ws y → Near y)
      → IsScan Near (Beside ws) visited next (scan_frontier neighbors fraud_users ws visited next)
  unfolding scan_frontier
  scan_frontier-IsScan Near [] visited next distinct near = record {
    before = λ x h. h;
    next_before = λ x h. h;
    split = λ x h. inl h;
    fresh = λ x h. inl h;
    clean = λ x h. inl h;
    whole = λ x (w, h, beside). absurd (true≢false (sym h));
    distinct = distinct;
  }
  scan_frontier-IsScan Near (w ∷ ws) visited next distinct near =
      rest-IsScan Near w ws visited next _
        (λ v m d.
          scan_frontier-IsScan Near ws v m d
            (λ y (u, h, beside). near y (u, in_there w ws u h, beside)))
        (scan_neighbors-IsScan Near (neighbors w) visited next distinct
          (λ y h. near y (w, in_here w ws, h)))
