-- ===== src/Graph/Path.antt =====
-- graph.service.ts, `shortestPathToFraud`: a search by breadth from a user over the neighbours of
-- graphology's graph, a parameter. `fraud_users` is the Set.
use ojuri.Prelude.{
  ℕ, zero, suc, String, Bool, true, false, List, [], ◌∷◌, ◌++◌, length, leb, if◌then◌else◌,
}
use ojuri.Redis.{is_member}

abbrev pub fraud_path_max_depth : ℕ
fraud_path_max_depth = 4

abbrev pub fraud_path_max_visited : ℕ
fraud_path_max_visited = 1000

abbrev pub fraud_path_unknown : ℕ
fraud_path_unknown = 99

-- How the loops over one frontier end: at a fraud user, at the cap on the visited, or with the
-- visited and the next frontier.
pub data Scan : Type 0 where
  hit : Scan
  capped : List String → Scan
  swept : List String → List String → Scan

module _ (neighbors : String → List String) (fraud_users : List String) where
  -- The loop over the neighbours of one node.
  unfoldable pub scan_neighbors : List String → List String → List String → Scan
  scan_neighbors [] = λ visited next. swept visited next
  scan_neighbors (n ∷ ns) =
      let rest = scan_neighbors ns in
      λ visited next.
        if is_member visited n
        then rest visited next
        else if is_member fraud_users n
        then hit
        else if leb fraud_path_max_visited (length (n ∷ visited))
        then capped (n ∷ visited)
        else rest (n ∷ visited) (next ++ n ∷ [])

  -- A `return` within a neighbour's loop leaves that of the frontier too.
  abbrev pub scan_on : (List String → List String → Scan) → Scan → Scan
  scan_on rest hit = hit
  scan_on rest (capped visited) = capped visited
  scan_on rest (swept visited next) = rest visited next

  unfoldable pub scan_frontier : List String → List String → List String → Scan
  unfolding scan_neighbors
  scan_frontier [] = λ visited next. swept visited next
  scan_frontier (w ∷ ws) =
      let rest = scan_frontier ws in
      λ visited next. scan_on rest (scan_neighbors (neighbors w) visited next)

  abbrev pub search_on : (List String → List String → ℕ) → ℕ → Scan → ℕ
  search_on deeper depth hit = depth
  search_on deeper depth (capped visited) = fraud_path_unknown
  search_on deeper depth (swept visited []) = fraud_path_unknown
  search_on deeper depth (swept visited (w ∷ next)) = deeper visited (w ∷ next)

  -- The loop over the depths, with those that are left.
  unfoldable pub search : ℕ → ℕ → List String → List String → ℕ
  unfolding scan_frontier
  search zero depth visited frontier = fraud_path_unknown
  search (suc left) depth visited frontier =
      let deeper = search left (suc depth) in
      search_on deeper depth (scan_frontier frontier visited [])

  abbrev pub is_empty : List String → Bool
  is_empty [] = true
  is_empty (x ∷ xs) = false

  unfoldable pub shortest_path_to_fraud : String → ℕ
  unfolding search
  shortest_path_to_fraud user =
      if is_empty fraud_users
      then fraud_path_unknown
      else if is_member fraud_users user
      then 0
      else search fraud_path_max_depth 1 (user ∷ []) (user ∷ [])
