-- ===== src/Redis.antt =====
-- What the services use of Redis, a parameter of the models that use it: its strings, which expire,
-- and its sorted sets. The laws are the documented behaviour of the commands; a time is the time of
-- the server, and a command takes effect at once.
pub mod Store
use ojuri.Prelude.{
  ℕ, ◌+◌, ◌≤◌, String, ◌≡◌, Bool, true, false, not, Option, none, some, List, [], ◌∷◌, ltb, leb,
  filter, any, length, take, str_eq, if◌then◌else◌,
}
use ojuri.Prelude.Assoc
use ojuri.Prelude.Assoc.{IsDistinct}

-- `entry` is the value of a key with the time at which it expires; `members` are the members of a
-- sorted set with their scores, in ascending order of the scores.
pub record Redis : Type 1 where
  pub State : Type 0
  pub entry : String → State → Option (String × ℕ)
  -- `SET key value PX ttl NX`, and whether it answers OK
  pub set_nx : ℕ → String → String → ℕ → State → State × Bool
  -- `SET key value PX ttl`
  pub set_px : ℕ → String → String → ℕ → State → State
  pub pexpire : ℕ → String → ℕ → State → State × ℕ
  pub del : String → State → State
  pub members : String → State → List (String × ℕ)
  -- `ZADD set score member`, `ZREM set members` and `ZREMRANGEBYSCORE set 0 max`
  pub zadd : String → ℕ → String → State → State
  pub zrem : String → List String → State → State
  pub zremrangebyscore : String → ℕ → State → State
  -- `EXPIRE set`
  pub expire : ℕ → String → ℕ → State → State

-- What `GET` answers at a time: an expired key is absent.
abbrev pub live : ℕ → Option (String × ℕ) → Option String
live now none = none
live now (some (v, expiry)) = if ltb now expiry then some v else none

-- `redis.call("get", KEYS[1]) == ARGV[1]`
abbrev pub is_value : Option String → String → Bool
is_value none id = false
is_value (some v) id = str_eq v id

-- Whether a command reached the server, and its reply the client.
pub data Delivery : Type 0 where
  answered reply_lost unreachable : Delivery

abbrev pub is_member : List String → String → Bool
is_member names name = any (λ n. str_eq n name) names

module _ (redis : Redis) where
  open redis use {
    State, entry, set_nx, set_px, pexpire, del, members, zadd, zrem, zremrangebyscore, expire,
  }

  pub record IsRedis : Type 0 where
    pub set_nx_free :
        (now : ℕ) (k v : String) (ttl : ℕ) (s : State)
        → live now (entry k s) ≡ none
        → (entry k (set_nx now k v ttl s).0 ≡ some (v, now + ttl))
          × ((set_nx now k v ttl s).1 ≡ true)
    pub set_nx_taken :
        (now : ℕ) (k v w : String) (ttl : ℕ) (s : State)
        → live now (entry k s) ≡ some w
        → (entry k (set_nx now k v ttl s).0 ≡ entry k s) × ((set_nx now k v ttl s).1 ≡ false)
    pub set_nx_other :
        (now : ℕ) (k v j : String) (ttl : ℕ) (s : State)
        → str_eq k j ≡ false
        → entry j (set_nx now k v ttl s).0 ≡ entry j s
    pub set_px_same :
        (now : ℕ) (k v : String) (ttl : ℕ) (s : State)
        → entry k (set_px now k v ttl s) ≡ some (v, now + ttl)
    pub set_px_other :
        (now : ℕ) (k v j : String) (ttl : ℕ) (s : State)
        → str_eq k j ≡ false
        → entry j (set_px now k v ttl s) ≡ entry j s
    pub pexpire_live :
        (now : ℕ) (k v : String) (ttl : ℕ) (s : State)
        → live now (entry k s) ≡ some v
        → (entry k (pexpire now k ttl s).0 ≡ some (v, now + ttl)) × ((pexpire now k ttl s).1 ≡ 1)
    pub del_absent : (k : String) (s : State) → entry k (del k s) ≡ none
    pub del_other : (k j : String) (s : State) → str_eq k j ≡ false → entry j (del k s) ≡ entry j s

  -- Sorted sets hold a member once, and their commands leave the strings alone.
  pub record HasSortedSets : Type 0 where
    pub distinct : (set : String) (s : State) → IsDistinct (members set s)
    pub zadd_entry :
        (set member k : String) (score : ℕ) (s : State)
        → entry k (zadd set score member s) ≡ entry k s
    pub zrem_entry :
        (set k : String) (names : List String) (s : State) → entry k (zrem set names s) ≡ entry k s
    pub zremrangebyscore_entry :
        (set k : String) (top : ℕ) (s : State) → entry k (zremrangebyscore set top s) ≡ entry k s
    pub zrem_members :
        (set : String) (names : List String) (s : State)
        → members set (zrem set names s) ≡ filter (λ m. not (is_member names m.0)) (members set s)
    pub zremrangebyscore_members :
        (set : String) (top : ℕ) (s : State)
        → members set (zremrangebyscore set top s) ≡ filter (λ m. ltb top m.1) (members set s)
    pub expire_entry :
        (now : ℕ) (set k : String) (ttl : ℕ) (s : State)
        → entry k (expire now set ttl s) ≡ entry k s
    pub expire_members :
        (now : ℕ) (set other : String) (ttl : ℕ) (s : State)
        → members other (expire now set ttl s) ≡ members other s
    -- A new member adds one to the size at most.
    pub zadd_size :
        (set member : String) (score : ℕ) (s : State)
        → length (members set (zadd set score member s)) ≤ length (members set s) + 1
    pub set_px_members :
        (now : ℕ) (k v set : String) (ttl : ℕ) (s : State)
        → members set (set_px now k v ttl s) ≡ members set s
    pub del_members : (k set : String) (s : State) → members set (del k s) ≡ members set s
