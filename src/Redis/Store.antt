-- ===== src/Redis/Store.antt =====
-- A store with the behaviour that the laws state: two tables, one of strings and one of sorted sets.
use ojuri.Prelude.{
  ℕ, suc, ◌+◌, ◌≤◌, String, ◌≡◌, refl, Bool, true, false, not, Option, none, some, List, [], ◌∷◌,
  ltb, leb, filter, length, length-filter, str_eq, str_eq_refl, eq_iff, if◌then◌else◌, arith,
  Bool-cases, inl, inr,
}
use ojuri.Prelude.Assoc
use ojuri.Prelude.Assoc.{Assoc, IsDistinct}
use ojuri.Redis.{Redis, IsRedis, HasSortedSets, live, is_member}

pub record Tables : Type 0 where
  pub strings : String → Option (String × ℕ)
  pub sets : String → (ms : Assoc ℕ) × IsDistinct ms

abbrev pub put_entry : String → Option (String × ℕ) → Tables → Tables
put_entry k e s = record s { strings = λ j. if str_eq k j then e else s.strings j }

abbrev pub set_if_free : String → Option (String × ℕ) → Tables → Option String → Tables × Bool
set_if_free k e s none = (put_entry k e s, true)
set_if_free k e s (some v) = (s, false)

abbrev pub extended : String → ℕ → Tables → Option String → Tables × ℕ
extended k expiry s none = (s, 0)
extended k expiry s (some v) = (put_entry k (some (v, expiry)) s, 1)

abbrev pub put_set : String → ((ms : Assoc ℕ) × IsDistinct ms) → Tables → Tables
put_set k e s = record s { sets = λ j. if str_eq k j then e else s.sets j }

filter_absent :
    (p : String × ℕ → Bool) (ms : Assoc ℕ) (k : String)
    → Assoc.get ms k ≡ none
    → Assoc.get (filter p ms) k ≡ none
unfolding ojuri.Prelude.Assoc.get
filter_absent p [] k h = refl
filter_absent p (m ∷ ms) k h = ground (arith, filter_absent p ms k)

pub filter-IsDistinct :
    (p : String × ℕ → Bool) (ms : Assoc ℕ) → IsDistinct ms → IsDistinct (filter p ms)
filter-IsDistinct p [] d = tt
filter-IsDistinct p (m ∷ ms) (absent, d) = elim (Bool-cases (p m)) [
  | inl kept ↦ rw kept (filter_absent p ms m.0 absent, filter-IsDistinct p ms d)
  | inr left ↦ rw left (filter-IsDistinct p ms d)
]

abbrev filtered :
    (String × ℕ → Bool) → ((ms : Assoc ℕ) × IsDistinct ms) → (ms : Assoc ℕ) × IsDistinct ms
filtered p (ms, d) = (filter p ms, filter-IsDistinct p ms d)

length-set : (ms : Assoc ℕ) (k : String) (v : ℕ) → length (Assoc.set ms k v) ≤ length ms + 1
unfolding ojuri.Prelude.Assoc.set
length-set [] k v = omega arith
length-set (m ∷ ms) k v = ground (arith, length-set ms k v)

-- The members stand in the order of insertion, which the laws leave open.
abbrev pub tables : Redis
tables = record {
  State = Tables;
  entry = λ k s. s.strings k;
  set_nx = λ now k v ttl s. set_if_free k (some (v, now + ttl)) s (live now (s.strings k));
  set_px = λ now k v ttl s. put_entry k (some (v, now + ttl)) s;
  pexpire = λ now k ttl s. extended k (now + ttl) s (live now (s.strings k));
  del = λ k s. put_entry k none s;
  members = λ set s. (s.sets set).0;
  zadd = λ set score member s.
      put_set set
        (
          Assoc.set (s.sets set).0 member score,
          Assoc.set-IsDistinct (s.sets set).0 member score (s.sets set).1,
        )
        s;
  zrem = λ set names s. put_set set (filtered (λ m. not (is_member names m.0)) (s.sets set)) s;
  zremrangebyscore = λ set top s. put_set set (filtered (λ m. ltb top m.1) (s.sets set)) s;
  expire = λ now set ttl s. s;
}

set_other :
    (k j : String) (e : Option (String × ℕ)) (s : Tables) (o : Option String)
    → str_eq k j ≡ false
    → (set_if_free k e s o).0.strings j ≡ s.strings j
set_other k j e s none h = rw h refl
set_other k j e s (some v) h = refl

pub tables-IsRedis : IsRedis tables
tables-IsRedis = record {
  set_nx_free = λ now k v ttl s free. rw (free, str_eq_refl k) (refl, refl);
  set_nx_taken = λ now k v w ttl s taken. rw taken (refl, refl);
  set_nx_other =
      λ now k v j ttl s other. set_other k j (some (v, now + ttl)) s (live now (s.strings k)) other;
  set_px_same = λ now k v ttl s. rw (str_eq_refl k) refl;
  set_px_other = λ now k v j ttl s other. rw other refl;
  pexpire_live = λ now k v ttl s held. rw (held, str_eq_refl k) (refl, refl);
  del_absent = λ k s. rw (str_eq_refl k) refl;
  del_other = λ k j s other. rw other refl;
}

pub tables-HasSortedSets : HasSortedSets tables
tables-HasSortedSets = record {
  distinct = λ set s. (s.sets set).1;
  zadd_entry = λ set member k score s. refl;
  zrem_entry = λ set k names s. refl;
  zremrangebyscore_entry = λ set k top s. refl;
  expire_entry = λ now set k ttl s. refl;
  expire_members = λ now set other ttl s. refl;
  zrem_members = λ set names s. rw (str_eq_refl set) refl;
  zremrangebyscore_members = λ set top s. rw (str_eq_refl set) refl;
  zadd_size = λ set member score s. rw (str_eq_refl set) (length-set (s.sets set).0 member score);
  set_px_members = λ now k v set ttl s. refl;
  del_members = λ k set s. refl;
}
