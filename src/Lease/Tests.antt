-- ===== src/Lease/Tests.antt =====
-- A run of two instances over a small store.
use ojuri.Prelude.{String, ◌≡◌, refl, false, none, [], arith}
use ojuri.Redis.Store.{tables, tables-IsRedis, Tables}
use ojuri.Redis.{answered}
use ojuri.Lease.{idle, acquire, resume}
use ojuri.Lease.Exclusive.{IsLeading}
use ojuri.Lease.Cluster.{
  Cluster, acquired, passed, resumed, Run, start, next, put, sent, Run-exclusive,
}

abbrev no_keys : Tables
no_keys = record { strings = λ k. none; sets = λ k. ([], tt) }

abbrev at_start : Cluster Tables
at_start = record {
  now = 100;
  store = no_keys;
  peers = λ id. record {
    lease = record { id = id; held = false; last_renew_ok_at = 0; lost = 0 };
    waiting = idle;
  };
}

abbrev asked : Cluster Tables
asked =
    sent tables 3000 50 at_start "a"
      (acquire tables 3000 100 answered at_start.store (at_start.peers "a").lease)

-- The reply comes 20 milliseconds later.
abbrev in_flight : Cluster Tables
in_flight = record asked { now = 120 }

abbrev one_leader : Cluster Tables
one_leader = put tables 3000 50 in_flight "a" in_flight.store (record {
  lease = resume tables 3000 120 (in_flight.peers "a").waiting (in_flight.peers "a").lease;
  waiting = idle;
})

one_leader-Run : Run tables 3000 50 one_leader
unfolding acquire
one_leader-Run =
    next
      (next (next (start 100 no_keys) (acquired "a" answered refl refl)) (passed 120 (omega arith)))
      (resumed "a" (omega arith))

a-IsLeading : IsLeading 3000 50 one_leader.now (one_leader.peers "a").lease
unfolding acquire resume ojuri.Lease.after_set
a-IsLeading = (refl, omega arith)

abbrev leader : String
leader = "a"

Run-exclusive_example : leader ≡ leader
Run-exclusive_example =
    Run-exclusive tables 3000 50 tables-IsRedis one_leader-Run leader leader a-IsLeading a-IsLeading
