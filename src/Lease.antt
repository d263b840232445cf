-- ===== src/Lease.antt =====
-- paa-service/src/services/leader-lease.service.ts: the lease that lets one instance consume. Redis
-- is a parameter. Times are milliseconds of one clock. `acquire` and `renew` are cut in two at the
-- `await` of their command: up to the command, which takes effect at its time, and from its reply
-- on, which is handled at a later time, or is lost. The renewal timer is not modelled: renewals are
-- steps.
pub mod Exclusive
pub mod Kept
pub mod Cluster
mod Tests
use ojuri.Prelude.{
  ℕ, ◌+◌, ◌<◌, String, ◌≡◌, Bool, true, false, Option, none, some, ltb, leb, ◌==◌, str_eq,
  if◌then◌else◌,
}
use ojuri.Redis.{Redis, live, Delivery, answered, reply_lost, unreachable, is_value}

abbrev pub lease_key : String
lease_key = "ojuri:paa:leader"

-- What an instance awaits: the reply to the command that took effect at a time; `none` is an error.
pub data Waiting : Type 0 where
  idle : Waiting
  for_set : ℕ → Option Bool → Waiting
  for_renewal : ℕ → Option ℕ → Waiting

-- `lost` counts the calls of `onLost`.
pub record LeaderLease : Type 0 where
  pub id : String
  pub held : Bool
  pub last_renew_ok_at : ℕ
  pub lost : ℕ

abbrev pub surrendered : Bool → LeaderLease → LeaderLease
surrendered true l = record l { held = false; lost = l.lost + 1 }
surrendered false l = l

unfoldable pub surrender : LeaderLease → LeaderLease
surrender l = surrendered l.held l

module _ (redis : Redis) (ttl : ℕ) where
  open redis use {State}

  -- `acquire` up to the reply to `SET`
  unfoldable pub acquire : ℕ → Delivery → State → LeaderLease → State × Waiting
  acquire now answered s l =
      let reply = redis.set_nx now lease_key l.id ttl s in (reply.0, for_set now (some reply.1))
  acquire now reply_lost s l = ((redis.set_nx now lease_key l.id ttl s).0, for_set now none)
  acquire now unreachable s l = (s, for_set now none)

  -- The rest of `acquire`, when the reply is handled.
  unfoldable pub after_set : ℕ → Option Bool → LeaderLease → LeaderLease
  after_set replied (some true) l = record l { held = true; last_renew_ok_at = replied }
  after_set replied (some false) l = record l { held = false }
  after_set replied none l = record l { held = false }

  -- The script of `renew`.
  unfoldable pub renew_script : ℕ → String → State → State × ℕ
  renew_script now id s =
      if is_value (live now (redis.entry lease_key s)) id
      then redis.pexpire now lease_key ttl s
      else (s, 0)

  -- `renew` of an instance that holds the lease, up to the reply to the script.
  unfoldable pub renew_held : ℕ → Delivery → State → LeaderLease → State × Waiting
  unfolding renew_script
  renew_held now answered s l =
      let reply = renew_script now l.id s in (reply.0, for_renewal now (some reply.1))
  renew_held now reply_lost s l = ((renew_script now l.id s).0, for_renewal now none)
  renew_held now unreachable s l = (s, for_renewal now none)

  unfoldable pub renew : ℕ → Delivery → State → LeaderLease → State × Waiting
  unfolding renew_held
  renew now d s l = if l.held then renew_held now d s l else (s, idle)

  -- The renewal threw: fence on the time since the last one that succeeded.
  unfoldable pub after_failure : ℕ → LeaderLease → LeaderLease
  unfolding surrender
  after_failure replied l = if leb (l.last_renew_ok_at + ttl) replied then surrender l else l

  -- The rest of `renew`.
  unfoldable pub after_renewal : ℕ → Option ℕ → LeaderLease → LeaderLease
  unfolding surrender after_failure
  after_renewal replied none l = after_failure replied l
  after_renewal replied (some renewed) l =
      if renewed == 1 then record l { last_renew_ok_at = replied } else surrender l

  -- What follows the `await`.
  unfoldable pub resume : ℕ → Waiting → LeaderLease → LeaderLease
  unfolding after_set after_renewal
  resume replied idle l = l
  resume replied (for_set sent reply) l = after_set replied reply l
  resume replied (for_renewal sent reply) l = after_renewal replied reply l

  -- The script of `release`.
  unfoldable pub release_script : ℕ → String → State → State
  release_script now id s =
      if is_value (live now (redis.entry lease_key s)) id then redis.del lease_key s else s

  -- `release` of an instance that holds the lease: it gives it up before the command.
  unfoldable pub release_held : ℕ → Delivery → State → LeaderLease → State × LeaderLease
  unfolding release_script
  release_held now unreachable s l = (s, record l { held = false })
  release_held now _ s l = (release_script now l.id s, record l { held = false })

  unfoldable pub release : ℕ → Delivery → State → LeaderLease → State × LeaderLease
  unfolding release_held
  release now d s l = if l.held then release_held now d s l else (s, l)
