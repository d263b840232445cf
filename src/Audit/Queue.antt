-- ===== src/Audit/Queue.antt =====
-- src/shared/audit/audit-write-queue.ts: the in-memory buffer between the decision path and
-- Postgres. `flush` waits for the insert, so it is two steps: `flush_begin` takes the batch, and
-- `flush_end` runs when Postgres has answered; enqueues and patches happen in between.
-- The counters are those of `recordAuditWriteFailure`, one for each reason.
pub mod Bounds
pub mod Account
pub mod Retry
mod Tests
use text.Mathlib.Text.{starts_with}
use ojuri.Prelude.{
  ℕ, zero, suc, ◌+◌, ◌-◌, ◌/◌, String, Bool, true, false, ◌||◌, Option, none, some, List, [], ◌∷◌,
  ◌++◌, length, take, drop, any, leb, ◌==◌, str_eq, if◌then◌else◌,
}
use ojuri.Audit.Record.{QueuedAuditRecord, AuditEnrichmentFields, apply_patch}

pub record AuditWriteQueueOptions : Type 0 where
  pub capacity : ℕ
  pub batch_size : ℕ

pub record Failures : Type 0 where
  pub backpressure : ℕ
  pub duplicate : ℕ
  pub flush_error : ℕ
  pub dropped : ℕ

-- `batch` is the local variable of the flush that is waiting; it is empty while none is.
pub record AuditWriteQueue (Num Json : Type 0) : Type 0 where
  pub buffer : List (QueuedAuditRecord Num Json)
  pub flushing : Bool
  pub batch : List (QueuedAuditRecord Num Json)
  pub consecutive_failures : ℕ
  pub failures : Failures

-- The answer to an insert: the rows that Postgres reports as inserted, or the error's `code`.
pub data Answer : Type 0 where
  inserted : ℕ → Answer
  failed : Option String → Answer

abbrev pub transient_sqlstate_classes : List String
transient_sqlstate_classes = "08" ∷ "53" ∷ "57" ∷ "40" ∷ []

unfoldable pub is_transient : Option String → Bool
is_transient none = true
is_transient (some code) = any (λ cls. starts_with code cls) transient_sqlstate_classes

-- `Math.ceil(n / batchSize)`
abbrev pub ceil_div : ℕ → ℕ → ℕ
ceil_div n d = (n + d - 1) / d

module _ {Num Json : Type 0} where
  unfoldable pub enqueue :
      AuditWriteQueueOptions
      → QueuedAuditRecord Num Json
      → AuditWriteQueue Num Json
      → AuditWriteQueue Num Json × Bool
  enqueue opts rec q =
      if leb opts.capacity (length q.buffer)
      then (
        record q { failures = record q.failures { backpressure = q.failures.backpressure + 1 } },
        false,
      )
      else (record q { buffer = q.buffer ++ rec ∷ [] }, true)

  unfoldable pub depth : AuditWriteQueue Num Json → ℕ
  depth q = length q.buffer

  -- The first row with the id is changed in place; `none` if there is none.
  unfoldable pub patch_rows :
      String
      → AuditEnrichmentFields Num Json
      → List (QueuedAuditRecord Num Json)
      → Option (List (QueuedAuditRecord Num Json))
  patch_rows id fields [] = none
  patch_rows id fields (rec ∷ rest) =
      let later = patch_rows id fields rest in
      if str_eq rec.id id
      then some (record rec { rec = apply_patch fields rec.rec } ∷ rest)
      else elim later [ none ↦ none | some rows ↦ some (rec ∷ rows) ]

  unfoldable pub patched :
      Option (List (QueuedAuditRecord Num Json))
      → AuditWriteQueue Num Json
      → AuditWriteQueue Num Json × Bool
  patched none q = (q, false)
  patched (some rows) q = (record q { buffer = rows }, true)

  unfoldable pub patch :
      String
      → AuditEnrichmentFields Num Json
      → AuditWriteQueue Num Json
      → AuditWriteQueue Num Json × Bool
  unfolding patch_rows patched
  patch id fields q = patched (patch_rows id fields q.buffer) q

  -- `flush` up to its `await`; false where it returns at once.
  unfoldable pub flush_begin :
      AuditWriteQueueOptions → AuditWriteQueue Num Json → AuditWriteQueue Num Json × Bool
  flush_begin opts q = if q.flushing || length q.buffer == 0 then (q, false) else (
    record q {
      flushing = true;
      batch = take opts.batch_size q.buffer;
      buffer = drop opts.batch_size q.buffer;
    },
    true,
  )

  -- `Math.max(0, dropped)` is the truncated difference.
  unfoldable pub requeue :
      AuditWriteQueueOptions
      → List (QueuedAuditRecord Num Json)
      → AuditWriteQueue Num Json
      → AuditWriteQueue Num Json
  requeue opts batch q =
      let room = opts.capacity - length q.buffer in
      let dropped = length batch - room in
      record q {
        buffer = drop dropped batch ++ q.buffer;
        failures = record q.failures { dropped = q.failures.dropped + dropped };
      }

  -- `flush` from the answer on, with its `catch` and `finally`.
  unfoldable pub flush_end :
      AuditWriteQueueOptions → Answer → AuditWriteQueue Num Json → AuditWriteQueue Num Json
  flush_end opts (inserted rows) q =
      let dropped = length q.batch - rows in
      record q {
        consecutive_failures = 0;
        failures = record q.failures { duplicate = q.failures.duplicate + dropped };
        flushing = false;
        batch = [];
      }
  flush_end opts (failed code) q =
      let counted = record q {
        consecutive_failures = q.consecutive_failures + 1;
        failures = record q.failures { flush_error = q.failures.flush_error + 1 };
      } in
      let settled = if is_transient code then requeue opts q.batch counted else record counted {
        failures = record counted.failures { dropped = counted.failures.dropped + length q.batch };
      } in
      record settled { flushing = false; batch = [] }

  -- A whole `flush` with nothing else happening while it waits.
  unfoldable pub flush :
      AuditWriteQueueOptions → Answer → AuditWriteQueue Num Json → AuditWriteQueue Num Json
  flush opts answer q =
      let (started, began) = flush_begin opts q in
      if began then flush_end opts answer started else q

  -- The loop of `stop`: `i` rounds are left, and `answers` are those of Postgres.
  unfoldable pub stop_loop :
      AuditWriteQueueOptions
      → (ℕ → Answer)
      → ℕ
      → AuditWriteQueue Num Json
      → AuditWriteQueue Num Json
  stop_loop opts answers zero q = q
  stop_loop opts answers (suc i) q =
      let after = flush opts (answers i) q in
      let rest = stop_loop opts answers i after in
      if length q.buffer == 0
      then q
      else if leb (length q.buffer) (length after.buffer)
      then after
      else rest

  unfoldable pub stop :
      AuditWriteQueueOptions → (ℕ → Answer) → AuditWriteQueue Num Json → AuditWriteQueue Num Json
  unfolding stop_loop
  stop opts answers q = stop_loop opts answers (ceil_div (length q.buffer) opts.batch_size + 3) q
