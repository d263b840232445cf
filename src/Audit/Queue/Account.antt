-- ===== src/Audit/Queue/Account.antt =====
-- Every row that was accepted is accounted for, whatever the interleaving.
use ojuri.Prelude.{
  ap, ℕ, ◌+◌, ◌-◌, ◌≤◌, String, ◌≡◌, true, false, [], ◌∷◌, arith, length, drop, length-append,
  length-drop, length-take, if◌then◌else◌,
}
use ojuri.Audit.Record.{QueuedAuditRecord, AuditEnrichmentFields}
use ojuri.Audit.Queue.{
  AuditWriteQueue, AuditWriteQueueOptions, Failures, Answer, failed, inserted, enqueue, patch,
  flush_begin, flush_end, requeue,
}
use ojuri.Audit.Queue.Bounds.{
  IsValid, enqueue-IsValid, patch-IsValid, flush_begin-IsValid, flush_end-IsValid, length-patch,
  patch-batch, patch-failures,
}

-- The queue with what its environment has seen: the rows that `enqueue` took, and those that
-- Postgres reported as inserted.
pub record History (Num Json : Type 0) : Type 0 where
  pub queue : AuditWriteQueue Num Json
  pub accepted : ℕ
  pub stored : ℕ

abbrev pub empty : {Num Json : Type 0} → History Num Json
empty = record {
  queue = record {
    buffer = [];
    flushing = false;
    batch = [];
    consecutive_failures = 0;
    failures = record { backpressure = 0; duplicate = 0; flush_error = 0; dropped = 0 };
  };
  accepted = 0;
  stored = 0;
}

-- The rows that an answer reports as inserted.
abbrev pub stored_by : Answer → ℕ
stored_by (inserted rows) = rows
stored_by (failed code) = 0

module _ {Num Json : Type 0} (opts : AuditWriteQueueOptions) where
  -- One thing that happens to the queue. Postgres reports no more rows than it was sent.
  pub data Step (h : History Num Json) : History Num Json → Type 0 where
    enqueued :
        (rec : QueuedAuditRecord Num Json)
        → Step h (record h {
          queue = (enqueue opts rec h.queue).0;
          accepted = if (enqueue opts rec h.queue).1 then h.accepted + 1 else h.accepted;
        })
    patched :
        (id : String) (fields : AuditEnrichmentFields Num Json)
        → Step h (record h { queue = (patch id fields h.queue).0 })
    began : Step h (record h { queue = (flush_begin opts h.queue).0 })
    ended :
        (answer : Answer)
        → h.queue.flushing ≡ true
        → stored_by answer ≤ length h.queue.batch
        → Step h (record h {
          queue = flush_end opts answer h.queue;
          stored = h.stored + stored_by answer;
        })

  pub data Run : History Num Json → Type 0 where
    start : Run empty
    next : {g h : History Num Json} → Run g → Step g h → Run h

  -- Accepted rows are stored, counted as duplicates, counted as dropped, in the batch of the
  -- flush that waits, or in the buffer.
  pub record IsAccounted (h : History Num Json) : Type 0 where
    pub valid : IsValid opts h.queue
    pub sum :
        h.accepted
        ≡ h.stored
          + h.queue.failures.duplicate
          + h.queue.failures.dropped
          + length h.queue.batch
          + length h.queue.buffer

  Step-IsAccounted : {g h : History Num Json} → Step g h → IsAccounted g → IsAccounted h
  Step-IsAccounted {g} (enqueued rec) a = record {
    valid = enqueue-IsValid opts g.queue a.valid rec;
    sum = unfold enqueue in ground (arith, a.sum, length-append g.queue.buffer (rec ∷ []));
  }
  Step-IsAccounted {g} (patched id fields) a = record {
    valid = patch-IsValid opts g.queue a.valid id fields;
    sum = omega (
      arith,
      a.sum,
      length-patch id fields g.queue,
      ap length (patch-batch id fields g.queue),
      ap (λ (f : Failures). f.duplicate) (patch-failures id fields g.queue),
      ap (λ (f : Failures). f.dropped) (patch-failures id fields g.queue),
    );
  }
  Step-IsAccounted {g} began a = record {
    valid = flush_begin-IsValid opts g.queue a.valid;
    sum =
        unfold flush_begin in
        ground (
          arith,
          a.sum,
          a.valid.idle,
          length-drop opts.batch_size g.queue.buffer,
          length-take opts.batch_size g.queue.buffer,
        );
  }
  Step-IsAccounted {g} (ended (inserted rows) busy few) a = record {
    valid = flush_end-IsValid opts g.queue a.valid (inserted rows);
    sum = unfold flush_end requeue in ground (arith, a.sum);
  }
  Step-IsAccounted {g} (ended (failed code) busy few) a = record {
    valid = flush_end-IsValid opts g.queue a.valid (failed code);
    sum =
        let room = opts.capacity - length g.queue.buffer in
        unfold flush_end requeue in
        ground (
          arith,
          a.sum,
          length-drop (length g.queue.batch - room) g.queue.batch,
          length-append (drop (length g.queue.batch - room) g.queue.batch) g.queue.buffer,
        );
  }

  -- However enqueues, patches and flushes interleave, from an empty queue on: the buffer never
  -- exceeds its capacity, and each accepted row is stored, counted as a duplicate, counted as
  -- dropped, in flight or still buffered.
  pub Run-IsAccounted : {h : History Num Json} → Run h → IsAccounted h
  Run-IsAccounted start = record {
    valid = record { fits = omega arith; idle = λ _. omega arith };
    sum = omega arith;
  }
  Run-IsAccounted (next r s) = Step-IsAccounted s (Run-IsAccounted r)
