-- ===== src/Audit/Queue/Retry.antt =====
-- What a failed flush leaves, and what `stop` achieves.
use native.Mathlib.Nat.{div-add-mod', mod-lt}
use ojuri.Prelude.{
  drop_of_empty, ==_iff, ℕ, zero, suc, ◌+◌, ◌-◌, ◌*◌, ◌≤◌, ◌<◌, String, ◌≡◌, refl, ap, ◌∙◌, sym,
  true, false, Option, ◌++◌, arith, length, drop, take, drop-append, length-append, length-drop,
  take-append-drop, Bool-cases, inl, inr, ◌==◌,
}
use ojuri.Audit.Queue.{
  AuditWriteQueue, AuditWriteQueueOptions, Answer, failed, inserted, is_transient, flush_begin,
  flush_end, flush, requeue, stop, stop_loop, ceil_div,
}

module _ {Num Json : Type 0} (opts : AuditWriteQueueOptions) where
  -- After a transient failure the buffer is the batch in front of what arrived meanwhile; where
  -- that exceeds the capacity, exactly the excess is cut, off the oldest rows.
  pub flush_end_transient :
      (q : AuditWriteQueue Num Json) (code : Option String)
      → length q.buffer ≤ opts.capacity
      → is_transient code ≡ true
      → (flush_end opts (failed code) q).buffer
        ≡ drop (length (q.batch ++ q.buffer) - opts.capacity) (q.batch ++ q.buffer)
  unfolding flush_end requeue
  flush_end_transient q code fits again =
      let excess : ℕ = length q.batch - (opts.capacity - length q.buffer) in
      let same : length (q.batch ++ q.buffer) - opts.capacity ≡ excess =
        omega (arith, length-append q.batch q.buffer) in
      rw (again, same, drop-append excess q.batch q.buffer (omega arith)) refl

  abbrev taken : AuditWriteQueue Num Json → AuditWriteQueue Num Json
  taken q = record q {
    flushing = true;
    batch = take opts.batch_size q.buffer;
    buffer = drop opts.batch_size q.buffer;
  }

  flush_busy :
      (q : AuditWriteQueue Num Json) (answer : Answer)
      → q.flushing ≡ false
      → (length q.buffer == 0) ≡ false
      → flush opts answer q ≡ flush_end opts answer (taken q)
  unfolding flush flush_begin
  flush_busy q answer idle some_rows = rw (idle, some_rows) refl

  flush_empty :
      (q : AuditWriteQueue Num Json) (answer : Answer)
      → (length q.buffer == 0) ≡ true
      → flush opts answer q ≡ q
  unfolding flush flush_begin
  flush_empty q answer no_rows = rw no_rows (ground arith)

  flush_waiting :
      (q : AuditWriteQueue Num Json) (answer : Answer) → q.flushing ≡ true → flush opts answer q ≡ q
  unfolding flush flush_begin
  flush_waiting q answer waiting = rw waiting refl

  -- A whole flush that fails transiently leaves the buffer as it was.
  pub flush_transient :
      (q : AuditWriteQueue Num Json) (code : Option String)
      → length q.buffer ≤ opts.capacity
      → is_transient code ≡ true
      → (flush opts (failed code) q).buffer ≡ q.buffer
  flush_transient q code fits again = elim (Bool-cases q.flushing) [
    | inl waiting ↦ rw (flush_waiting q (failed code) waiting) refl
    | inr idle ↦ elim (Bool-cases (length q.buffer == 0)) [
      | inl no_rows ↦ rw (flush_empty q (failed code) no_rows) refl
      | inr rows ↦
          let whole : take opts.batch_size q.buffer ++ drop opts.batch_size q.buffer ≡ q.buffer =
            take-append-drop opts.batch_size q.buffer in
          let none_cut : length q.buffer - opts.capacity ≡ 0 = omega arith in
          rw (flush_busy q (failed code) idle rows) (
            rw
              (flush_end_transient (taken q) code
                (omega (arith, length-drop opts.batch_size q.buffer)) again)
              (rw (whole, none_cut) refl))
    ]
  ]

  -- A whole flush that Postgres accepts takes one batch off an idle queue.
  pub flush_inserted :
      (q : AuditWriteQueue Num Json) (n : ℕ)
      → q.flushing ≡ false
      → ((flush opts (inserted n) q).buffer ≡ drop opts.batch_size q.buffer)
        × ((flush opts (inserted n) q).flushing ≡ false)
  unfolding flush_end
  flush_inserted q n idle = elim (Bool-cases (length q.buffer == 0)) [
    | inl no_rows ↦
        rw (flush_empty q (inserted n) no_rows)
          (sym (drop_of_empty opts.batch_size q.buffer ((==_iff _ _).0 no_rows)), idle)
    | inr rows ↦ rw (flush_busy q (inserted n) idle rows) (refl, refl)
  ]

abbrev IsInserted : Answer → Type 0
IsInserted (inserted n) = Unit
IsInserted (failed code) = ⊥

abbrev IsTransient : Answer → Type 0
IsTransient (inserted n) = ⊥
IsTransient (failed code) = is_transient code ≡ true

ceil_enough : (n d : ℕ) → 0 < d → n ≤ ceil_div n d * d
ceil_enough n d pos = omega (arith, div-add-mod' (n + d - 1) d, mod-lt (n + d - 1) pos)

module _ {Num Json : Type 0} (opts : AuditWriteQueueOptions) where
  flush-IsInserted :
      (q : AuditWriteQueue Num Json) (answer : Answer)
      → IsInserted answer
      → q.flushing ≡ false
      → ((flush opts answer q).buffer ≡ drop opts.batch_size q.buffer)
        × ((flush opts answer q).flushing ≡ false)
  flush-IsInserted q (inserted n) h idle = flush_inserted opts q n idle
  flush-IsInserted q (failed code) h idle = absurd h

  flush-IsTransient :
      (q : AuditWriteQueue Num Json) (answer : Answer)
      → IsTransient answer
      → length q.buffer ≤ opts.capacity
      → (flush opts answer q).buffer ≡ q.buffer
  flush-IsTransient q (inserted n) h fits = absurd h
  flush-IsTransient q (failed code) h fits = flush_transient opts q code fits h

  module _ (answers : ℕ → Answer) where
    stop_loop_drains :
        0 < opts.batch_size
        → ((i : ℕ) → IsInserted (answers i))
        → (rounds : ℕ) (q : AuditWriteQueue Num Json) → q.flushing ≡ false
        → length q.buffer ≤ rounds * opts.batch_size
        → length (stop_loop opts answers rounds q).buffer ≡ 0
    unfolding stop_loop
    stop_loop_drains pos ok zero q idle few = omega arith
    stop_loop_drains pos ok (suc i) q idle few =
        let (cut, idle') = flush-IsInserted q (answers i) (ok i) idle in
        let less : length (flush opts (answers i) q).buffer ≡ length q.buffer - opts.batch_size =
          ap length cut ∙ length-drop opts.batch_size q.buffer in
        let few' : length q.buffer - opts.batch_size ≤ i * opts.batch_size = omega arith in
        let later = stop_loop_drains pos ok i (flush opts (answers i) q) idle' (omega arith) in
        ground (arith, later, less, pos)

    -- With Postgres accepting every batch, `stop` leaves nothing in the buffer of an idle queue.
    pub stop_drains :
        0 < opts.batch_size
        → ((i : ℕ) → IsInserted (answers i))
        → (q : AuditWriteQueue Num Json) → q.flushing ≡ false
        → length (stop opts answers q).buffer ≡ 0
    unfolding stop
    stop_drains pos ok q idle =
        stop_loop_drains pos ok (ceil_div (length q.buffer) opts.batch_size + 3) q idle
          (omega (arith, ceil_enough (length q.buffer) opts.batch_size pos))

    stop_loop_keeps :
        ((i : ℕ) → IsTransient (answers i))
        → (rounds : ℕ) (q : AuditWriteQueue Num Json) → length q.buffer ≤ opts.capacity
        → (stop_loop opts answers rounds q).buffer ≡ q.buffer
    unfolding stop_loop
    stop_loop_keeps ok zero q fits = refl
    stop_loop_keeps ok (suc i) q fits =
        let same = flush-IsTransient q (answers i) (ok i) fits in
        ground (arith, same, ap length same)

    -- With Postgres out of reach `stop` ends and keeps every row.
    pub stop_keeps :
        ((i : ℕ) → IsTransient (answers i))
        → (q : AuditWriteQueue Num Json) → length q.buffer ≤ opts.capacity
        → (stop opts answers q).buffer ≡ q.buffer
    unfolding stop
    stop_keeps ok q fits =
        stop_loop_keeps ok (ceil_div (length q.buffer) opts.batch_size + 3) q fits
