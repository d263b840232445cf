-- ===== src/Audit/Queue/Bounds.antt =====
-- The buffer keeps to its capacity through every operation.
use ojuri.Prelude.{
  ◌-◌, ◌≤◌, String, ◌≡◌, ap, refl, Option, false, some, List, [], ◌∷◌, none, arith, length, drop,
  str_eq, length-append, length-drop, Option-cases, Bool-cases, inl, inr,
}
use ojuri.Audit.Record.{QueuedAuditRecord, AuditEnrichmentFields}
use ojuri.Audit.Queue.{
  AuditWriteQueue, AuditWriteQueueOptions, Answer, failed, inserted, enqueue, patch, patch_rows,
  patched, flush_begin, flush_end, requeue,
}

-- The buffer fits, and a batch is out only while a flush waits.
pub record IsValid {Num Json : Type 0} (opts : AuditWriteQueueOptions)
    (q : AuditWriteQueue Num Json) : Type 0 where
  pub fits : length q.buffer ≤ opts.capacity
  pub idle : q.flushing ≡ false → length q.batch ≡ 0

module _ {Num Json : Type 0} where
  pub length-patch_rows :
      (id : String) (fields : AuditEnrichmentFields Num Json)
      (rows out : List (QueuedAuditRecord Num Json))
      → patch_rows id fields rows ≡ some out
      → length out ≡ length rows
  unfolding patch_rows
  length-patch_rows id fields [] out h = ground arith
  length-patch_rows id fields (r ∷ rows) out h = elim (Bool-cases (str_eq r.id id)) [
    | inl same ↦ ground arith
    | inr other ↦ elim (Option-cases (patch_rows id fields rows)) [
      | inl missed ↦ ground arith
      | inr (later, found) ↦ ground (arith, length-patch_rows id fields rows later found)
    ]
  ]

  module _ (id : String) (fields : AuditEnrichmentFields Num Json)
      (q : AuditWriteQueue Num Json) where
    patched_all :
        (found : Option (List (QueuedAuditRecord Num Json)))
        → ((out : List (QueuedAuditRecord Num Json))
            → found ≡ some out
            → length out ≡ length q.buffer)
        → ((patched found q).0 ≡ record q { buffer = (patched found q).0.buffer })
          × (length (patched found q).0.buffer ≡ length q.buffer)
    unfolding patched
    patched_all none h = (refl, refl)
    patched_all (some rows) h = (refl, h rows refl)

    patch_all :
        ((patch id fields q).0 ≡ record q { buffer = (patch id fields q).0.buffer })
        × (length (patch id fields q).0.buffer ≡ length q.buffer)
    unfolding patch
    patch_all = patched_all (patch_rows id fields q.buffer) (length-patch_rows id fields q.buffer)

    pub length-patch : length (patch id fields q).0.buffer ≡ length q.buffer
    length-patch = patch_all.1

    pub patch-batch : (patch id fields q).0.batch ≡ q.batch
    patch-batch = ap (λ (p : AuditWriteQueue Num Json). p.batch) patch_all.0

    pub patch-flushing : (patch id fields q).0.flushing ≡ q.flushing
    patch-flushing = ap (λ (p : AuditWriteQueue Num Json). p.flushing) patch_all.0

    pub patch-failures : (patch id fields q).0.failures ≡ q.failures
    patch-failures = ap (λ (p : AuditWriteQueue Num Json). p.failures) patch_all.0

  module _ (opts : AuditWriteQueueOptions) (q : AuditWriteQueue Num Json) (v : IsValid opts q) where
    pub enqueue-IsValid : (rec : QueuedAuditRecord Num Json) → IsValid opts (enqueue opts rec q).0
    unfolding enqueue
    enqueue-IsValid rec = ground (arith, length-append q.buffer (rec ∷ []), v.fits, v.idle)

    pub patch-IsValid :
        (id : String) (fields : AuditEnrichmentFields Num Json) → IsValid opts (patch id fields q).0
    patch-IsValid id fields = ground (
      arith,
      v.fits,
      v.idle,
      patch-batch id fields q,
      patch-flushing id fields q,
      length-patch id fields q,
    )

    pub flush_begin-IsValid : IsValid opts (flush_begin opts q).0
    unfolding flush_begin
    flush_begin-IsValid = ground (arith, length-drop opts.batch_size q.buffer, v.fits)

    pub flush_end-IsValid : (answer : Answer) → IsValid opts (flush_end opts answer q)
    unfolding flush_end requeue
    flush_end-IsValid (inserted rows) = ground (arith, v.fits)
    flush_end-IsValid (failed code) = ground (
      arith,
      v.fits,
      length-drop (length q.batch - (opts.capacity - length q.buffer)) q.batch,
      length-append (drop (length q.batch - (opts.capacity - length q.buffer)) q.batch) q.buffer,
    )
