-- ===== src/Predict/Investigated.antt =====
-- Which decisions are sent to investigation.
use ojuri.Prelude.{
  ◌≡◌, refl, ◌∙◌, Bool, true, false, not, ◌&&◌, Option, none, some, List, [], ◌∷◌, ◌++◌, String,
  Bool-cases, inl, inr, is_some,
}
use ojuri.Audit.Queue.{AuditWriteQueue}
use ojuri.Rules.Value.{Value}
use ojuri.Predict.Types.{PredictDecisionContext, is_decline}
use ojuri.Predict.Decide.{Late}
use ojuri.Predict.Finalize.{
  AuditConfig, Answers, Finalized, Job, patch_late, publish_enrichment, publish_event,
  publish_blocked, publish_webhook, finalize, finalize_queued, finalize_sync, finalize_stream,
  after_enqueue, after_durable, after_publish, publish_blocked_event, dispatch_async_effects,
  is_fallback, late_patch, late_enrichment,
}

module _ {Num : Type 0} where
  abbrev pub investigates : List (Job Num) → Bool
  investigates [] = false
  investigates (publish_blocked ctx id ∷ jobs) = true
  investigates (patch_late id fields ∷ jobs) = investigates jobs
  investigates (publish_enrichment id fields ∷ jobs) = investigates jobs
  investigates (publish_event ctx id ∷ jobs) = investigates jobs
  investigates (publish_webhook ctx id ∷ jobs) = investigates jobs

  abbrev pub is_investigable : PredictDecisionContext Num → Bool
  is_investigable ctx = is_decline ctx.final_decision && not (is_fallback ctx.decision_source)

  skip_patch :
      (id : String) (late : Late Num) (jobs : List (Job Num))
      → investigates (late_patch id late ++ jobs) ≡ investigates jobs
  skip_patch id none jobs = refl
  skip_patch id (some none) jobs = refl
  skip_patch id (some (some fields)) jobs = refl

  skip_enrichment :
      (id : String) (late : Late Num) (jobs : List (Job Num))
      → investigates (late_enrichment id late ++ jobs) ≡ investigates jobs
  skip_enrichment id none jobs = refl
  skip_enrichment id (some none) jobs = refl
  skip_enrichment id (some (some fields)) jobs = refl

  investigates-blocked :
      (ctx : PredictDecisionContext Num) (id : Option String)
      → investigates (publish_blocked_event ctx id ++ publish_webhook ctx id ∷ [])
        ≡ is_investigable ctx
  unfolding publish_blocked_event
  investigates-blocked ctx id = elim (Bool-cases (is_investigable ctx)) [
    | inl blocked ↦ rw blocked refl
    | inr passed ↦ rw passed refl
  ]

  module _ (answers : Answers Num) (ctx : PredictDecisionContext Num) (late : Late Num)
      (queue : AuditWriteQueue Num (Value Num)) where
    abbrev IsExact : Finalized Num → Type 0
    IsExact after = investigates after.jobs ≡ (is_some after.response && is_investigable ctx)

    published : (acked : Bool) → IsExact (after_publish answers ctx late queue acked)
    unfolding after_publish
    published false = refl
    published true =
        skip_enrichment answers.audit_id late (
          publish_blocked_event ctx (some answers.audit_id)
          ++ publish_webhook ctx (some answers.audit_id) ∷ [])
        ∙ investigates-blocked ctx (some answers.audit_id)

    written : (id : Option String) → IsExact (after_durable answers ctx queue id)
    unfolding after_durable dispatch_async_effects
    written none = refl
    written (some id) = investigates-blocked ctx (some id)

    queued :
        (taken : AuditWriteQueue Num (Value Num) × Bool)
        → IsExact (after_enqueue answers ctx late taken)
    unfolding after_enqueue dispatch_async_effects
    queued (after, false) = refl
    queued (after, true) =
        skip_patch answers.audit_id late (dispatch_async_effects ctx (some answers.audit_id))
        ∙ investigates-blocked ctx (some answers.audit_id)

    -- In every audit mode, the blocked topic is written exactly where a response is returned that
    -- declines and whose source is not the fallback of the circuit breaker.
    pub investigates-finalize :
        (config : AuditConfig)
        → investigates (finalize config answers ctx late queue).jobs ≡ (
            is_some (finalize config answers ctx late queue).response
            && (is_decline ctx.final_decision && not (is_fallback ctx.decision_source)))
    unfolding finalize finalize_stream finalize_sync finalize_queued
    investigates-finalize config = elim (Bool-cases config.stream) [
      | inl stream ↦ rw stream (published _)
      | inr off ↦ elim (Bool-cases config.sync_write) [
        | inl sync ↦ rw (off, sync) (written _)
        | inr async ↦ rw (off, async) (queued _)
      ]
    ]
