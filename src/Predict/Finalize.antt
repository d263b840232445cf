-- ===== src/Predict/Finalize.antt =====
-- predict.service.ts, `finalize` and `finalizeStream`, with the methods of decision-audit.service.ts
-- that they call. What runs behind the response is a list of jobs, in the order of the source.
use ojuri.Prelude.{
  String, Bool, true, false, not, ◌&&◌, Option, none, some, List, [], ◌∷◌, ◌++◌, if◌then◌else◌,
  str_eq,
}
use ojuri.Enums.{DecisionSource, ml, pre_rule, post_rule, breaker_fallback}
use ojuri.Audit.Record.{DecisionAuditRecord, AuditEnrichmentFields, apply_patch}
use ojuri.Audit.Queue.{AuditWriteQueue, AuditWriteQueueOptions, enqueue}
use ojuri.Rules.Value.{Value}
use ojuri.Predict.Types.{
  PredictDecisionContext, PredictResponseDto, create_record, create_response, is_decline,
}
use ojuri.Predict.Decide.{Late}

-- `audit.pipeline === STREAM` and `audit.syncWrite`
pub record AuditConfig : Type 0 where
  pub stream : Bool
  pub sync_write : Bool
  pub queue : AuditWriteQueueOptions

pub data Job (Num : Type 0) : Type 0 where
  patch_late : String → AuditEnrichmentFields Num (Value Num) → Job Num
  publish_enrichment : String → AuditEnrichmentFields Num (Value Num) → Job Num
  publish_event publish_blocked publish_webhook :
      PredictDecisionContext Num → Option String → Job Num

-- How the insert of the repository ends: with the id of the row, on the unique index of tenant and
-- transaction, or in another error.
pub data SaveOutcome : Type 0 where
  saved : String → SaveOutcome
  unique_violation save_error : SaveOutcome

-- `DecisionAuditRecordResult`
pub data RecordResult : Type 0 where
  recorded : String → RecordResult
  duplicate failed : RecordResult

-- What answers a call: the new id, the time taken, the database's insert of a record and its
-- search for the row of a tenant and a transaction, and whether the publication of a record was
-- acknowledged.
pub record Answers (Num : Type 0) : Type 0 where
  pub audit_id : String
  pub latency : Num
  pub save : DecisionAuditRecord Num (Value Num) → SaveOutcome
  pub find_existing : Option String → String → Option String
  pub publish_durable :
      PredictDecisionContext Num → String → DecisionAuditRecord Num (Value Num) → Bool
  pub round4 : Num → Num

pub record Finalized (Num : Type 0) : Type 0 where
  pub response : Option (PredictResponseDto Num)
  pub queue : AuditWriteQueue Num (Value Num)
  pub jobs : List (Job Num)

abbrev pub is_fallback : DecisionSource → Bool
is_fallback ml = false
is_fallback pre_rule = false
is_fallback post_rule = false
is_fallback breaker_fallback = true

-- `record`: an error of the insert is a result.
unfoldable pub result_of_save : SaveOutcome → RecordResult
result_of_save (saved id) = recorded id
result_of_save unique_violation = duplicate
result_of_save save_error = failed

-- `if (existingId) return existingId`, or the error that follows.
unfoldable pub existing_or_error : Option String → Option String
existing_or_error none = none
existing_or_error (some id) = if str_eq id "" then none else some id

module _ {Num : Type 0} where
  unfoldable pub publish_blocked_event : PredictDecisionContext Num → Option String → List (Job Num)
  publish_blocked_event ctx audit_id =
      if is_decline ctx.final_decision && not (is_fallback ctx.decision_source)
      then publish_blocked ctx audit_id ∷ []
      else []

  unfoldable pub dispatch_async_effects :
      PredictDecisionContext Num → Option String → List (Job Num)
  unfolding publish_blocked_event
  dispatch_async_effects ctx audit_id =
      publish_event ctx audit_id ∷ publish_blocked_event ctx audit_id
      ++ publish_webhook ctx audit_id ∷ []

  abbrev pub late_fields : Late Num → Option (AuditEnrichmentFields Num (Value Num))
  late_fields none = none
  late_fields (some fields) = fields

  -- `Object.assign(record, late ?? {})`
  abbrev pub with_late :
      Late Num → DecisionAuditRecord Num (Value Num) → DecisionAuditRecord Num (Value Num)
  with_late late r = elim (late_fields late) [ none ↦ r | some fields ↦ apply_patch fields r ]

  abbrev pub late_patch : String → Late Num → List (Job Num)
  late_patch id late = elim (late_fields late) [
    | none ↦ []
    | some fields ↦ patch_late id fields ∷ []
  ]

  abbrev pub late_enrichment : String → Late Num → List (Job Num)
  late_enrichment id late = elim (late_fields late) [
    | none ↦ []
    | some fields ↦ publish_enrichment id fields ∷ []
  ]

  abbrev failed_with : AuditWriteQueue Num (Value Num) → Finalized Num
  failed_with queue = record { response = none; queue = queue; jobs = [] }

  -- `enqueue` threw, or took the row.
  unfoldable pub after_enqueue :
      Answers Num
      → PredictDecisionContext Num
      → Late Num
      → AuditWriteQueue Num (Value Num) × Bool
      → Finalized Num
  unfolding create_response dispatch_async_effects
  after_enqueue answers ctx late (queue, false) = failed_with queue
  after_enqueue answers ctx late (queue, true) = record {
    response = some (create_response answers.round4 ctx (some answers.audit_id) answers.latency);
    queue = queue;
    jobs = late_patch answers.audit_id late ++ dispatch_async_effects ctx (some answers.audit_id);
  }

  unfoldable pub finalize_queued :
      AuditConfig
      → Answers Num
      → PredictDecisionContext Num
      → Late Num
      → AuditWriteQueue Num (Value Num)
      → Finalized Num
  unfolding after_enqueue create_record enqueue
  finalize_queued config answers ctx late queue = after_enqueue answers ctx late (
      enqueue config.queue
        (record { id = answers.audit_id; rec = create_record ctx answers.latency }) queue)

  unfoldable pub after_record :
      Answers Num → DecisionAuditRecord Num (Value Num) → RecordResult → Option String
  unfolding existing_or_error
  after_record answers rec (recorded id) = some id
  after_record answers rec duplicate =
      existing_or_error (answers.find_existing rec.tenant_id rec.transaction_id)
  after_record answers rec failed = none

  -- `none` is an `AuditPersistenceError`.
  unfoldable pub record_durable : Answers Num → DecisionAuditRecord Num (Value Num) → Option String
  unfolding after_record result_of_save
  record_durable answers rec = after_record answers rec (result_of_save (answers.save rec))

  -- `recordDurable` threw, or gave the id of a row.
  unfoldable pub after_durable :
      Answers Num
      → PredictDecisionContext Num
      → AuditWriteQueue Num (Value Num)
      → Option String
      → Finalized Num
  unfolding create_response dispatch_async_effects
  after_durable answers ctx queue none = failed_with queue
  after_durable answers ctx queue (some id) = record {
    response = some (create_response answers.round4 ctx (some id) answers.latency);
    queue = queue;
    jobs = dispatch_async_effects ctx (some id);
  }

  unfoldable pub finalize_sync :
      Answers Num
      → PredictDecisionContext Num
      → Late Num
      → AuditWriteQueue Num (Value Num)
      → Finalized Num
  unfolding after_durable create_record record_durable
  finalize_sync answers ctx late queue =
      after_durable answers ctx queue
        (record_durable answers (with_late late (create_record ctx answers.latency)))

  -- `publishDurable` threw, or was acknowledged.
  unfoldable pub after_publish :
      Answers Num
      → PredictDecisionContext Num
      → Late Num
      → AuditWriteQueue Num (Value Num)
      → Bool
      → Finalized Num
  unfolding create_response publish_blocked_event
  after_publish answers ctx late queue false = failed_with queue
  after_publish answers ctx late queue true = record {
    response = some (create_response answers.round4 ctx (some answers.audit_id) answers.latency);
    queue = queue;
    jobs =
        late_enrichment answers.audit_id late
        ++ (publish_blocked_event ctx (some answers.audit_id)
            ++ publish_webhook ctx (some answers.audit_id) ∷ []);
  }

  unfoldable pub finalize_stream :
      Answers Num
      → PredictDecisionContext Num
      → Late Num
      → AuditWriteQueue Num (Value Num)
      → Finalized Num
  unfolding after_publish create_record
  finalize_stream answers ctx late queue =
      after_publish answers ctx late queue
        (answers.publish_durable ctx answers.audit_id (create_record ctx answers.latency))

  unfoldable pub finalize :
      AuditConfig
      → Answers Num
      → PredictDecisionContext Num
      → Late Num
      → AuditWriteQueue Num (Value Num)
      → Finalized Num
  unfolding finalize_queued finalize_sync finalize_stream
  finalize config answers ctx late queue =
      if config.stream
      then finalize_stream answers ctx late queue
      else if config.sync_write
      then finalize_sync answers ctx late queue
      else finalize_queued config answers ctx late queue
