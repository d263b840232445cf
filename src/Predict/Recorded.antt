-- ===== src/Predict/Recorded.antt =====
-- No decision is returned that is not recorded, and which are sent to investigation.
use ojuri.Prelude.{◌≡◌, true, none, some, [], ◌∷◌, ◌++◌, ◌⊎◌, if◌then◌else◌, String}
use ojuri.Audit.Record.{DecisionAuditRecord}
use ojuri.Audit.Queue.{AuditWriteQueue}
use ojuri.Rules.Value.{Value}
use ojuri.Predict.Types.{PredictDecisionContext, PredictResponseDto, create_record}
use ojuri.Predict.Decide.{Late}
use ojuri.Predict.Finalize.{AuditConfig, Answers, Finalized, with_late, saved, unique_violation}

-- The row was inserted under the id; or the insert met the unique index, and the id is that of the
-- row that was there for the tenant and the transaction.
abbrev pub IsWritten :
    {Num : Type 0} → Answers Num → DecisionAuditRecord Num (Value Num) → String → Type 0
IsWritten answers rec id =
    (answers.save rec ≡ saved id)
    ⊎ ((answers.save rec ≡ unique_violation)
        × (answers.find_existing rec.tenant_id rec.transaction_id ≡ some id))

module _ {Num : Type 0} (config : AuditConfig) (answers : Answers Num)
    (ctx : PredictDecisionContext Num) (late : Late Num)
    (queue : AuditWriteQueue Num (Value Num)) where
  abbrev row : DecisionAuditRecord Num (Value Num)
  row = create_record ctx answers.latency

  -- The record is where the configuration has it, under the id.
  abbrev pub IsRecorded : Finalized Num → String → Type 0
  IsRecorded after id =
      if config.stream
      then (id ≡ answers.audit_id) × (answers.publish_durable ctx id row ≡ true)
      else if config.sync_write
      then IsWritten answers (with_late late row) id
      else (id ≡ answers.audit_id)
        × (after.queue.buffer ≡ queue.buffer ++ (record { id = id; rec = row }) ∷ [])

  -- What a response says of the record.
  abbrev pub Agrees : PredictResponseDto Num → String → Type 0
  Agrees response id =
      (response.audit_id ≡ some id)
      × (response.decision ≡ row.final_decision)
      × (response.decision_source ≡ row.decision_source)

  abbrev pub IsAnswered : Finalized Num → Type 0
  IsAnswered after =
      ((response : PredictResponseDto Num) × (id : String) × (after.response ≡ some response)
        × Agrees response id
        × IsRecorded after id)
      ⊎ ((after.response ≡ none) × (after.jobs ≡ []))
