-- ===== src/Audit/Queue/Tests.antt =====
-- Runs of the audit queue on small inputs.
use ojuri.Prelude.{ℕ, ◌≡◌, refl, String, true, false, none, some, List, [], ◌∷◌, arith, length}
use ojuri.Enums.{Decision, DecisionSource}
use ojuri.Audit.Record.{QueuedAuditRecord}
use ojuri.Audit.Queue.{
  AuditWriteQueue, AuditWriteQueueOptions, inserted, failed, is_transient, enqueue, flush_begin,
  flush_end, stop,
}
use ojuri.Audit.Queue.Account.{enqueued, began, start, next, IsAccounted, Run-IsAccounted}
use ojuri.Audit.Queue.Retry.{flush_end_transient, stop_drains, stop_keeps}

abbrev opts : AuditWriteQueueOptions
opts = record { capacity = 3; batch_size = 2 }

abbrev row : String → QueuedAuditRecord ℕ String
row id = record {
  id = id;
  rec = record {
    transaction_id = id;
    tenant_id = none;
    api_key_id = none;
    correlation_id = none;
    idempotency_key = none;
    sender_id = "s";
    receiver_id = none;
    amount = 100;
    transaction_type = none;
    segment = none;
    champion_model_version = "v1";
    shadow_model_version = none;
    champion_score = 40;
    calibrated_score = none;
    shadow_score = none;
    threshold = 65;
    ml_decision = Decision.accept;
    final_decision = Decision.accept;
    decision_source = DecisionSource.ml;
    rule_id = none;
    rule_name = none;
    rule_stage = none;
    rule_expression = none;
    rule_action = none;
    reason_codes = none;
    features_snapshot = none;
    features_default = none;
    latency_ms = 3;
  };
}

abbrev holding : List (QueuedAuditRecord ℕ String) → AuditWriteQueue ℕ String
holding rows = record {
  buffer = rows;
  flushing = false;
  batch = [];
  consecutive_failures = 0;
  failures = record { backpressure = 0; duplicate = 0; flush_error = 0; dropped = 0 };
}

abbrev three : AuditWriteQueue ℕ String
three = holding (row "a" ∷ row "b" ∷ row "c" ∷ [])

-- A flush is out with two rows, and two more have arrived.
abbrev waiting : AuditWriteQueue ℕ String
waiting = record three {
  flushing = true;
  batch = row "a" ∷ row "b" ∷ [];
  buffer = row "c" ∷ row "d" ∷ [];
}

flush_end_transient_example :
    (flush_end opts (failed (some "08006")) waiting).buffer ≡ row "b" ∷ row "c" ∷ row "d" ∷ []
unfolding is_transient
flush_end_transient_example = flush_end_transient opts waiting (some "08006") (omega arith) refl

stop_drains_example : length (stop opts (λ i. inserted 2) three).buffer ≡ 0
stop_drains_example = stop_drains opts (λ i. inserted 2) (omega arith) (λ i. tt) three refl

stop_keeps_example : (stop opts (λ i. failed none) three).buffer ≡ three.buffer
unfolding is_transient
stop_keeps_example = stop_keeps opts (λ i. failed none) (λ i. refl) three (omega arith)

Run-IsAccounted_example : IsAccounted {Num = ℕ} {Json = String} opts (record {
  queue = (flush_begin opts (enqueue opts (row "a") (holding [])).0).0;
  accepted = 1;
  stored = 0;
})
unfolding enqueue
Run-IsAccounted_example = Run-IsAccounted opts (next (next start (enqueued (row "a"))) began)
