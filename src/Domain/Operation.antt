-- ===== src/Domain/Operation.antt =====
-- internal/domain/operation.go and reset.go: operation records, occurrences and the runtime state.
use codex_window_reset.Base.{ℕ, String, Bool, Option}
use codex_window_reset.Base.Int.{ℤ}
use codex_window_reset.Base.Assoc.{Assoc}
use codex_window_reset.Domain.Clock.{Time}
use codex_window_reset.Domain.Outcome.{RequestOutcome, WindowOutcome, QuotaDecision, ErrorCode}
use codex_window_reset.Domain.Snapshot.{GuardrailHold}

pub data OperationTrigger : Type 0 where
  health_probe preheat compensation : OperationTrigger

pub record OperationRecord : Type 0 where
  pub id : String
  pub run_id : String
  pub correlation_id : String
  pub trigger : OperationTrigger
  pub occurrence_id : String
  pub account_key : String
  pub masked_identity : String
  pub started_at : Time
  pub finished_at : Time
  pub request_outcome : RequestOutcome
  pub window_outcome : WindowOutcome
  pub decision : QuotaDecision
  pub http_status : ℕ
  pub latency_ms : ℕ
  pub error_code : ErrorCode

pub data OccurrenceStatus : Type 0 where
  unset planned running succeeded failed skipped missed : OccurrenceStatus

pub record PlannedOccurrence : Type 0 where
  pub id : String
  pub account_key : String
  pub local_date : String
  pub period_index : ℕ
  pub window_start : Time
  pub window_end : Time
  pub planned_at : Time
  pub missed : Bool
  pub missed_reason : String

pub record OccurrenceState : Type 0 where
  pub occurrence : PlannedOccurrence
  pub open occurrence use *
  pub status : OccurrenceStatus
  pub compensation_due_at : Time
  pub compensation_attempted : Bool

pub record RuntimeState : Type 0 where
  pub schema_version : ℕ
  pub occurrences : Assoc OccurrenceState
  pub next_runs : Assoc Time
  pub guardrail_holds : Assoc GuardrailHold

pub data ResetOutcome : Type 0 where
  pending succeeded failed unknown : ResetOutcome

pub record ResetAudit : Type 0 where
  pub idempotency_key : String
  pub requested_at : Time
  pub finished_at : Time
  pub account_key : String
  pub masked_identity : String
  pub prior_applicable_credits : Option ℤ
  pub outcome : ResetOutcome
  pub http_category : String
  pub correlation_id : String

pub record ResetHttpResult : Type 0 where
  pub status_code : ℕ
  pub category : String
