-- ===== src/Schedule/Scheduler.antt =====
-- internal/schedule/scheduler.go: the state of the scheduler and its helpers. The owner goroutine
-- serialises the commands, so each command is a function on the state. The clock, the repository,
-- the executor and the plan source are its environment: `now` is the clock, which an executor call
-- may advance, and `requests` records the calls of the executor (no code reads it).
pub mod Timers
pub mod Reconcile
pub mod Watch
pub mod Callbacks
pub mod Loop
pub mod Commands
use codex_window_reset.Base.{
  ℕ, ◌+◌, ◌-◌, ◌%◌, ◌^◌, String, Bool, true, false, not, ◌&&◌, ◌||◌, List, [], ◌∷◌, Option, none,
  some, any, ◌==◌, if◌then◌else◌,
}
use codex_window_reset.Base.Assoc.{Assoc}
use codex_window_reset.Base.Text.{str_eq, is_empty, trim_space, str_append}
use codex_window_reset.Domain.Clock.{Time, is_zero}
use codex_window_reset.Domain.Outcome.{RequestOutcome}
use codex_window_reset.Domain.Operation.{
  OperationRecord, OccurrenceStatus, PlannedOccurrence, OccurrenceState, RuntimeState,
}
use codex_window_reset.Domain.Config.{Config}
use codex_window_reset.Store.Disk.{Disk}

pub data CommandKind : Type 0 where
  reconcile occurrence compensation reconcile_retry midnight : CommandKind

-- What a timer's callback enqueues.
pub record Command : Type 0 where
  pub kind : CommandKind
  pub id : String
  pub generation : ℕ

-- A running timer: the delay that `AfterFunc` was given, and its callback.
pub record Timer : Type 0 where
  pub delay : ℕ
  pub command : Command

pub record PendingTerminal : Type 0 where
  pub kind : CommandKind
  pub status : OccurrenceStatus

pub data Request : Type 0 where
  preheats compensates : String → Request

pub data SchedulerError : Type 0 where
  stopped planner_required timezone plan_failed update_failed claim_failed : SchedulerError
  load_failed save_failed reconcile_failed : SchedulerError

-- The channels, the locks and the context of the goroutine are not kept.
pub record Scheduler : Type 0 where
  pub started : Bool
  pub stopping : Bool
  pub stopped : Bool
  pub start_error : Option SchedulerError
  pub config : Config
  pub timers : Assoc Timer
  pub timer_due : Assoc Time
  pub timer_generation : Assoc ℕ
  pub pending_terminal : Assoc PendingTerminal
  pub disk : Disk RuntimeState
  pub now : Time
  pub requests : List Request

abbrev pub retry_delay : ℕ
retry_delay = 1_000_000_000

abbrev pub midnight_timer_id : String
midnight_timer_id = "@schedule-midnight"

abbrev pub reconcile_retry_timer_id : String
reconcile_retry_timer_id = "@schedule-reconcile-retry"

abbrev pub compensation_prefix : String
compensation_prefix = "@compensation/"

abbrev pub compensation_timer_id : String → String
compensation_timer_id id = str_append compensation_prefix id

abbrev pub is_stopped : Scheduler → Bool
is_stopped s = not s.started || s.stopping || s.stopped

abbrev pub status_for_outcome : RequestOutcome → OccurrenceStatus
status_for_outcome RequestOutcome.succeeded = OccurrenceStatus.succeeded
status_for_outcome RequestOutcome.disabled = OccurrenceStatus.skipped
status_for_outcome _ = OccurrenceStatus.failed

abbrev pub status_for_record : OperationRecord → OccurrenceStatus
status_for_record r = status_for_outcome r.request_outcome

unfoldable pub scheduled_for_config : Config → String → Bool
scheduled_for_config cfg account_key =
    any (λ key. str_eq (trim_space key) (trim_space account_key)) cfg.scheduled_account_keys

abbrev pub or_restart : String → String
or_restart reason = if is_empty (trim_space reason) then "restart" else reason

abbrev pub mark_missed : OccurrenceState → String → OccurrenceState
mark_missed o reason = record o {
  occurrence = record (o.occurrence) { missed = true; missed_reason = or_restart reason };
  status = OccurrenceStatus.missed;
  compensation_due_at = 0;
  compensation_attempted = false;
}

abbrev pub ensure_maps : RuntimeState → RuntimeState
ensure_maps s = record s { schema_version = if s.schema_version == 0 then 1 else s.schema_version }

abbrev pub is_planned : OccurrenceStatus → Bool
is_planned OccurrenceStatus.planned = true
is_planned _ = false

abbrev pub is_running : OccurrenceStatus → Bool
is_running OccurrenceStatus.running = true
is_running _ = false

abbrev pub is_failed : OccurrenceStatus → Bool
is_failed OccurrenceStatus.failed = true
is_failed _ = false

-- A failed request that still has its one compensation attempt.
abbrev pub compensation_pending : OccurrenceState → Bool
compensation_pending o =
    is_failed o.status && not o.compensation_attempted && not (is_zero o.compensation_due_at)
