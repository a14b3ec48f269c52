-- ===== src/Schedule/Scheduler/Commands.antt =====
-- handle, Start and the commands of the timers of internal/schedule/scheduler.go: one command is one
-- step of the owner goroutine.
pub mod Once
pub mod Recovery
use codex_window_reset.Base.{
  ℕ, String, Bool, true, false, Option, List, [], not, ◌&&◌, ◌||◌, none, some, if◌then◌else◌,
}
use codex_window_reset.Base.Assoc.{map_entries}
use codex_window_reset.Base.Int.{pos}
use codex_window_reset.Domain.Clock.{Time, is_zero}
use codex_window_reset.Domain.Outcome.{Result, ok, err}
use codex_window_reset.Domain.Operation.{OccurrenceState, RuntimeState}
use codex_window_reset.Domain.Config.{Config}
use codex_window_reset.Store.Disk.{Disk, StoreError}
use codex_window_reset.Store.Runtime
use codex_window_reset.Schedule.Scheduler.{
  Scheduler, CommandKind, Command, SchedulerError, midnight_timer_id, reconcile_retry_timer_id,
  is_stopped, mark_missed, ensure_maps, is_planned, is_running,
}
use codex_window_reset.Schedule.Scheduler.Timers.{
  consume_timer, stop_timers, schedule_reconcile_retry,
}
use codex_window_reset.Schedule.Scheduler.Loop.{
  schedule_midnight, reconcile_owned, handle_occurrence, handle_compensation,
}
use codex_window_reset.Schedule.Scheduler.Callbacks.{Environment, Step, updated}

module _ (env : Environment) where
  abbrev pub retry_later : Step → Step
  retry_later (s, none) = (s, none)
  retry_later (s, some e) = (schedule_reconcile_retry s s.now, some e)

  abbrev pub midnight_later : Step → Step
  midnight_later (s, none) = (s, none)
  midnight_later (s, some e) =
      (schedule_reconcile_retry (schedule_midnight env s.config s).0 s.now, some e)

  pub handle_reconcile_retry : ℕ → Scheduler → Step
  handle_reconcile_retry generation s =
      let (s', owned) = consume_timer s reconcile_retry_timer_id generation in
      if owned then retry_later (reconcile_owned env s'.config s') else (s', none)

  pub handle_midnight : ℕ → Scheduler → Step
  handle_midnight generation s =
      let (s', owned) = consume_timer s midnight_timer_id generation in
      if owned then midnight_later (reconcile_owned env s'.config s') else (s', none)

  -- handle, for a command with the configuration that commandReconcile carries.
  abbrev dispatch : Bool → Config → CommandKind → String → ℕ → Scheduler → Step
  dispatch interrupted cfg CommandKind.reconcile id generation s =
      reconcile_owned env cfg (record s { config = cfg })
  dispatch interrupted cfg CommandKind.occurrence id generation s =
      handle_occurrence env interrupted id generation s
  dispatch interrupted cfg CommandKind.compensation id generation s =
      handle_compensation env interrupted id generation s
  dispatch interrupted cfg CommandKind.reconcile_retry id generation s =
      handle_reconcile_retry generation s
  dispatch interrupted cfg CommandKind.midnight id generation s = handle_midnight generation s

  unfoldable pub handle : Bool → Config → Command → Scheduler → Step
  handle interrupted cfg c s =
      if is_stopped s
      then (s, some SchedulerError.stopped)
      else dispatch interrupted cfg c.kind c.id c.generation s

-- Start: what a previous process left planned, running or waiting for a compensation is missed.
abbrev pub recoverable : OccurrenceState → Bool
recoverable o =
    is_planned o.status
    || is_running o.status
    || (not o.compensation_attempted && not (is_zero o.compensation_due_at))

abbrev recover_entry : String → OccurrenceState → OccurrenceState
recover_entry id o = if recoverable o then mark_missed o "restart" else o

unfoldable pub recover_state : RuntimeState → RuntimeState
recover_state s = record (ensure_maps s) { occurrences = map_entries recover_entry s.occurrences }

abbrev recovered : Result StoreError RuntimeState → Scheduler → Step
recovered (ok state) s = (record s { started = true; start_error = none }, none)
recovered (err e) s =
    let failed = some SchedulerError.update_failed in
    (record s { started = true; start_error = failed }, failed)

unfoldable pub start : Scheduler → Step
start s =
    if s.started || s.stopped
    then (s, none)
    else (let (d, r) = Runtime.update_always (updated recover_state) s.disk in
        recovered r (record s { disk = d }))

-- Stop, with the owner loop's stopTimers.
pub stop : Scheduler → Scheduler
stop s =
    if not s.started
    then record s { stopped = true }
    else if s.stopping || s.stopped
    then s
    else stop_timers (record s { stopping = true; stopped = true })

-- The zero value of domain.Config, which a scheduler has until its first reconciliation.
abbrev zero_config : Config
zero_config = record {
  schema_version = 0;
  revision = 0;
  enabled = false;
  timezone = "";
  weekdays = [];
  work_periods = [];
  preheat_lead_minutes = none;
  preheat_span_minutes = none;
  productivity_minutes = pos 0;
  window_hours = pos 0;
  health_threshold_percent = pos 0;
  skip_window_times = [];
  remaining_quota_floor_percent = pos 0;
  remaining_window_floor_minutes = pos 0;
  long_window_floor_percent = pos 0;
  blackout_periods = [];
  probe_model = "";
  probe_timeout_seconds = pos 0;
  scheduled_account_keys = [];
}

-- NewScheduler over a repository, at an instant.
unfoldable pub new_scheduler : Disk RuntimeState → Time → Scheduler
new_scheduler d now = record {
  started = false;
  stopping = false;
  stopped = false;
  start_error = none;
  config = zero_config;
  timers = [];
  timer_due = [];
  timer_generation = [];
  pending_terminal = [];
  disk = d;
  now = now;
  requests = [];
}

module _ (env : Environment) where
  abbrev reconcile_started : Config → Option SchedulerError → Scheduler → Step
  reconcile_started cfg (some e) s = (s, some e)
  reconcile_started cfg none s =
      if not s.started || s.stopped
      then (s, some SchedulerError.stopped)
      else handle env false cfg (record { kind = CommandKind.reconcile; id = ""; generation = 0 }) s

  -- Reconcile, which starts the scheduler if it has to.
  pub reconcile : Config → Scheduler → Step
  reconcile cfg s = let s' = (start s).0 in reconcile_started cfg s'.start_error s'
