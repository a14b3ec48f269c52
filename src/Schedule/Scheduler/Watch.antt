-- ===== src/Schedule/Scheduler/Watch.antt =====
-- The end of reconcileOwned in internal/schedule/scheduler.go: the timers that a runtime state asks
-- for. Entries are treated one by one, so the order of the map does not matter.
pub mod Untouched
use codex_window_reset.Base.{
  String, Bool, false, not, ◌||◌, List, [], ◌∷◌, Option, none, some, ◌==◌, if◌then◌else◌,
}
use codex_window_reset.Base.Assoc.{Assoc, lookup, insert, has_key}
use codex_window_reset.Base.Text.{str_eq}
use codex_window_reset.Domain.Clock.{Time, is_zero, after}
use codex_window_reset.Domain.Operation.{OccurrenceStatus, OccurrenceState, RuntimeState}
use codex_window_reset.Schedule.Scheduler.{
  Scheduler, CommandKind, Timer, PendingTerminal, midnight_timer_id, reconcile_retry_timer_id,
  compensation_timer_id,
}
use codex_window_reset.Schedule.Scheduler.Timers.{replace_timer, stop_timer, retry_timer}

abbrev pub same_due : Option Time → Time → Bool
same_due none due = false
same_due (some t) due = t == due

abbrev pub due_or_zero : Option Time → Time
due_or_zero none = 0
due_or_zero (some t) = t

pub record Timing : Type 0 where
  pub active : Assoc Time
  pub scheduler : Scheduler

-- A timer that is to ring at `due`, replaced if it stands at another time.
abbrev pub keep_at : String → Time → Time → CommandKind → String → Timing → Timing
keep_at timer_id due now kind target g = record {
  active = insert timer_id due g.active;
  scheduler =
      if same_due (lookup timer_id g.scheduler.timer_due) due
      then g.scheduler
      else replace_timer g.scheduler timer_id due now kind target;
}

abbrev pub keep_retry : String → CommandKind → Time → Timing → Timing
keep_retry timer_id kind now g =
    let s =
      (if has_key timer_id g.scheduler.timer_due
        then g.scheduler
        else retry_timer g.scheduler timer_id kind now) in
    record {
      active = insert timer_id (due_or_zero (lookup timer_id s.timer_due)) g.active;
      scheduler = s;
    }

-- A running occurrence whose terminal write failed keeps a timer for the write.
abbrev pub retry_pending : String → Option PendingTerminal → Time → Timing → Timing
retry_pending id none now g = g
retry_pending id (some p) now g = elim p.kind [
  | CommandKind.compensation ↦ keep_retry (compensation_timer_id id) CommandKind.compensation now g
  | _ ↦ keep_retry id CommandKind.occurrence now g
]

abbrev pub time_entry : Time → String → OccurrenceState → Timing → Timing
time_entry now id o g = elim o.status [
  | OccurrenceStatus.planned ↦
      if is_zero o.planned_at || not (after o.planned_at now)
      then g
      else keep_at id o.planned_at now CommandKind.occurrence id g
  | OccurrenceStatus.running ↦ retry_pending id (lookup id g.scheduler.pending_terminal) now g
  | OccurrenceStatus.failed ↦
      if o.compensation_attempted || is_zero o.compensation_due_at
      then g
      else keep_at (compensation_timer_id id) o.compensation_due_at now CommandKind.compensation id
          g
  | _ ↦ g
]

unfoldable pub time_each : Time → List (String × OccurrenceState) → Timing → Timing
time_each now [] g = g
time_each now ((id, o) ∷ rest) g = time_each now rest (time_entry now id o g)

abbrev pub active_at : Option Time → Option Time → Bool
active_at (some due) (some t) = t == due
active_at (some due) none = due == 0
active_at none t = false

unfoldable pub stop_inactive : Assoc Time → List (String × Timer) → Scheduler → Scheduler
stop_inactive active [] s = s
stop_inactive active ((id, t) ∷ rest) s = stop_inactive active rest (
    if str_eq id midnight_timer_id
      || str_eq id reconcile_retry_timer_id
      || active_at (lookup id active) (lookup id s.timer_due)
    then s
    else stop_timer s id)

unfoldable pub reconcile_timers : RuntimeState → Time → Scheduler → Scheduler
unfolding time_each stop_inactive
reconcile_timers state now s =
    let g = time_each now state.occurrences (record { active = []; scheduler = s }) in
    stop_inactive g.active g.scheduler.timers g.scheduler
