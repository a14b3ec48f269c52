-- ===== src/Schedule/Scheduler/Watch/Untouched.antt =====
-- Setting the timers touches nothing else.
use codex_window_reset.Base.{
  String, Bool, true, false, List, [], ◌∷◌, Option, some, none, if◌then◌else◌, ◌||◌, not,
}
use codex_window_reset.Base.Assoc.{Assoc, lookup, has_key}
use codex_window_reset.Base.Text.{str_eq}
use codex_window_reset.Domain.Clock.{Time, is_zero, after}
use codex_window_reset.Domain.Operation.{OccurrenceStatus, OccurrenceState, RuntimeState}
use codex_window_reset.Schedule.Scheduler.{
  Scheduler, Timer, CommandKind, PendingTerminal, midnight_timer_id, reconcile_retry_timer_id,
  compensation_timer_id,
}
use codex_window_reset.Schedule.Scheduler.Timers.{stop_timer}
use codex_window_reset.Schedule.Scheduler.Timers.Untouched.{
  Untouched, untouched, Untouched-trans, Untouched-if, replace_timer-Untouched,
  stop_timer-Untouched, retry_timer-Untouched,
}
use codex_window_reset.Schedule.Scheduler.Watch.{
  Timing, same_due, keep_at, keep_retry, retry_pending, time_entry, time_each, active_at,
  stop_inactive, reconcile_timers,
}

keep_at-Untouched :
    (id : String) (due now : Time) (kind : CommandKind) (target : String) (g : Timing)
    → Untouched g.scheduler (keep_at id due now kind target g).scheduler
keep_at-Untouched id due now kind target g =
    Untouched-if (same_due (lookup id g.scheduler.timer_due) due) g.scheduler _ _
      (untouched g.scheduler) (replace_timer-Untouched g.scheduler id due now kind target)

keep_retry-Untouched :
    (id : String) (kind : CommandKind) (now : Time) (g : Timing)
    → Untouched g.scheduler (keep_retry id kind now g).scheduler
keep_retry-Untouched id kind now g =
    Untouched-if (has_key id g.scheduler.timer_due) g.scheduler _ _ (untouched g.scheduler)
      (retry_timer-Untouched g.scheduler id kind now)

retry_pending-Untouched :
    (id : String) (p : Option PendingTerminal) (now : Time) (g : Timing)
    → Untouched g.scheduler (retry_pending id p now g).scheduler
retry_pending-Untouched id none now g = untouched g.scheduler
retry_pending-Untouched id (some p) now g = by_kind p.kind
  where
    by_kind :
        (kind : CommandKind)
        → Untouched g.scheduler (retry_pending id (some (record p { kind = kind })) now g).scheduler
    by_kind CommandKind.compensation =
        keep_retry-Untouched (compensation_timer_id id) CommandKind.compensation now g
    by_kind CommandKind.occurrence = keep_retry-Untouched id CommandKind.occurrence now g
    by_kind CommandKind.reconcile = keep_retry-Untouched id CommandKind.occurrence now g
    by_kind CommandKind.reconcile_retry = keep_retry-Untouched id CommandKind.occurrence now g
    by_kind CommandKind.midnight = keep_retry-Untouched id CommandKind.occurrence now g

Timing-if :
    (b : Bool) (g t u : Timing)
    → Untouched g.scheduler t.scheduler
    → Untouched g.scheduler u.scheduler
    → Untouched g.scheduler (if b then t else u).scheduler
Timing-if true g t u h k = h
Timing-if false g t u h k = k

time_entry-Untouched :
    (now : Time) (id : String) (o : OccurrenceState) (g : Timing)
    → Untouched g.scheduler (time_entry now id o g).scheduler
time_entry-Untouched now id o g = by_status o.status
  where
    by_status :
        (status : OccurrenceStatus)
        → Untouched g.scheduler (time_entry now id (record o { status = status }) g).scheduler
    by_status OccurrenceStatus.planned =
        Timing-if (is_zero o.planned_at || not (after o.planned_at now)) g g _
          (untouched g.scheduler)
          (keep_at-Untouched id o.planned_at now CommandKind.occurrence id g)
    by_status OccurrenceStatus.running =
        retry_pending-Untouched id (lookup id g.scheduler.pending_terminal) now g
    by_status OccurrenceStatus.failed =
        Timing-if (o.compensation_attempted || is_zero o.compensation_due_at) g g _
          (untouched g.scheduler)
          (keep_at-Untouched (compensation_timer_id id) o.compensation_due_at now
            CommandKind.compensation id g)
    by_status OccurrenceStatus.unset = untouched g.scheduler
    by_status OccurrenceStatus.succeeded = untouched g.scheduler
    by_status OccurrenceStatus.skipped = untouched g.scheduler
    by_status OccurrenceStatus.missed = untouched g.scheduler

time_each-Untouched :
    (now : Time) (entries : List (String × OccurrenceState)) (g : Timing)
    → Untouched g.scheduler (time_each now entries g).scheduler
unfolding time_each
time_each-Untouched now [] g = untouched g.scheduler
time_each-Untouched now ((id, o) ∷ rest) g =
    let g' = time_entry now id o g in
    Untouched-trans g.scheduler g'.scheduler (time_each now rest g').scheduler
      (time_entry-Untouched now id o g) (time_each-Untouched now rest g')

stop_inactive-Untouched :
    (active : Assoc Time) (timers : List (String × Timer)) (s : Scheduler)
    → Untouched s (stop_inactive active timers s)
unfolding stop_inactive
stop_inactive-Untouched active [] s = untouched s
stop_inactive-Untouched active ((id, t) ∷ rest) s =
    let stays =
      str_eq id midnight_timer_id
      || str_eq id reconcile_retry_timer_id
      || active_at (lookup id active) (lookup id s.timer_due) in
    let s' = if stays then s else stop_timer s id in
    Untouched-trans s s' (stop_inactive active rest s')
      (Untouched-if stays s s (stop_timer s id) (untouched s) (stop_timer-Untouched s id))
      (stop_inactive-Untouched active rest s')

pub reconcile_timers-Untouched :
    (state : RuntimeState) (now : Time) (s : Scheduler) → Untouched s (reconcile_timers state now s)
unfolding reconcile_timers
reconcile_timers-Untouched state now s =
    let g0 : Timing = record { active = []; scheduler = s } in
    let g = time_each now state.occurrences g0 in
    Untouched-trans s g.scheduler (stop_inactive g.active g.scheduler.timers g.scheduler)
      (time_each-Untouched now state.occurrences g0)
      (stop_inactive-Untouched g.active g.scheduler.timers g.scheduler)
