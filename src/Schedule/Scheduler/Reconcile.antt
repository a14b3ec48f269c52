-- ===== src/Schedule/Scheduler/Reconcile.antt =====
-- reconcileOwned of internal/schedule/scheduler.go: what it does to the runtime state. The loops
-- over maps treat each entry by itself, so their order does not matter.
pub mod Owned
pub mod History
pub mod Spent
use codex_window_reset.Base.{
  ℕ, String, Bool, true, false, not, ◌&&◌, ◌||◌, List, [], ◌∷◌, Option, none, some, any,
  if◌then◌else◌,
}
use codex_window_reset.Base.Assoc.{Assoc, lookup, insert, delete, map_entries, keep_keys}
use codex_window_reset.Base.Text.{str_eq, is_empty, trim_space}
use codex_window_reset.Domain.Clock.{Time, is_zero, after}
use codex_window_reset.Domain.Operation.{
  OccurrenceStatus, PlannedOccurrence, OccurrenceState, RuntimeState,
}
use codex_window_reset.Schedule.Scheduler.{
  mark_missed, ensure_maps, is_planned, is_failed, compensation_pending,
}

-- The runtime state, and the ids of the plans seen so far.
pub record Progress : Type 0 where
  pub state : RuntimeState
  pub desired : List String

unfoldable pub normalize_plan : PlannedOccurrence → PlannedOccurrence
normalize_plan p = record p { id = trim_space p.id; account_key = trim_space p.account_key }

-- A plan is missed, or past due, or planned.
unfoldable pub place : Time → OccurrenceState → OccurrenceState
place now o =
    if o.missed
    then mark_missed o o.missed_reason
    else if is_zero o.planned_at || not (after o.planned_at now)
    then mark_missed o "past_due"
    else record o { status = OccurrenceStatus.planned }

abbrev new_state : PlannedOccurrence → OccurrenceState
new_state p = record {
  occurrence = p;
  status = OccurrenceStatus.planned;
  compensation_due_at = 0;
  compensation_attempted = false;
}

-- The placed occurrence, with its run if it is planned; `runs` are the runs before it.
abbrev put_placed : String → OccurrenceState → Assoc Time → RuntimeState → RuntimeState
put_placed id o runs s = record s {
  occurrences = insert id o s.occurrences;
  next_runs = if is_planned o.status then insert id o.planned_at runs else runs;
}

-- What one plan does to the entry of its id.
abbrev plan_entry : Time → PlannedOccurrence → Option OccurrenceState → RuntimeState → RuntimeState
plan_entry now p none s = put_placed p.id (place now (new_state p)) s.next_runs s
plan_entry now p (some o) s =
    if is_planned o.status
    then put_placed p.id (place now (record o { occurrence = p })) (delete p.id s.next_runs) s
    else if compensation_pending o
    then record s { next_runs = insert p.id o.compensation_due_at s.next_runs }
    else s

abbrev plan_named : Time → PlannedOccurrence → Progress → Progress
plan_named now p g = if is_empty p.id then g else record {
  state = plan_entry now p (lookup p.id g.state.occurrences) g.state;
  desired = p.id ∷ g.desired;
}

unfoldable pub plan_step : Time → PlannedOccurrence → Progress → Progress
unfolding place
plan_step now p g = plan_named now (normalize_plan p) g

unfoldable pub plan_all : Time → List PlannedOccurrence → Progress → Progress
plan_all now [] g = g
plan_all now (p ∷ ps) g = plan_all now ps (plan_step now p g)

abbrev pub is_desired : List String → String → Bool
is_desired desired id = any (str_eq id) desired

abbrev release_entry : List String → String → OccurrenceState → OccurrenceState
release_entry desired id o =
    if not (is_desired desired id) && compensation_pending o
    then mark_missed o "selection_removed"
    else o

abbrev planned_entry : Option OccurrenceState → Bool
planned_entry none = false
planned_entry (some o) = is_planned o.status

-- Planned occurrences outside the horizon lose their runs, failed ones their compensation.
unfoldable pub release_undesired : List String → RuntimeState → RuntimeState
release_undesired desired s = record s {
  occurrences = map_entries (release_entry desired) s.occurrences;
  next_runs =
      keep_keys (λ id. is_desired desired id || not (planned_entry (lookup id s.occurrences)))
        s.next_runs;
}

abbrev owning : Option OccurrenceState → Bool
owning none = false
owning (some o) = is_planned o.status || compensation_pending o

unfoldable pub drop_ownerless : RuntimeState → RuntimeState
drop_ownerless s = record s {
  next_runs = keep_keys (λ id. owning (lookup id s.occurrences)) s.next_runs;
}

-- The mutation of an enabled reconciliation.
unfoldable pub reconcile_state : Time → List PlannedOccurrence → RuntimeState → RuntimeState
reconcile_state now plans s =
    let g = plan_all now plans (record { state = ensure_maps s; desired = [] }) in
    drop_ownerless (release_undesired g.desired g.state)

abbrev disable_entry : String → OccurrenceState → OccurrenceState
disable_entry id o = if compensation_pending o then mark_missed o "scheduler_disabled" else o

-- The mutation of a disabled one.
pub disable_state : RuntimeState → RuntimeState
disable_state s = record (ensure_maps s) {
  occurrences = map_entries disable_entry s.occurrences;
  next_runs = [];
}
