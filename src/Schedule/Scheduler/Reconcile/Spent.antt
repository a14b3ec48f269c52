-- ===== src/Schedule/Scheduler/Reconcile/Spent.antt =====
-- A reconciliation never plans an occurrence again.
use mathlib.Core.Option
use codex_window_reset.Base.{String, false, List, [], ◌≡◌, arith, some, ◌∙◌, ap}
use codex_window_reset.Base.Assoc.{Assoc, lookup, map_entries, lookup-map_entries}
use codex_window_reset.Domain.Clock.{Time}
use codex_window_reset.Domain.Operation.{OccurrenceState, PlannedOccurrence, RuntimeState}
use codex_window_reset.Schedule.Scheduler.{is_planned, ensure_maps}
use codex_window_reset.Schedule.Scheduler.Reconcile.{
  Progress, plan_all, release_entry, release_undesired, drop_ownerless, reconcile_state,
  disable_entry, disable_state,
}
use codex_window_reset.Schedule.Scheduler.Reconcile.History.{plan_all-Has}

-- An occurrence that was claimed, or ended: it is known and not planned.
abbrev pub SpentAmong : String → Assoc OccurrenceState → Type 0
SpentAmong id m = (o : OccurrenceState) × (lookup id m ≡ some o) × (is_planned o.status ≡ false)

abbrev pub Spent : String → RuntimeState → Type 0
Spent id s = SpentAmong id s.occurrences

-- A loop over the occurrences that plans none of them.
pub map_entries-Spent :
    (f : String → OccurrenceState → OccurrenceState) (id : String) (m : Assoc OccurrenceState)
    → ((o : OccurrenceState) → is_planned o.status ≡ false → is_planned (f id o).status ≡ false)
    → SpentAmong id m
    → SpentAmong id (map_entries f m)
map_entries-Spent f id m keep (o, h, n) =
    (f id o, lookup-map_entries f id m ∙ ap (Option.map (f id)) h, keep o n)

pub reconcile_state-Spent :
    (now : Time) (plans : List PlannedOccurrence) (id : String) (s : RuntimeState)
    → Spent id s
    → Spent id (reconcile_state now plans s)
unfolding reconcile_state drop_ownerless release_undesired
reconcile_state-Spent now plans id s (o, h, n) =
    let start : Progress = record { state = ensure_maps s; desired = [] } in
    let g = plan_all now plans start in
    map_entries-Spent (release_entry g.desired) id g.state.occurrences (λ x m. ground arith)
      (o, plan_all-Has now plans id o start n h, n)

pub disable_state-Spent : (id : String) (s : RuntimeState) → Spent id s → Spent id (disable_state s)
unfolding disable_state
disable_state-Spent id s = map_entries-Spent disable_entry id s.occurrences (λ x m. ground arith)
