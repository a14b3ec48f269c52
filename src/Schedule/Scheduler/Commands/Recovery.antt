-- ===== src/Schedule/Scheduler/Commands/Recovery.antt =====
-- Start leaves nothing of a previous process to be executed.
use codex_window_reset.Base.{
  String, false, Option, some, none, ◌≡◌, refl, ◌⊎◌, inl, inr, arith, Bool-cases, Option-cases,
}
use codex_window_reset.Base.Assoc.{lookup, lookup-map_entries}
use codex_window_reset.Domain.Operation.{OccurrenceState, RuntimeState}
use codex_window_reset.Schedule.Scheduler.{
  is_planned, is_running, mark_missed, compensation_pending,
}
use codex_window_reset.Schedule.Scheduler.Reconcile.Spent.{Spent, map_entries-Spent}
use codex_window_reset.Schedule.Scheduler.Commands.{recoverable, recover_entry, recover_state}

pub recover_state-Spent : (id : String) (s : RuntimeState) → Spent id s → Spent id (recover_state s)
unfolding recover_state
recover_state-Spent id s = map_entries-Spent recover_entry id s.occurrences (λ x m. ground arith)

-- An occurrence and what a restart makes of it.
abbrev pub Recovered : Option OccurrenceState → Option OccurrenceState → Type 0
Recovered none r = r ≡ none
Recovered (some o) r =
    (o' : OccurrenceState) × (r ≡ some o')
    × (is_planned o'.status ≡ false)
    × (is_running o'.status ≡ false)
    × (compensation_pending o' ≡ false)
    × ((o' ≡ o) ⊎ (o' ≡ mark_missed o "restart"))

recover_entry-Recovered :
    (id : String) (o : OccurrenceState) → Recovered (some o) (some (recover_entry id o))
recover_entry-Recovered id o = elim (Bool-cases (recoverable o)) [
  | inl t ↦ rw t (mark_missed o "restart", refl, refl, refl, refl, inr refl)
  | inr f ↦ rw f (o, refl, ground arith, ground arith, ground arith, inl refl)
]

-- A restart keeps every occurrence and invents none. Each is as it was, or missed with the reason
-- "restart", and afterwards none is planned, none is running and none has a compensation pending.
pub recover_state-Recovered :
    (s : RuntimeState) (id : String)
    → Recovered (lookup id s.occurrences) (lookup id (recover_state s).occurrences)
unfolding recover_state
recover_state-Recovered s id =
    rw (lookup-map_entries recover_entry id s.occurrences)
      (elim (Option-cases (lookup id s.occurrences)) [
        | inl e ↦ rw e refl
        | inr (o, e) ↦ rw e (recover_entry-Recovered id o)
      ])
