-- ===== src/Schedule/Scheduler/Callbacks.antt =====
-- The executor and the plan source of internal/schedule/scheduler.go, and the mutations of
-- persistTerminal, handleOccurrence and handleCompensation.
pub mod Claims
use codex_window_reset.Base.{
  ℕ, suc, zero, ◌+◌, String, Bool, true, false, not, ◌&&◌, ◌||◌, List, [], ◌∷◌, ◌++◌, Option, none,
  some, is_none, ◌==◌, if◌then◌else◌,
}
use codex_window_reset.Base.Assoc.{Assoc, lookup, insert, delete, has_key}
use codex_window_reset.Base.Text.{str_eq, trim_space}
use codex_window_reset.Domain.Clock.{Time, is_zero, after}
use codex_window_reset.Domain.Outcome.{Result, ok, err}
use codex_window_reset.Domain.Operation.{
  OperationRecord, OccurrenceStatus, PlannedOccurrence, OccurrenceState, RuntimeState,
}
use codex_window_reset.Domain.Config.{Config}
use codex_window_reset.Store.Disk.{Disk, StoreError}
use codex_window_reset.Store.Runtime
use codex_window_reset.Schedule.Scheduler.{
  Scheduler, CommandKind, Command, Timer, PendingTerminal, Request, SchedulerError,
  midnight_timer_id, reconcile_retry_timer_id, compensation_timer_id, is_stopped, status_for_record,
  scheduled_for_config, ensure_maps, is_planned, is_failed, compensation_pending,
}
use codex_window_reset.Schedule.Scheduler.Watch.{same_due}
use codex_window_reset.Schedule.Scheduler.Timers.{
  replace_timer, stop_timer, consume_timer, retry_timer, schedule_reconcile_retry,
  cancel_occurrence_timers,
}
use codex_window_reset.Schedule.Scheduler.Reconcile.{reconcile_state, disable_state}

-- A call out of the scheduler may write to the repository and takes time.
abbrev pub Answer : Type 0 → Type 0
Answer A = Disk RuntimeState × Time × A

-- The Executor interface with its two optional ones, the plan source, and Go's calendar: whether a
-- zone loads, the local day of an instant, and the instant of the local midnight after it.
pub record Environment : Type 0 where
  pub execute_preheat : PlannedOccurrence → Disk RuntimeState → Time → Answer OperationRecord
  pub execute_compensation :
      Option (PlannedOccurrence → Disk RuntimeState → Time → Answer OperationRecord)
  pub compensation_eligible : Option (PlannedOccurrence → Disk RuntimeState → Time → Answer Bool)
  pub plan_day : Config → ℕ → Option (List PlannedOccurrence)
  pub zone_known : String → Bool
  pub local_day : String → Time → ℕ
  pub next_midnight : String → Time → Time

abbrev pub Step : Type 0
Step = Scheduler × Option SchedulerError

-- What persistTerminal makes of an occurrence, and whether it keeps a run.
unfoldable pub settle : PendingTerminal → OccurrenceState → OccurrenceState
settle p o = elim p.kind [
  | CommandKind.compensation ↦ record o {
    status = p.status;
    compensation_due_at = 0;
    compensation_attempted = true;
  }
  | _ ↦
      if is_failed p.status
      then record o { status = p.status }
      else record o { status = p.status; compensation_due_at = 0; compensation_attempted = false }
]

abbrev pub settled_runs : PendingTerminal → String → OccurrenceState → Assoc Time → Assoc Time
settled_runs p id o runs = elim p.kind [
  | CommandKind.compensation ↦ delete id runs
  | _ ↦ if compensation_pending o then insert id o.compensation_due_at runs else delete id runs
]

abbrev pub settle_entry :
    PendingTerminal → String → Option OccurrenceState → RuntimeState → RuntimeState
settle_entry p id none s = s
settle_entry p id (some o) s = record s {
  occurrences = insert id (settle p o) s.occurrences;
  next_runs = settled_runs p id (settle p o) s.next_runs;
}

unfoldable pub terminal_state : PendingTerminal → String → RuntimeState → RuntimeState
unfolding settle
terminal_state p id s = let s' = ensure_maps s in settle_entry p id (lookup id s'.occurrences) s'

abbrev pub updated : (RuntimeState → RuntimeState) → RuntimeState → RuntimeState × RuntimeState
updated f s = (f s, f s)

unfoldable pub persist_terminal : String → PendingTerminal → Scheduler → Scheduler × Bool
persist_terminal id p s =
    let (d, r) = Runtime.update_always (updated (terminal_state p id)) s.disk in
    (record s { disk = d }, elim r [ ok x ↦ true | err e ↦ false ])

-- The claim of handleOccurrence, and the occurrence that it claimed.
abbrev pub claimable : Config → Time → OccurrenceState → Option Time → Bool
claimable cfg now o run =
    is_planned o.status
    && not (is_zero o.planned_at)
    && not (after o.planned_at now)
    && same_due run o.planned_at
    && cfg.enabled
    && scheduled_for_config cfg o.account_key

abbrev pub claim_entry :
    Config
    → Time
    → String
    → Option OccurrenceState
    → RuntimeState
    → RuntimeState × Option PlannedOccurrence
claim_entry cfg now id none s = (s, none)
claim_entry cfg now id (some o) s =
    if claimable cfg now o (lookup id s.next_runs)
    then (
      record s {
        occurrences = insert id (record o { status = OccurrenceStatus.running }) s.occurrences;
        next_runs = delete id s.next_runs;
      },
      some o.occurrence,
    )
    else (s, none)

unfoldable pub claim :
    Config → Time → String → RuntimeState → RuntimeState × Option PlannedOccurrence
claim cfg now id s = let s' = ensure_maps s in claim_entry cfg now id (lookup id s'.occurrences) s'

-- The claim of handleCompensation: the attempt is consumed, and the occurrence runs or is skipped.
abbrev pub compensable : Config → OccurrenceState → Option Time → Bool
compensable cfg o run =
    compensation_pending o
    && same_due run o.compensation_due_at
    && cfg.enabled
    && scheduled_for_config cfg o.account_key

-- What the captured `eligible` and `claimed` hold afterwards.
pub record Verdict : Type 0 where
  pub eligible : Bool
  pub claimed : Bool

abbrev pub claim_compensation_entry :
    Config → Bool → String → Option OccurrenceState → RuntimeState → RuntimeState × Verdict
claim_compensation_entry cfg eligible id none s =
    (s, record { eligible = eligible; claimed = false })
claim_compensation_entry cfg eligible id (some o) s =
    if compensable cfg o (lookup id s.next_runs)
    then (let allowed = eligible && not (has_key (trim_space o.account_key) s.guardrail_holds) in
        (
          record s {
            occurrences =
                insert id
                  (record o {
                    status = if allowed then OccurrenceStatus.running else OccurrenceStatus.skipped;
                    compensation_due_at = 0;
                    compensation_attempted = true;
                  })
                  s.occurrences;
            next_runs = delete id s.next_runs;
          },
          record { eligible = allowed; claimed = allowed },
        ))
    else (s, record { eligible = eligible; claimed = false })

unfoldable pub claim_compensation : Config → Bool → String → RuntimeState → RuntimeState × Verdict
claim_compensation cfg eligible id s =
    let s' = ensure_maps s in claim_compensation_entry cfg eligible id (lookup id s'.occurrences) s'
