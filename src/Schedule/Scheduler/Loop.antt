-- ===== src/Schedule/Scheduler/Loop.antt =====
-- reconcileOwned, handleOccurrence and handleCompensation of internal/schedule/scheduler.go. Whether
-- Stop closes the execution gate between a claim and its request is the argument `interrupted`.
pub mod Quiet
pub mod Executed
pub mod Compensated
pub mod Preheated
pub mod Due
use codex_window_reset.Base.{
  ℕ, suc, zero, ◌+◌, String, Bool, true, false, not, ◌&&◌, ◌||◌, List, [], ◌∷◌, ◌++◌, Option, none,
  some, if◌then◌else◌,
}
use codex_window_reset.Base.Assoc.{lookup, insert, delete}
use codex_window_reset.Domain.Clock.{Time}
use codex_window_reset.Domain.Outcome.{Result, ok, err}
use codex_window_reset.Domain.Operation.{
  OperationRecord, PlannedOccurrence, OccurrenceState, RuntimeState,
}
use codex_window_reset.Domain.Config.{Config}
use codex_window_reset.Store.Disk.{Disk, StoreError}
use codex_window_reset.Store.Runtime
use codex_window_reset.Schedule.Scheduler.{
  Scheduler, CommandKind, PendingTerminal, Request, SchedulerError, midnight_timer_id,
  compensation_timer_id, is_stopped, status_for_record,
}
use codex_window_reset.Schedule.Scheduler.Timers.{
  replace_timer, consume_timer, retry_timer, schedule_reconcile_retry, cancel_occurrence_timers,
}
use codex_window_reset.Schedule.Scheduler.Reconcile.{reconcile_state, disable_state}
use codex_window_reset.Schedule.Scheduler.Watch.{same_due, reconcile_timers}
use codex_window_reset.Schedule.Scheduler.Callbacks.{
  Environment, Answer, Step, Verdict, updated, compensable, persist_terminal, claim,
  claim_compensation,
}

-- The request is a ghost record: it is written where the executor is called, newest first.
abbrev pub enter : Request → Scheduler → Scheduler
enter r s = record s { requests = r ∷ s.requests }

abbrev pub answered : {A : Type 0} → Answer A → Scheduler → Scheduler
answered (d, t, a) s = record s { disk = d; now = t }

abbrev pub Execute : Type 0
Execute = PlannedOccurrence → Disk RuntimeState → Time → Answer OperationRecord

-- An executor without a path for compensations runs them as preheats.
abbrev pub compensator : Option Execute → Execute → Execute
compensator none preheat = preheat
compensator (some execute) preheat = execute

module _ (env : Environment) where
  unfoldable pub schedule_midnight : Config → Scheduler → Step
  schedule_midnight cfg s =
      let next = env.next_midnight cfg.timezone s.now in
      if not (env.zone_known cfg.timezone)
      then (s, some SchedulerError.timezone)
      else if same_due (lookup midnight_timer_id s.timer_due) next
      then (s, none)
      else (replace_timer s midnight_timer_id next s.now CommandKind.midnight "", none)

  -- The plans of `days` days from `day` on; an error of one day is the result.
  unfoldable pub plan_days : Config → ℕ → ℕ → Option (List PlannedOccurrence)
  plan_days cfg zero day = some []
  plan_days cfg (suc days) day =
      let rest = plan_days cfg days (day + 1) in
      elim (env.plan_day cfg day) [
        | none ↦ none
        | some plans ↦ elim rest [ none ↦ none | some more ↦ some (plans ++ more) ]
      ]

  abbrev replanned : Config → Result StoreError RuntimeState → Scheduler → Step
  replanned cfg (err e) s = (s, some SchedulerError.update_failed)
  replanned cfg (ok state) s = schedule_midnight cfg (reconcile_timers state s.now s)

  abbrev disabled : Config → Result StoreError RuntimeState → Scheduler → Step
  disabled cfg (err e) s = (s, some SchedulerError.update_failed)
  disabled cfg (ok state) s = schedule_midnight cfg (cancel_occurrence_timers s)

  abbrev apply_plans : Config → Option (List PlannedOccurrence) → Scheduler → Step
  apply_plans cfg none s = (s, some SchedulerError.plan_failed)
  apply_plans cfg (some plans) s =
      let (d, r) = Runtime.update_always (updated (reconcile_state s.now plans)) s.disk in
      replanned cfg r (record s { disk = d })

  -- Today and the seven days after it.
  unfoldable pub reconcile_owned : Config → Scheduler → Step
  reconcile_owned cfg s =
      if not cfg.enabled
      then (let (d, r) = Runtime.update_always (updated disable_state) s.disk in
          disabled cfg r (record s { disk = d }))
      else if not (env.zone_known cfg.timezone)
      then (s, some SchedulerError.timezone)
      else apply_plans cfg (plan_days cfg 8 (env.local_day cfg.timezone s.now)) s

  abbrev pub after_reconcile : Step → Step
  after_reconcile (s, none) = (s, none)
  after_reconcile (s, some e) =
      (schedule_reconcile_retry s s.now, some SchedulerError.reconcile_failed)

  unfoldable pub reconcile_after_callback : Scheduler → Step
  reconcile_after_callback s = after_reconcile (reconcile_owned s.config s)

  -- errors.Join keeps the first error.
  abbrev pub join : Option SchedulerError → Step → Step
  join none (s, e) = (s, e)
  join (some e) (s, e') = (s, some e)

  abbrev pub forget : String → Scheduler → Scheduler
  forget id s = record s { pending_terminal = delete id s.pending_terminal }

  abbrev pub remember : String → PendingTerminal → Scheduler → Scheduler
  remember id p s = record s { pending_terminal = insert id p s.pending_terminal }

  -- The write of a terminal state that failed before is tried again; nothing is executed.
  pub retry_terminal : String → String → PendingTerminal → Scheduler → Step
  retry_terminal id timer_id p s =
      let (s', saved) = persist_terminal id p s in
      if saved
      then reconcile_after_callback (forget id s')
      else (retry_timer s' timer_id p.kind s.now, some SchedulerError.save_failed)

  -- The terminal state of a request; `now` is the instant from which a retry of the write counts.
  unfoldable pub finish : String → String → PendingTerminal → Time → Scheduler → Step
  finish id timer_id p now s =
      let (s', saved) = persist_terminal id p s in
      if saved
      then reconcile_after_callback (forget id s')
      else join (some SchedulerError.save_failed)
          (reconcile_after_callback (retry_timer (remember id p s') timer_id p.kind now))

  abbrev pub run_occurrence : Bool → String → Time → Option PlannedOccurrence → Scheduler → Step
  run_occurrence interrupted id now none s = (s, none)
  run_occurrence interrupted id now (some o) s =
      if is_stopped s || interrupted
      then (s, none)
      else (let answer = env.execute_preheat o s.disk s.now in
          let pending : PendingTerminal = record {
            kind = CommandKind.occurrence;
            status = status_for_record answer.2;
          } in
          finish id id pending now (answered answer (enter (Request.preheats id) s)))

  abbrev claimed_or_retry :
      Bool → String → Result StoreError (Option PlannedOccurrence) → Scheduler → Step
  claimed_or_retry interrupted id (err e) s =
      (retry_timer s id CommandKind.occurrence s.now, some SchedulerError.claim_failed)
  claimed_or_retry interrupted id (ok claimed) s = run_occurrence interrupted id s.now claimed s

  -- handleOccurrence once its timer is consumed.
  unfoldable pub claim_and_run : Bool → String → Scheduler → Step
  claim_and_run interrupted id s =
      let (d, r) = Runtime.update_always (claim s.config s.now id) s.disk in
      claimed_or_retry interrupted id r (record s { disk = d })

  abbrev pub is_occurrence : CommandKind → Bool
  is_occurrence CommandKind.occurrence = true
  is_occurrence _ = false

  abbrev pub is_compensation : CommandKind → Bool
  is_compensation CommandKind.compensation = true
  is_compensation _ = false

  abbrev pub occurrence_with : Bool → String → Option PendingTerminal → Scheduler → Step
  occurrence_with interrupted id none s = claim_and_run interrupted id s
  occurrence_with interrupted id (some p) s =
      if is_occurrence p.kind then retry_terminal id id p s else claim_and_run interrupted id s

  unfoldable pub handle_occurrence : Bool → String → ℕ → Scheduler → Step
  handle_occurrence interrupted id generation s =
      let (s', owned) = consume_timer s id generation in
      if owned
      then occurrence_with interrupted id (lookup id s'.pending_terminal) s'
      else (s', none)

  abbrev pub run_compensation : Bool → String → PlannedOccurrence → Scheduler → Step
  run_compensation interrupted id o s =
      if is_stopped s || interrupted
      then (s, none)
      else (let answer = compensator env.execute_compensation env.execute_preheat o s.disk s.now in
          let pending : PendingTerminal = record {
            kind = CommandKind.compensation;
            status = status_for_record answer.2;
          } in
          let s' = answered answer (enter (Request.compensates id) s) in
          finish id (compensation_timer_id id) pending s'.now s')

  abbrev pub with_verdict : Bool → String → PlannedOccurrence → Verdict → Scheduler → Step
  with_verdict interrupted id o v s =
      if not v.claimed && v.eligible
      then (s, none)
      else if not v.eligible
      then reconcile_after_callback s
      else run_compensation interrupted id o s

  abbrev pub eligibility : PlannedOccurrence → Scheduler → Answer Bool
  eligibility o s = elim env.compensation_eligible [
    | none ↦ (s.disk, s.now, true)
    | some f ↦ f o s.disk s.now
  ]

  abbrev consumed_or_retry :
      Bool → String → PlannedOccurrence → Result StoreError Verdict → Scheduler → Step
  consumed_or_retry interrupted id o (err e) s = (
    retry_timer s (compensation_timer_id id) CommandKind.compensation s.now,
    some SchedulerError.claim_failed,
  )
  consumed_or_retry interrupted id o (ok v) s = with_verdict interrupted id o v s

  -- Eligibility is asked outside the transaction, which tests the state once more.
  pub claim_and_compensate : Bool → String → PlannedOccurrence → Scheduler → Step
  claim_and_compensate interrupted id o s =
      let answer = eligibility o s in
      let s' = answered answer s in
      let (d, r) = Runtime.update_always (claim_compensation s'.config answer.2 id) s'.disk in
      consumed_or_retry interrupted id o r (record s' { disk = d })

  abbrev pub compensate_entry :
      Bool → String → RuntimeState → Option OccurrenceState → Scheduler → Step
  compensate_entry interrupted id state none s = (s, none)
  compensate_entry interrupted id state (some o) s =
      if compensable s.config o (lookup id state.next_runs)
      then claim_and_compensate interrupted id o.occurrence s
      else (s, none)

  abbrev loaded_or_retry : Bool → String → Result StoreError RuntimeState → Scheduler → Step
  loaded_or_retry interrupted id (err e) s = (
    retry_timer s (compensation_timer_id id) CommandKind.compensation s.now,
    some SchedulerError.load_failed,
  )
  loaded_or_retry interrupted id (ok state) s =
      compensate_entry interrupted id state (lookup id state.occurrences) s

  -- handleCompensation once its timer is consumed and no terminal write is pending.
  pub load_and_compensate : Bool → String → Scheduler → Step
  load_and_compensate interrupted id s =
      let (d, r) = Runtime.load s.disk in loaded_or_retry interrupted id r (record s { disk = d })

  abbrev pub compensation_with : Bool → String → Option PendingTerminal → Scheduler → Step
  compensation_with interrupted id none s = load_and_compensate interrupted id s
  compensation_with interrupted id (some p) s =
      if is_compensation p.kind
      then retry_terminal id (compensation_timer_id id) p s
      else load_and_compensate interrupted id s

  pub handle_compensation : Bool → String → ℕ → Scheduler → Step
  handle_compensation interrupted id generation s =
      let (s', owned) = consume_timer s (compensation_timer_id id) generation in
      if owned
      then compensation_with interrupted id (lookup id s'.pending_terminal) s'
      else (s', none)
