-- ===== src/Schedule/Scheduler/Loop/Compensated.antt =====
-- A compensation starts no preheat, and forgets none.
use codex_window_reset.Base.{
  String, Bool, false, not, ◌&&◌, ◌||◌, Option, some, none, ◌≡◌, refl, inl, inr, Option-cases,
}
use codex_window_reset.Base.Assoc.{lookup}
use codex_window_reset.Domain.Clock.{Time}
use codex_window_reset.Domain.Outcome.{Result, ok, err}
use codex_window_reset.Domain.Operation.{OccurrenceState, PlannedOccurrence, RuntimeState}
use codex_window_reset.Store.Disk.{Disk, StoreError}
use codex_window_reset.Store.Runtime
use codex_window_reset.Store.Runtime.{OnDisk}
use codex_window_reset.Schedule.Scheduler.{
  Scheduler, PendingTerminal, CommandKind, Request, is_planned, is_stopped, compensation_timer_id,
  status_for_record,
}
use codex_window_reset.Schedule.Scheduler.Timers.Untouched.{retry_timer-Untouched}
use codex_window_reset.Schedule.Scheduler.Reconcile.Spent.{Spent}
use codex_window_reset.Schedule.Scheduler.Callbacks.{
  Environment, Answer, Verdict, compensable, claim_compensation,
}
use codex_window_reset.Schedule.Scheduler.Callbacks.Claims.{claim_compensation-Spent}
use codex_window_reset.Schedule.Scheduler.Loop.{
  Execute, enter, answered, compensator, consumed_or_retry, loaded_or_retry,
  reconcile_after_callback, retry_terminal, finish, is_compensation, run_compensation, with_verdict,
  eligibility, claim_and_compensate, compensate_entry, load_and_compensate, compensation_with,
}
use codex_window_reset.Schedule.Scheduler.Loop.Quiet.{
  preheats_of, Quiet, quiet, Quiet-trans, Quiet-if, Untouched-Quiet, load-Quiet,
}
use codex_window_reset.Schedule.Scheduler.Loop.Executed.{
  status_for_outcome-not_planned, updated-Quiet, retry_terminal-Quiet, finish-Quiet,
  reconcile_after_callback-Quiet,
}

-- A call that plans no occurrence again which was claimed or has ended.
abbrev pub KeepsSpent : Disk RuntimeState → Disk RuntimeState → Type 0
KeepsSpent d d' = (id : String) → OnDisk (Spent id) d → OnDisk (Spent id) d'

-- What the scheduler relies on in its executor: a request sets compensations and guardrail holds,
-- and plans nothing.
pub record ExecutorLaws (env : Environment) : Type 0 where
  pub preheat_keeps :
      (o : PlannedOccurrence) (d : Disk RuntimeState) (t : Time)
      → KeepsSpent d (env.execute_preheat o d t).0
  pub compensation_keeps :
      (f : Execute)
      → env.execute_compensation ≡ some f
      → (o : PlannedOccurrence) (d : Disk RuntimeState) (t : Time) → KeepsSpent d (f o d t).0
  pub eligibility_keeps :
      (f : PlannedOccurrence → Disk RuntimeState → Time → Answer Bool)
      → env.compensation_eligible ≡ some f
      → (o : PlannedOccurrence) (d : Disk RuntimeState) (t : Time) → KeepsSpent d (f o d t).0

module _ (env : Environment) (id : String) where
  -- A call of the executor, but for the request itself.
  answered-Quiet :
      {A : Type 0} (a : Answer A) (s : Scheduler)
      → KeepsSpent s.disk a.0
      → Quiet id s (answered a s)
  answered-Quiet a s keep = record {
    none_planned = λ n. n;
    same_preheats = refl;
    stays_spent = λ n w. keep id w;
  }

  module _ (laws : ExecutorLaws env) where
    compensator_keeps :
        (o : PlannedOccurrence) (d : Disk RuntimeState) (t : Time)
        → KeepsSpent d (compensator env.execute_compensation env.execute_preheat o d t).0
    compensator_keeps o d t = elim (Option-cases env.execute_compensation) [
      | inl e ↦ rw e (laws.preheat_keeps o d t)
      | inr (f, e) ↦ rw e (laws.compensation_keeps f e o d t)
    ]

    run_compensation-Quiet :
        (interrupted : Bool) (k : String) (o : PlannedOccurrence) (s : Scheduler)
        → Quiet id s (run_compensation env interrupted k o s).0
    unfolding preheats_of
    run_compensation-Quiet interrupted k o s =
        let a = compensator env.execute_compensation env.execute_preheat o s.disk s.now in
        let asked = enter (Request.compensates k) s in
        let after = answered a asked in
        let p : PendingTerminal = record {
          kind = CommandKind.compensation;
          status = status_for_record a.2;
        } in
        let last = finish env k (compensation_timer_id k) p after.now after in
        let q : Quiet id s after = record {
          none_planned = λ n. n;
          same_preheats = refl;
          stays_spent = λ n w. compensator_keeps o s.disk s.now id w;
        } in
        Quiet-if (is_stopped s || interrupted) id s (s, none) last (quiet id s)
          (Quiet-trans id s after last.0 q (
            finish-Quiet env id k (compensation_timer_id k) p after.now after
              (status_for_outcome-not_planned a.2.request_outcome)))

    with_verdict-Quiet :
        (interrupted : Bool) (k : String) (o : PlannedOccurrence) (v : Verdict) (s : Scheduler)
        → Quiet id s (with_verdict env interrupted k o v s).0
    with_verdict-Quiet interrupted k o v s =
        Quiet-if (not v.claimed && v.eligible) id s (s, none) _ (quiet id s)
          (Quiet-if (not v.eligible) id s (reconcile_after_callback env s)
            (run_compensation env interrupted k o s) (reconcile_after_callback-Quiet env id s)
            (run_compensation-Quiet interrupted k o s))

    consumed_or_retry-Quiet :
        (interrupted : Bool) (k : String) (o : PlannedOccurrence) (r : Result StoreError Verdict)
        (s : Scheduler)
        → Quiet id s (consumed_or_retry env interrupted k o r s).0
    consumed_or_retry-Quiet interrupted k o (err e) s =
        Untouched-Quiet id s _
          (retry_timer-Untouched s (compensation_timer_id k) CommandKind.compensation s.now)
    consumed_or_retry-Quiet interrupted k o (ok v) s = with_verdict-Quiet interrupted k o v s

    eligibility_keeps :
        (o : PlannedOccurrence) (s : Scheduler) → KeepsSpent s.disk (eligibility env o s).0
    eligibility_keeps o s = elim (Option-cases env.compensation_eligible) [
      | inl e ↦ rw e (λ j w. w)
      | inr (f, e) ↦ rw e (laws.eligibility_keeps f e o s.disk s.now)
    ]

    claim_and_compensate-Quiet :
        (interrupted : Bool) (k : String) (o : PlannedOccurrence) (s : Scheduler)
        → Quiet id s (claim_and_compensate env interrupted k o s).0
    unfolding claim_and_compensate
    claim_and_compensate-Quiet interrupted k o s =
        let a = eligibility env o s in
        let s' = answered a s in
        Quiet-trans id s s' _ (answered-Quiet a s (eligibility_keeps o s)) (
          updated-Quiet env id (claim_compensation s'.config a.2 k) s'
            (consumed_or_retry env interrupted k o) (claim_compensation-Spent s'.config a.2 k id)
            (consumed_or_retry-Quiet interrupted k o))

    compensate_entry-Quiet :
        (interrupted : Bool) (k : String) (state : RuntimeState) (o : Option OccurrenceState)
        (s : Scheduler)
        → Quiet id s (compensate_entry env interrupted k state o s).0
    compensate_entry-Quiet interrupted k state none s = quiet id s
    compensate_entry-Quiet interrupted k state (some o) s =
        Quiet-if (compensable s.config o (lookup k state.next_runs)) id s
          (claim_and_compensate env interrupted k o.occurrence s) (s, none)
          (claim_and_compensate-Quiet interrupted k o.occurrence s) (quiet id s)

    loaded_or_retry-Quiet :
        (interrupted : Bool) (k : String) (r : Result StoreError RuntimeState) (s : Scheduler)
        → Quiet id s (loaded_or_retry env interrupted k r s).0
    loaded_or_retry-Quiet interrupted k (err e) s =
        Untouched-Quiet id s _
          (retry_timer-Untouched s (compensation_timer_id k) CommandKind.compensation s.now)
    loaded_or_retry-Quiet interrupted k (ok state) s =
        compensate_entry-Quiet interrupted k state (lookup k state.occurrences) s

    load_and_compensate-Quiet :
        (interrupted : Bool) (k : String) (s : Scheduler)
        → Quiet id s (load_and_compensate env interrupted k s).0
    unfolding load_and_compensate
    load_and_compensate-Quiet interrupted k s =
        let l = Runtime.load s.disk in
        let s' = record s { disk = l.0 } in
        Quiet-trans id s s' (loaded_or_retry env interrupted k l.1 s').0 (load-Quiet id s)
          (loaded_or_retry-Quiet interrupted k l.1 s')

    pub compensation_with-Quiet :
        (interrupted : Bool) (k : String) (p : Option PendingTerminal) (s : Scheduler)
        → ((q : PendingTerminal) → p ≡ some q → is_planned q.status ≡ false)
        → Quiet id s (compensation_with env interrupted k p s).0
    compensation_with-Quiet interrupted k none s n = load_and_compensate-Quiet interrupted k s
    compensation_with-Quiet interrupted k (some q) s n =
        Quiet-if (is_compensation env q.kind) id s
          (retry_terminal env k (compensation_timer_id k) q s)
          (load_and_compensate env interrupted k s)
          (retry_terminal-Quiet env id k (compensation_timer_id k) q s (n q refl))
          (load_and_compensate-Quiet interrupted k s)
