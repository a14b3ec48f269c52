-- ===== src/App/Execute/Laws.antt =====
-- The runtime as the executor of the scheduler.
use codex_window_reset.Base.{
  ◌≤◌, String, Bool, true, false, not, ◌||◌, List, Option, none, some, some-injective, subst,
  if◌then◌else◌,
}
use codex_window_reset.Domain.Clock.{Time}
use codex_window_reset.Domain.Outcome.{Result, ok, err}
use codex_window_reset.Domain.Operation.{OperationTrigger, PlannedOccurrence, RuntimeState}
use codex_window_reset.Store.Disk.{Disk, StoreError}
use codex_window_reset.Store.Runtime
use codex_window_reset.Quota.Service.Kept.{load-OnDisk}
use codex_window_reset.Schedule.Scheduler.Callbacks.{Environment, Answer}
use codex_window_reset.Schedule.Scheduler.Reconcile.Spent.{Spent}
use codex_window_reset.Schedule.Scheduler.Loop.Quiet.{preheats_of}
use codex_window_reset.Schedule.Scheduler.Loop.Compensated.{KeepsSpent, ExecutorLaws}
use codex_window_reset.Schedule.Scheduler.Commands.{new_scheduler}
use codex_window_reset.Schedule.Scheduler.Commands.Once.{Event, run, run_preheats_once}
use codex_window_reset.App.Runtime.{Account, Services, Runtime, normalize_key}
use codex_window_reset.App.Preheat.{is_scheduled}
use codex_window_reset.App.Execute.{
  execute_preheat, execute_compensation, compensation_eligible, account_eligible, not_held,
}
use codex_window_reset.App.Execute.Once.{execute_preheat-Executed}

-- The runtime that a call of the scheduler meets: the repository and the clock are the scheduler's,
-- all else of it is arbitrary.
abbrev pub met : (Disk RuntimeState → Time → Runtime) → Disk RuntimeState → Time → Runtime
met app d t = record (app d t) { states = d; now = t }

abbrev pub answer_of : {A : Type 0} → Runtime × A → Answer A
answer_of (r, a) = (r.states, r.now, a)

-- The scheduler's environment with the runtime as its executor.
abbrev pub with_runtime :
    Services → (Disk RuntimeState → Time → Runtime) → Environment → Environment
with_runtime sv app env = record env {
  execute_preheat =
      λ o d t. answer_of (execute_preheat sv OperationTrigger.preheat o (met app d t));
  execute_compensation = some (λ o d t. answer_of (execute_compensation sv o (met app d t)));
  compensation_eligible = some (λ o d t. answer_of (compensation_eligible sv o (met app d t)));
}

not_held-keeps :
    (key : String) (r : Runtime) (x : Disk RuntimeState × Result StoreError RuntimeState)
    → KeepsSpent r.states x.0
    → KeepsSpent r.states (not_held key r x).0.states
not_held-keeps key r (d, ok s) h = h
not_held-keeps key r (d, err e) h = h

eligible-keeps :
    (key : String) (r : Runtime) (x : Time × Option Account)
    → KeepsSpent r.states (account_eligible key r x).0.states
eligible-keeps key r (t, none) = λ id h. h
eligible-keeps key r (t, some a) = of_test (a.disabled || a.unavailable) (
    not_held-keeps key (record r { now = t }) (Runtime.load r.states)
      (λ id. load-OnDisk (Spent id) r.states))
  where
    of_test :
        (b : Bool)
        → KeepsSpent r.states (not_held key (record r { now = t }) (Runtime.load r.states)).0.states
        → KeepsSpent r.states
            (if b
              then (record r { now = t }, false)
              else not_held key (record r { now = t }) (Runtime.load r.states)).0.states
    of_test true h = λ id g. g
    of_test false h = h

compensation_eligible-keeps :
    (sv : Services) (o : PlannedOccurrence) (r : Runtime)
    → KeepsSpent r.states (compensation_eligible sv o r).0.states
unfolding compensation_eligible
compensation_eligible-keeps sv o r =
    of_test (not r.config.enabled || not (is_scheduled r.config (normalize_key o.account_key))) _
      (eligible-keeps (normalize_key o.account_key) r (sv.find (normalize_key o.account_key) r.now))
  where
    of_test :
        (b : Bool) (x : Runtime × Bool)
        → KeepsSpent r.states x.0.states
        → KeepsSpent r.states (if b then (r, false) else x).0.states
    of_test true x h = λ id g. g
    of_test false x h = h

-- What the scheduler asks of its executor holds of the runtime: whichever services it has, and in
-- whichever state a call meets it, a preheat, a compensation and an eligibility test plan no
-- occurrence again that was claimed or has ended.
pub with_runtime-ExecutorLaws :
    (sv : Services) (app : Disk RuntimeState → Time → Runtime) (env : Environment)
    → ExecutorLaws (with_runtime sv app env)
unfolding execute_compensation
with_runtime-ExecutorLaws sv app env = record {
  preheat_keeps =
      λ o d t. (execute_preheat-Executed sv OperationTrigger.preheat o (met app d t)).states;
  compensation_keeps = λ f e o d t.
      subst (λ g. KeepsSpent d (g o d t).0) (some-injective e)
        (execute_preheat-Executed sv OperationTrigger.compensation o (met app d t)).states;
  eligibility_keeps = λ f e o d t.
      subst (λ g. KeepsSpent d (g o d t).0) (some-injective e)
        (compensation_eligible-keeps sv o (met app d t));
}

-- The scheduler with this runtime as its executor asks for the preheat of an occurrence at most
-- once, however commands, restarts, stops, faults of the repository and timers follow on each other,
-- and whatever the accounts, the quota endpoint and the probes answer.
pub runtime_preheats_once :
    (sv : Services) (app : Disk RuntimeState → Time → Runtime) (env : Environment) (id : String)
    (d : Disk RuntimeState) (now : Time) (events : List Event)
    → preheats_of id (run (with_runtime sv app env) events (new_scheduler d now)).requests ≤ 1
runtime_preheats_once sv app env id d now events =
    run_preheats_once (with_runtime sv app env) (with_runtime-ExecutorLaws sv app env) id d now
      events
