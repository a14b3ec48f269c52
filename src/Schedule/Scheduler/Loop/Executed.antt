-- ===== src/Schedule/Scheduler/Loop/Executed.antt =====
-- A reconciliation and a terminal write start no preheat, and forget none.
use codex_window_reset.Base.{
  String, false, not, List, Option, some, none, ◌≡◌, refl, inl, inr, Bool-cases,
}
use codex_window_reset.Base.Assoc.{lookup}
use codex_window_reset.Domain.Clock.{Time}
use codex_window_reset.Domain.Outcome.{Result, ok, err, RequestOutcome}
use codex_window_reset.Domain.Operation.{PlannedOccurrence, RuntimeState}
use codex_window_reset.Domain.Config.{Config}
use codex_window_reset.Store.Disk.{StoreError}
use codex_window_reset.Store.Runtime
use codex_window_reset.Store.Runtime.{OnDisk}
use codex_window_reset.Schedule.Scheduler.{
  Scheduler, PendingTerminal, CommandKind, SchedulerError, is_planned, midnight_timer_id,
  status_for_outcome,
}
use codex_window_reset.Schedule.Scheduler.Timers.{retry_timer, cancel_occurrence_timers}
use codex_window_reset.Schedule.Scheduler.Timers.Untouched.{
  Untouched, untouched, Untouched-trans, replace_timer-Untouched, retry_timer-Untouched,
  schedule_reconcile_retry-Untouched, cancel_occurrence_timers-Untouched,
}
use codex_window_reset.Schedule.Scheduler.Watch.{same_due, reconcile_timers}
use codex_window_reset.Schedule.Scheduler.Watch.Untouched.{reconcile_timers-Untouched}
use codex_window_reset.Schedule.Scheduler.Reconcile.{reconcile_state, disable_state}
use codex_window_reset.Schedule.Scheduler.Reconcile.Spent.{
  Spent, reconcile_state-Spent, disable_state-Spent,
}
use codex_window_reset.Schedule.Scheduler.Callbacks.{Environment, Step, updated, persist_terminal}
use codex_window_reset.Schedule.Scheduler.Loop.{
  schedule_midnight, plan_days, apply_plans, replanned, disabled, reconcile_owned, after_reconcile,
  reconcile_after_callback, join, forget, remember, retry_terminal, finish,
}
use codex_window_reset.Schedule.Scheduler.Loop.Quiet.{
  Quiet, quiet, Quiet-trans, Quiet-if, Untouched-Quiet, update-Quiet, persist_terminal-Quiet,
  forget-NonePlanned, remember-NonePlanned, pending-Quiet,
}

pub status_for_outcome-not_planned :
    (r : RequestOutcome) → is_planned (status_for_outcome r) ≡ false
status_for_outcome-not_planned RequestOutcome.succeeded = refl
status_for_outcome-not_planned RequestOutcome.disabled = refl
status_for_outcome-not_planned RequestOutcome.unset = refl
status_for_outcome-not_planned RequestOutcome.unauthorized = refl
status_for_outcome-not_planned RequestOutcome.forbidden = refl
status_for_outcome-not_planned RequestOutcome.payment_required = refl
status_for_outcome-not_planned RequestOutcome.rate_limited = refl
status_for_outcome-not_planned RequestOutcome.upstream_error = refl
status_for_outcome-not_planned RequestOutcome.network_error = refl
status_for_outcome-not_planned RequestOutcome.timeout = refl
status_for_outcome-not_planned RequestOutcome.response_error = refl
status_for_outcome-not_planned RequestOutcome.unexpected_output = refl
status_for_outcome-not_planned RequestOutcome.credential_error = refl

module _ (env : Environment) (id : String) where
  pub schedule_midnight-Untouched :
      (cfg : Config) (s : Scheduler) → Untouched s (schedule_midnight env cfg s).0
  unfolding schedule_midnight
  schedule_midnight-Untouched cfg s = elim (Bool-cases (env.zone_known cfg.timezone)) [
    | inr f ↦ rw f (untouched s)
    | inl t ↦
        elim (Bool-cases (
          same_due (lookup midnight_timer_id s.timer_due) (env.next_midnight cfg.timezone s.now))) [
            | inl e ↦ rw (t, e) (untouched s)
            | inr n ↦
                rw (t, n)
                  (replace_timer-Untouched s midnight_timer_id
                    (env.next_midnight cfg.timezone s.now) s.now CommandKind.midnight "")
          ]
  ]

  after_update :
      (cfg : Config) (s s' : Scheduler)
      → Untouched s s'
      → Quiet id s (schedule_midnight env cfg s').0
  after_update cfg s s' h =
      Untouched-Quiet id s (schedule_midnight env cfg s').0 (
        Untouched-trans s s' (schedule_midnight env cfg s').0 h
          (schedule_midnight-Untouched cfg s'))

  replanned-Quiet :
      (cfg : Config) (r : Result StoreError RuntimeState) (s : Scheduler)
      → Quiet id s (replanned env cfg r s).0
  replanned-Quiet cfg (err e) s = quiet id s
  replanned-Quiet cfg (ok state) s =
      after_update cfg s (reconcile_timers state s.now s) (reconcile_timers-Untouched state s.now s)

  disabled-Quiet :
      (cfg : Config) (r : Result StoreError RuntimeState) (s : Scheduler)
      → Quiet id s (disabled env cfg r s).0
  disabled-Quiet cfg (err e) s = quiet id s
  disabled-Quiet cfg (ok state) s =
      after_update cfg s (cancel_occurrence_timers s) (cancel_occurrence_timers-Untouched s)

  -- An update, and what follows it.
  pub updated-Quiet :
      {A : Type 0} (f : RuntimeState → RuntimeState × A) (s : Scheduler)
      (next : Result StoreError A → Scheduler → Step)
      → ((x : RuntimeState) → Spent id x → Spent id (f x).0)
      → ((r : Result StoreError A) (t : Scheduler) → Quiet id t (next r t).0)
      → let u = Runtime.update_always f s.disk in Quiet id s (next u.1 (record s { disk = u.0 })).0
  updated-Quiet f s next keep q =
      let u = Runtime.update_always f s.disk in
      let s' = record s { disk = u.0 } in
      Quiet-trans id s s' (next u.1 s').0 (update-Quiet f id s keep) (q u.1 s')

  apply_plans-Quiet :
      (cfg : Config) (plans : Option (List PlannedOccurrence)) (s : Scheduler)
      → Quiet id s (apply_plans env cfg plans s).0
  apply_plans-Quiet cfg none s = quiet id s
  apply_plans-Quiet cfg (some plans) s =
      updated-Quiet (updated (reconcile_state s.now plans)) s (replanned env cfg)
        (reconcile_state-Spent s.now plans id) (replanned-Quiet cfg)

  pub reconcile_owned-Quiet :
      (cfg : Config) (s : Scheduler) → Quiet id s (reconcile_owned env cfg s).0
  unfolding reconcile_owned
  reconcile_owned-Quiet cfg s =
      Quiet-if (not cfg.enabled) id s _ _
        (updated-Quiet (updated disable_state) s (disabled env cfg) (disable_state-Spent id)
          (disabled-Quiet cfg))
        (Quiet-if (not (env.zone_known cfg.timezone)) id s (s, some SchedulerError.timezone) _
          (quiet id s)
          (apply_plans-Quiet cfg (plan_days env cfg 8 (env.local_day cfg.timezone s.now)) s))

  after_reconcile-Quiet :
      (s : Scheduler) (x : Step) → Quiet id s x.0 → Quiet id s (after_reconcile env x).0
  after_reconcile-Quiet s (t, none) q = q
  after_reconcile-Quiet s (t, some e) q =
      Quiet-trans id s t _ q (Untouched-Quiet id t _ (schedule_reconcile_retry-Untouched t t.now))

  pub reconcile_after_callback-Quiet :
      (s : Scheduler) → Quiet id s (reconcile_after_callback env s).0
  unfolding reconcile_after_callback
  reconcile_after_callback-Quiet s =
      after_reconcile-Quiet s (reconcile_owned env s.config s) (reconcile_owned-Quiet s.config s)

  forgotten-Quiet :
      (k : String) (s t : Scheduler)
      → Quiet id s t
      → Quiet id s (reconcile_after_callback env (forget env k t)).0
  forgotten-Quiet k s t q =
      let u = forget env k t in
      Quiet-trans id s u _
        (Quiet-trans id s t u q (pending-Quiet id t _ (forget-NonePlanned k t.pending_terminal)))
        (reconcile_after_callback-Quiet u)

  pub retry_terminal-Quiet :
      (k timer_id : String) (p : PendingTerminal) (s : Scheduler)
      → is_planned p.status ≡ false
      → Quiet id s (retry_terminal env k timer_id p s).0
  unfolding retry_terminal
  retry_terminal-Quiet k timer_id p s n =
      let r = persist_terminal k p s in
      let q = persist_terminal-Quiet id k p s n in
      Quiet-if r.1 id s (reconcile_after_callback env (forget env k r.0))
        (retry_timer r.0 timer_id p.kind s.now, some SchedulerError.save_failed)
        (forgotten-Quiet k s r.0 q)
        (Quiet-trans id s r.0 (retry_timer r.0 timer_id p.kind s.now) q
          (Untouched-Quiet id r.0 _ (retry_timer-Untouched r.0 timer_id p.kind s.now)))

  pub finish-Quiet :
      (k timer_id : String) (p : PendingTerminal) (now : Time) (s : Scheduler)
      → is_planned p.status ≡ false
      → Quiet id s (finish env k timer_id p now s).0
  unfolding finish
  finish-Quiet k timer_id p now s n =
      let r = persist_terminal k p s in
      let q = persist_terminal-Quiet id k p s n in
      let kept = remember env k p r.0 in
      let timed = retry_timer kept timer_id p.kind now in
      Quiet-if r.1 id s (reconcile_after_callback env (forget env k r.0))
        (join env (some SchedulerError.save_failed) (reconcile_after_callback env timed))
        (forgotten-Quiet k s r.0 q)
        (Quiet-trans id s timed (reconcile_after_callback env timed).0
          (Quiet-trans id s kept timed
            (Quiet-trans id s r.0 kept q
              (pending-Quiet id r.0 _ (remember-NonePlanned k p r.0.pending_terminal n)))
            (Untouched-Quiet id kept timed (retry_timer-Untouched kept timer_id p.kind now)))
          (reconcile_after_callback-Quiet timed))
