-- ===== src/Schedule/Scheduler/Commands/Once.antt =====
-- No occurrence is preheated twice, over the life of several processes.
use codex_window_reset.Base.{
  ℕ, ◌≤◌, String, Bool, true, List, [], ◌∷◌, some, none, ◌≡◌, refl, ◌⊎◌, inl, inr, arith, ◌∙◌, not,
  ◌||◌,
}
use codex_window_reset.Base.Assoc.{lookup}
use codex_window_reset.Domain.Clock.{Time}
use codex_window_reset.Domain.Outcome.{Result, ok, err}
use codex_window_reset.Domain.Operation.{RuntimeState}
use codex_window_reset.Domain.Config.{Config}
use codex_window_reset.Store.Disk.{Disk, StoreError}
use codex_window_reset.Store.Runtime
use codex_window_reset.Store.Runtime.{OnDisk}
use codex_window_reset.Schedule.Scheduler.{
  Scheduler, SchedulerError, Command, CommandKind, is_stopped, midnight_timer_id,
  reconcile_retry_timer_id,
}
use codex_window_reset.Schedule.Scheduler.Timers.{schedule_reconcile_retry, stop_timers}
use codex_window_reset.Schedule.Scheduler.Timers.Untouched.{
  untouched, Untouched-if, Untouched-trans, schedule_reconcile_retry-Untouched,
  stop_timers-Untouched,
}
use codex_window_reset.Schedule.Scheduler.Reconcile.Spent.{Spent}
use codex_window_reset.Schedule.Scheduler.Callbacks.{Environment, Step, updated}
use codex_window_reset.Schedule.Scheduler.Loop.{schedule_midnight, reconcile_owned}
use codex_window_reset.Schedule.Scheduler.Loop.Quiet.{
  preheats_of, NonePlanned, Quiet, quiet, Quiet-trans, Quiet-if, Untouched-Quiet, update-Quiet,
}
use codex_window_reset.Schedule.Scheduler.Loop.Executed.{
  reconcile_owned-Quiet, schedule_midnight-Untouched,
}
use codex_window_reset.Schedule.Scheduler.Loop.Compensated.{ExecutorLaws}
use codex_window_reset.Schedule.Scheduler.Loop.Preheated.{
  Effect, Effect-if, consumed-Effect, handle_occurrence-Effect, handle_compensation-Effect,
}
use codex_window_reset.Schedule.Scheduler.Commands.{
  retry_later, midnight_later, handle_reconcile_retry, handle_midnight, dispatch, handle,
  recover_state, recovered, start, stop, new_scheduler,
}
use codex_window_reset.Schedule.Scheduler.Commands.Recovery.{recover_state-Spent}

-- What happens to a scheduler: a command is handled, with or without an interruption between a claim
-- and its request; it is started or stopped; time passes; or the process ends, and a new one makes a
-- scheduler over the same repository.
pub data Event : Type 0 where
  handles : Bool → Config → Command → Event
  starts stops restarts : Event
  passes : Time → Event

abbrev pub step : Environment → Event → Scheduler → Scheduler
step env (Event.handles interrupted cfg c) s = (handle env interrupted cfg c s).0
step env Event.starts s = (start s).0
step env Event.stops s = stop s
step env Event.restarts s = record (new_scheduler s.disk s.now) { requests = s.requests }
step env (Event.passes now) s = record s { now = now }

unfoldable pub run : Environment → List Event → Scheduler → Scheduler
run env [] s = s
run env (e ∷ es) s = run env es (step env e s)

-- At most one preheat so far, and after it the occurrence is spent.
abbrev AtMostOnce : String → Scheduler → Type 0
AtMostOnce id s =
    NonePlanned s.pending_terminal
    × ((preheats_of id s.requests ≡ 0)
        ⊎ ((preheats_of id s.requests ≡ 1) × OnDisk (Spent id) s.disk))

Effect-AtMostOnce :
    (id : String) (s s' : Scheduler) → Effect id s s' → AtMostOnce id s → AtMostOnce id s'
Effect-AtMostOnce id s s' (inl q) (n, inl none_yet) =
    (q.none_planned n, inl (q.same_preheats ∙ none_yet))
Effect-AtMostOnce id s s' (inl q) (n, inr (one, w)) =
    (q.none_planned n, inr (q.same_preheats ∙ one, q.stays_spent n w))
Effect-AtMostOnce id s s' (inr f) (n, inl none_yet) =
    (f.none_planned n, inr (ground (arith, f.one_preheat, none_yet), f.is_spent n))
Effect-AtMostOnce id s s' (inr f) (n, inr (one, w)) = absurd (f.was_fresh w)

module _ (env : Environment) (id : String) where
  retry_later-Quiet : (s : Scheduler) (x : Step) → Quiet id s x.0 → Quiet id s (retry_later env x).0
  retry_later-Quiet s (t, none) q = q
  retry_later-Quiet s (t, some e) q =
      Quiet-trans id s t _ q (Untouched-Quiet id t _ (schedule_reconcile_retry-Untouched t t.now))

  midnight_later-Quiet :
      (s : Scheduler) (x : Step) → Quiet id s x.0 → Quiet id s (midnight_later env x).0
  midnight_later-Quiet s (t, none) q = q
  midnight_later-Quiet s (t, some e) q =
      let u = (schedule_midnight env t.config t).0 in
      Quiet-trans id s t _ q (
        Untouched-Quiet id t _ (
          Untouched-trans t u (schedule_reconcile_retry u t.now)
            (schedule_midnight-Untouched env id t.config t)
            (schedule_reconcile_retry-Untouched u t.now)))

  recovered-Quiet :
      (r : Result StoreError RuntimeState) (s : Scheduler) → Quiet id s (recovered r s).0
  recovered-Quiet (ok state) s = record {
    none_planned = λ n. n;
    same_preheats = refl;
    stays_spent = λ n w. w;
  }
  recovered-Quiet (err e) s = record {
    none_planned = λ n. n;
    same_preheats = refl;
    stays_spent = λ n w. w;
  }

  start-Quiet : (s : Scheduler) → Quiet id s (start s).0
  unfolding start
  start-Quiet s =
      let u = Runtime.update_always (updated recover_state) s.disk in
      let s' = record s { disk = u.0 } in
      Quiet-if (s.started || s.stopped) id s (s, none) (recovered u.1 s') (quiet id s)
        (Quiet-trans id s s' (recovered u.1 s').0
          (update-Quiet (updated recover_state) id s (recover_state-Spent id))
          (recovered-Quiet u.1 s'))

  stop-Quiet : (s : Scheduler) → Quiet id s (stop s)
  unfolding stop
  stop-Quiet s =
      let marked : Scheduler = record s { stopping = true; stopped = true } in
      Untouched-Quiet id s (stop s) (
        Untouched-if (not s.started) s _ _ (record { disk = refl; pending = refl; requests = refl })
          (Untouched-if (s.stopping || s.stopped) s s (stop_timers marked) (untouched s) (
            Untouched-trans s marked (stop_timers marked)
              (record { disk = refl; pending = refl; requests = refl })
              (stop_timers-Untouched marked))))

module _ (env : Environment) (laws : ExecutorLaws env) (id : String) where
  dispatch-Effect :
      (interrupted : Bool) (cfg : Config) (kind : CommandKind) (k : String) (generation : ℕ)
      (s : Scheduler)
      → NonePlanned s.pending_terminal
      → Effect id s (dispatch env interrupted cfg kind k generation s).0
  unfolding handle_reconcile_retry handle_midnight
  dispatch-Effect interrupted cfg CommandKind.reconcile k generation s n =
      let s' = record s { config = cfg } in
      let q = reconcile_owned-Quiet env id cfg s' in
      inl (record {
        none_planned = q.none_planned;
        same_preheats = q.same_preheats;
        stays_spent = q.stays_spent;
      })
  dispatch-Effect interrupted cfg CommandKind.occurrence k generation s n =
      handle_occurrence-Effect env laws id interrupted k generation s n
  dispatch-Effect interrupted cfg CommandKind.compensation k generation s n =
      handle_compensation-Effect env laws id interrupted k generation s n
  dispatch-Effect interrupted cfg CommandKind.reconcile_retry k generation s n =
      consumed-Effect env laws id reconcile_retry_timer_id generation s
        (λ t. retry_later env (reconcile_owned env t.config t)) n
        (λ t h. inl (retry_later-Quiet env id t _ (reconcile_owned-Quiet env id t.config t)))
  dispatch-Effect interrupted cfg CommandKind.midnight k generation s n =
      consumed-Effect env laws id midnight_timer_id generation s
        (λ t. midnight_later env (reconcile_owned env t.config t)) n
        (λ t h. inl (midnight_later-Quiet env id t _ (reconcile_owned-Quiet env id t.config t)))

  step-Effect :
      (e : Event) (s : Scheduler) → NonePlanned s.pending_terminal → Effect id s (step env e s)
  unfolding handle new_scheduler lookup
  step-Effect (Event.handles interrupted cfg c) s n =
      Effect-if (is_stopped s) id s (s, some SchedulerError.stopped)
        (dispatch env interrupted cfg c.kind c.id c.generation s) (inl (quiet id s))
        (dispatch-Effect interrupted cfg c.kind c.id c.generation s n)
  step-Effect Event.starts s n = inl (start-Quiet env id s)
  step-Effect Event.stops s n = inl (stop-Quiet env id s)
  step-Effect Event.restarts s n =
      inl (record { none_planned = λ h k p e. cc; same_preheats = refl; stays_spent = λ h w. w })
  step-Effect (Event.passes now) s n =
      inl (record { none_planned = λ h. h; same_preheats = refl; stays_spent = λ h w. w })

  run-AtMostOnce :
      (es : List Event) (s : Scheduler) → AtMostOnce id s → AtMostOnce id (run env es s)
  unfolding run
  run-AtMostOnce [] s h = h
  run-AtMostOnce (e ∷ es) s h =
      run-AtMostOnce es (step env e s)
        (Effect-AtMostOnce id s (step env e s) (step-Effect e s h.0) h)

  at_most : (s : Scheduler) → AtMostOnce id s → preheats_of id s.requests ≤ 1
  at_most s (n, inl none_yet) = ground (arith, none_yet)
  at_most s (n, inr (one, w)) = ground (arith, one)

-- However commands, restarts and stops follow on each other, whichever reads and writes of the
-- repository fail, and whichever timers ring late or twice: the executor is called for the preheat
-- of an occurrence at most once. The executor is relied on to plan no occurrence again.
pub run_preheats_once :
    (env : Environment)
    → ExecutorLaws env
    → (id : String) (d : Disk RuntimeState) (now : Time) (events : List Event)
    → preheats_of id (run env events (new_scheduler d now)).requests ≤ 1
unfolding new_scheduler preheats_of lookup
run_preheats_once env laws id d now events =
    at_most env laws id (run env events (new_scheduler d now))
      (run-AtMostOnce env laws id events (new_scheduler d now) ((λ k p e. cc), inl refl))
