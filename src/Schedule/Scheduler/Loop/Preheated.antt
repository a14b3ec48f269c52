-- ===== src/Schedule/Scheduler/Loop/Preheated.antt =====
-- handleOccurrence preheats an occurrence that no preheat was started for.
use codex_window_reset.Base.{
  ℕ, suc, String, Bool, true, false, ◌||◌, Option, some, none, ◌≡◌, refl, ◌⊎◌, inl, inr, arith,
  if◌then◌else◌, Bool-cases, ◌∙◌, ap, sym, subst,
}
use codex_window_reset.Base.Assoc.{lookup}
use codex_window_reset.Base.Text.{str_eq, eq_iff}
use codex_window_reset.Domain.Clock.{Time}
use codex_window_reset.Domain.Outcome.{Result, ok, err}
use codex_window_reset.Domain.Operation.{OccurrenceStatus, PlannedOccurrence, RuntimeState}
use codex_window_reset.Domain.Config.{Config}
use codex_window_reset.Store.Disk.{Disk, StoreError}
use codex_window_reset.Store.Runtime
use codex_window_reset.Store.Runtime.{OnDisk}
use codex_window_reset.Schedule.Scheduler.{
  Scheduler, PendingTerminal, CommandKind, Request, is_planned, is_stopped, compensation_timer_id,
  status_for_record,
}
use codex_window_reset.Schedule.Scheduler.Timers.{consume_timer, retry_timer}
use codex_window_reset.Schedule.Scheduler.Timers.Untouched.{
  consume_timer-Untouched, retry_timer-Untouched,
}
use codex_window_reset.Schedule.Scheduler.Reconcile.Spent.{Spent}
use codex_window_reset.Schedule.Scheduler.Callbacks.{Environment, Step, claim}
use codex_window_reset.Schedule.Scheduler.Callbacks.Claims.{claim-Spent, claim-Claimed}
use codex_window_reset.Schedule.Scheduler.Loop.{
  enter, answered, claimed_or_retry, retry_terminal, finish, claim_and_run, is_occurrence,
  occurrence_with, handle_occurrence, compensation_with, handle_compensation,
}
use codex_window_reset.Schedule.Scheduler.Loop.Quiet.{
  preheats_of, NonePlanned, Quiet, Quiet-trans, Untouched-Quiet, update-Quiet,
}
use codex_window_reset.Schedule.Scheduler.Loop.Executed.{
  status_for_outcome-not_planned, retry_terminal-Quiet, finish-Quiet,
}
use codex_window_reset.Schedule.Scheduler.Loop.Compensated.{ExecutorLaws, compensation_with-Quiet}
use codex_window_reset.Store.Runtime.{stored, Outcome, update-Outcome, normalize_runtime_state}
use codex_window_reset.Schedule.Scheduler.Callbacks.Claims.{Claimed}
use codex_window_reset.Domain.Outcome.{ok-injective}

-- A step with one preheat of an occurrence, which was not spent before and is after.
pub record Fired (id : String) (s s' : Scheduler) : Type 0 where
  pub none_planned : NonePlanned s.pending_terminal → NonePlanned s'.pending_terminal
  pub one_preheat : preheats_of id s'.requests ≡ suc (preheats_of id s.requests)
  pub was_fresh : OnDisk (Spent id) s.disk → ⊥
  pub is_spent : NonePlanned s.pending_terminal → OnDisk (Spent id) s'.disk

abbrev pub Effect : String → Scheduler → Scheduler → Type 0
Effect id s s' = Quiet id s s' ⊎ Fired id s s'

pub Quiet-Effect :
    (id : String) (s s' s'' : Scheduler)
    → NonePlanned s.pending_terminal
    → Quiet id s s'
    → Effect id s' s''
    → Effect id s s''
Quiet-Effect id s s' s'' n q (inl q') = inl (Quiet-trans id s s' s'' q q')
Quiet-Effect id s s' s'' n q (inr f) = inr (record {
  none_planned = λ h. f.none_planned (q.none_planned h);
  one_preheat = f.one_preheat ∙ ap suc q.same_preheats;
  was_fresh = λ w. f.was_fresh (q.stays_spent n w);
  is_spent = λ h. f.is_spent (q.none_planned h);
})

Fired-Quiet :
    (id : String) (s s' s'' : Scheduler) → Fired id s s' → Quiet id s' s'' → Fired id s s''
Fired-Quiet id s s' s'' f q = record {
  none_planned = λ h. q.none_planned (f.none_planned h);
  one_preheat = q.same_preheats ∙ f.one_preheat;
  was_fresh = f.was_fresh;
  is_spent = λ h. q.stays_spent (f.none_planned h) (f.is_spent h);
}

pub Effect-if :
    (b : Bool) (id : String) (s : Scheduler) (t u : Step)
    → Effect id s t.0
    → Effect id s u.0
    → Effect id s (if b then t else u).0
Effect-if true id s t u h k = h
Effect-if false id s t u h k = k

-- The state that an occurrence was claimed from, and the one that it left.
Claimed-Spent :
    (cfg : Config) (now : Time) (id : String) (x : RuntimeState)
    (r : RuntimeState × Option PlannedOccurrence) (p : PlannedOccurrence)
    → Claimed cfg now id x r
    → r.1 ≡ some p
    → Spent id r.0 × (Spent id x → ⊥)
Claimed-Spent cfg now id x (x', none) p c e = cc
Claimed-Spent cfg now id x (x', some q) p
      (o, known, same, planned, due, run, on, scheduled, running, gone) e =
    (
      (record o { status = OccurrenceStatus.running }, running, refl),
      (λ (o', known', n). ground (arith, known, known', planned, n)),
    )

fresh-claim :
    (cfg : Config) (now : Time) (id : String) (d : Disk RuntimeState)
    (r : Disk RuntimeState × Result StoreError (Option PlannedOccurrence)) (p : PlannedOccurrence)
    → Outcome (λ e. e) (λ s. ((claim cfg now id s).0, ok (claim cfg now id s).1)) d r
    → r.1 ≡ ok (some p)
    → OnDisk (Spent id) r.0 × (OnDisk (Spent id) d → ⊥)
fresh-claim cfg now id d (d', err e) p h c = cc
fresh-claim cfg now id d (d', ok a) p (t, (x, before, made), after) c =
    let w =
      Claimed-Spent cfg now id x (claim cfg now id x) p (claim-Claimed cfg now id x)
        (ok-injective (ap (λ q. q.1) made) ∙ ok-injective c) in
    (
      (λ y e.
          subst (Spent id) (ok-injective (sym after ∙ e))
            (subst (λ k. Spent id (normalize_runtime_state k)) (ap (λ q. q.0) made) w.0)),
      (λ h. w.1 (h x before)),
    )

module _ (env : Environment) (laws : ExecutorLaws env) (id : String) where
  -- The scheduler when the executor has answered the request for `k`.
  abbrev requested : String → PlannedOccurrence → Scheduler → Scheduler
  requested k o s = answered (env.execute_preheat o s.disk s.now) (enter (Request.preheats k) s)

  finished-Quiet :
      (k : String) (o : PlannedOccurrence) (now : Time) (s t : Scheduler)
      → let status = status_for_record (env.execute_preheat o s.disk s.now).2 in
        Quiet id t
          (finish env k k (record { kind = CommandKind.occurrence; status = status }) now t).0
  finished-Quiet k o now s t =
      let r = (env.execute_preheat o s.disk s.now).2 in
      finish-Quiet env id k k
        (record { kind = CommandKind.occurrence; status = status_for_record r }) now t
        (status_for_outcome-not_planned r.request_outcome)

  other-Quiet :
      (k : String) (o : PlannedOccurrence) (s : Scheduler)
      → str_eq k id ≡ false
      → Quiet id s (requested k o s)
  unfolding preheats_of
  other-Quiet k o s n = record {
    none_planned = λ h. h;
    same_preheats = ground arith;
    stays_spent = λ h w. laws.preheat_keeps o s.disk s.now id w;
  }

  own-Fired :
      (k : String) (o : PlannedOccurrence) (s : Scheduler) (d : Disk RuntimeState)
      → str_eq k id ≡ true
      → OnDisk (Spent id) d
      → (OnDisk (Spent id) s.disk → ⊥)
      → Fired id s (requested k o (record s { disk = d }))
  unfolding preheats_of
  own-Fired k o s d same w fresh = record {
    none_planned = λ h. h;
    one_preheat = ground arith;
    was_fresh = fresh;
    is_spent = λ h. laws.preheat_keeps o d s.now id w;
  }

  claimed_or_retry-Effect :
      (interrupted : Bool) (k : String) (r : Result StoreError (Option PlannedOccurrence))
      (s : Scheduler) (d : Disk RuntimeState)
      → Quiet id s (record s { disk = d })
      → ((p : PlannedOccurrence)
          → r ≡ ok (some p)
          → str_eq k id ≡ true
          → OnDisk (Spent id) d × (OnDisk (Spent id) s.disk → ⊥))
      → Effect id s (claimed_or_retry env interrupted k r (record s { disk = d })).0
  claimed_or_retry-Effect interrupted k (err e) s d q c =
      let s' = record s { disk = d } in
      inl (
        Quiet-trans id s s' (retry_timer s' k CommandKind.occurrence s.now) q
          (Untouched-Quiet id s' _ (retry_timer-Untouched s' k CommandKind.occurrence s.now)))
  claimed_or_retry-Effect interrupted k (ok none) s d q c = inl q
  claimed_or_retry-Effect interrupted k (ok (some o)) s d q c =
      let s' = record s { disk = d } in
      let status = status_for_record (env.execute_preheat o d s.now).2 in
      let t = requested k o s' in
      let last =
        finish env k k (record { kind = CommandKind.occurrence; status = status }) s.now t in
      let ended = finished-Quiet k o s.now s' t in
      Effect-if (is_stopped s || interrupted) id s (s', none) last (inl q)
        (elim (Bool-cases (str_eq k id)) [
          | inr n ↦
              inl (Quiet-trans id s t last.0 (Quiet-trans id s s' t q (other-Quiet k o s' n)) ended)
          | inl e ↦
              let w = c o refl e in
              inr (Fired-Quiet id s t last.0 (own-Fired k o s d e w.0 w.1) ended)
        ])

  claim_and_run-Effect :
      (interrupted : Bool) (k : String) (s : Scheduler)
      → Effect id s (claim_and_run env interrupted k s).0
  unfolding claim_and_run
  claim_and_run-Effect interrupted k s =
      let f = claim s.config s.now k in
      let u = Runtime.update_always f s.disk in
      claimed_or_retry-Effect interrupted k u.1 s u.0
        (update-Quiet f id s (claim-Spent s.config s.now k id))
        (λ p e same.
          let own : k ≡ id = (eq_iff k id).0 same in
          subst (λ j. OnDisk (Spent j) u.0 × (OnDisk (Spent j) s.disk → ⊥)) own
            (fresh-claim s.config s.now k s.disk u p
              (update-Outcome (λ e. e) (λ x. ((f x).0, ok (f x).1)) s.disk) e))

  occurrence_with-Effect :
      (interrupted : Bool) (k : String) (p : Option PendingTerminal) (s : Scheduler)
      → ((q : PendingTerminal) → p ≡ some q → is_planned q.status ≡ false)
      → Effect id s (occurrence_with env interrupted k p s).0
  occurrence_with-Effect interrupted k none s n = claim_and_run-Effect interrupted k s
  occurrence_with-Effect interrupted k (some q) s n =
      Effect-if (is_occurrence env q.kind) id s (retry_terminal env k k q s)
        (claim_and_run env interrupted k s) (inl (retry_terminal-Quiet env id k k q s (n q refl)))
        (claim_and_run-Effect interrupted k s)

  -- What follows a timer that is consumed, or was another's.
  pub consumed-Effect :
      (timer_id : String) (generation : ℕ) (s : Scheduler) (next : Scheduler → Step)
      → NonePlanned s.pending_terminal
      → ((t : Scheduler) → NonePlanned t.pending_terminal → Effect id t (next t).0)
      → let c = consume_timer s timer_id generation in
        Effect id s (if c.1 then next c.0 else (c.0, none)).0
  consumed-Effect timer_id generation s next n h =
      let c = consume_timer s timer_id generation in
      let q = Untouched-Quiet id s c.0 (consume_timer-Untouched s timer_id generation) in
      Effect-if c.1 id s (next c.0) (c.0, none)
        (Quiet-Effect id s c.0 (next c.0).0 n q (h c.0 (q.none_planned n))) (inl q)

  -- handleOccurrence either starts no preheat of `id`, or one, of an occurrence that no earlier
  -- preheat was started for.
  pub handle_occurrence-Effect :
      (interrupted : Bool) (k : String) (generation : ℕ) (s : Scheduler)
      → NonePlanned s.pending_terminal
      → Effect id s (handle_occurrence env interrupted k generation s).0
  unfolding handle_occurrence
  handle_occurrence-Effect interrupted k generation s n =
      consumed-Effect k generation s
        (λ t. occurrence_with env interrupted k (lookup k t.pending_terminal) t) n
        (λ t h. occurrence_with-Effect interrupted k (lookup k t.pending_terminal) t (h k))

  pub handle_compensation-Effect :
      (interrupted : Bool) (k : String) (generation : ℕ) (s : Scheduler)
      → NonePlanned s.pending_terminal
      → Effect id s (handle_compensation env interrupted k generation s).0
  unfolding handle_compensation
  handle_compensation-Effect interrupted k generation s n =
      consumed-Effect (compensation_timer_id k) generation s
        (λ t. compensation_with env interrupted k (lookup k t.pending_terminal) t) n
        (λ t h.
          inl (
            compensation_with-Quiet env id laws interrupted k (lookup k t.pending_terminal) t
              (h k)))
