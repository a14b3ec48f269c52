-- ===== src/Schedule/Scheduler/Timers/Untouched.antt =====
-- The timers stand apart from the rest of the scheduler.
use codex_window_reset.Base.{
  ℕ, String, Bool, true, false, List, [], ◌∷◌, ◌≡◌, refl, inl, inr, if◌then◌else◌, Bool-cases, ◌∙◌,
  ◌==◌, not, ◌&&◌,
}
use codex_window_reset.Base.Assoc.{lookup, has_key}
use codex_window_reset.Domain.Clock.{Time}
use codex_window_reset.Schedule.Scheduler.{
  Scheduler, Timer, CommandKind, is_stopped, reconcile_retry_timer_id,
}
use codex_window_reset.Schedule.Scheduler.Timers.{
  replace_timer, stop_timer, consume_timer, retry_timer, schedule_reconcile_retry, due_later,
  pending_timer, stop_each, stop_timers, cancel_each, cancel_occurrence_timers, generation_of,
}

-- The disk, the terminal writes still to be made and the requests are the same.
pub record Untouched (s s' : Scheduler) : Type 0 where
  pub disk : s'.disk ≡ s.disk
  pub pending : s'.pending_terminal ≡ s.pending_terminal
  pub requests : s'.requests ≡ s.requests

pub untouched : (s : Scheduler) → Untouched s s
untouched s = record { disk = refl; pending = refl; requests = refl }

pub Untouched-trans : (s s' s'' : Scheduler) → Untouched s s' → Untouched s' s'' → Untouched s s''
Untouched-trans s s' s'' h k = record {
  disk = k.disk ∙ h.disk;
  pending = k.pending ∙ h.pending;
  requests = k.requests ∙ h.requests;
}

pub Untouched-if :
    (b : Bool) (s t u : Scheduler)
    → Untouched s t
    → Untouched s u
    → Untouched s (if b then t else u)
Untouched-if true s t u h k = h
Untouched-if false s t u h k = k

pub replace_timer-Untouched :
    (s : Scheduler) (id : String) (due now : Time) (kind : CommandKind) (target : String)
    → Untouched s (replace_timer s id due now kind target)
unfolding replace_timer
replace_timer-Untouched s id due now kind target = record {
  disk = refl;
  pending = refl;
  requests = refl;
}

pub stop_timer-Untouched : (s : Scheduler) (id : String) → Untouched s (stop_timer s id)
unfolding stop_timer
stop_timer-Untouched s id = record { disk = refl; pending = refl; requests = refl }

pub consume_timer-Untouched :
    (s : Scheduler) (id : String) (generation : ℕ) → Untouched s (consume_timer s id generation).0
unfolding consume_timer
consume_timer-Untouched s id g = elim (Bool-cases (not (g == 0) && not (generation_of s id == g))) [
  | inl e ↦ rw e (untouched s)
  | inr n ↦ elim (Bool-cases (has_key id s.timers)) [
    | inl t ↦ rw (n, t) (stop_timer-Untouched s id)
    | inr f ↦ rw (n, f) (untouched s)
  ]
]

pub retry_timer-Untouched :
    (s : Scheduler) (id : String) (kind : CommandKind) (now : Time)
    → Untouched s (retry_timer s id kind now)
unfolding retry_timer
retry_timer-Untouched s id kind now =
    Untouched-if (is_stopped s) s _ _ (untouched s) (replace_timer-Untouched s id _ now kind _)

pub schedule_reconcile_retry-Untouched :
    (s : Scheduler) (now : Time) → Untouched s (schedule_reconcile_retry s now)
unfolding schedule_reconcile_retry
schedule_reconcile_retry-Untouched s now = Untouched-if (is_stopped s) s _ _ (untouched s) (
    Untouched-if (due_later (lookup reconcile_retry_timer_id s.timer_due) now) s _ _ (untouched s)
      (replace_timer-Untouched s reconcile_retry_timer_id _ now CommandKind.reconcile_retry ""))

cancel_each-Untouched :
    (timers : List (String × Timer)) (s : Scheduler) → Untouched s (cancel_each timers s)
unfolding cancel_each
cancel_each-Untouched [] s = untouched s
cancel_each-Untouched ((id, t) ∷ rest) s =
    let kept = if pending_timer s id then s else stop_timer s id in
    Untouched-trans s kept (cancel_each rest kept)
      (Untouched-if (pending_timer s id) s s (stop_timer s id) (untouched s)
        (stop_timer-Untouched s id))
      (cancel_each-Untouched rest kept)

pub cancel_occurrence_timers-Untouched : (s : Scheduler) → Untouched s (cancel_occurrence_timers s)
unfolding cancel_occurrence_timers
cancel_occurrence_timers-Untouched s = cancel_each-Untouched s.timers s

stop_each-Untouched :
    (timers : List (String × Timer)) (s : Scheduler) → Untouched s (stop_each timers s)
unfolding stop_each
stop_each-Untouched [] s = untouched s
stop_each-Untouched ((id, t) ∷ rest) s =
    Untouched-trans s (stop_timer s id) (stop_each rest (stop_timer s id))
      (stop_timer-Untouched s id) (stop_each-Untouched rest (stop_timer s id))

pub stop_timers-Untouched : (s : Scheduler) → Untouched s (stop_timers s)
unfolding stop_timers
stop_timers-Untouched s = stop_each-Untouched s.timers s
