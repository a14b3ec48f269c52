-- ===== src/Schedule/Scheduler/Timers.antt =====
-- replaceTimer, stopTimer, consumeTimer, retryTimer and the timers of midnight and retry.
pub mod Untouched
pub mod Generations
use codex_window_reset.Base.{
  ℕ, ◌+◌, ◌-◌, ◌%◌, ◌^◌, String, Bool, true, false, not, ◌&&◌, ◌||◌, List, [], ◌∷◌, Option, none,
  some, is_none, ◌==◌, if◌then◌else◌,
}
use codex_window_reset.Base.Assoc.{Assoc, lookup, insert, delete, has_key}
use codex_window_reset.Base.Text.{str_eq, trim_prefix}
use codex_window_reset.Base.Int.{pos_part}
use codex_window_reset.Domain.Clock.{Time, after, sub}
use codex_window_reset.Schedule.Scheduler.{
  Scheduler, Command, CommandKind, Timer, PendingTerminal, retry_delay, midnight_timer_id,
  reconcile_retry_timer_id, compensation_prefix, compensation_timer_id, is_stopped,
}

abbrev or_zero : Option ℕ → ℕ
or_zero none = 0
or_zero (some n) = n

unfoldable pub generation_of : Scheduler → String → ℕ
generation_of s id = or_zero (lookup id s.timer_generation)

-- A generation is a uint64.
abbrev pub next_generation : Scheduler → String → ℕ
next_generation s id = (generation_of s id + 1) % 2 ^ 64

-- The callback of the new timer carries the generation that it is created with. A due time in the
-- past gives a delay of 0.
unfoldable pub replace_timer : Scheduler → String → Time → Time → CommandKind → String → Scheduler
unfolding generation_of
replace_timer s id due now kind target =
    let g = next_generation s id in
    let command : Command = record { kind = kind; id = target; generation = g } in
    record s {
      timers = insert id (record { delay = pos_part (sub due now); command = command }) s.timers;
      timer_due = insert id due s.timer_due;
      timer_generation = insert id g s.timer_generation;
    }

unfoldable pub stop_timer : Scheduler → String → Scheduler
unfolding generation_of
stop_timer s id = record s {
  timers = delete id s.timers;
  timer_due = delete id s.timer_due;
  timer_generation = insert id (next_generation s id) s.timer_generation;
}

-- Whether the callback of this generation still owns its timer; it then gives it up.
unfoldable pub consume_timer : Scheduler → String → ℕ → Scheduler × Bool
unfolding generation_of stop_timer
consume_timer s id generation =
    if not (generation == 0) && not (generation_of s id == generation)
    then (s, false)
    else if has_key id s.timers
    then (stop_timer s id, true)
    else (s, generation == 0)

abbrev callback_id : CommandKind → String → String
callback_id CommandKind.compensation id = trim_prefix id compensation_prefix
callback_id _ id = id

pub retry_timer : Scheduler → String → CommandKind → Time → Scheduler
unfolding replace_timer
retry_timer s id kind now =
    if is_stopped s
    then s
    else replace_timer s id (now + retry_delay) now kind (callback_id kind id)

abbrev due_later : Option Time → Time → Bool
due_later none now = false
due_later (some due) now = after due now

pub schedule_reconcile_retry : Scheduler → Time → Scheduler
unfolding replace_timer
schedule_reconcile_retry s now =
    if is_stopped s
    then s
    else if due_later (lookup reconcile_retry_timer_id s.timer_due) now
    then s
    else replace_timer s reconcile_retry_timer_id (now + retry_delay) now
        CommandKind.reconcile_retry ""

abbrev pending_names : String → List (String × PendingTerminal) → Bool
pending_names id [] = false
pending_names id ((k, p) ∷ m) =
    let rest = pending_names id m in
    elim p.kind [
      | CommandKind.compensation ↦ str_eq (compensation_timer_id k) id || rest
      | CommandKind.occurrence ↦ str_eq k id || rest
      | _ ↦ rest
    ]

pub pending_timer : Scheduler → String → Bool
pending_timer s id =
    str_eq id reconcile_retry_timer_id
    || str_eq id midnight_timer_id
    || pending_names id s.pending_terminal

-- The loop over `s.timers`, on the list of its entries.
pub cancel_each : List (String × Timer) → Scheduler → Scheduler
cancel_each [] s = s
cancel_each ((id, t) ∷ rest) s =
    cancel_each rest (if pending_timer s id then s else stop_timer s id)

pub cancel_occurrence_timers : Scheduler → Scheduler
unfolding cancel_each
cancel_occurrence_timers s = cancel_each s.timers s

pub stop_each : List (String × Timer) → Scheduler → Scheduler
stop_each [] s = s
stop_each ((id, t) ∷ rest) s = stop_each rest (stop_timer s id)

pub stop_timers : Scheduler → Scheduler
unfolding stop_each
stop_timers s = stop_each s.timers s
