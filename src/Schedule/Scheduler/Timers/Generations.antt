-- ===== src/Schedule/Scheduler/Timers/Generations.antt =====
-- A timer's callback acts only while it owns its timer.
use codex_window_reset.Base.{ℕ, String, true, false, ◌&&◌, ◌||◌, ◌≡◌, ◌≢◌, refl, arith, ◌==◌}
use codex_window_reset.Base.Assoc.{has_key, lookup-insert, lookup-delete, has_key-insert}
use codex_window_reset.Base.Text.{eq_iff}
use codex_window_reset.Domain.Clock.{Time}
use codex_window_reset.Schedule.Scheduler.{Scheduler, CommandKind}
use codex_window_reset.Schedule.Scheduler.Timers.{
  generation_of, next_generation, replace_timer, stop_timer, consume_timer,
}

-- What consumeTimer answers.
consume_timer-answer :
    (s : Scheduler) (id : String) (g : ℕ)
    → (consume_timer s id g).1 ≡ ((g == 0) || ((generation_of s id == g) && has_key id s.timers))
unfolding consume_timer
consume_timer-answer s id g = ground arith

replaced :
    (s : Scheduler) (id : String) (due now : Time) (kind : CommandKind) (target : String)
    → let s' = replace_timer s id due now kind target in
      (generation_of s' id ≡ next_generation s id) × (has_key id s'.timers ≡ true)
unfolding replace_timer generation_of has_key
replaced s id due now kind target = (
  rw (lookup-insert id id (next_generation s id) s.timer_generation, (eq_iff id id).1 refl) refl,
  has_key-insert id _ s.timers,
)

stopped_key :
    (s : Scheduler) (id : String) (g : ℕ)
    → (consume_timer s id g).1 ≡ true
    → g ≢ 0
    → has_key id (consume_timer s id g).0.timers ≡ false
unfolding consume_timer stop_timer has_key
stopped_key s id g e n = ground (arith, e, n, lookup-delete id id s.timers, eq_iff id id)

-- Of the callbacks of a timer that is replaced, only the newest is honoured, and only once: one of
-- any other generation but 0 is not, and after the newest is consumed a second ring of it is not.
-- Generations count modulo 2 ^ 64; a generation that wraps to 0 is left out.
pub replace_timer_newest :
    (s : Scheduler) (id : String) (due now : Time) (kind : CommandKind) (target : String)
    → next_generation s id ≢ 0
    → let s' = replace_timer s id due now kind target in
      let g = next_generation s id in
      ((consume_timer s' id g).1 ≡ true)
      × ((consume_timer (consume_timer s' id g).0 id g).1 ≡ false)
      × ((old : ℕ) → old ≢ 0 → old ≢ g → (consume_timer s' id old).1 ≡ false)
replace_timer_newest s id due now kind target nonzero =
    let s' = replace_timer s id due now kind target in
    let g = next_generation s id in
    let (same, there) = replaced s id due now kind target in
    let first : (consume_timer s' id g).1 ≡ true =
      ground (arith, consume_timer-answer s' id g, same, there) in
    (
      first,
      ground (
        arith,
        consume_timer-answer (consume_timer s' id g).0 id g,
        stopped_key s' id g first nonzero,
      ),
      (λ old o n. ground (arith, consume_timer-answer s' id old, same, o, n)),
    )
