-- ===== src/App/Preheat/Fallback.antt =====
-- The decision of the runtime against that of the quota service.
use codex_window_reset.Base.{
  List, [], ◌∷◌, ℕ, ◌≤◌, ◌<◌, String, true, false, Option, none, some, ◌≡◌, refl, inl, inr, arith,
  Option-cases,
}
use codex_window_reset.Base.Int.{pos}
use codex_window_reset.Domain.Clock.{Time}
use codex_window_reset.Domain.Outcome.{ErrorCode, DomainError, Result, ok, err}
use codex_window_reset.Domain.Snapshot.{UsageSnapshot, UsageWindow, SnapshotView, GuardrailHold}
use codex_window_reset.Domain.Config.{Config}
use codex_window_reset.Store.Disk.{StoreError}
use codex_window_reset.Quota.Windows.{
  any_long_at_or_below, shortest_window, shortest_index, shortest, has_long_window, no_long_window,
}
use codex_window_reset.Quota.Decide.{decide, enough}
use codex_window_reset.Quota.Decide.Floors.{minutes_pos}
use codex_window_reset.Quota.Service.{
  StateDisk, is_stale, evaluate, evaluate_view, decide_with, unknown_or_hold, transition_hold,
  load_hold, get,
}
use codex_window_reset.App.Runtime.{Runtime}
use codex_window_reset.App.Preheat.{
  snapshot_is_fresh, enough_left, fallback_for, evaluate_quota, service_decision, is_undecided,
}

decide-decided :
    (view : SnapshotView) (hold : Option GuardrailHold) (cfg : Config) (now : Time)
    → is_undecided (decide view hold cfg now) ≡ false
unfolding decide
decide-decided view hold cfg now = ground arith

unknown-decided :
    (x : StateDisk × Result StoreError (Option GuardrailHold))
    → is_undecided (unknown_or_hold x).1 ≡ false
unknown-decided (d, ok none) = refl
unknown-decided (d, ok (some hold)) = refl
unknown-decided (d, err e) = refl

with-decided :
    (view : SnapshotView) (cfg : Config) (now : Time)
    (x : StateDisk × Result StoreError (Option GuardrailHold))
    → is_undecided (decide_with view cfg now x).1 ≡ false
with-decided view cfg now (d, ok hold) = decide-decided view hold cfg now
with-decided view cfg now (d, err e) = refl

viewed-decided :
    (v : Option SnapshotView) (cfg : Config) (key : String) (now : Time) (d : StateDisk)
    → is_undecided (evaluate_view v cfg key now d).1 ≡ false
viewed-decided none cfg key now d = unknown-decided (load_hold key d)
viewed-decided (some view) cfg key now d =
    with-decided view cfg now (transition_hold view cfg key now d)

-- The quota service always decides, so the fallback of the runtime is never taken with it: the
-- decision and the repository are those of the service.
pub evaluate_quota_by_service :
    (cfg : Config) (key : String) (now : Time) (refreshed : Result DomainError UsageSnapshot)
    (r : Runtime)
    → evaluate_quota cfg key now refreshed r ≡ service_decision cfg key now r
unfolding evaluate_quota service_decision evaluate
evaluate_quota_by_service cfg key now refreshed r =
    rw (viewed-decided (get r.entries key now) cfg _ now r.states) refl

enough_left-enough :
    (w : Option UsageWindow) (cfg : Config) (now : Time) (m : ℕ)
    → 0 < now
    → cfg.remaining_window_floor_minutes ≡ pos m
    → m ≤ 153_722_867
    → enough_left w cfg now ≡ enough w cfg now
enough_left-enough none cfg now m h em hm = refl
enough_left-enough (some w) cfg now m h em hm = ground (arith, minutes_pos m hm)

unnamed-none : (ws : List UsageWindow) → shortest_window ws ≡ none → has_long_window ws ≡ false
unfolding shortest_window shortest has_long_window shortest_index
unnamed-none [] h = refl
unnamed-none (w ∷ ws) h = cc

any_long-none :
    (s : UsageSnapshot) (cfg : Config)
    → shortest_window s.windows ≡ none
    → any_long_at_or_below s cfg.long_window_floor_percent ≡ false
any_long-none s cfg h = no_long_window s cfg.long_window_floor_percent (unnamed-none s.windows h)

-- On a snapshot captured less than five minutes ago, the fallback of the runtime decides as the quota
-- service does on the same snapshot after a refresh without error, whether a hold stands or not. The
-- clock is set, and the floor of the window is at most 153722867 minutes.
pub fallback_as_service :
    (s : UsageSnapshot) (hold : Option GuardrailHold) (cfg : Config) (now : Time) (m : ℕ)
    → 0 < now
    → cfg.remaining_window_floor_minutes ≡ pos m
    → m ≤ 153_722_867
    → snapshot_is_fresh s now ≡ true
    → fallback_for s (snapshot_is_fresh s now) cfg now
      ≡ decide
          (record {
            snapshot = s;
            stale = is_stale s.captured_at now;
            last_attempt_at = now;
            refresh_error_code = ErrorCode.unset;
          })
          hold
          cfg
          now
unfolding fallback_for decide is_stale snapshot_is_fresh
fallback_as_service s hold cfg now m hn em hm fresh =
    elim (Option-cases (shortest_window s.windows)) [
      | inl e ↦ ground (arith, any_long-none s cfg e)
      | inr (w, e) ↦ ground (arith, enough_left-enough (some w) cfg now m hn em hm)
    ]
