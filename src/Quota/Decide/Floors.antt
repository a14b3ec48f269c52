-- ===== src/Quota/Decide/Floors.antt =====
-- What each decision means for the snapshot, in plain instants.
use codex_window_reset.Base.{
  ℕ, ◌+◌, ◌*◌, ◌≤◌, ◌≡◌, ◌⊎◌, ◌↔◌, inl, inr, true, false, Option, some, arith, is_none,
  Option-cases,
}
use codex_window_reset.Base.Int.{pos, ◌≤ℤ◌, to_int64_pos}
use codex_window_reset.Domain.Clock.{Time, minute}
use codex_window_reset.Domain.Outcome.{QuotaDecision}
use codex_window_reset.Domain.Snapshot.{UsageWindow, SnapshotView, GuardrailHold}
use codex_window_reset.Domain.Config.{Config}
use codex_window_reset.Quota.Windows.{any_long_at_or_below, shortest_window}
use codex_window_reset.Quota.Decide.{decide, minutes, is_set}

-- 153722867 minutes is the longest floor whose product fits 64 bits.
pub minutes_pos : (m : ℕ) → m ≤ 153_722_867 → minutes (pos m) ≡ pos (m * minute)
unfolding minutes
minutes_pos m h = to_int64_pos (m * minute) (omega arith)

-- A decision `sufficient_window`, with a floor of at most 153722867 minutes, means: the snapshot is
-- not stale, its last refresh did not fail, no long window is at or below its floor, and the
-- shortest window keeps at least the quota floor and lasts at least the window floor from now on.
pub sufficient_window_floors :
    (view : SnapshotView) (hold : Option GuardrailHold) (cfg : Config) (now : Time) (m : ℕ)
    → cfg.remaining_window_floor_minutes ≡ pos m
    → m ≤ 153_722_867
    → decide view hold cfg now ≡ QuotaDecision.sufficient_window
    → (view.stale ≡ false)
      × (is_set view.refresh_error_code ≡ false)
      × (any_long_at_or_below view.snapshot cfg.long_window_floor_percent ≡ false)
      × ((w : UsageWindow) × (shortest_window view.snapshot.windows ≡ some w)
          × (cfg.remaining_quota_floor_percent ≤ℤ w.remaining_percent)
          × (now + m * minute ≤ w.reset_at))
unfolding decide
sufficient_window_floors view hold cfg now m em hm d =
    elim (Option-cases (shortest_window view.snapshot.windows)) [
      | inl e ↦ absurd (ground arith)
      | inr (w, e) ↦
          let p = minutes_pos m hm in
          (ground arith, ground arith, ground arith, (w, e, ground (arith, p), ground (arith, p)))
    ]

-- While a hold stands, a stale snapshot or one whose refresh failed decides for the hold; so does
-- a long window at or below its floor, unless the refresh failed with no hold standing.
pub decide_guardrail :
    (view : SnapshotView) (hold : Option GuardrailHold) (cfg : Config) (now : Time)
    → (decide view hold cfg now ≡ QuotaDecision.guardrail_hold) ↔ (
        ((is_none hold ≡ false) × ((is_set view.refresh_error_code ≡ true) ⊎ (view.stale ≡ true)))
        ⊎ ((is_set view.refresh_error_code ≡ false)
            × (any_long_at_or_below view.snapshot cfg.long_window_floor_percent ≡ true)))
unfolding decide
decide_guardrail view hold cfg now = (λ h. ground arith, λ h. ground arith)
