-- ===== src/App/Preheat/Observed.antt =====
-- What the window outcome of a record is evidence of.
use codex_window_reset.Base.{
  ◌≤◌, Option, none, some, ◌≡◌, ◌≢◌, ◌⊎◌, inl, inr, arith, ◌<◌, true, false, refl, subst, not,
  Bool-cases, if◌then◌else◌,
}
use codex_window_reset.Domain.Outcome.{RequestOutcome, WindowOutcome}
use codex_window_reset.Domain.Snapshot.{UsageWindow, UsageSnapshot}
use codex_window_reset.App.Preheat.{
  classify_window, is_succeeded, compare_windows, short_active, window_of,
}

compare_windows-started :
    (s : UsageSnapshot) (w v : UsageWindow)
    → compare_windows (some s) (some w) (some v) ≡ WindowOutcome.verified_started
    → (0 < w.reset_at) × (0 < v.reset_at) × (short_active s w ≡ false) × (w.reset_at ≢ v.reset_at)
compare_windows-started s w v h = (ground arith, ground arith, ground arith, ground arith)

compared-started :
    (before' after' : Option UsageSnapshot) (w v : Option UsageWindow)
    → compare_windows before' w v ≡ WindowOutcome.verified_started
    → (s : UsageSnapshot) × (x : UsageWindow) × (y : UsageWindow) × (before' ≡ some s)
      × (w ≡ some x)
      × (v ≡ some y)
      × (0 < x.reset_at)
      × (0 < y.reset_at)
      × (short_active s x ≡ false)
      × (x.reset_at ≢ y.reset_at)
compared-started none after' w v h = cc
compared-started (some s) after' none v h = cc
compared-started (some s) after' (some x) none h = cc
compared-started (some s) after' (some x) (some y) h =
    let e = compare_windows-started s x y h in (s, x, y, refl, refl, refl, e.0, e.1, e.2, e.3)

succeeded-only :
    (request : RequestOutcome) → is_succeeded request ≡ true → request ≡ RequestOutcome.succeeded
succeeded-only RequestOutcome.succeeded e = refl
succeeded-only _ e = cc

captured_before :
    (s : UsageSnapshot) (w : UsageWindow)
    → 0 < w.reset_at
    → short_active s w ≡ false
    → (s.captured_at ≡ 0) ⊎ (w.reset_at ≤ s.captured_at)
unfolding short_active
captured_before s w h n = ground arith

-- A window is reported as verified and started only on this evidence: the request succeeded, both
-- snapshots were taken and name a shortest window with a reset instant, the two instants differ, and
-- the first one was not later than the capture of its snapshot, when that has a capture time.
pub classify_window_started :
    (request : RequestOutcome) (before' after' : Option UsageSnapshot)
    → classify_window request before' after' ≡ WindowOutcome.verified_started
    → (request ≡ RequestOutcome.succeeded)
      × ((s : UsageSnapshot) × (w : UsageWindow) × (v : UsageWindow) × (before' ≡ some s)
          × (window_of before' ≡ some w)
          × (window_of after' ≡ some v)
          × (0 < w.reset_at)
          × (0 < v.reset_at)
          × (w.reset_at ≢ v.reset_at)
          × ((s.captured_at ≡ 0) ⊎ (w.reset_at ≤ s.captured_at)))
unfolding classify_window
classify_window_started request before' after' h = elim (Bool-cases (is_succeeded request)) [
  | inr n ↦ absurd (cc (h, n))
  | inl e ↦
      let (s, w, v, es, ew, ev, hw, hv, idle, other) =
        compared-started before' after' (window_of before') (window_of after') (
          subst
            (λ b.
              (if not b
                then WindowOutcome.not_observed
                else compare_windows before' (window_of before') (window_of after'))
              ≡ WindowOutcome.verified_started)
            e h) in
      (succeeded-only request e, (s, w, v, es, ew, ev, hw, hv, other, captured_before s w hw idle))
]
