-- ===== src/Quota/Decide.antt =====
-- decide of internal/quota/service.go.
pub mod Floors
use codex_window_reset.Base.{
  ℕ, suc, ◌-◌, ◌*◌, Bool, true, false, not, ◌&&◌, ◌||◌, Option, none, some, is_none, if◌then◌else◌,
}
use codex_window_reset.Base.Int.{ℤ, pos, negsuc, leb_ℤ, to_int64}
use codex_window_reset.Domain.Clock.{Time, minute, sub}
use codex_window_reset.Domain.Outcome.{QuotaDecision, ErrorCode}
use codex_window_reset.Domain.Snapshot.{UsageWindow, SnapshotView, GuardrailHold}
use codex_window_reset.Domain.Config.{Config}
use codex_window_reset.Quota.Windows.{any_long_at_or_below, shortest_window}

abbrev pub is_set : ErrorCode → Bool
is_set ErrorCode.unset = false
is_set _ = true

-- time.Duration(n) * time.Minute, a product of 64 bits.
unfoldable pub minutes : ℤ → ℤ
minutes (pos n) = to_int64 (pos (n * minute))
minutes (negsuc n) = to_int64 (negsuc (suc n * minute - 1))

abbrev pub enough : Option UsageWindow → Config → Time → Bool
enough none cfg now = false
enough (some w) cfg now =
    leb_ℤ cfg.remaining_quota_floor_percent w.remaining_percent
    && leb_ℤ (minutes cfg.remaining_window_floor_minutes) (sub w.reset_at now)

unfoldable pub decide : SnapshotView → Option GuardrailHold → Config → Time → QuotaDecision
decide view hold cfg now =
    if not (is_none hold) && (is_set view.refresh_error_code || view.stale)
    then QuotaDecision.guardrail_hold
    else if is_set view.refresh_error_code && is_none hold
    then QuotaDecision.quota_unknown_fail_open
    else if any_long_at_or_below view.snapshot cfg.long_window_floor_percent
    then QuotaDecision.guardrail_hold
    else if not view.stale && enough (shortest_window view.snapshot.windows) cfg now
    then QuotaDecision.sufficient_window
    else QuotaDecision.proceed
