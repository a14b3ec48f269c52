-- ===== src/App/Manual.antt =====
-- executeManual and recordManualEligibility of internal/app/manual.go: one account of a manual run.
pub mod Left
use codex_window_reset.Base.{
  ℕ, String, Bool, true, false, not, ◌&&◌, List, ◌∷◌, Option, none, some, if◌then◌else◌,
}
use codex_window_reset.Domain.Clock.{Time}
use codex_window_reset.Domain.Outcome.{
  RequestOutcome, WindowOutcome, QuotaDecision, ErrorCode, DomainError, ProbeResult, Result, ok,
  err,
}
use codex_window_reset.Domain.Snapshot.{UsageSnapshot}
use codex_window_reset.Domain.Operation.{OperationTrigger, OperationRecord}
use codex_window_reset.Domain.Config.{Config}
use codex_window_reset.App.Runtime.{
  Account, Services, Runtime, normalize_key, acquire_busy, release_busy, probe_timeout,
  refresh_snapshot, append_history, operation_base_at,
}
use codex_window_reset.App.Preheat.{classify_window}
use codex_window_reset.App.Execute.{
  Done, refused, with_outcome, probe_record, snapshot_or_nil, probed,
}

abbrev pub with_run : String → Runtime × OperationRecord → Runtime × OperationRecord
with_run run_id (r, base) = (r, record base { run_id = run_id })

abbrev pub manual_base : Services → String → Account → Time → Runtime → Runtime × OperationRecord
manual_base sv run_id account started r =
    with_run run_id (operation_base_at sv OperationTrigger.health_probe "" account started r)

-- The record that it appends is returned for the theorems.
unfoldable pub record_manual_eligibility : Services → String → Account → ErrorCode → Runtime → Done
record_manual_eligibility sv run_id account code r =
    refused sv RequestOutcome.disabled QuotaDecision.unset code
      (manual_base sv run_id account r.now r)

abbrev pub manual_recorded :
    Services → ProbeResult → WindowOutcome → Runtime × OperationRecord → Done
manual_recorded sv p window (r, base) =
    let final = probe_record p window QuotaDecision.unset r.now base in
    (append_history sv final r, final)

unfoldable pub observe_manual :
    Services
    → String
    → Account
    → Time
    → Option UsageSnapshot
    → ProbeResult
    → Runtime × Result DomainError UsageSnapshot
    → Done
observe_manual sv run_id account started before' p (r, after') =
    manual_recorded sv p (classify_window p.outcome before' (snapshot_or_nil after'))
      (manual_base sv run_id account started r)

abbrev pub probe_manual :
    Services → String → Account → Time → Runtime × Result DomainError UsageSnapshot → Done
probe_manual sv run_id account started (r, before') =
    let cfg = r.config in
    let (t, result) = sv.probe account cfg.probe_model (probe_timeout cfg) r.now in
    observe_manual sv run_id account started (snapshot_or_nil before') (with_outcome result)
      (refresh_snapshot sv account (probed account r t))

-- The execution, from the time that the account is claimed.
unfoldable pub send_manual : Services → String → Account → Runtime → Done
send_manual sv run_id account r =
    probe_manual sv run_id account r.now (refresh_snapshot sv account r)

unfoldable pub with_busy_manual : Services → String → Account → Runtime × Bool → Done
with_busy_manual sv run_id account (r, false) =
    refused sv RequestOutcome.response_error QuotaDecision.unset ErrorCode.account_busy
      (manual_base sv run_id account r.now r)
with_busy_manual sv run_id account (r, true) =
    let (r', final) = send_manual sv run_id account r in (release_busy account.key r', final)

unfoldable pub execute_current : Services → String → Bool → Account → Runtime → Done
execute_current sv run_id allow_unavailable current r =
    if current.disabled
    then record_manual_eligibility sv run_id current ErrorCode.account_disabled r
    else if current.unavailable && not allow_unavailable
    then record_manual_eligibility sv run_id current ErrorCode.account_unavailable r
    else with_busy_manual sv run_id current (acquire_busy current.key r)

abbrev pub manual_found :
    Services → String → Account → Bool → Runtime → Time × Option Account → Done
manual_found sv run_id account allow_unavailable r (t, none) =
    record_manual_eligibility sv run_id account ErrorCode.account_unavailable (record r { now = t })
manual_found sv run_id account allow_unavailable r (t, some current) =
    execute_current sv run_id allow_unavailable (record current { key = normalize_key account.key })
      (record r { now = t })

unfoldable pub execute_manual : Services → String → Account → Bool → Runtime → Done
execute_manual sv run_id account allow_unavailable r =
    manual_found sv run_id account allow_unavailable r (sv.find account.key r.now)
