-- ===== src/App/Execute.antt =====
-- executePreheat, CompensationEligible and ExecuteCompensation of internal/app/preheat.go.
pub mod Steady
pub mod Effects
pub mod Once
pub mod Laws
pub mod Held
use codex_window_reset.Base.{
  ℕ, ◌+◌, ◌*◌, String, Bool, true, false, not, ◌&&◌, ◌||◌, List, ◌∷◌, Option, none, some,
  if◌then◌else◌,
}
use codex_window_reset.Base.Assoc.{has_key}
use codex_window_reset.Domain.Clock.{Time, minute}
use codex_window_reset.Domain.Outcome.{
  RequestOutcome, WindowOutcome, QuotaDecision, ErrorCode, DomainError, ProbeResult, Result, ok,
  err,
}
use codex_window_reset.Domain.Snapshot.{UsageSnapshot}
use codex_window_reset.Domain.Operation.{
  OperationTrigger, OperationRecord, PlannedOccurrence, RuntimeState,
}
use codex_window_reset.Domain.Config.{Config}
use codex_window_reset.Store.Disk.{Disk, StoreError}
use codex_window_reset.Store.Runtime
use codex_window_reset.Quota.Decide.{is_set}
use codex_window_reset.App.Runtime.{
  Account, no_account, Services, Runtime, normalize_key, set_store_error, acquire_busy,
  release_busy, probe_timeout, refresh_snapshot, append_history, operation_base_at,
}
use codex_window_reset.App.Preheat.{
  is_scheduled, compensable, is_succeeded, classify_window, evaluate_quota, update_compensation,
}

-- The variables of executePreheat that stay as they are: the occurrence has a trimmed account key.
pub record Job : Type 0 where
  pub trigger : OperationTrigger
  pub occurrence : PlannedOccurrence
  pub account : Account
  pub started : Time

abbrev pub Done : Type 0
Done = Runtime × OperationRecord

abbrev pub ended : Services → OperationRecord → Runtime → Done
ended sv record' r =
    let final = record record' { finished_at = r.now } in (append_history sv final r, final)

abbrev pub refused :
    Services → RequestOutcome → QuotaDecision → ErrorCode → Runtime × OperationRecord → Done
refused sv outcome decision code (r, base) =
    ended sv
      (record base {
        request_outcome = outcome;
        window_outcome = WindowOutcome.not_observed;
        decision = decision;
        error_code = code;
      })
      r

abbrev pub base_of : Services → Job → Runtime → Runtime × OperationRecord
base_of sv job r = operation_base_at sv job.trigger job.occurrence.id job.account job.started r

-- A record of an execution that sends no request.
unfoldable pub refuse : Services → Job → RequestOutcome → QuotaDecision → ErrorCode → Runtime → Done
refuse sv job outcome decision code r = refused sv outcome decision code (base_of sv job r)

abbrev pub under_key : String → Runtime × OperationRecord → Runtime × OperationRecord
under_key key (r, base) = (r, record base { account_key = key })

unfoldable pub refuse_unfound : Services → Job → Runtime → Done
refuse_unfound sv job r =
    refused sv RequestOutcome.disabled QuotaDecision.unset ErrorCode.account_unavailable
      (under_key job.occurrence.account_key (base_of sv job r))

abbrev pub is_unset : RequestOutcome → Bool
is_unset RequestOutcome.unset = true
is_unset _ = false

unfoldable pub with_outcome : ProbeResult → ProbeResult
with_outcome p =
    if is_unset p.outcome
    then record p {
      outcome = RequestOutcome.response_error;
      error_code = if is_set p.error_code then p.error_code else ErrorCode.probe_failed;
    }
    else p

abbrev pub is_unverified : WindowOutcome → Bool
is_unverified WindowOutcome.unverified = true
is_unverified _ = false

unfoldable pub error_of : ProbeResult → WindowOutcome → ErrorCode
error_of p window =
    if is_succeeded p.outcome && is_unverified window
    then ErrorCode.window_unverified
    else if not (is_succeeded p.outcome) && not (is_set p.error_code)
    then ErrorCode.probe_failed
    else p.error_code

abbrev pub probe_record :
    ProbeResult → WindowOutcome → QuotaDecision → Time → OperationRecord → OperationRecord
probe_record p window decision now base = record base {
  request_outcome = p.outcome;
  window_outcome = window;
  decision = decision;
  http_status = p.http_status;
  latency_ms = p.latency_ms;
  error_code = error_of p window;
  finished_at = now;
}

abbrev pub due_time : ProbeResult → Time → Time
due_time p now = if compensable p then now + 5 * minute else 0

abbrev pub compensate_later : Job → ProbeResult → Runtime → Runtime
compensate_later job p r = elim job.trigger [
  | OperationTrigger.preheat ↦ update_compensation job.occurrence (due_time p r.now) r
  | _ ↦ r
]

abbrev pub recorded :
    Services → Job → ProbeResult → WindowOutcome → QuotaDecision → Runtime × OperationRecord → Done
recorded sv job p window decision (r, base) =
    let final = probe_record p window decision r.now base in
    (append_history sv final (compensate_later job p r), final)

abbrev pub snapshot_or_nil : Result DomainError UsageSnapshot → Option UsageSnapshot
snapshot_or_nil (ok s) = some s
snapshot_or_nil (err e) = none

-- The end of executePreheat, from the second refresh on.
unfoldable pub observe :
    Services
    → Job
    → Option UsageSnapshot
    → QuotaDecision
    → ProbeResult
    → Runtime × Result DomainError UsageSnapshot
    → Done
observe sv job before' decision p (r, after') =
    recorded sv job p (classify_window p.outcome before' (snapshot_or_nil after')) decision
      (base_of sv job r)

abbrev pub probed : Account → Runtime → Time → Runtime
probed account r t = record r { now = t; probes = account.key ∷ r.probes }

unfoldable pub send :
    Services → Job → Config → Option UsageSnapshot → QuotaDecision → Runtime → Done
send sv job cfg before' decision r =
    let (t, result) = sv.probe job.account cfg.probe_model (probe_timeout cfg) r.now in
    observe sv job before' decision (with_outcome result)
      (refresh_snapshot sv job.account (probed job.account r t))

abbrev pub proceed_if_unset : QuotaDecision → QuotaDecision
proceed_if_unset QuotaDecision.unset = QuotaDecision.proceed
proceed_if_unset decision = decision

unfoldable pub act_on :
    Services → Job → Config → Option UsageSnapshot → Runtime × QuotaDecision → Done
act_on sv job cfg before' (r, QuotaDecision.guardrail_hold) =
    refuse sv job RequestOutcome.disabled QuotaDecision.guardrail_hold ErrorCode.guardrail_hold r
act_on sv job cfg before' (r, QuotaDecision.sufficient_window) =
    refuse sv job RequestOutcome.disabled QuotaDecision.sufficient_window ErrorCode.unset r
act_on sv job cfg before' (r, decision) = send sv job cfg before' (proceed_if_unset decision) r

abbrev pub decide_on : Services → Job → Runtime × Result DomainError UsageSnapshot → Done
decide_on sv job (r, before') =
    act_on sv job r.config (snapshot_or_nil before')
      (evaluate_quota r.config job.occurrence.account_key r.now before' r)

unfoldable pub execute_free : Services → Job → Runtime → Done
execute_free sv job r = decide_on sv job (refresh_snapshot sv job.account r)

unfoldable pub with_busy : Services → Job → Runtime × Bool → Done
with_busy sv job (r, false) =
    refuse sv job RequestOutcome.response_error QuotaDecision.unset ErrorCode.account_busy r
with_busy sv job (r, true) =
    let (r', final) = execute_free sv job r in (release_busy job.occurrence.account_key r', final)

abbrev pub refuse_disabled : Services → Job → ErrorCode → Runtime → Done
refuse_disabled sv job code r = refuse sv job RequestOutcome.disabled QuotaDecision.unset code r

-- The conditions under which no request may be sent, in the order of the code.
unfoldable pub execute_account : Services → Job → Runtime → Done
execute_account sv job r =
    if job.occurrence.missed
    then refuse_disabled sv job ErrorCode.config_invalid r
    else if not r.config.enabled || not (is_scheduled r.config job.occurrence.account_key)
    then refuse_disabled sv job ErrorCode.unset r
    else if job.account.disabled
    then refuse_disabled sv job ErrorCode.account_disabled r
    else if job.account.unavailable
    then refuse_disabled sv job ErrorCode.account_unavailable r
    else with_busy sv job (acquire_busy job.occurrence.account_key r)

abbrev pub job_of : OperationTrigger → PlannedOccurrence → Account → Time → Job
job_of trigger o account started = record {
  trigger = trigger;
  occurrence = o;
  account = account;
  started = started;
}

abbrev pub found :
    Services → OperationTrigger → PlannedOccurrence → Runtime → Time × Option Account → Done
found sv trigger o r (t, none) =
    refuse_unfound sv (job_of trigger o no_account r.now) (record r { now = t })
found sv trigger o r (t, some account) =
    execute_account sv (job_of trigger o (record account { key = o.account_key }) r.now)
      (record r { now = t })

unfoldable pub execute_preheat : Services → OperationTrigger → PlannedOccurrence → Runtime → Done
execute_preheat sv trigger o r =
    let key = normalize_key o.account_key in
    found sv trigger (record o { account_key = key }) r (sv.find key r.now)

unfoldable pub execute_compensation : Services → PlannedOccurrence → Runtime → Done
execute_compensation sv o r = execute_preheat sv OperationTrigger.compensation o r

abbrev pub not_held :
    String → Runtime → Disk RuntimeState × Result StoreError RuntimeState → Runtime × Bool
not_held key r (d, ok s) = (record r { states = d }, not (has_key key s.guardrail_holds))
not_held key r (d, err e) = (set_store_error e (record r { states = d }), false)

abbrev pub account_eligible : String → Runtime → Time × Option Account → Runtime × Bool
account_eligible key r (t, none) = (record r { now = t }, false)
account_eligible key r (t, some account) =
    if account.disabled || account.unavailable
    then (record r { now = t }, false)
    else not_held key (record r { now = t }) (Runtime.load r.states)

unfoldable pub compensation_eligible : Services → PlannedOccurrence → Runtime → Runtime × Bool
compensation_eligible sv o r =
    let key = normalize_key o.account_key in
    if not r.config.enabled || not (is_scheduled r.config key)
    then (r, false)
    else account_eligible key r (sv.find key r.now)
