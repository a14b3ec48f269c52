-- ===== src/App/Preheat.antt =====
-- internal/app/preheat.go: the execution of a preheat or of its compensation.
pub mod Observed
pub mod Fallback
use codex_window_reset.Base.{
  ℕ, ◌+◌, ◌*◌, String, Bool, true, false, not, ◌&&◌, ◌||◌, List, [], ◌∷◌, Option, none, some, any,
  is_none, leb, ◌==◌, if◌then◌else◌,
}
use codex_window_reset.Base.Int.{ℤ, pos, leb_ℤ, ltb_ℤ}
use codex_window_reset.Base.Assoc.{lookup, insert, has_key}
use codex_window_reset.Base.Text.{is_empty, str_eq, trim_space}
use codex_window_reset.Domain.Clock.{Time, minute, is_zero, after, sub}
use codex_window_reset.Domain.Outcome.{
  RequestOutcome, WindowOutcome, QuotaDecision, ErrorCode, DomainError, ProbeResult, Result, ok,
  err,
}
use codex_window_reset.Domain.Snapshot.{UsageWindow, UsageSnapshot, SnapshotView}
use codex_window_reset.Domain.Operation.{
  OperationTrigger, OperationRecord, OccurrenceStatus, PlannedOccurrence, OccurrenceState,
  RuntimeState,
}
use codex_window_reset.Domain.Config.{Config}
use codex_window_reset.Store.Disk.{Disk, StoreError}
use codex_window_reset.Store.Runtime
use codex_window_reset.Quota.Windows.{any_long_at_or_below, shortest_window, shortest_index}
use codex_window_reset.Quota.Decide.{minutes, is_set}
use codex_window_reset.Quota.Service
use codex_window_reset.App.Runtime.{
  Account, no_account, Services, Runtime, normalize_key, set_store_error, noted, acquire_busy,
  release_busy, probe_timeout, refresh_snapshot, append_history, operation_base_at,
}

unfoldable pub is_scheduled : Config → String → Bool
is_scheduled cfg key =
    any (λ selected. str_eq (normalize_key selected) (normalize_key key)) cfg.scheduled_account_keys

unfoldable pub compensable : ProbeResult → Bool
compensable p = elim p.outcome [
  | RequestOutcome.network_error ↦ true
  | RequestOutcome.timeout ↦ true
  | RequestOutcome.rate_limited ↦ true
  | RequestOutcome.response_error ↦ p.http_status == 429
  | RequestOutcome.upstream_error ↦ leb 500 p.http_status && leb p.http_status 599
  | _ ↦ false
]

-- shortActive; the snapshot is not nil.
unfoldable pub short_active : UsageSnapshot → UsageWindow → Bool
short_active s w =
    if is_zero w.reset_at
    then false
    else if not (is_zero s.captured_at)
    then after w.reset_at s.captured_at
    else ltb_ℤ (pos 0) w.remaining_percent

abbrev pub window_of : Option UsageSnapshot → Option UsageWindow
window_of none = none
window_of (some s) = shortest_window s.windows

abbrev pub compare_windows :
    Option UsageSnapshot → Option UsageWindow → Option UsageWindow → WindowOutcome
compare_windows (some s) (some w) (some v) =
    if is_zero w.reset_at || is_zero v.reset_at
    then WindowOutcome.unverified
    else if short_active s w
    then WindowOutcome.already_active
    else if not (w.reset_at == v.reset_at)
    then WindowOutcome.verified_started
    else WindowOutcome.unchanged
compare_windows _ _ _ = WindowOutcome.unverified

abbrev pub is_succeeded : RequestOutcome → Bool
is_succeeded RequestOutcome.succeeded = true
is_succeeded _ = false

unfoldable pub classify_window :
    RequestOutcome → Option UsageSnapshot → Option UsageSnapshot → WindowOutcome
classify_window request before' after' =
    if not (is_succeeded request)
    then WindowOutcome.not_observed
    else compare_windows before' (window_of before') (window_of after')

unfoldable pub snapshot_is_fresh : UsageSnapshot → Time → Bool
snapshot_is_fresh s now =
    not (is_zero s.captured_at) && ltb_ℤ (sub now s.captured_at) (pos (5 * minute))

-- A repository error counts as a hold.
abbrev pub hold_found :
    String → Runtime → Disk RuntimeState × Result StoreError RuntimeState → Runtime × Bool
hold_found key r (d, ok s) =
    (record r { states = d }, has_key (normalize_key key) s.guardrail_holds)
hold_found key r (d, err e) = (set_store_error e (record r { states = d }), true)

unfoldable pub has_hold : String → Runtime → Runtime × Bool
has_hold key r = hold_found key r (Runtime.load r.states)

abbrev pub enough_left : Option UsageWindow → Config → Time → Bool
enough_left none cfg now = false
enough_left (some w) cfg now =
    leb_ℤ cfg.remaining_quota_floor_percent w.remaining_percent
    && not (is_zero w.reset_at)
    && leb_ℤ (minutes cfg.remaining_window_floor_minutes) (sub w.reset_at now)

abbrev pub hold_decision : Bool → QuotaDecision
hold_decision true = QuotaDecision.guardrail_hold
hold_decision false = QuotaDecision.quota_unknown_fail_open

unfoldable pub fallback_for : UsageSnapshot → Bool → Config → Time → QuotaDecision
fallback_for s fresh cfg now =
    if is_none (shortest_window s.windows)
    then QuotaDecision.proceed
    else if any_long_at_or_below s cfg.long_window_floor_percent
    then QuotaDecision.guardrail_hold
    else if fresh && enough_left (shortest_window s.windows) cfg now
    then QuotaDecision.sufficient_window
    else QuotaDecision.proceed

-- fallbackDecision after a refresh: with an error the cached view is found and not used.
unfoldable pub fallback_decision :
    Config → String → Time → Result DomainError UsageSnapshot → Runtime → Runtime × QuotaDecision
fallback_decision cfg key now (ok s) r = (r, fallback_for s (snapshot_is_fresh s now) cfg now)
fallback_decision cfg key now (err e) r =
    let (r', held) = has_hold key r in (r', hold_decision held)

abbrev pub is_undecided : QuotaDecision → Bool
is_undecided QuotaDecision.unset = true
is_undecided _ = false

abbrev pub or_fallback :
    Config
    → String
    → Time
    → Result DomainError UsageSnapshot
    → Runtime × QuotaDecision
    → Runtime × QuotaDecision
or_fallback cfg key now refreshed' (r, decision) =
    if is_undecided decision then fallback_decision cfg key now refreshed' r else (r, decision)

unfoldable pub service_decision : Config → String → Time → Runtime → Runtime × QuotaDecision
service_decision cfg key now r =
    let (d, decision) = Service.evaluate r.entries cfg key now r.states in
    (record r { states = d }, decision)

-- The quota service has an Evaluate.
unfoldable pub evaluate_quota :
    Config → String → Time → Result DomainError UsageSnapshot → Runtime → Runtime × QuotaDecision
evaluate_quota cfg key now refreshed' r =
    or_fallback cfg key now refreshed' (service_decision cfg key now r)

-- The mutation of updateCompensation; `due` is 0 for none.
abbrev pub entry_or_new : PlannedOccurrence → Option OccurrenceState → OccurrenceState
entry_or_new o (some entry) = entry
entry_or_new o none = record {
  occurrence = o;
  status = OccurrenceStatus.unset;
  compensation_due_at = 0;
  compensation_attempted = false;
}

unfoldable pub set_due : PlannedOccurrence → Time → RuntimeState → RuntimeState × Unit {0}
set_due o due s = (
  record s {
    occurrences =
        insert o.id
          (record (entry_or_new o (lookup o.id s.occurrences)) { compensation_due_at = due })
          s.occurrences;
  },
  tt,
)

unfoldable pub update_compensation : PlannedOccurrence → Time → Runtime → Runtime
update_compensation o due r =
    if is_empty (trim_space o.id)
    then r
    else let (d, result) = Runtime.update_always (set_due o due) r.states in
      noted result (record r { states = d })
