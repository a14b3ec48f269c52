-- ===== src/App/Runtime.antt =====
-- The state of internal/app/runtime.go that executions use, with its helpers, and refreshSnapshot,
-- appendHistory and probeTimeout of internal/app/manual.go. One execution runs at a time here: what
-- another goroutine does to the runtime meanwhile is not modelled, and the clock advances with the
-- calls out of the process.
use codex_window_reset.Base.{
  ℕ, zero, suc, ◌*◌, String, Bool, true, false, ◌||◌, List, Option, if◌then◌else◌,
}
use codex_window_reset.Base.Int.{ℤ, pos, negsuc, to_int64}
use codex_window_reset.Base.Assoc.{Assoc, lookup, insert, delete, has_key}
use codex_window_reset.Base.Text.{is_empty, trim_space}
use codex_window_reset.Domain.Clock.{Time, second}
use codex_window_reset.Domain.Outcome.{
  RequestOutcome, WindowOutcome, QuotaDecision, ErrorCode, DomainError, ProbeResult, Result, ok,
  err,
}
use codex_window_reset.Domain.Snapshot.{UsageSnapshot}
use codex_window_reset.Domain.Operation.{OperationTrigger, OperationRecord, RuntimeState}
use codex_window_reset.Domain.Config.{Config}
use codex_window_reset.Store.Disk.{Disk, StoreError}
use codex_window_reset.Store.History
use codex_window_reset.Store.History.{HistoryDocument}
use codex_window_reset.Quota.Service.{Entry, complete_refresh, refresh_error}

-- The projection of internal/accounts/service.go.
pub record Account : Type 0 where
  pub key : String
  pub auth_index : String
  pub email : String
  pub account_prefix : String
  pub configuration_update : String
  pub masked_identity : String
  pub plan_label : String
  pub disabled : Bool
  pub unavailable : Bool
  pub fingerprint : String

-- Account{}
abbrev pub no_account : Account
no_account = record {
  key = "";
  auth_index = "";
  email = "";
  account_prefix = "";
  configuration_update = "";
  masked_identity = "";
  plan_label = "";
  disabled = false;
  unavailable = false;
  fingerprint = "";
}

-- What the runtime calls: the account list, the quota endpoint (refreshOwner), the probe, and the
-- sources of ids, each a function of how many ids were asked before. A call takes time.
pub record Services : Type 0 where
  pub find : String → Time → Time × Option Account
  pub fetch : Account → Time → Time × Result DomainError UsageSnapshot
  pub probe : Account → String → ℤ → Time → Time × ProbeResult
  pub ids : ℕ → String
  pub default_id : ℕ → String
  pub max_history : ℕ

-- `issued` counts the ids, and `probes` records the accounts that were probed, the last one first
-- (no code reads it).
pub record Runtime : Type 0 where
  pub config : Config
  pub busy : Assoc {0} Unit
  pub stopped : Bool
  pub store_error : ErrorCode
  pub entries : Assoc Entry
  pub states : Disk RuntimeState
  pub history : Disk HistoryDocument
  pub now : Time
  pub issued : ℕ
  pub probes : List String

abbrev pub normalize_key : String → String
normalize_key key = trim_space key

-- The code of setStoreError: a plain error counts as a corrupt store.
abbrev pub store_error_code : StoreError → ErrorCode
store_error_code StoreError.conflict = ErrorCode.idempotency_conflict
store_error_code _ = ErrorCode.store_corrupt

abbrev pub set_store_error : StoreError → Runtime → Runtime
set_store_error e r = record r { store_error = store_error_code e }

abbrev pub noted : {A : Type 0} → Result StoreError A → Runtime → Runtime
noted (ok a) r = r
noted (err e) r = set_store_error e r

abbrev pub id_or : String → String → String
id_or default id = if is_empty id then default else id

unfoldable pub next_id : Services → Runtime → Runtime × String
next_id sv r = (
  record r { issued = suc r.issued },
  id_or (sv.default_id r.issued) (trim_space (sv.ids r.issued)),
)

-- The second result is whether the account was free.
unfoldable pub acquire_busy : String → Runtime → Runtime × Bool
acquire_busy key r =
    let k = normalize_key key in
    if r.stopped || has_key k r.busy
    then (r, false)
    else (record r { busy = insert k tt r.busy }, true)

unfoldable pub release_busy : String → Runtime → Runtime
release_busy key r = record r { busy = delete (normalize_key key) r.busy }

unfoldable pub is_busy : String → Runtime → Bool
is_busy key r = has_key (normalize_key key) r.busy

-- time.Duration(seconds) * time.Second, a product of 64 bits.
unfoldable pub probe_timeout : Config → ℤ
probe_timeout cfg = elim cfg.probe_timeout_seconds [
  | pos zero ↦ pos (30 * second)
  | pos (suc n) ↦ to_int64 (pos (suc n * second))
  | negsuc n ↦ pos (30 * second)
]

abbrev pub refreshed :
    String
    → Runtime
    → Time × Result DomainError UsageSnapshot
    → Runtime × Result DomainError UsageSnapshot
refreshed key r (t, answer) =
    let (entries, result) = complete_refresh r.entries key r.now (lookup key r.entries) answer in
    (record r { entries = entries; now = t }, result)

-- Refresh of the quota service, with no other caller of it meanwhile.
unfoldable pub refresh : Services → Account → Runtime → Runtime × Result DomainError UsageSnapshot
refresh sv account r =
    let key = trim_space account.key in
    if is_empty key then (r, err refresh_error) else refreshed key r (sv.fetch account r.now)

abbrev pub keyed :
    String → Runtime × Result DomainError UsageSnapshot → Runtime × Result DomainError UsageSnapshot
keyed key (r, ok s) = (r, ok (record s { account_key = key }))
keyed key (r, err e) = (r, err e)

unfoldable pub refresh_snapshot :
    Services → Account → Runtime → Runtime × Result DomainError UsageSnapshot
refresh_snapshot sv account r = keyed (normalize_key account.key) (refresh sv account r)

unfoldable pub append_history : Services → OperationRecord → Runtime → Runtime
append_history sv record' r =
    let (d, result) = History.append sv.max_history record' r.history in
    noted result (record r { history = d })

unfoldable pub operation_base_at :
    Services → OperationTrigger → String → Account → Time → Runtime → Runtime × OperationRecord
operation_base_at sv trigger occurrence_id account started r =
    let (r1, id) = next_id sv r in
    let (r2, correlation_id) = next_id sv r1 in
    (
      r2,
      record {
        id = id;
        run_id = "";
        correlation_id = correlation_id;
        trigger = trigger;
        occurrence_id = occurrence_id;
        account_key = normalize_key account.key;
        masked_identity = account.masked_identity;
        started_at = started;
        finished_at = started;
        request_outcome = RequestOutcome.unset;
        window_outcome = WindowOutcome.unset;
        decision = QuotaDecision.unset;
        http_status = 0;
        latency_ms = 0;
        error_code = ErrorCode.unset;
      },
    )
