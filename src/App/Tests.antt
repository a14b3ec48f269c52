-- ===== src/App/Tests.antt =====
-- Executions of a preheat, and their theorems, at one account.
use codex_window_reset.Base.{
  ℕ, subst, ◌≡◌, ◌≢◌, ◌≤◌, ◌<◌, ◌⊎◌, refl, ◌+◌, true, false, List, [], ◌∷◌, some, none, arith,
  String,
}
use codex_window_reset.Base.Int.{pos}
use codex_window_reset.Base.Assoc.{lookup}
use codex_window_reset.Base.Text.{trim_space}
use codex_window_reset.Domain.Clock.{Time}
use codex_window_reset.Domain.Outcome.{
  RequestOutcome, WindowOutcome, QuotaDecision, ErrorCode, DomainError, ProbeResult, ok, err,
  ok-injective,
}
use codex_window_reset.Domain.Snapshot.{UsageWindow, UsageSnapshot, GuardrailHold}
use codex_window_reset.Domain.Operation.{OperationTrigger, PlannedOccurrence}
use codex_window_reset.Domain.Config.{Config, default_config}
use codex_window_reset.Store.Disk.{File}
use codex_window_reset.Store.Runtime
use codex_window_reset.Store.Runtime.{OnDisk}
use codex_window_reset.Store.History
use codex_window_reset.Quota.Windows.{shortest_window, shortest, scan_marked, scan_all}
use codex_window_reset.Quota.Decide.{decide}
use codex_window_reset.Quota.Service.{is_stale}
use codex_window_reset.Quota.Service.Holds.{Holds}
use codex_window_reset.Schedule.Scheduler.Callbacks.{Environment}
use codex_window_reset.Schedule.Scheduler.{CommandKind}
use codex_window_reset.Schedule.Scheduler.Loop.Quiet.{preheats_of}
use codex_window_reset.Schedule.Scheduler.Commands.{new_scheduler}
use codex_window_reset.Schedule.Scheduler.Commands.Once.{Event, run}
use codex_window_reset.App.Runtime.{Account, no_account, Services, Runtime, normalize_key}
use codex_window_reset.App.Preheat.{
  classify_window, short_active, window_of, evaluate_quota, service_decision, snapshot_is_fresh,
  fallback_for,
}
use codex_window_reset.App.Preheat.Observed.{classify_window_started}
use codex_window_reset.App.Preheat.Fallback.{evaluate_quota_by_service, fallback_as_service}
use codex_window_reset.App.Execute.{execute_preheat}
use codex_window_reset.App.Execute.Once.{Allowed, execute_preheat_logs, execute_preheat_sends}
use codex_window_reset.App.Manual.{execute_manual}
use codex_window_reset.App.Manual.Left.{FoundOpen, execute_manual_leaves}
use codex_window_reset.App.Execute.Laws.{with_runtime, runtime_preheats_once}
use codex_window_reset.App.Execute.Held.{held_sends_nothing}

abbrev cfg : Config
cfg = record default_config { enabled = true; scheduled_account_keys = "acct-1" ∷ [] }

abbrev pub plan : PlannedOccurrence
plan = record {
  id = "occ-1";
  account_key = "acct-1";
  local_date = "2026-01-05";
  period_index = 0;
  window_start = 4000;
  window_end = 6000;
  planned_at = 5000;
  missed = false;
  missed_reason = "";
}

abbrev pub account : Account
account = record no_account { key = "acct-1"; masked_identity = "a***" }

abbrev window : ℕ → UsageWindow
window reset_at = record {
  duration_minutes = pos 300;
  remaining_percent = pos 90;
  reset_at = reset_at;
  short = true;
}

abbrev snapshot : ℕ → ℕ → UsageSnapshot
snapshot captured_at reset_at = record {
  account_key = "acct-1";
  captured_at = captured_at;
  windows = window reset_at ∷ [];
  reset_credits = [];
  reset_applicable_count = none;
  reset_info_complete = false;
}

abbrev probe_answer : ProbeResult
probe_answer = record {
  outcome = RequestOutcome.succeeded;
  http_status = 200;
  latency_ms = 100;
  error_code = ErrorCode.unset;
  retry_eligible = false;
}

-- The endpoint answers at once, and each capture resets 100 ns after it was taken.
abbrev pub services : Services
services = record {
  find = λ key t. (t, some account);
  fetch = λ a t. (t, ok (snapshot t (t + 100)));
  probe = λ a model timeout t. (t + 200, probe_answer);
  ids = λ n. "id";
  default_id = λ n. "random";
  max_history = 100;
}

abbrev fetch_error : DomainError
fetch_error = record { code = ErrorCode.quota_refresh_failed; http_status = 502; retryable = true }

abbrev silent : Services
silent = record services { fetch = λ a t. (t + 50, err fetch_error) }

abbrev pub runtime : Runtime
runtime = record {
  config = cfg;
  busy = [];
  stopped = false;
  store_error = ErrorCode.unset;
  entries = [];
  states = record { file = File.missing; faults = [] };
  history = record { file = File.missing; faults = [] };
  now = 5000;
  issued = 0;
  probes = [];
}

abbrev hold : GuardrailHold
hold = record { account_key = "acct-1"; established_at = 3000; floor_percent = pos 10 }

abbrev held_runtime : Runtime
held_runtime = record runtime {
  states = record {
    file =
        File.holds (record Runtime.empty_runtime_state { guardrail_holds = ("acct-1", hold) ∷ [] });
    faults = [];
  };
}

execute_preheat_logs_example :
    let done = execute_preheat services OperationTrigger.preheat plan runtime in
    (done.0.history ≡ (History.append 100 done.1 runtime.history).0)
    × (lookup "acct-1" done.0.busy ≡ lookup "acct-1" runtime.busy)
execute_preheat_logs_example =
    execute_preheat_logs services OperationTrigger.preheat plan runtime "acct-1"

-- The account is unavailable, and the run allows it.
abbrev unavailable_services : Services
unavailable_services = record services {
  find = λ key t. (t, some (record account { unavailable = true }));
}

execute_manual_leaves_example :
    let done = execute_manual unavailable_services "run-1" account true runtime in
    (done.0.history ≡ (History.append 100 done.1 runtime.history).0)
    × (lookup "acct-1" done.0.busy ≡ lookup "acct-1" runtime.busy)
    × (((done.0.probes ≡ []) × (done.1.window_outcome ≡ WindowOutcome.not_observed))
        ⊎ ((done.0.probes ≡ normalize_key "acct-1" ∷ [])
            × FoundOpen true
                (normalize_key "acct-1")
                runtime
                (5000, some (record account { unavailable = true }))))
execute_manual_leaves_example =
    execute_manual_leaves unavailable_services "run-1" account true runtime "acct-1"

abbrev manual_done : List String
manual_done = (execute_manual unavailable_services "run-1" account true runtime).0.probes

execute_preheat_sends_example :
    let done = execute_preheat services OperationTrigger.preheat plan runtime in
    ((done.0.probes ≡ []) × (done.1.window_outcome ≡ WindowOutcome.not_observed))
    ⊎ ((done.0.probes ≡ normalize_key "acct-1" ∷ [])
        × (done.1.decision ≢ QuotaDecision.guardrail_hold)
        × (done.1.decision ≢ QuotaDecision.sufficient_window)
        × ((a : Account) × (t : Time) × (services.find (normalize_key "acct-1") 5000 ≡ (t, some a))
            × Allowed
                (record plan { account_key = normalize_key "acct-1" })
                (record a { key = normalize_key "acct-1" })
                runtime))
execute_preheat_sends_example = execute_preheat_sends services OperationTrigger.preheat plan runtime

held-on_disk : OnDisk (Holds "acct-1") held_runtime.states
unfolding lookup
held-on_disk s e = subst (Holds "acct-1") (ok-injective e) refl

held_sends_nothing_example :
    (execute_preheat silent OperationTrigger.preheat plan held_runtime).0.probes ≡ []
unfolding trim_space
held_sends_nothing_example =
    held_sends_nothing silent OperationTrigger.preheat plan held_runtime refl refl
      (λ a t e. (t + 50, fetch_error, refl)) held-on_disk

started :
    classify_window RequestOutcome.succeeded (some (snapshot 5000 4000)) (some (snapshot 5200 9000))
    ≡ WindowOutcome.verified_started
unfolding classify_window short_active shortest_window shortest scan_marked scan_all
started = refl

classify_window_started_example :
    (RequestOutcome.succeeded ≡ RequestOutcome.succeeded)
    × ((s : UsageSnapshot) × (w : UsageWindow) × (v : UsageWindow) × (some (snapshot 5000 4000)
          ≡ some s)
        × (window_of (some (snapshot 5000 4000)) ≡ some w)
        × (window_of (some (snapshot 5200 9000)) ≡ some v)
        × (0 < w.reset_at)
        × (0 < v.reset_at)
        × (w.reset_at ≢ v.reset_at)
        × ((s.captured_at ≡ 0) ⊎ (w.reset_at ≤ s.captured_at)))
classify_window_started_example =
    classify_window_started RequestOutcome.succeeded (some (snapshot 5000 4000))
      (some (snapshot 5200 9000)) started

evaluate_quota_by_service_example :
    evaluate_quota cfg "acct-1" 5000 (ok (snapshot 5000 5100)) runtime
    ≡ service_decision cfg "acct-1" 5000 runtime
evaluate_quota_by_service_example =
    evaluate_quota_by_service cfg "acct-1" 5000 (ok (snapshot 5000 5100)) runtime

fresh : snapshot_is_fresh (snapshot 5000 9000) 6000 ≡ true
unfolding snapshot_is_fresh
fresh = refl

fallback_as_service_example :
    fallback_for (snapshot 5000 9000) (snapshot_is_fresh (snapshot 5000 9000) 6000) cfg 6000
    ≡ decide
        (record {
          snapshot = snapshot 5000 9000;
          stale = is_stale 5000 6000;
          last_attempt_at = 6000;
          refresh_error_code = ErrorCode.unset;
        })
        (some hold)
        cfg
        6000
fallback_as_service_example =
    fallback_as_service (snapshot 5000 9000) (some hold) cfg 6000 60 (ground arith) refl
      (ground arith) fresh

abbrev run_probes : List String
run_probes = (execute_preheat services OperationTrigger.preheat plan runtime).0.probes

-- One plan a day, and days of 100000 ns.
abbrev pub environment : Environment
environment = record {
  execute_preheat =
      λ o d t. (d, t, (execute_preheat services OperationTrigger.preheat o runtime).1);
  execute_compensation = none;
  compensation_eligible = none;
  plan_day = λ c day. some (plan ∷ []);
  zone_known = λ z. true;
  local_day = λ z t. 0;
  next_midnight = λ z t. 100_000;
}

abbrev events : List Event
events =
    Event.starts
    ∷ Event.handles false cfg (record { kind = CommandKind.reconcile; id = ""; generation = 0 })
    ∷ Event.passes 5000
    ∷ Event.handles false cfg
        (record { kind = CommandKind.occurrence; id = "occ-1"; generation = 1 })
    ∷ []

runtime_preheats_once_example :
    preheats_of "occ-1"
      (run
        (with_runtime services (λ d t. runtime) environment)
        events
        (new_scheduler runtime.states 1000)).requests
    ≤ 1
runtime_preheats_once_example =
    runtime_preheats_once services (λ d t. runtime) environment "occ-1" runtime.states 1000 events
