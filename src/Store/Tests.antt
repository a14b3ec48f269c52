-- ===== src/Store/Tests.antt =====
-- Runs of the repositories, and their theorems at documents with content and failing disks.
use codex_window_reset.Base.{inl, inr, ◌⊎◌, ◌≡◌, refl, arith, subst, ℕ, List, [], ◌∷◌, none}
use codex_window_reset.Domain.Clock.{Time}
use codex_window_reset.Domain.Outcome.{
  Result, err, ok, ok-injective, RequestOutcome, WindowOutcome, QuotaDecision, ErrorCode,
}
use codex_window_reset.Domain.Operation.{
  ResetAudit, ResetOutcome, OperationRecord, OperationTrigger, RuntimeState,
}
use codex_window_reset.Store.Disk.{Disk, File, Fault, StoreError}
use codex_window_reset.Store.Runtime
use codex_window_reset.Store.Runtime.{Outcome, update-Outcome}
use codex_window_reset.Base.Int.{pos}
use codex_window_reset.Domain.Config.{Config, default_config}
use codex_window_reset.Store.Configs.{load, save}
use codex_window_reset.Store.Configs.Reloaded.{load-save}
use codex_window_reset.Store.History.{HistoryDocument, Appended, append, append-Appended}
use codex_window_reset.Store.Audit.{AuditDisk, document}
use codex_window_reset.Store.Audit.Keys.{UniqueKeys, OnDisk}
use codex_window_reset.Store.Audit.Calls.{AuditCall, run, run-UniqueKeys}

abbrev audit : ResetAudit
audit = record {
  idempotency_key = "key-1";
  requested_at = 1000;
  finished_at = 0;
  account_key = "acct-1";
  masked_identity = "a***@example.com";
  prior_applicable_credits = none;
  outcome = ResetOutcome.pending;
  http_category = "";
  correlation_id = "c-1";
}

abbrev audits : AuditDisk
audits = record {
  file = File.holds (document (audit ∷ record audit { idempotency_key = "key-2" } ∷ []));
  faults = Fault.fine ∷ Fault.unsynced ∷ [];
}

abbrev audit_calls : List (Time × AuditCall)
audit_calls =
    (2000, AuditCall.appends (record audit { idempotency_key = "key-3" }))
    ∷ (2001, AuditCall.appends audit)
    ∷ (2002, AuditCall.replaces (record audit { outcome = ResetOutcome.succeeded }))
    ∷ (9000, AuditCall.deletes 1500)
    ∷ []

audits-UniqueKeys : OnDisk UniqueKeys audits
audits-UniqueKeys rs e = subst UniqueKeys (ok-injective e) ((refl, tt), (tt, tt))

run-UniqueKeys_example : OnDisk UniqueKeys (run 5000 audit_calls audits)
run-UniqueKeys_example = run-UniqueKeys 5000 audit_calls audits audits-UniqueKeys

abbrev operation : OperationRecord
operation = record {
  id = "op-1";
  run_id = "run-1";
  correlation_id = "c-1";
  trigger = OperationTrigger.preheat;
  occurrence_id = "occ-1";
  account_key = "acct-1";
  masked_identity = "";
  started_at = 1000;
  finished_at = 2000;
  request_outcome = RequestOutcome.succeeded;
  window_outcome = WindowOutcome.verified_started;
  decision = QuotaDecision.proceed;
  http_status = 200;
  latency_ms = 12;
  error_code = ErrorCode.unset;
}

abbrev log : Disk HistoryDocument
log = record {
  file = File.holds (record { schema_version = 1; records = operation ∷ operation ∷ [] });
  faults = Fault.fine ∷ Fault.fails ∷ [];
}

append-Appended_example :
    Appended 2
      (record operation { id = "op-2" })
      log
      (append 2 (record operation { id = "op-2" }) log)
append-Appended_example = append-Appended 2 (record operation { id = "op-2" }) log

abbrev states : Disk RuntimeState
states = record {
  file = File.holds (record Runtime.empty_runtime_state { next_runs = ("occ-1", 5000) ∷ [] });
  faults = Fault.fine ∷ Fault.unsynced ∷ [];
}

abbrev drop_runs : RuntimeState → RuntimeState × ℕ
drop_runs s = (record s { next_runs = [] }, 7)

-- A failed sync: the mutation is stored, and the call reports an error.
unsynced_update : Runtime.update_always drop_runs states ≡ (
  record { file = File.holds Runtime.empty_runtime_state; faults = [] },
  err StoreError.io_error,
)
unfolding Runtime.update Runtime.load Runtime.save codex_window_reset.Store.Disk.read_json
    codex_window_reset.Store.Disk.write_atomic
unsynced_update = refl

-- A mutation that writes to the state and then returns an error of its own, as in
-- TestRuntimeStateUpdateErrorDoesNotPersistMutation.
abbrev stop_update : RuntimeState → RuntimeState × Result (StoreError ⊎ ℕ) ℕ
stop_update s = ((drop_runs s).0, err (inr 7))

stopped_update :
    Runtime.update inl stop_update states
    ≡ (record { file = states.file; faults = Fault.unsynced ∷ [] }, err (inr 7))
unfolding Runtime.update Runtime.load codex_window_reset.Store.Disk.read_json
stopped_update = refl

update-Outcome_example : Outcome inl stop_update states (Runtime.update inl stop_update states)
update-Outcome_example = update-Outcome inl stop_update states

abbrev zero_threshold : Config
zero_threshold = record default_config { health_threshold_percent = pos 0 }

-- A threshold of 0 is loaded again as 80.
load-save_example :
    let d : Disk Config = record { file = File.missing; faults = [] } in
    ((save zero_threshold d).1 ≡ ok tt)
    × ((load (save zero_threshold d).0).1
        ≡ ok (record zero_threshold { health_threshold_percent = pos 80 }))
load-save_example = load-save zero_threshold File.missing (ground arith) (ground arith)
