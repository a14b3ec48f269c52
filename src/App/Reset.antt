-- ===== src/App/Reset.antt =====
-- internal/app/reset.go: quota resets as a machine that many calls of ResetQuota share. A call moves
-- from one phase to the next by one access to shared state (the mutex of the runtime, the audit
-- repository) or one call out of the process, so any interleaving of calls is a list of events.
pub mod Uuid
pub mod Steps
pub mod Machine
pub mod Evidence
pub mod Writes
pub mod Sound
pub mod Moves
pub mod Credits
pub mod Once
pub mod Flights
pub mod Owned
pub mod Owners
pub mod Woken
pub mod Progress
pub mod Outcome
pub mod Audits
pub mod Tests
use codex_window_reset.Base.{
  ℕ, suc, zero, ◌+◌, String, Bool, true, false, not, ◌&&◌, ◌||◌, List, [], ◌∷◌, ◌++◌, Option, none,
  some, ltb, leb, ◌==◌, if◌then◌else◌, get_elem?,
}
use codex_window_reset.Base.Int.{ℤ, pos, leb_ℤ}
use codex_window_reset.Base.Assoc.{Assoc, lookup, insert, delete, has_key}
use codex_window_reset.Base.Text.{is_empty, str_eq, trim_space}
use codex_window_reset.Domain.Clock.{Time}
use codex_window_reset.Domain.Outcome.{ErrorCode, DomainError, Result, ok, err}
use codex_window_reset.Domain.Snapshot.{UsageSnapshot}
use codex_window_reset.Domain.Operation.{ResetAudit, ResetOutcome, ResetHttpResult}
use codex_window_reset.Store.Disk.{Disk, StoreError}
use codex_window_reset.Store.Audit
use codex_window_reset.Store.Audit.{AuditDisk, is_pending}
use codex_window_reset.App.Runtime.{Account, normalize_key, store_error_code}
use codex_window_reset.App.Reset.Uuid.{canonical_uuid}

-- What a call returns; no audit is ResetAudit{}, and no error is nil.
pub record Reply : Type 0 where
  pub audit : Option ResetAudit
  pub error : Option DomainError

abbrev pub app_error : ErrorCode → ℕ → Bool → DomainError
app_error code status retryable = record {
  code = code;
  http_status = status;
  retryable = retryable;
}

abbrev pub idempotency_conflict_error : DomainError
idempotency_conflict_error = app_error ErrorCode.idempotency_conflict 409 false

abbrev pub reset_outcome_unknown_error : DomainError
reset_outcome_unknown_error = app_error ErrorCode.reset_outcome_unknown 503 true

abbrev pub reset_wait_canceled_error : DomainError
reset_wait_canceled_error = app_error ErrorCode.account_busy 409 true

abbrev pub account_busy_error : DomainError
account_busy_error = app_error ErrorCode.account_busy 409 true

abbrev pub reset_store_error : StoreError → DomainError
reset_store_error StoreError.conflict = idempotency_conflict_error
reset_store_error _ = app_error ErrorCode.store_corrupt 500 true

abbrev pub refusal : DomainError → Reply
refusal e = record { audit = none; error = some e }

abbrev pub success : ResetAudit → Reply
success a = record { audit = some a; error = none }

abbrev pub safe_masked_identity : String → String
safe_masked_identity identity =
    if is_empty (trim_space identity) then "***" else trim_space identity

-- The error of the consume call, as far as finalResetOutcome reads it.
pub data CallFailure : Type 0 where
  deadline_exceeded other_failure : CallFailure

abbrev pub failed_without : ResetHttpResult → Option CallFailure → ResetOutcome
failed_without result (some CallFailure.deadline_exceeded) = ResetOutcome.unknown
failed_without result _ =
    if result.status_code == 0 then ResetOutcome.unknown else ResetOutcome.failed

unfoldable pub final_reset_outcome : ResetHttpResult → Option CallFailure → ResetOutcome
final_reset_outcome result none =
    if leb 200 result.status_code && ltb result.status_code 300
    then ResetOutcome.succeeded
    else failed_without result none
final_reset_outcome result (some failure) = failed_without result (some failure)

-- Where a call stands. From `refreshing` to `finishing` it owns a flight, whose number it keeps.
pub data Phase : Type 0 where
  looking finding : Phase
  orphaned : ResetAudit → Phase
  beginning : Account → Phase
  refreshing : ℕ → Account → Phase
  appending : ℕ → ResetAudit → Phase
  conflicted : ℕ → Phase
  consuming : ℕ → ResetAudit → Phase
  refreshing_again : ℕ → ResetAudit → ResetHttpResult → Option CallFailure → Phase
  replacing : ℕ → ResetAudit → Phase
  finishing : ℕ → Reply → Phase
  waiting : ℕ → Phase
  done : Reply → Phase

pub record Call : Type 0 where
  pub account_key : String
  pub key : String
  pub phase : Phase

pub record Flight : Type 0 where
  pub number : ℕ
  pub account_key : String

-- The shared state. `ended` holds what each finished flight left for its waiters, and `consumed`
-- records the idempotency keys with which the upstream was called, the last one first (no code
-- reads it).
pub record Resets : Type 0 where
  pub audit : AuditDisk
  pub flights : Assoc Flight
  pub ended : List (ℕ × Reply)
  pub next_flight : ℕ
  pub busy : Assoc {0} Unit
  pub stopped : Bool
  pub store_error : ErrorCode
  pub now : Time
  pub consumed : List String

-- What the outside answers to a step: the account list, the quota endpoint, the consume call, a new
-- id, and whether the context of the caller or of the flight is canceled.
pub record Answers : Type 0 where
  pub account : Option Account
  pub snapshot : Result DomainError UsageSnapshot
  pub result : ResetHttpResult
  pub failure : Option CallFailure
  pub id : String
  pub canceled : Bool

abbrev pub Moved : Type 0
Moved = Phase × Resets

abbrev pub failed_with : StoreError → Resets → Resets
failed_with e s = record s { store_error = store_error_code e }

-- Joining a flight that is under way.
abbrev pub join : Call → Flight → Phase
join c f =
    if str_eq f.account_key c.account_key
    then Phase.waiting f.number
    else Phase.done (refusal idempotency_conflict_error)

abbrev pub flight_or : Call → Phase → Option Flight → Phase
flight_or c other none = other
flight_or c other (some f) = join c f

-- The entry of ResetQuota, to the test for a flight.
unfoldable pub arrive : String → String → Resets → Call
arrive account_key key s =
    let c : Call = record {
      account_key = normalize_key account_key;
      key = key;
      phase = Phase.looking;
    } in
    record c {
      phase =
          if not (canonical_uuid key)
          then Phase.done (refusal (app_error ErrorCode.config_invalid 400 false))
          else if is_empty c.account_key
          then Phase.done (refusal (app_error ErrorCode.account_unavailable 404 false))
          else flight_or c Phase.looking (lookup key s.flights);
    }
