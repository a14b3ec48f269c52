-- ===== src/App/Reset/Steps.antt =====
-- The steps of a call of ResetQuota, one function for each access to shared state.
use codex_window_reset.Base.{
  ℕ, suc, String, Bool, true, false, not, ◌&&◌, ◌||◌, List, [], ◌∷◌, Option, none, some, ◌==◌,
  if◌then◌else◌,
}
use codex_window_reset.Base.Int.{ℤ, pos, leb_ℤ}
use codex_window_reset.Base.Assoc.{lookup, insert, delete, has_key}
use codex_window_reset.Base.Text.{str_eq}
use codex_window_reset.Domain.Clock.{Time}
use codex_window_reset.Domain.Outcome.{ErrorCode, DomainError, Result, ok, err}
use codex_window_reset.Domain.Snapshot.{UsageSnapshot}
use codex_window_reset.Domain.Operation.{ResetAudit, ResetOutcome, ResetHttpResult}
use codex_window_reset.Store.Disk.{StoreError}
use codex_window_reset.Store.Audit
use codex_window_reset.Store.Audit.{AuditDisk, is_pending}
use codex_window_reset.App.Runtime.{Account}
use codex_window_reset.App.Reset.{
  Reply, app_error, idempotency_conflict_error, reset_outcome_unknown_error,
  reset_wait_canceled_error, account_busy_error, reset_store_error, refusal, success,
  safe_masked_identity, CallFailure, final_reset_outcome, Phase, Call, Flight, Resets, Answers,
  Moved, failed_with, join,
}

abbrev pub existing_or : Call → Option ResetAudit → Phase
existing_or c none = Phase.finding
existing_or c (some existing) =
    if not (str_eq existing.account_key c.account_key)
    then Phase.done (refusal idempotency_conflict_error)
    else if is_pending existing.outcome
    then Phase.orphaned existing
    else Phase.done (success existing)

module _ (retention : ℕ) where
  abbrev pub looked : Call → Resets → AuditDisk × Result StoreError (Option ResetAudit) → Moved
  looked c s (d, ok existing) = (existing_or c existing, record s { audit = d })
  looked c s (d, err e) =
      (Phase.done (refusal (reset_store_error e)), failed_with e (record s { audit = d }))

  -- recoverOrphanedReset
  abbrev pub recovered :
      ResetAudit → ResetAudit → Resets → AuditDisk × Result StoreError Unit → Moved
  recovered old new s (d, ok u) = (Phase.done (success new), record s { audit = d })
  recovered old new s (d, err e) = (
    Phase.done (record { audit = some old; error = some reset_outcome_unknown_error }),
    failed_with e (record s { audit = d }),
  )

  unfoldable pub recover_orphaned : ResetAudit → Resets → Moved
  recover_orphaned old s =
      let new = record old { outcome = ResetOutcome.unknown; finished_at = s.now } in
      recovered old new s (Audit.replace retention s.now new s.audit)

  unfoldable pub find_account : Call → Option Account → Phase
  find_account c none = Phase.done (refusal (app_error ErrorCode.account_unavailable 404 false))
  find_account c (some account) =
      if account.disabled
      then Phase.done (refusal (app_error ErrorCode.account_disabled 409 false))
      else if account.unavailable
      then Phase.done (refusal (app_error ErrorCode.account_unavailable 409 true))
      else Phase.beginning (record account { key = c.account_key })

  abbrev pub start_flight : Call → Account → Option Flight → Resets → Moved
  start_flight c account (some f) s = (join c f, s)
  start_flight c account none s =
      if s.stopped || has_key c.account_key s.busy
      then (Phase.done (refusal account_busy_error), s)
      else (
        Phase.refreshing s.next_flight account,
        record s {
          busy = insert c.account_key tt s.busy;
          flights =
              insert c.key (record { number = s.next_flight; account_key = c.account_key })
                s.flights;
          next_flight = suc s.next_flight;
        },
      )

  unfoldable pub begin_reset_flight : Call → Account → Resets → Moved
  begin_reset_flight c account s = start_flight c account (lookup c.key s.flights) s

  abbrev pub pending_audit : Call → Account → Option ℤ → String → Time → ResetAudit
  pending_audit c account credits id now = record {
    idempotency_key = c.key;
    requested_at = now;
    finished_at = 0;
    account_key = c.account_key;
    masked_identity = safe_masked_identity account.masked_identity;
    prior_applicable_credits = credits;
    outcome = ResetOutcome.pending;
    http_category = "";
    correlation_id = id;
  }

  abbrev pub has_credits : UsageSnapshot → Bool
  has_credits s = elim s.reset_applicable_count [
    | none ↦ false
    | some n ↦ s.reset_info_complete && not (leb_ℤ n (pos 0))
  ]

  unfoldable pub use_snapshot :
      ℕ → Call → Account → String → Time → Result DomainError UsageSnapshot → Phase
  use_snapshot n c account id now (err e) =
      Phase.finishing n (refusal (app_error ErrorCode.quota_refresh_failed 502 true))
  use_snapshot n c account id now (ok snapshot) =
      if has_credits snapshot
      then Phase.appending n (pending_audit c account snapshot.reset_applicable_count id now)
      else Phase.finishing n (refusal (app_error ErrorCode.quota_refresh_failed 409 false))

  abbrev pub appended : ℕ → ResetAudit → Resets → AuditDisk × Result StoreError Unit → Moved
  appended n pending s (d, ok u) = (Phase.consuming n pending, record s { audit = d })
  appended n pending s (d, err StoreError.conflict) = (Phase.conflicted n, record s { audit = d })
  appended n pending s (d, err e) =
      (Phase.finishing n (refusal (reset_store_error e)), failed_with e (record s { audit = d }))

  unfoldable pub append_pending : ℕ → ResetAudit → Resets → Moved
  append_pending n pending s =
      appended n pending s (Audit.append_pending retention s.now pending s.audit)

  abbrev pub conflict_reply : Call → Option ResetAudit → Reply
  conflict_reply c none = refusal idempotency_conflict_error
  conflict_reply c (some existing) =
      if not (str_eq existing.account_key c.account_key)
      then refusal idempotency_conflict_error
      else if is_pending existing.outcome
      then refusal account_busy_error
      else success existing

  -- The second half of handlePendingAppendConflict.
  abbrev pub conflict_looked :
      ℕ → Call → Resets → AuditDisk × Result StoreError (Option ResetAudit) → Moved
  conflict_looked n c s (d, ok existing) =
      (Phase.finishing n (conflict_reply c existing), record s { audit = d })
  conflict_looked n c s (d, err e) =
      (Phase.finishing n (refusal (reset_store_error e)), failed_with e (record s { audit = d }))

  -- resetConsume, under the gate that Stop waits for.
  unfoldable pub reset_consume : ℕ → Call → ResetAudit → Answers → Resets → Moved
  reset_consume n c pending a s =
      if s.stopped || a.canceled
      then (
        Phase.finishing n
            (record { audit = some pending; error = some reset_outcome_unknown_error }),
        s,
      )
      else (
        Phase.refreshing_again n pending a.result a.failure,
        record s { consumed = c.key ∷ s.consumed },
      )

  abbrev pub final_audit : ResetAudit → ResetHttpResult → Option CallFailure → Time → ResetAudit
  final_audit pending result failure now = record pending {
    finished_at = now;
    http_category = result.category;
    outcome = final_reset_outcome result failure;
  }

  abbrev pub is_unknown : ResetOutcome → Bool
  is_unknown ResetOutcome.unknown = true
  is_unknown _ = false

  abbrev pub replaced : ℕ → ResetAudit → Resets → AuditDisk × Result StoreError Unit → Moved
  replaced n final s (d, ok u) = (
    Phase.finishing n (record {
      audit = some final;
      error = if is_unknown final.outcome then some reset_outcome_unknown_error else none;
    }),
    record s { audit = d },
  )
  replaced n final s (d, err e) = (
    Phase.finishing n (record {
      audit = some (record final { outcome = ResetOutcome.unknown });
      error = some reset_outcome_unknown_error;
    }),
    failed_with e (record s { audit = d }),
  )

  unfoldable pub replace_audit : ℕ → ResetAudit → Resets → Moved
  replace_audit n final s = replaced n final s (Audit.replace retention s.now final s.audit)

  abbrev pub closed : ℕ → Call → Reply → Option Flight → Resets → Resets
  closed n c reply none s = s
  closed n c reply (some f) s = record s {
    ended = (n, reply) ∷ s.ended;
    flights = delete c.key s.flights;
    busy = delete f.account_key s.busy;
  }

  unfoldable pub finish_reset_flight : ℕ → Call → Reply → Resets → Resets
  finish_reset_flight n c reply s = closed n c reply (lookup c.key s.flights) s

  unfoldable pub ended_reply : ℕ → List (ℕ × Reply) → Option Reply
  ended_reply n [] = none
  ended_reply n ((m, reply) ∷ rest) =
      let found = ended_reply n rest in if m == n then some reply else found

  abbrev pub left_pending : Reply → Bool
  left_pending r = elim r.error [
    | none ↦ false
    | some e ↦ elim r.audit [ none ↦ false | some a ↦ is_pending a.outcome ]
  ]

  abbrev pub reloaded : Reply → Option ResetAudit → Reply
  reloaded left none = left
  reloaded left (some a) = if is_pending a.outcome then left else record left { audit = some a }

  abbrev pub wait_looked :
      Reply → Resets → AuditDisk × Result StoreError (Option ResetAudit) → Moved
  wait_looked left s (d, ok found) = (Phase.done (reloaded left found), record s { audit = d })
  wait_looked left s (d, err e) = (
    Phase.done (record left { error = some (reset_store_error e) }),
    failed_with e (record s { audit = d }),
  )

  abbrev pub waited : ℕ → Call → Option Reply → Resets → Moved
  waited n c none s = (Phase.waiting n, s)
  waited n c (some left) s =
      if left_pending left
      then (Phase.done left, s)
      else wait_looked left s (Audit.find_by_key retention s.now c.key s.audit)

  unfoldable pub wait_reset_flight : ℕ → Call → Answers → Resets → Moved
  wait_reset_flight n c a s =
      if a.canceled
      then (Phase.done (refusal reset_wait_canceled_error), s)
      else waited n c (ended_reply n s.ended) s

  -- One step of a call.
  unfoldable pub move : Answers → Call → Phase → Resets → Moved
  move a c Phase.looking s = looked c s (Audit.find_by_key retention s.now c.key s.audit)
  move a c (Phase.orphaned existing) s = recover_orphaned existing s
  move a c Phase.finding s = (find_account c a.account, s)
  move a c (Phase.beginning account) s = begin_reset_flight c account s
  move a c (Phase.refreshing n account) s = (use_snapshot n c account a.id s.now a.snapshot, s)
  move a c (Phase.appending n pending) s = append_pending n pending s
  move a c (Phase.conflicted n) s =
      conflict_looked n c s (Audit.find_by_key retention s.now c.key s.audit)
  move a c (Phase.consuming n pending) s = reset_consume n c pending a s
  move a c (Phase.refreshing_again n pending result failure) s =
      (Phase.replacing n (final_audit pending result failure s.now), s)
  move a c (Phase.replacing n final) s = replace_audit n final s
  move a c (Phase.finishing n reply) s = (Phase.done reply, finish_reset_flight n c reply s)
  move a c (Phase.waiting n) s = wait_reset_flight n c a s
  move a c (Phase.done reply) s = (Phase.done reply, s)
