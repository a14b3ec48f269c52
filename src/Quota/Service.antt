-- ===== src/Quota/Service.antt =====
-- Get, ClearSnapshots, Evaluate, loadHold and transitionHold of internal/quota/service.go, and what
-- Refresh records when its owner has an answer (the HTTP exchange and the sharing of one flight
-- among callers are not modelled). The service has a state repository: `states` is not nil.
pub mod Holds
pub mod Lifecycle
pub mod Kept
use codex_window_reset.Base.{
  ℕ, String, Bool, true, false, not, ◌&&◌, ◌||◌, [], Option, none, some, is_none, if◌then◌else◌,
}
use codex_window_reset.Base.Int.{pos, leb_ℤ}
use codex_window_reset.Base.Assoc.{Assoc, lookup, insert, delete}
use codex_window_reset.Base.Text.{is_empty, trim_space}
use codex_window_reset.Domain.Clock.{Time, is_zero, minute, sub}
use codex_window_reset.Domain.Outcome.{QuotaDecision, ErrorCode, DomainError, Result, ok, err}
use codex_window_reset.Domain.Snapshot.{UsageSnapshot, SnapshotView, GuardrailHold}
use codex_window_reset.Domain.Operation.{RuntimeState}
use codex_window_reset.Domain.Config.{Config}
use codex_window_reset.Store.Disk.{Disk, StoreError}
use codex_window_reset.Store.Runtime
use codex_window_reset.Quota.Windows.{any_long_at_or_below, all_long_above, has_long_window}
use codex_window_reset.Quota.Decide.{decide, is_set}

pub record Entry : Type 0 where
  pub snapshot : UsageSnapshot
  pub last_error : Option DomainError
  pub last_attempt_at : Time

abbrev pub snapshot_stale_after : ℕ
snapshot_stale_after = 300_000_000_000

abbrev pub error_code : Option DomainError → ErrorCode
error_code none = ErrorCode.unset
error_code (some e) = e.code

unfoldable pub is_stale : Time → Time → Bool
is_stale captured now =
    not (is_zero captured) && leb_ℤ (pos snapshot_stale_after) (sub now captured)

abbrev pub view_of : Time → Option Entry → Option SnapshotView
view_of now none = none
view_of now (some e) = some (record {
  snapshot = e.snapshot;
  stale = is_stale e.snapshot.captured_at now;
  last_attempt_at = e.last_attempt_at;
  refresh_error_code = error_code e.last_error;
})

unfoldable pub get : Assoc Entry → String → Time → Option SnapshotView
get entries key now = view_of now (lookup (trim_space key) entries)

-- The entry that a failed refresh leaves: the last snapshot stays, with the error beside it.
abbrev snapshot_of : String → Option Entry → UsageSnapshot
snapshot_of key none = record {
  account_key = key;
  captured_at = 0;
  windows = [];
  reset_credits = [];
  reset_applicable_count = none;
  reset_info_complete = false;
}
snapshot_of key (some e) = record (e.snapshot) {
  account_key = if is_empty e.snapshot.account_key then key else e.snapshot.account_key;
}

abbrev pub refresh_error : DomainError
refresh_error = record { code = ErrorCode.quota_refresh_failed; http_status = 0; retryable = true }

-- The end of Refresh: `answer` is what the owner of the flight obtained, `current` the entry that
-- stood when the flight began.
unfoldable pub complete_refresh :
    Assoc Entry
    → String
    → Time
    → Option Entry
    → Result DomainError UsageSnapshot
    → Assoc Entry × Result DomainError UsageSnapshot
complete_refresh entries key attempt_at current (ok fresh) =
    let snapshot = record fresh { account_key = key } in
    (
      insert key (record { snapshot = snapshot; last_error = none; last_attempt_at = attempt_at })
          entries,
      ok snapshot,
    )
complete_refresh entries key attempt_at current (err e) = (
  insert key
      (record {
        snapshot = snapshot_of key current;
        last_error = some refresh_error;
        last_attempt_at = attempt_at;
      })
      entries,
  err refresh_error,
)

abbrev pub StateDisk : Type 0
StateDisk = Disk RuntimeState

abbrev hold_in :
    String
    → StateDisk × Result StoreError RuntimeState
    → StateDisk × Result StoreError (Option GuardrailHold)
hold_in key (d, ok s) = (d, ok (lookup key s.guardrail_holds))
hold_in key (d, err e) = (d, err e)

pub load_hold : String → StateDisk → StateDisk × Result StoreError (Option GuardrailHold)
load_hold key d = if is_empty key then (d, ok none) else hold_in key (Runtime.load d)

-- The two mutations of transitionHold, each with the hold that results.
pub establish : String → GuardrailHold → RuntimeState → RuntimeState × Option GuardrailHold
establish key created s = elim (lookup key s.guardrail_holds) [
  | none ↦ (record s { guardrail_holds = insert key created s.guardrail_holds }, some created)
  | some existing ↦ (s, some existing)
]

pub release : String → RuntimeState → RuntimeState × Option GuardrailHold
release key s = (record s { guardrail_holds = delete key s.guardrail_holds }, none)

abbrev is_fresh : SnapshotView → Bool
is_fresh view = not (is_set view.refresh_error_code || view.stale)

abbrev move_hold :
    SnapshotView
    → Config
    → String
    → Time
    → StateDisk × Result StoreError (Option GuardrailHold)
    → StateDisk × Result StoreError (Option GuardrailHold)
move_hold view cfg key now (d, err e) = (d, err e)
move_hold view cfg key now (d, ok hold) =
    if not (is_fresh view)
    then (d, ok hold)
    else if any_long_at_or_below view.snapshot cfg.long_window_floor_percent && is_none hold
    then Runtime.update_always
        (establish key (record {
          account_key = key;
          established_at = now;
          floor_percent = cfg.long_window_floor_percent;
        }))
        d
    else if not (is_none hold)
        && has_long_window view.snapshot.windows
        && all_long_above view.snapshot cfg.long_window_floor_percent
    then Runtime.update_always (release key) d
    else (d, ok hold)

pub transition_hold :
    SnapshotView
    → Config
    → String
    → Time
    → StateDisk
    → StateDisk × Result StoreError (Option GuardrailHold)
transition_hold view cfg key now d = move_hold view cfg key now (load_hold key d)

-- A repository error decides for the hold.
abbrev pub unknown_or_hold :
    StateDisk × Result StoreError (Option GuardrailHold) → StateDisk × QuotaDecision
unknown_or_hold (d, ok none) = (d, QuotaDecision.quota_unknown_fail_open)
unknown_or_hold (d, ok (some hold)) = (d, QuotaDecision.guardrail_hold)
unknown_or_hold (d, err e) = (d, QuotaDecision.guardrail_hold)

abbrev pub decide_with :
    SnapshotView
    → Config
    → Time
    → StateDisk × Result StoreError (Option GuardrailHold)
    → StateDisk × QuotaDecision
decide_with view cfg now (d, ok hold) = (d, decide view hold cfg now)
decide_with view cfg now (d, err e) = (d, QuotaDecision.guardrail_hold)

abbrev pub evaluate_view :
    Option SnapshotView → Config → String → Time → StateDisk → StateDisk × QuotaDecision
evaluate_view none cfg key now d = unknown_or_hold (load_hold key d)
evaluate_view (some view) cfg key now d =
    decide_with view cfg now (transition_hold view cfg key now d)

unfoldable pub evaluate :
    Assoc Entry → Config → String → Time → StateDisk → StateDisk × QuotaDecision
evaluate entries cfg key now d = evaluate_view (get entries key now) cfg (trim_space key) now d
