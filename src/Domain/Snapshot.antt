-- ===== src/Domain/Snapshot.antt =====
-- internal/domain/quota.go: usage windows, snapshots and guardrail holds.
use codex_window_reset.Base.{String, Bool, List, Option}
use codex_window_reset.Base.Int.{ℤ}
use codex_window_reset.Domain.Clock.{Time}
use codex_window_reset.Domain.Outcome.{ErrorCode}

pub record UsageWindow : Type 0 where
  pub duration_minutes : ℤ
  pub remaining_percent : ℤ
  pub reset_at : Time
  pub short : Bool

pub record ResetCredit : Type 0 where
  pub id : String
  pub expires_at : Time

pub record UsageSnapshot : Type 0 where
  pub account_key : String
  pub captured_at : Time
  pub windows : List UsageWindow
  pub reset_credits : List ResetCredit
  pub reset_applicable_count : Option ℤ
  pub reset_info_complete : Bool

pub record SnapshotView : Type 0 where
  pub snapshot : UsageSnapshot
  pub stale : Bool
  pub last_attempt_at : Time
  pub refresh_error_code : ErrorCode

pub record GuardrailHold : Type 0 where
  pub account_key : String
  pub established_at : Time
  pub floor_percent : ℤ
