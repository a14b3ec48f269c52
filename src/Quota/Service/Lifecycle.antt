-- ===== src/Quota/Service/Lifecycle.antt =====
-- The life of a guardrail hold where the repository meets no fault.
use codex_window_reset.Base.{
  String, Bool, true, false, [], Option, some, is_none, ◌≡◌, ◌≢◌, arith, if◌then◌else◌,
}
use codex_window_reset.Base.Assoc.{lookup}
use codex_window_reset.Base.Text.{str_eq}
use codex_window_reset.Domain.Clock.{Time}
use codex_window_reset.Domain.Outcome.{QuotaDecision, Result, ok}
use codex_window_reset.Domain.Snapshot.{SnapshotView, GuardrailHold}
use codex_window_reset.Domain.Operation.{RuntimeState}
use codex_window_reset.Domain.Config.{Config}
use codex_window_reset.Store.Disk.{File, StoreError}
use codex_window_reset.Store.Runtime
use codex_window_reset.Store.Runtime.{stored}
use codex_window_reset.Quota.Windows.{any_long_at_or_below, has_long_window, no_long_window}
use codex_window_reset.Quota.Decide.{decide}
use codex_window_reset.Quota.Decide.Floors.{decide_guardrail}
use codex_window_reset.Quota.Service.{StateDisk, is_fresh}

-- Whether no hold stands afterwards: a fresh snapshot with a low long window establishes one, a
-- fresh one with long windows that are all above the floor clears it, all others leave it.
abbrev pub cleared : SnapshotView → Config → Option GuardrailHold → Bool
cleared view cfg old =
    if is_fresh view
    then if any_long_at_or_below view.snapshot cfg.long_window_floor_percent
      then false
      else if has_long_window view.snapshot.windows
      then true
      else is_none old
    else is_none old

pub record Transition (view : SnapshotView) (cfg : Config) (key : String) (s : RuntimeState)
    (r : StateDisk × Result StoreError (Option GuardrailHold)) : Type 0 where
  pub after : RuntimeState
  pub written : stored r.0 ≡ ok after
  pub returned : r.1 ≡ ok (lookup key after.guardrail_holds)
  pub verdict :
      is_none (lookup key after.guardrail_holds) ≡ cleared view cfg (lookup key s.guardrail_holds)
  pub others :
      (k : String)
      → str_eq key k ≡ false
      → lookup k after.guardrail_holds ≡ lookup k s.guardrail_holds
  pub occurrences : after.occurrences ≡ s.occurrences
  pub next_runs : after.next_runs ≡ s.next_runs

-- The disk holds the state `s`, at the schema version that the repository writes.
abbrev pub disk_of : RuntimeState → StateDisk
disk_of s = record { file = File.holds (record s { schema_version = 1 }); faults = [] }

-- A hold that stands does not decide over a fresh snapshot with no long window: the decision lets
-- the account through.
pub hold_without_long_window :
    (view : SnapshotView) (hold : GuardrailHold) (cfg : Config) (now : Time)
    → is_fresh view ≡ true
    → has_long_window view.snapshot.windows ≡ false
    → decide view (some hold) cfg now ≢ QuotaDecision.guardrail_hold
hold_without_long_window view hold cfg now f n e = ground (
  arith,
  (decide_guardrail view (some hold) cfg now).0 e,
  no_long_window view.snapshot cfg.long_window_floor_percent n,
)
