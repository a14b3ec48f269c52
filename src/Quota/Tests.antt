-- ===== src/Quota/Tests.antt =====
-- Runs of the quota service, and its theorems at a held account.
use codex_window_reset.Base.{
  ◌≡◌, ◌≢◌, refl, true, false, [], ◌∷◌, some, none, ◌≤◌, ◌*◌, ◌+◌, ◌↔◌, ◌⊎◌, arith, is_none, subst,
}
use codex_window_reset.Base.Int.{pos, to_int64, signed64, ◌≤ℤ◌}
use codex_window_reset.Base.Assoc.{Assoc, lookup}
use codex_window_reset.Base.Text.{trim_space}
use codex_window_reset.Domain.Clock.{minute}
use codex_window_reset.Domain.Outcome.{ErrorCode, QuotaDecision, ok-injective}
use codex_window_reset.Domain.Snapshot.{UsageWindow, UsageSnapshot, SnapshotView, GuardrailHold}
use codex_window_reset.Domain.Operation.{RuntimeState}
use codex_window_reset.Domain.Config.{default_config}
use codex_window_reset.Store.Disk.{Fault, File}
use codex_window_reset.Store.Runtime
use codex_window_reset.Store.Runtime.{OnDisk}
use codex_window_reset.Quota.Windows.{
  Choice, shortest, shortest_index, shortest_window, any_long_at_or_below, scan_marked, scan_all,
  low_from, has_long_window,
}
use codex_window_reset.Quota.Windows.Shortest.{IsShortest, shortest-IsShortest}
use codex_window_reset.Quota.Decide.{decide, minutes, is_set}
use codex_window_reset.Quota.Decide.Floors.{sufficient_window_floors, decide_guardrail}
use codex_window_reset.Quota.Service.{StateDisk, Entry, evaluate, get, is_stale, transition_hold}
use codex_window_reset.Quota.Service.Holds.{Holds, transition_hold-Holds, evaluate_blocked}
use codex_window_reset.Quota.Service.Lifecycle.{hold_without_long_window}

abbrev five_hours : UsageWindow
five_hours = record {
  duration_minutes = pos 300;
  remaining_percent = pos 70;
  reset_at = 20_000_000_000_000;
  short = true;
}

abbrev week : UsageWindow
week = record {
  duration_minutes = pos 10080;
  remaining_percent = pos 8;
  reset_at = 90_000_000_000_000;
  short = false;
}

abbrev low_week : UsageSnapshot
low_week = record {
  account_key = "acct-1";
  captured_at = 1_000_000_000_000;
  windows = week ∷ five_hours ∷ [];
  reset_credits = [];
  reset_applicable_count = none;
  reset_info_complete = false;
}

abbrev good_week : UsageSnapshot
good_week = record low_week {
  windows = record week { remaining_percent = pos 90 } ∷ five_hours ∷ [];
}

abbrev view : UsageSnapshot → SnapshotView
view s = record {
  snapshot = s;
  stale = false;
  last_attempt_at = 1_000_000_000_000;
  refresh_error_code = ErrorCode.unset;
}

abbrev hold : GuardrailHold
hold = record { account_key = "acct-1"; established_at = 900; floor_percent = pos 10 }

abbrev held : RuntimeState
held = record Runtime.empty_runtime_state { guardrail_holds = ("acct-1", hold) ∷ [] }

abbrev held_disk : StateDisk
held_disk = record { file = File.holds held; faults = Fault.fine ∷ Fault.fails ∷ [] }

shortest-IsShortest_example :
    (c : Choice) × (shortest (week ∷ five_hours ∷ []) ≡ some c)
    × IsShortest (week ∷ five_hours ∷ []) c
shortest-IsShortest_example = shortest-IsShortest week (five_hours ∷ [])

good_sufficient :
    decide (view good_week) none default_config 2_000_000_000_000 ≡ QuotaDecision.sufficient_window
unfolding decide minutes to_int64 signed64 any_long_at_or_below shortest_index shortest_window
    shortest scan_marked scan_all low_from
good_sufficient = refl

sufficient_window_floors_example :
    ((view good_week).stale ≡ false)
    × (is_set (view good_week).refresh_error_code ≡ false)
    × (any_long_at_or_below good_week (pos 10) ≡ false)
    × ((w : UsageWindow) × (shortest_window good_week.windows ≡ some w)
        × (pos 20 ≤ℤ w.remaining_percent)
        × (2_000_000_000_000 + 60 * minute ≤ w.reset_at))
sufficient_window_floors_example =
    sufficient_window_floors (view good_week) none default_config 2_000_000_000_000 60 refl
      (ground arith) good_sufficient

decide_guardrail_example :
    (decide (view low_week) none default_config 0 ≡ QuotaDecision.guardrail_hold) ↔ (
      ((is_none {A = GuardrailHold} none ≡ false)
        × ((is_set ErrorCode.unset ≡ true) ⊎ (false ≡ true)))
      ⊎ ((is_set ErrorCode.unset ≡ false) × (any_long_at_or_below low_week (pos 10) ≡ true)))
decide_guardrail_example = decide_guardrail (view low_week) none default_config 0

held-Holds : OnDisk (Holds "acct-1") held_disk
unfolding lookup
held-Holds s e = subst (Holds "acct-1") (ok-injective e) refl

-- The account that is judged has the key "acct-2", and the hold of "acct-1" stays.
transition_hold-Holds_example :
    OnDisk
      (Holds "acct-1")
      (transition_hold (view good_week) default_config "acct-2" 2_000_000_000_000 held_disk).0
transition_hold-Holds_example =
    transition_hold-Holds (view good_week) default_config "acct-2" "acct-1" 2_000_000_000_000
      held_disk refl held-Holds (λ e. cc)

-- A snapshot of a day ago.
abbrev old_entries : Assoc Entry
old_entries =
    (
      "acct-1",
      record { snapshot = good_week; last_error = none; last_attempt_at = 1_000_000_000_000 },
    )
    ∷ []

evaluate_blocked_example :
    (evaluate old_entries default_config " acct-1" 87_400_000_000_000 held_disk).1
    ≡ QuotaDecision.guardrail_hold
unfolding trim_space get is_stale lookup
evaluate_blocked_example =
    evaluate_blocked old_entries default_config " acct-1" 87_400_000_000_000 held_disk refl
      held-Holds refl

abbrev short_only : UsageSnapshot
short_only = record low_week { windows = five_hours ∷ [] }

hold_without_long_window_example :
    decide (view short_only) (some hold) default_config 2_000_000_000_000
    ≢ QuotaDecision.guardrail_hold
unfolding has_long_window shortest_index shortest scan_marked scan_all
hold_without_long_window_example =
    hold_without_long_window (view short_only) hold default_config 2_000_000_000_000 refl refl
