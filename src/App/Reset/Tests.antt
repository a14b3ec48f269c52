-- ===== src/App/Reset/Tests.antt =====
-- Interleavings of resets, and the theorems at them.
use codex_window_reset.Base.{
  ◌≤◌, ◌<◌, ◌≡◌, ◌≢◌, ◌⊎◌, ◌↔◌, refl, true, false, List, [], ◌∷◌, Option, some, none, arith, String,
  any, All, subst,
}
use codex_window_reset.Base.Int.{pos}
use codex_window_reset.Domain.Outcome.{DomainError, ok, ok-injective}
use codex_window_reset.Domain.Snapshot.{UsageSnapshot}
use codex_window_reset.Domain.Operation.{ResetAudit, ResetOutcome, ResetHttpResult}
use codex_window_reset.Store.Disk.{File, read_json, write_atomic}
use codex_window_reset.Store.Audit
use codex_window_reset.Store.Audit.{
  AuditDisk, stored, same_key, find_by_key, load, find_key, replace, replace_key,
}
use codex_window_reset.Base.Assoc.{lookup, has_key, insert, delete}
use codex_window_reset.Base.Text.{trim_space}
use codex_window_reset.App.Reset.Steps.{
  move, find_account, begin_reset_flight, use_snapshot, append_pending, reset_consume,
  finish_reset_flight, recover_orphaned, replace_audit,
}
use codex_window_reset.App.Reset.Uuid.{canonical_uuid}
use codex_window_reset.Store.Audit.Keys.{OnDisk}
use codex_window_reset.App.Runtime.{Account, no_account}
use codex_window_reset.App.Reset.{Phase, Call, Answers, CallFailure, final_reset_outcome, arrive}
use codex_window_reset.App.Reset.Machine.{Event, Machine, run}
use codex_window_reset.App.Reset.Evidence.{Young}
use codex_window_reset.App.Reset.Sound.{used}
use codex_window_reset.App.Reset.Once.{Timely, machine_of, consumed_once, consumed_has_audit}
use codex_window_reset.App.Reset.Audits.{clear_reset_audit, clear_reset_audit_lem}
use codex_window_reset.App.Reset.Outcome.{final_reset_outcome_lem}

abbrev key : String
key = "3f2504e0-4f89-41d3-9a0c-0305e82c3301"

abbrev account : Account
account = record no_account { key = "acct-1"; masked_identity = "a***" }

abbrev snapshot : UsageSnapshot
snapshot = record {
  account_key = "acct-1";
  captured_at = 5000;
  windows = [];
  reset_credits = [];
  reset_applicable_count = some (pos 2);
  reset_info_complete = true;
}

abbrev answers : Answers
answers = record {
  account = some account;
  snapshot = ok snapshot;
  result = record { status_code = 200; category = "ok" };
  failure = none;
  id = "c-1";
  canceled = false;
}

abbrev disk : AuditDisk
disk = record { file = File.missing; faults = [] }

-- Two calls with one key: the first looks for a flight before the second begins one, then finds the
-- pending record of the second and takes it for one of an earlier process.
abbrev race : List Event
race =
    Event.arrives "acct-1" key
    ∷ Event.arrives "acct-1" key
    ∷ Event.steps 1 answers
    ∷ Event.steps 1 answers
    ∷ Event.steps 1 answers
    ∷ Event.steps 1 answers
    ∷ Event.steps 1 answers
    ∷ Event.steps 0 answers
    ∷ Event.steps 1 answers
    ∷ Event.steps 1 answers
    ∷ Event.steps 1 answers
    ∷ Event.steps 0 answers
    ∷ Event.steps 1 answers
    ∷ []

abbrev after_race : Machine
after_race = run 0 race (machine_of disk 5000)

abbrev overwritten : ResetAudit
overwritten = record {
  idempotency_key = key;
  requested_at = 5000;
  finished_at = 5000;
  account_key = "acct-1";
  masked_identity = "a***";
  prior_applicable_credits = some (pos 2);
  outcome = ResetOutcome.unknown;
  http_category = "";
  correlation_id = "c-1";
}

-- The upstream consumed and answered 200, and the record of it is left with the outcome unknown.
race_overwrites :
    (after_race.shared.consumed ≡ key ∷ [])
    × (stored after_race.shared.audit ≡ ok (overwritten ∷ []))
unfolding run move arrive canonical_uuid trim_space lookup find_by_key load read_json find_key
    find_account begin_reset_flight has_key use_snapshot append_pending Audit.append_pending
    write_atomic reset_consume finish_reset_flight recover_orphaned replace_audit
    final_reset_outcome delete insert replace replace_key
race_overwrites = (refl, refl)

young : OnDisk (Young key 5000) disk
young rs e = subst (Young key 5000) (ok-injective e) tt

abbrev timely : All (Timely key 5000 0) race
timely = (tt, (tt, (tt, (tt, (tt, (tt, (tt, (tt, (tt, (tt, (tt, (tt, (tt, tt)))))))))))))

consumed_once_example : used key after_race.shared.consumed ≤ 1
consumed_once_example = consumed_once key 5000 0 disk young race timely

once_used : 0 < used key after_race.shared.consumed
unfolding used
once_used = ground (arith, race_overwrites.0)

consumed_has_audit_example : any (same_key key) (overwritten ∷ []) ≡ true
consumed_has_audit_example =
    consumed_has_audit key 5000 0 disk young race timely (overwritten ∷ []) once_used
      race_overwrites.1

abbrev waiting_call : Call
waiting_call = record { account_key = "acct-1"; key = key; phase = Phase.waiting 0 }

-- A call has begun its flight.
abbrev past : List Event
past =
    Event.arrives "acct-1" key
    ∷ Event.steps 0 answers
    ∷ Event.steps 0 answers
    ∷ Event.steps 0 answers
    ∷ []

-- Another call with its key arrives and waits, a stop comes, and the first goes on.
abbrev future : List Event
future =
    Event.steps 0 answers
    ∷ Event.arrives "acct-1" key
    ∷ Event.steps 0 answers
    ∷ Event.steps 1 answers
    ∷ Event.stops
    ∷ Event.steps 0 answers
    ∷ Event.steps 0 answers
    ∷ Event.steps 0 answers
    ∷ Event.steps 0 answers
    ∷ []

abbrev owner : Call
owner = record { account_key = "acct-1"; key = key; phase = Phase.refreshing 0 account }

final_reset_outcome_lem_example :
    let result : ResetHttpResult = record { status_code = 204; category = "ok" } in
    let failure : Option CallFailure = none in
    ((final_reset_outcome result failure ≡ ResetOutcome.succeeded)
      ↔ ((failure ≡ none) × (200 ≤ 204) × (204 < 300)))
    × ((final_reset_outcome result failure ≡ ResetOutcome.unknown)
        ↔ ((failure ≡ some CallFailure.deadline_exceeded) ⊎ (result.status_code ≡ 0)))
    × (final_reset_outcome result failure ≢ ResetOutcome.pending)
final_reset_outcome_lem_example =
    final_reset_outcome_lem (record { status_code = 204; category = "ok" }) none

clear_reset_audit_lem_example :
    let s = after_race.shared in
    let phrase : String = "DELETE AUDIT" in
    ((phrase ≢ "DELETE AUDIT") × ((clear_reset_audit "DELETE AUDIT" s).0 ≡ s))
    ⊎ ((phrase ≡ "DELETE AUDIT")
        × ((stored (clear_reset_audit "DELETE AUDIT" s).0.audit ≡ ok [])
            ⊎ (((clear_reset_audit "DELETE AUDIT" s).0.audit.file ≡ s.audit.file)
                × ((e : DomainError) × ((clear_reset_audit "DELETE AUDIT" s).1 ≡ some e)))))
clear_reset_audit_lem_example = clear_reset_audit_lem "DELETE AUDIT" after_race.shared
