-- ===== src/Schedule/Tests.antt =====
-- Runs of the scheduler, and its theorems at one planned occurrence.
use codex_window_reset.Base.{
  suc, ◌≡◌, ◌≢◌, refl, ◌+◌, ◌≤◌, ℕ, true, false, not, ◌&&◌, List, [], ◌∷◌, some, none, arith,
}
use codex_window_reset.Base.Assoc.{lookup, insert, delete, has_key, map_entries, keep_keys}
use codex_window_reset.Base.Text.{trim_space}
use codex_window_reset.Domain.Outcome.{RequestOutcome, WindowOutcome, QuotaDecision, ErrorCode}
use codex_window_reset.Domain.Operation.{
  OccurrenceStatus, PlannedOccurrence, OccurrenceState, RuntimeState, OperationRecord,
  OperationTrigger,
}
use codex_window_reset.Domain.Config.{Config, default_config}
use codex_window_reset.Store.Disk.{Disk, File, read_json, write_atomic}
use codex_window_reset.Store.Runtime
use codex_window_reset.Schedule.LocalTime.{
  WallInterval, interval, subtract_blackouts, subtract_from,
}
use codex_window_reset.Schedule.LocalTime.Covered.{contains, covers, subtract_blackouts_lem}
use codex_window_reset.Schedule.Scheduler.{
  Scheduler, scheduled_for_config, Command, CommandKind, Request,
}
use codex_window_reset.Schedule.Scheduler.Timers.{
  next_generation, generation_of, stop_timer, replace_timer, consume_timer,
}
use codex_window_reset.Schedule.Scheduler.Timers.Generations.{replace_timer_newest}
use codex_window_reset.Schedule.Scheduler.Reconcile.{
  reconcile_state, disable_state, plan_all, plan_step, normalize_plan, place, release_undesired,
  drop_ownerless,
}
use codex_window_reset.Schedule.Scheduler.Watch.{reconcile_timers, time_each, stop_inactive}
use codex_window_reset.Schedule.Scheduler.Loop.{
  schedule_midnight, plan_days, reconcile_owned, reconcile_after_callback, finish, claim_and_run,
  handle_occurrence,
}
use codex_window_reset.Schedule.Scheduler.Reconcile.Owned.{Owned, reconcile_state-Owned}
use codex_window_reset.Schedule.Scheduler.Reconcile.History.{reconcile_keeps_settled}
use codex_window_reset.Schedule.Scheduler.Callbacks.{
  Environment, claim, claim_compensation, settle, terminal_state, persist_terminal,
}
use codex_window_reset.Schedule.Scheduler.Callbacks.Claims.{
  Claimed, claim-Claimed, Consumed, claim_compensation-Consumed, claim_compensation_once,
}
use codex_window_reset.Schedule.Scheduler.Loop.Quiet.{preheats_of}
use codex_window_reset.Schedule.Scheduler.Loop.Due.{sound_disk, claim_and_run_due}
use codex_window_reset.Schedule.Scheduler.Loop.Compensated.{ExecutorLaws}
use codex_window_reset.Schedule.Scheduler.Commands.{new_scheduler, recover_state, start, handle}
use codex_window_reset.Schedule.Scheduler.Commands.Recovery.{Recovered, recover_state-Recovered}
use codex_window_reset.Schedule.Scheduler.Commands.Once.{Event, run, run_preheats_once}

abbrev cfg : Config
cfg = record default_config { enabled = true; scheduled_account_keys = "acct-1" ∷ [] }

abbrev plan : PlannedOccurrence
plan = record {
  id = "occ-1";
  account_key = "acct-1";
  local_date = "2026-01-05";
  period_index = 0;
  window_start = 4000;
  window_end = 6000;
  planned_at = 5000;
  missed = false;
  missed_reason = "";
}

abbrev planned : OccurrenceState
planned = record {
  occurrence = plan;
  status = OccurrenceStatus.planned;
  compensation_due_at = 0;
  compensation_attempted = false;
}

abbrev failed : OccurrenceState
failed = record planned {
  occurrence = record plan { id = "occ-2" };
  status = OccurrenceStatus.failed;
  compensation_due_at = 7000;
}

abbrev succeeded : OccurrenceState
succeeded = record planned {
  occurrence = record plan { id = "occ-3" };
  status = OccurrenceStatus.succeeded;
}

abbrev state : RuntimeState
state = record Runtime.empty_runtime_state {
  occurrences = ("occ-1", planned) ∷ ("occ-2", failed) ∷ ("occ-3", succeeded) ∷ [];
  next_runs = ("occ-1", 5000) ∷ ("occ-2", 7000) ∷ [];
}

reconcile_state-Owned_example :
    let s' = reconcile_state 1000 (plan ∷ []) state in
    Owned 1000 (lookup "occ-1" s'.occurrences) (lookup "occ-1" s'.next_runs)
reconcile_state-Owned_example = reconcile_state-Owned 1000 (plan ∷ []) state "occ-1"

reconcile_keeps_settled_example :
    (lookup "occ-3" (reconcile_state 1000 (plan ∷ []) state).occurrences ≡ some succeeded)
    × (lookup "occ-3" (disable_state state).occurrences ≡ some succeeded)
unfolding lookup
reconcile_keeps_settled_example =
    reconcile_keeps_settled 1000 (plan ∷ []) state "occ-3" succeeded (refl, refl) refl

claim-Claimed_example : Claimed cfg 5000 "occ-1" state (claim cfg 5000 "occ-1" state)
claim-Claimed_example = claim-Claimed cfg 5000 "occ-1" state

claim_compensation-Consumed_example :
    Consumed cfg true "occ-2" state (claim_compensation cfg true "occ-2" state)
claim_compensation-Consumed_example = claim_compensation-Consumed cfg true "occ-2" state

compensation_claimed : (claim_compensation cfg true "occ-2" state).1.claimed ≡ true
unfolding claim_compensation lookup scheduled_for_config trim_space has_key
compensation_claimed = refl

claim_compensation_once_example :
    let s' = (claim_compensation cfg true "occ-2" state).0 in
    let again = claim_compensation cfg false "occ-2" s' in
    (again.1.claimed ≡ false) × (again.0.occurrences ≡ s'.occurrences)
claim_compensation_once_example =
    claim_compensation_once cfg cfg true false "occ-2" state compensation_claimed

recover_state-Recovered_example :
    Recovered (lookup "occ-2" state.occurrences) (lookup "occ-2" (recover_state state).occurrences)
recover_state-Recovered_example = recover_state-Recovered state "occ-2"

abbrev disk : Disk RuntimeState
disk = record { file = File.missing; faults = [] }

first_generation : next_generation (new_scheduler disk 1000) "occ-1" ≢ 0
unfolding generation_of lookup new_scheduler
first_generation e = ground (arith, e)

replace_timer_newest_example :
    let s = new_scheduler disk 1000 in
    let s' = replace_timer s "occ-1" 5000 1000 CommandKind.occurrence "occ-1" in
    let g = next_generation s "occ-1" in
    ((consume_timer s' "occ-1" g).1 ≡ true)
    × ((consume_timer (consume_timer s' "occ-1" g).0 "occ-1" g).1 ≡ false)
    × ((old : ℕ) → old ≢ 0 → old ≢ g → (consume_timer s' "occ-1" old).1 ≡ false)
replace_timer_newest_example =
    replace_timer_newest (new_scheduler disk 1000) "occ-1" 5000 1000 CommandKind.occurrence "occ-1"
      first_generation

abbrev answer : OperationRecord
answer = record {
  id = "op-1";
  run_id = "run-1";
  correlation_id = "c-1";
  trigger = OperationTrigger.preheat;
  occurrence_id = "occ-1";
  account_key = "acct-1";
  masked_identity = "";
  started_at = 5000;
  finished_at = 5100;
  request_outcome = RequestOutcome.succeeded;
  window_outcome = WindowOutcome.verified_started;
  decision = QuotaDecision.proceed;
  http_status = 200;
  latency_ms = 100;
  error_code = ErrorCode.unset;
}

-- One plan a day, an executor whose requests succeed after 100 ns, and days of 100000 ns.
abbrev environment : Environment
environment = record {
  execute_preheat = λ o d t. (d, t + 100, answer);
  execute_compensation = none;
  compensation_eligible = none;
  plan_day = λ c day. some (plan ∷ []);
  zone_known = λ z. true;
  local_day = λ z t. 0;
  next_midnight = λ z t. 100_000;
}

environment_laws : ExecutorLaws environment
environment_laws = record {
  preheat_keeps = λ o d t id h. h;
  compensation_keeps = λ f e. cc;
  eligibility_keeps = λ f e. cc;
}

abbrev ring : Command
ring = record { kind = CommandKind.occurrence; id = "occ-1"; generation = 1 }

abbrev reconciled : Command
reconciled = record { kind = CommandKind.reconcile; id = ""; generation = 0 }

abbrev events : List Event
events =
    Event.starts
    ∷ Event.handles false cfg reconciled
    ∷ Event.passes 5000
    ∷ Event.handles false cfg ring
    ∷ Event.handles false cfg ring
    ∷ Event.restarts
    ∷ Event.starts
    ∷ Event.handles false cfg reconciled
    ∷ []

-- The occurrence is planned and preheated, once; the run after it finds nothing to do.
preheated :
    (run environment events (new_scheduler disk 1000)).requests ≡ Request.preheats "occ-1" ∷ []
unfolding run handle start recover_state new_scheduler schedule_midnight plan_days reconcile_owned
    reconcile_after_callback finish claim_and_run handle_occurrence claim settle terminal_state
    persist_terminal reconcile_timers time_each stop_inactive reconcile_state plan_all plan_step
    normalize_plan place release_undesired drop_ownerless scheduled_for_config generation_of
    replace_timer stop_timer consume_timer lookup delete insert has_key map_entries keep_keys
    Runtime.update Runtime.load Runtime.save read_json write_atomic trim_space
preheated = refl

abbrev at_due_time : Scheduler
at_due_time = record (new_scheduler disk 5000) { started = true; config = cfg }

claim_and_run_due_example :
    preheats_of "occ-1"
      (claim_and_run environment false "occ-1"
        (record at_due_time { disk = sound_disk state })).0.requests
    ≡ suc (preheats_of "occ-1" at_due_time.requests)
unfolding new_scheduler lookup scheduled_for_config trim_space
claim_and_run_due_example =
    claim_and_run_due environment "occ-1" at_due_time state planned refl refl refl refl

run_preheats_once_example :
    preheats_of "occ-1" (run environment events (new_scheduler disk 1000)).requests ≤ 1
run_preheats_once_example = run_preheats_once environment environment_laws "occ-1" disk 1000 events

abbrev blackouts : List WallInterval
blackouts = interval 500 600 ∷ interval 650 700 ∷ interval 900 1000 ∷ []

blackouts_left :
    subtract_blackouts (interval 540 960) blackouts ≡ interval 600 650 ∷ interval 700 900 ∷ []
unfolding subtract_blackouts subtract_from
blackouts_left = refl

subtract_blackouts_lem_example :
    covers 640 (subtract_blackouts (interval 540 960) blackouts)
    ≡ (contains 640 (interval 540 960) && not (covers 640 blackouts))
subtract_blackouts_lem_example =
    subtract_blackouts_lem 640 (interval 540 960) blackouts
      ((ground arith, (ground arith, tt)), ((ground arith, tt), (tt, tt)))
