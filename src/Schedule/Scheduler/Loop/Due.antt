-- ===== src/Schedule/Scheduler/Loop/Due.antt =====
-- A due occurrence is preheated.
use codex_window_reset.Base.{suc, String, true, false, [], Option, some, ◌≡◌, refl, ◌∙◌}
use codex_window_reset.Base.Assoc.{lookup}
use codex_window_reset.Base.Text.{eq_iff}
use codex_window_reset.Domain.Clock.{Time}
use codex_window_reset.Domain.Outcome.{Result, ok}
use codex_window_reset.Domain.Operation.{OccurrenceState, PlannedOccurrence, RuntimeState}
use codex_window_reset.Domain.Config.{Config}
use codex_window_reset.Store.Disk.{Disk, File, StoreError, read_json, write_atomic}
use codex_window_reset.Store.Runtime
use codex_window_reset.Schedule.Scheduler.{
  Scheduler, PendingTerminal, CommandKind, Request, is_stopped, status_for_record,
}
use codex_window_reset.Schedule.Scheduler.Callbacks.{Environment, claim, claimable}
use codex_window_reset.Schedule.Scheduler.Loop.{enter, answered, claimed_or_retry, claim_and_run}
use codex_window_reset.Schedule.Scheduler.Loop.Quiet.{preheats_of}
use codex_window_reset.Schedule.Scheduler.Loop.Executed.{
  finish-Quiet, status_for_outcome-not_planned,
}

-- A repository that holds a state and meets no fault.
abbrev pub sound_disk : RuntimeState → Disk RuntimeState
sound_disk st = record { file = File.holds st; faults = [] }

claimed_due :
    (cfg : Config) (now : Time) (id : String) (st : RuntimeState) (o : OccurrenceState)
    → st.schema_version ≡ 1
    → lookup id st.occurrences ≡ some o
    → claimable cfg now o (lookup id st.next_runs) ≡ true
    → (Runtime.update_always (claim cfg now id) (sound_disk st)).1 ≡ ok (some o.occurrence)
unfolding Runtime.update Runtime.load Runtime.save read_json write_atomic claim
claimed_due cfg now id st o v e c = rw (v, e, c)

ran :
    (env : Environment) (id : String) (s : Scheduler)
    (r : Result StoreError (Option PlannedOccurrence)) (o : PlannedOccurrence)
    → r ≡ ok (some o)
    → is_stopped s ≡ false
    → preheats_of id (claimed_or_retry env false id r s).0.requests
      ≡ suc (preheats_of id s.requests)
unfolding preheats_of
ran env id s r o e h =
    let a = env.execute_preheat o s.disk s.now in
    let t = answered a (enter (Request.preheats id) s) in
    let p : PendingTerminal = record {
      kind = CommandKind.occurrence;
      status = status_for_record a.2;
    } in
    let q =
      finish-Quiet env id id id p s.now t (status_for_outcome-not_planned a.2.request_outcome) in
    rw (e, h) (q.same_preheats ∙ rw ((eq_iff id id).1 refl))

-- On a repository without faults, a running scheduler whose callback finds an occurrence planned and
-- due, with its run at the planned time and its account scheduled by the enabled configuration,
-- calls the executor for it exactly once.
pub claim_and_run_due :
    (env : Environment) (id : String) (s : Scheduler) (st : RuntimeState) (o : OccurrenceState)
    → st.schema_version ≡ 1
    → is_stopped s ≡ false
    → lookup id st.occurrences ≡ some o
    → claimable s.config s.now o (lookup id st.next_runs) ≡ true
    → preheats_of id (claim_and_run env false id (record s { disk = sound_disk st })).0.requests
      ≡ suc (preheats_of id s.requests)
unfolding claim_and_run
claim_and_run_due env id s st o v h e c =
    let u = Runtime.update_always (claim s.config s.now id) (sound_disk st) in
    ran env id (record s { disk = u.0 }) u.1 o.occurrence (claimed_due s.config s.now id st o v e c)
      h
