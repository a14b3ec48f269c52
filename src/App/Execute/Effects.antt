-- ===== src/App/Execute/Effects.antt =====
-- What an execution does to the runtime, on every branch.
use codex_window_reset.Base.{String, ◌∷◌, Option, ◌≡◌, ◌≢◌, refl, ◌⊎◌, inl, inr, ◌∙◌, ap}
use codex_window_reset.Domain.Outcome.{
  RequestOutcome, WindowOutcome, QuotaDecision, ErrorCode, ProbeResult, Result, ok, err,
}
use codex_window_reset.Domain.Snapshot.{UsageSnapshot}
use codex_window_reset.Domain.Operation.{OperationTrigger, OperationRecord}
use codex_window_reset.Domain.Config.{Config}
use codex_window_reset.Store.Disk.{Disk, StoreError}
use codex_window_reset.Store.History
use codex_window_reset.Schedule.Scheduler.Loop.Compensated.{KeepsSpent}
use codex_window_reset.App.Runtime.{
  Services, Runtime, noted, refresh_snapshot, append_history, probe_timeout,
}
use codex_window_reset.App.Preheat.{evaluate_quota}
use codex_window_reset.App.Execute.{
  Job, Done, refused, base_of, refuse, compensate_later, observe, probed, send, act_on,
  execute_free, snapshot_or_nil, with_outcome,
}
use codex_window_reset.App.Execute.Steady.{
  Steady, steady, Steady-trans, base_of-Steady, refresh_snapshot-Steady, evaluate_quota-Steady,
  update_compensation-Steady,
}

-- Whether a request was sent, and what the record then says.
abbrev pub Sent : String → Runtime → Done → Type 0
Sent key r d =
    ((d.0.probes ≡ r.probes) × (d.1.window_outcome ≡ WindowOutcome.not_observed))
    ⊎ ((d.0.probes ≡ key ∷ r.probes)
        × (d.1.decision ≢ QuotaDecision.guardrail_hold)
        × (d.1.decision ≢ QuotaDecision.sufficient_window))

pub record Effect (sv : Services) (key : String) (r : Runtime) (d : Done) : Type 0 where
  pub logged : d.0.history ≡ (History.append sv.max_history d.1 r.history).0
  pub busy : d.0.busy ≡ r.busy
  pub states : KeepsSpent r.states d.0.states
  pub sent : Sent key r d

pub after_Steady :
    (sv : Services) (key : String) (a b : Runtime) (d : Done)
    → Steady a b
    → Effect sv key b d
    → Effect sv key a d
after_Steady sv key a b d s e = record {
  logged = e.logged ∙ ap (λ h. (History.append sv.max_history d.1 h).0) s.history;
  busy = e.busy ∙ s.busy;
  states = λ id h. e.states id (s.states id h);
  sent = elim e.sent [
    | inl q ↦ inl (q.0 ∙ s.probes, q.1)
    | inr q ↦ inr (q.0 ∙ ap (λ p. key ∷ p) s.probes, q.1, q.2)
  ];
}

pub append_history-Effect :
    (sv : Services) (key : String) (record' : OperationRecord) (a r : Runtime)
    → r.history ≡ a.history
    → r.busy ≡ a.busy
    → KeepsSpent a.states r.states
    → Sent key a (r, record')
    → Effect sv key a (append_history sv record' r, record')
unfolding append_history
append_history-Effect sv key record' a r h b k t = of_result result
  where
    appended : Disk History.HistoryDocument × Result StoreError Unit
    appended = History.append sv.max_history record' r.history

    result : Result StoreError Unit
    result = appended.1

    of_result :
        (x : Result StoreError Unit)
        → Effect sv key a (noted x (record r { history = appended.0 }), record')
    of_result (ok u) = record {
      logged = ap (λ x. (History.append sv.max_history record' x).0) h;
      busy = b;
      states = k;
      sent = t;
    }
    of_result (err e) = record {
      logged = ap (λ x. (History.append sv.max_history record' x).0) h;
      busy = b;
      states = k;
      sent = t;
    }

pub refused-Effect :
    (sv : Services) (key : String) (outcome : RequestOutcome) (decision : QuotaDecision)
    (code : ErrorCode) (a : Runtime) (x : Runtime × OperationRecord)
    → Steady a x.0
    → Effect sv key a (refused sv outcome decision code x)
refused-Effect sv key outcome decision code a (r, base) s =
    append_history-Effect sv key _ a r s.history s.busy s.states (inl (s.probes, refl))

pub refuse-Effect :
    (sv : Services) (key : String) (job : Job) (outcome : RequestOutcome) (decision : QuotaDecision)
    (code : ErrorCode) (r : Runtime)
    → Effect sv key r (refuse sv job outcome decision code r)
unfolding refuse
refuse-Effect sv key job outcome decision code r =
    refused-Effect sv key outcome decision code r (base_of sv job r) (base_of-Steady sv job r)

module _ (sv : Services) (job : Job) where
  abbrev key : String
  key = job.account.key

  compensate_later-Steady : (p : ProbeResult) (r : Runtime) → Steady r (compensate_later job p r)
  compensate_later-Steady p r = by_trigger job.trigger
    where
      by_trigger :
          (t : OperationTrigger) → Steady r (compensate_later (record job { trigger = t }) p r)
      by_trigger OperationTrigger.preheat = update_compensation-Steady job.occurrence _ r
      by_trigger OperationTrigger.health_probe = steady r
      by_trigger OperationTrigger.compensation = steady r

  send-Effect :
      (cfg : Config) (before' : Option UsageSnapshot) (decision : QuotaDecision) (r : Runtime)
      → decision ≢ QuotaDecision.guardrail_hold
      → decision ≢ QuotaDecision.sufficient_window
      → Effect sv key r (send sv job cfg before' decision r)
  unfolding send observe
  send-Effect cfg before' decision r g w =
      let (t, result) = sv.probe job.account cfg.probe_model (probe_timeout cfg) r.now in
      let p = with_outcome result in
      let start = probed job.account r t in
      let after' = refresh_snapshot sv job.account start in
      let based = base_of sv job after'.0 in
      let final = compensate_later job p based.0 in
      let s = Steady-trans start after'.0 final (refresh_snapshot-Steady sv job.account start) (
        Steady-trans after'.0 based.0 final (base_of-Steady sv job after'.0)
          (compensate_later-Steady p based.0)) in
      append_history-Effect sv key _ r final s.history s.busy s.states (inr (s.probes, g, w))

  act_on-Effect :
      (cfg : Config) (before' : Option UsageSnapshot) (x : Runtime × QuotaDecision)
      → Effect sv key x.0 (act_on sv job cfg before' x)
  unfolding act_on
  act_on-Effect cfg before' (r, QuotaDecision.guardrail_hold) = refuse-Effect sv key job _ _ _ r
  act_on-Effect cfg before' (r, QuotaDecision.sufficient_window) = refuse-Effect sv key job _ _ _ r
  act_on-Effect cfg before' (r, QuotaDecision.unset) =
      send-Effect cfg before' QuotaDecision.proceed r (λ e. cc) (λ e. cc)
  act_on-Effect cfg before' (r, QuotaDecision.proceed) =
      send-Effect cfg before' QuotaDecision.proceed r (λ e. cc) (λ e. cc)
  act_on-Effect cfg before' (r, QuotaDecision.quota_unknown_fail_open) =
      send-Effect cfg before' QuotaDecision.quota_unknown_fail_open r (λ e. cc) (λ e. cc)

  -- An execution that has the account logs its record once, and sends at most one request.
  pub execute_free-Effect : (r : Runtime) → Effect sv job.account.key r (execute_free sv job r)
  unfolding execute_free
  execute_free-Effect r =
      let (r1, before') = refresh_snapshot sv job.account r in
      let decided = evaluate_quota r1.config job.occurrence.account_key r1.now before' r1 in
      after_Steady sv key r decided.0 _
        (Steady-trans r r1 decided.0 (refresh_snapshot-Steady sv job.account r)
          (evaluate_quota-Steady r1.config job.occurrence.account_key r1.now before' r1))
        (act_on-Effect r1.config (snapshot_or_nil before') decided)
