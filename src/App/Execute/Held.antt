-- ===== src/App/Execute/Held.antt =====
-- Executions under a guardrail hold, while the quota endpoint does not answer.
use codex_window_reset.Base.{
  String, Bool, true, false, not, ◌||◌, Option, none, some, ◌≡◌, refl, inl, inr, ◌∙◌, sym, subst,
  Bool-cases, if◌then◌else◌,
}
use codex_window_reset.Base.Assoc.{insert, lookup-insert, has_key}
use codex_window_reset.Base.Text.{is_empty, eq_iff, trim_space}
use codex_window_reset.Domain.Clock.{Time}
use codex_window_reset.Domain.Outcome.{
  RequestOutcome, QuotaDecision, ErrorCode, DomainError, Result, ok, err,
}
use codex_window_reset.Domain.Snapshot.{UsageSnapshot}
use codex_window_reset.Domain.Operation.{OperationTrigger, PlannedOccurrence}
use codex_window_reset.Domain.Config.{Config}
use codex_window_reset.Store.Runtime.{OnDisk}
use codex_window_reset.Quota.Service.{get, complete_refresh}
use codex_window_reset.Quota.Service.Holds.{Holds, Unproved, evaluate_blocked}
use codex_window_reset.App.Runtime.{
  Account, Services, Runtime, normalize_key, acquire_busy, refresh, keyed, refresh_snapshot,
  release_busy,
}
use codex_window_reset.App.Preheat.{is_scheduled, evaluate_quota, service_decision, or_fallback}
use codex_window_reset.App.Execute.{
  Job, Done, refuse, base_of, act_on, execute_free, with_busy, execute_account, found, job_of,
  execute_preheat, snapshot_or_nil,
}
use codex_window_reset.App.Execute.Steady.{
  base_of-Steady, refresh_snapshot-Steady, evaluate_quota-Steady,
}
use codex_window_reset.App.Execute.Once.{unsent, unfound-unsent}

-- The endpoint does not answer for the account at this instant.
abbrev pub Unreachable : Services → Account → Time → Type 0
Unreachable sv a now = (t : Time) × (e : DomainError) × (sv.fetch a now ≡ (t, err e))

pub refuse-unsent :
    (sv : Services) (job : Job) (outcome : RequestOutcome) (decision : QuotaDecision)
    (code : ErrorCode) (r : Runtime)
    → (refuse sv job outcome decision code r).0.probes ≡ r.probes
unfolding refuse
refuse-unsent sv job outcome decision code r =
    unsent sv outcome decision code (base_of sv job r) ∙ (base_of-Steady sv job r).probes

-- What a failed refresh leaves of the cache lets no proof of recovery through.
failed-Unproved :
    (sv : Services) (a : Account) (r : Runtime) (now : Time)
    → is_empty (trim_space a.key) ≡ false
    → Unreachable sv a r.now
    → Unproved (get (refresh_snapshot sv a r).0.entries a.key now)
unfolding refresh_snapshot refresh get complete_refresh
failed-Unproved sv a r now n (t, e, f) =
    let k = trim_space a.key in rw (n, f, lookup-insert k k _ r.entries, (eq_iff k k).1 refl) refl

act_on-unsent :
    (sv : Services) (job : Job) (cfg : Config) (before' : Option UsageSnapshot)
    (x : Runtime × QuotaDecision)
    → x.1 ≡ QuotaDecision.guardrail_hold
    → (act_on sv job cfg before' x).0.probes ≡ x.0.probes
unfolding act_on
act_on-unsent sv job cfg before' (r, QuotaDecision.guardrail_hold) e = refuse-unsent sv job _ _ _ r
act_on-unsent sv job cfg before' (r, QuotaDecision.sufficient_window) e = cc
act_on-unsent sv job cfg before' (r, QuotaDecision.unset) e = cc
act_on-unsent sv job cfg before' (r, QuotaDecision.proceed) e = cc
act_on-unsent sv job cfg before' (r, QuotaDecision.quota_unknown_fail_open) e = cc

or_fallback-held :
    (cfg : Config) (key : String) (now : Time) (before' : Result DomainError UsageSnapshot)
    (x : Runtime × QuotaDecision)
    → x.1 ≡ QuotaDecision.guardrail_hold
    → (or_fallback cfg key now before' x).1 ≡ QuotaDecision.guardrail_hold
or_fallback-held cfg key now before' (r, QuotaDecision.guardrail_hold) e = refl
or_fallback-held cfg key now before' (r, QuotaDecision.sufficient_window) e = cc
or_fallback-held cfg key now before' (r, QuotaDecision.unset) e = cc
or_fallback-held cfg key now before' (r, QuotaDecision.proceed) e = cc
or_fallback-held cfg key now before' (r, QuotaDecision.quota_unknown_fail_open) e = cc

-- The states of the repository are those of before the refresh.
refreshed-states :
    (sv : Services) (a : Account) (r : Runtime) → (refresh_snapshot sv a r).0.states ≡ r.states
unfolding refresh_snapshot refresh
refreshed-states sv a r =
    of_keyed (refresh sv a r) (of_test (is_empty (trim_space a.key)) _ _ refl refl)
  where
    of_keyed :
        (x : Runtime × Result DomainError UsageSnapshot)
        → x.0.states ≡ r.states
        → (keyed (normalize_key a.key) x).0.states ≡ r.states
    of_keyed (y, ok s) h = h
    of_keyed (y, err e) h = h

    of_test :
        (b : Bool) (x y : Runtime × Result DomainError UsageSnapshot)
        → x.0.states ≡ r.states
        → y.0.states ≡ r.states
        → (if b then x else y).0.states ≡ r.states
    of_test true x y hx hy = hx
    of_test false x y hx hy = hy

module _ (sv : Services) (job : Job) where
  abbrev key : String
  key = job.occurrence.account_key

  -- What the theorem supposes of the runtime that is about to refresh.
  record Blocked (r : Runtime) : Type 0 where
    same_key : job.account.key ≡ job.occurrence.account_key
    trimmed : trim_space job.occurrence.account_key ≡ job.occurrence.account_key
    named : is_empty job.occurrence.account_key ≡ false
    unreachable : Unreachable sv job.account r.now
    held : OnDisk (Holds job.occurrence.account_key) r.states

  execute_free-unsent : (r : Runtime) → Blocked r → (execute_free sv job r).0.probes ≡ r.probes
  unfolding execute_free evaluate_quota service_decision
  execute_free-unsent r b =
      let (r1, before') = refresh_snapshot sv job.account r in
      let x = service_decision r1.config key r1.now r1 in
      let decided = evaluate_quota r1.config key r1.now before' r1 in
      let blocked : x.1 ≡ QuotaDecision.guardrail_hold =
        evaluate_blocked r1.entries r1.config key r1.now r1.states (rw b.trimmed b.named)
          (subst (OnDisk (Holds (trim_space key))) (sym (refreshed-states sv job.account r))
            (rw b.trimmed b.held))
          (subst (λ k. Unproved (get r1.entries k r1.now)) b.same_key
            (failed-Unproved sv job.account r r1.now (rw (b.same_key, b.trimmed) b.named)
              b.unreachable)) in
      act_on-unsent sv job r1.config (snapshot_or_nil before') decided
        (or_fallback-held r1.config key r1.now before' x blocked)
      ∙ (evaluate_quota-Steady r1.config key r1.now before' r1).probes
      ∙ (refresh_snapshot-Steady sv job.account r).probes

  unsent-if :
      (b : Bool) (r : Runtime) (x y : Done)
      → x.0.probes ≡ r.probes
      → y.0.probes ≡ r.probes
      → (if b then x else y).0.probes ≡ r.probes
  unsent-if true r x y hx hy = hx
  unsent-if false r x y hx hy = hy

  acquired-unsent :
      (r : Runtime) → Blocked r → (with_busy sv job (acquire_busy key r)).0.probes ≡ r.probes
  unfolding with_busy acquire_busy release_busy
  acquired-unsent r b = elim (Bool-cases (r.stopped || has_key (normalize_key key) r.busy)) [
    | inl refusal ↦ rw refusal (refuse-unsent sv job _ _ _ r)
    | inr accept ↦ rw accept (
        execute_free-unsent (record r { busy = insert (normalize_key key) tt r.busy })
          (record {
            same_key = b.same_key;
            trimmed = b.trimmed;
            named = b.named;
            unreachable = b.unreachable;
            held = b.held;
          }))
  ]

  execute_account-unsent :
      (r : Runtime) → Blocked r → (execute_account sv job r).0.probes ≡ r.probes
  unfolding execute_account
  execute_account-unsent r b =
      let refusal = λ (code : ErrorCode).
        refuse-unsent sv job RequestOutcome.disabled QuotaDecision.unset code r in
      unsent-if job.occurrence.missed r _ _ (refusal ErrorCode.config_invalid) (
        unsent-if (not r.config.enabled || not (is_scheduled r.config key)) r _ _
          (refusal ErrorCode.unset)
          (unsent-if job.account.disabled r _ _ (refusal ErrorCode.account_disabled) (
            unsent-if job.account.unavailable r _ _ (refusal ErrorCode.account_unavailable)
              (acquired-unsent r b))))

module _ (sv : Services) (trigger : OperationTrigger) (o : PlannedOccurrence) (r : Runtime)
    (trimmed : trim_space o.account_key ≡ o.account_key) where
  found-unsent :
      is_empty o.account_key ≡ false
      → ((a : Account) (t : Time) → a.key ≡ o.account_key → Unreachable sv a t)
      → OnDisk (Holds o.account_key) r.states
      → (x : Time × Option Account) → (found sv trigger o r x).0.probes ≡ r.probes
  found-unsent named silent held (t, none) = unfound-unsent sv trigger o r t
  found-unsent named silent held (t, some a) =
      execute_account-unsent sv (job_of trigger o (record a { key = o.account_key }) r.now)
        (record r { now = t })
        (record {
          same_key = refl;
          trimmed = trimmed;
          named = named;
          unreachable = silent (record a { key = o.account_key }) t refl;
          held = held;
        })

  -- A guardrail hold on disk and a quota endpoint that does not answer for the account: no branch of
  -- an execution for its occurrence sends a request, whichever faults the repositories meet. The
  -- account key of the occurrence is trimmed and not empty.
  pub held_sends_nothing :
      is_empty o.account_key ≡ false
      → ((a : Account) (t : Time) → a.key ≡ o.account_key → Unreachable sv a t)
      → OnDisk (Holds o.account_key) r.states
      → (execute_preheat sv trigger o r).0.probes ≡ r.probes
  unfolding execute_preheat
  held_sends_nothing named silent held =
      rw trimmed (found-unsent named silent held (sv.find o.account_key r.now))
