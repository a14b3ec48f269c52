-- ===== src/App/Execute/Once.antt =====
-- An execution as a whole: what it logs, when it sends, and what it leaves.
use codex_window_reset.Base.{
  String, Bool, true, false, not, ◌||◌, List, ◌∷◌, Option, none, some, ◌≡◌, ◌≢◌, refl, ◌⊎◌, inl,
  inr, ◌∙◌, ap, arith, Bool-cases, if◌then◌else◌, length,
}
use codex_window_reset.Base.Assoc.{
  Assoc, lookup, lookup-insert, lookup-delete, insert, delete, has_key,
}
use codex_window_reset.Base.Text.{eq_iff}
use codex_window_reset.Domain.Clock.{Time}
use codex_window_reset.Domain.Outcome.{RequestOutcome, WindowOutcome, QuotaDecision, ErrorCode}
use codex_window_reset.Domain.Operation.{OperationTrigger, OperationRecord, PlannedOccurrence}
use codex_window_reset.Store.History
use codex_window_reset.Schedule.Scheduler.Loop.Compensated.{KeepsSpent}
use codex_window_reset.App.Runtime.{
  Account, no_account, Services, append_history, Runtime, normalize_key, acquire_busy, release_busy,
  is_busy,
}
use codex_window_reset.App.Preheat.{is_scheduled}
use codex_window_reset.App.Execute.{
  Job, Done, refuse, refuse_unfound, base_of, under_key, with_busy, execute_account, job_of, found,
  refused, execute_preheat,
}
use codex_window_reset.App.Execute.Steady.{Steady, base_of-Steady, noted-Steady}
use codex_window_reset.App.Execute.Effects.{Sent, refused-Effect, execute_free-Effect}

-- The conditions of a request.
pub record Allowed (o : PlannedOccurrence) (account : Account) (r : Runtime) : Type 0 where
  pub not_missed : o.missed ≡ false
  pub enabled : r.config.enabled ≡ true
  pub scheduled : is_scheduled r.config o.account_key ≡ true
  pub not_disabled : account.disabled ≡ false
  pub available : account.unavailable ≡ false
  pub running : r.stopped ≡ false
  pub free : is_busy o.account_key r ≡ false

pub record Executed (sv : Services) (o : PlannedOccurrence) (a : Account) (r : Runtime) (d : Done)
    : Type 0 where
  pub logged : d.0.history ≡ (History.append sv.max_history d.1 r.history).0
  pub busy : (k : String) → lookup k d.0.busy ≡ lookup k r.busy
  pub states : KeepsSpent r.states d.0.states
  pub sent : Sent a.key r d
  pub allowed : (d.0.probes ≡ r.probes) ⊎ Allowed o a r

-- Inserting a free key and deleting it again leaves the map.
pub restored :
    (j k : String) (m : Assoc {0} Unit)
    → has_key j m ≡ false
    → lookup k (delete j (insert j tt m)) ≡ lookup k m
unfolding has_key
restored j k m h =
    ground (arith, lookup-delete j k (insert j tt m), lookup-insert j k tt m, eq_iff j k)

pub unsent :
    (sv : Services) (outcome : RequestOutcome) (decision : QuotaDecision) (code : ErrorCode)
    (x : Runtime × OperationRecord)
    → (refused sv outcome decision code x).0.probes ≡ x.0.probes
unfolding append_history
unsent sv outcome decision code (r, base) = (noted-Steady _ _).probes

module _ (sv : Services) (o : PlannedOccurrence) (a : Account) where
  of_refused :
      (outcome : RequestOutcome) (decision : QuotaDecision) (code : ErrorCode) (r : Runtime)
      (x : Runtime × OperationRecord)
      → Steady r x.0
      → Executed sv o a r (refused sv outcome decision code x)
  of_refused outcome decision code r x s =
      let e = refused-Effect sv a.key outcome decision code r x s in
      record {
        logged = e.logged;
        busy = λ k. ap (lookup k) e.busy;
        states = e.states;
        sent = e.sent;
        allowed = inl (unsent sv outcome decision code x ∙ s.probes);
      }

  Executed-if :
      (b : Bool) (r : Runtime) (x y : Done)
      → Executed sv o a r x
      → (b ≡ false → Executed sv o a r y)
      → Executed sv o a r (if b then x else y)
  Executed-if true r x y hx hy = hx
  Executed-if false r x y hx hy = hy refl

module _ (sv : Services) (job : Job) where
  refuse-Executed :
      (outcome : RequestOutcome) (decision : QuotaDecision) (code : ErrorCode) (r : Runtime)
      → Executed sv job.occurrence job.account r (refuse sv job outcome decision code r)
  unfolding refuse
  refuse-Executed outcome decision code r =
      of_refused sv job.occurrence job.account outcome decision code r (base_of sv job r)
        (base_of-Steady sv job r)

  -- The execution between the two moves of the busy flag.
  claimed-Executed :
      (r : Runtime)
      → is_busy job.occurrence.account_key r ≡ false
      → Allowed job.occurrence job.account r
      → Executed sv job.occurrence job.account r (
          with_busy sv job
            (record r { busy = insert (normalize_key job.occurrence.account_key) tt r.busy }, true))
  unfolding with_busy release_busy is_busy
  claimed-Executed r free ok =
      let key = normalize_key job.occurrence.account_key in
      let held = record r { busy = insert key tt r.busy } in
      let e = execute_free-Effect sv job held in
      record {
        logged = e.logged;
        busy = λ k. ap (λ m. lookup k (delete key m)) e.busy ∙ restored key k r.busy free;
        states = e.states;
        sent = e.sent;
        allowed = inr ok;
      }

  acquired-Executed :
      (r : Runtime)
      → (r.stopped ≡ false
          → is_busy job.occurrence.account_key r ≡ false
          → Allowed job.occurrence job.account r)
      → Executed sv job.occurrence job.account r
          (with_busy sv job (acquire_busy job.occurrence.account_key r))
  unfolding acquire_busy with_busy is_busy
  acquired-Executed r ok = elim (Bool-cases (r.stopped || is_busy job.occurrence.account_key r)) [
    | inl refusal ↦ rw refusal (refuse-Executed _ _ _ r)
    | inr accept ↦ rw accept (claimed-Executed r (ground arith) (ok (ground arith) (ground arith)))
  ]

  execute_account-Executed :
      (r : Runtime) → Executed sv job.occurrence job.account r (execute_account sv job r)
  unfolding execute_account
  execute_account-Executed r =
      let o = job.occurrence in
      let a = job.account in
      Executed-if sv o a o.missed r _ _ (refuse-Executed _ _ _ r) (λ m.
        Executed-if sv o a (not r.config.enabled || not (is_scheduled r.config o.account_key)) r _ _
          (refuse-Executed _ _ _ r)
          (λ c. Executed-if sv o a a.disabled r _ _ (refuse-Executed _ _ _ r) (λ d.
            Executed-if sv o a a.unavailable r _ _ (refuse-Executed _ _ _ r) (λ u.
              acquired-Executed r (λ s b. record {
                not_missed = m;
                enabled = ground arith;
                scheduled = ground arith;
                not_disabled = d;
                available = u;
                running = s;
                free = b;
              })))))

-- The account of an execution: the one that was found, under the trimmed key.
abbrev pub account_of : String → Option Account → Account
account_of key none = record no_account { key = key }
account_of key (some a) = record a { key = key }

abbrev pub occurrence_of : PlannedOccurrence → PlannedOccurrence
occurrence_of o = record o { account_key = normalize_key o.account_key }

unfound_step :
    (sv : Services) (trigger : OperationTrigger) (o : PlannedOccurrence) (r : Runtime) (t : Time)
    → Executed sv
        (occurrence_of o)
        (account_of (normalize_key o.account_key) none)
        r
        (found sv trigger (occurrence_of o) r (t, none))
unfolding refuse_unfound
unfound_step sv trigger o r t =
    let job = job_of trigger (occurrence_of o) no_account r.now in
    let s = base_of-Steady sv job (record r { now = t }) in
    of_refused sv (occurrence_of o) (account_of (normalize_key o.account_key) none) _ _ _ r
      (under_key (normalize_key o.account_key) (base_of sv job (record r { now = t })))
      (record {
        history = s.history;
        busy = s.busy;
        probes = s.probes;
        config = s.config;
        states = s.states;
      })

account_step :
    (sv : Services) (trigger : OperationTrigger) (o : PlannedOccurrence) (a : Account) (r : Runtime)
    (t : Time)
    → Executed sv
        (occurrence_of o)
        (account_of (normalize_key o.account_key) (some a))
        r
        (found sv trigger (occurrence_of o) r (t, some a))
unfolding is_busy
account_step sv trigger o a r t =
    let job =
      job_of trigger (occurrence_of o) (account_of (normalize_key o.account_key) (some a)) r.now in
    let e = execute_account-Executed sv job (record r { now = t }) in
    record {
      logged = e.logged;
      busy = e.busy;
      states = e.states;
      sent = e.sent;
      allowed = elim e.allowed [
        | inl q ↦ inl q
        | inr w ↦ inr (record {
          not_missed = w.not_missed;
          enabled = w.enabled;
          scheduled = w.scheduled;
          not_disabled = w.not_disabled;
          available = w.available;
          running = w.running;
          free = w.free;
        })
      ];
    }

pub execute_preheat-Executed :
    (sv : Services) (trigger : OperationTrigger) (o : PlannedOccurrence) (r : Runtime)
    → Executed sv
        (occurrence_of o)
        (account_of (normalize_key o.account_key) (sv.find (normalize_key o.account_key) r.now).1)
        r
        (execute_preheat sv trigger o r)
unfolding execute_preheat
execute_preheat-Executed sv trigger o r = of_found (sv.find (normalize_key o.account_key) r.now)
  where
    of_found :
        (x : Time × Option Account)
        → Executed sv
            (occurrence_of o)
            (account_of (normalize_key o.account_key) x.1)
            r
            (found sv trigger (occurrence_of o) r x)
    of_found (t, none) = unfound_step sv trigger o r t
    of_found (t, some a) = account_step sv trigger o a r t

-- A list is not its own tail: nothing was sent, or one request.
grown : (k : String) (xs ys : List String) → ys ≡ xs → ys ≢ k ∷ xs
grown k xs ys e f = omega (arith, ap length e, ap length f)

abbrev Outcome : PlannedOccurrence → Runtime → Time × Option Account → Done → Type 0
Outcome o r x d =
    ((d.0.probes ≡ r.probes) × (d.1.window_outcome ≡ WindowOutcome.not_observed))
    ⊎ ((d.0.probes ≡ o.account_key ∷ r.probes)
        × (d.1.decision ≢ QuotaDecision.guardrail_hold)
        × (d.1.decision ≢ QuotaDecision.sufficient_window)
        × ((a : Account) × (t : Time) × (x ≡ (t, some a))
            × Allowed o (record a { key = o.account_key }) r))

pub unfound-unsent :
    (sv : Services) (trigger : OperationTrigger) (o : PlannedOccurrence) (r : Runtime) (t : Time)
    → (found sv trigger o r (t, none)).0.probes ≡ r.probes
unfolding refuse_unfound
unfound-unsent sv trigger o r t =
    let job = job_of trigger o no_account r.now in
    unsent sv RequestOutcome.disabled QuotaDecision.unset ErrorCode.account_unavailable
      (under_key o.account_key (base_of sv job (record r { now = t })))
    ∙ (base_of-Steady sv job (record r { now = t })).probes

found-Outcome :
    (sv : Services) (trigger : OperationTrigger) (o : PlannedOccurrence) (r : Runtime)
    (x : Time × Option Account)
    → Outcome (occurrence_of o) r x (found sv trigger (occurrence_of o) r x)
found-Outcome sv trigger o r (t, none) = elim (unfound_step sv trigger o r t).sent [
  | inl q ↦ inl q
  | inr q ↦ absurd (grown _ _ _ (unfound-unsent sv trigger (occurrence_of o) r t) q.0)
]
found-Outcome sv trigger o r (t, some a) =
    let e = account_step sv trigger o a r t in
    elim e.sent [
      | inl q ↦ inl q
      | inr q ↦ elim e.allowed [
        | inl same ↦ absurd (grown _ _ _ same q.0)
        | inr w ↦ inr (q.0, q.1, q.2, (a, t, refl, w))
      ]
    ]

module _ (sv : Services) (trigger : OperationTrigger) (o : PlannedOccurrence) (r : Runtime) where
  abbrev done : Done
  done = execute_preheat sv trigger o r

  -- An execution sends no request, and then its record says that no window was observed; or it sends
  -- one request for the account, which was found, and its record carries no decision against one.
  -- In the second case the occurrence was not missed, the schedule is enabled and names the account,
  -- the account is neither disabled nor unavailable, and neither is it busy nor the runtime stopped.
  pub execute_preheat_sends :
      ((done.0.probes ≡ r.probes) × (done.1.window_outcome ≡ WindowOutcome.not_observed))
      ⊎ ((done.0.probes ≡ normalize_key o.account_key ∷ r.probes)
          × (done.1.decision ≢ QuotaDecision.guardrail_hold)
          × (done.1.decision ≢ QuotaDecision.sufficient_window)
          × ((a : Account) × (t : Time) × (sv.find (normalize_key o.account_key) r.now
                ≡ (t, some a))
              × Allowed (occurrence_of o) (record a { key = normalize_key o.account_key }) r))
  unfolding execute_preheat
  execute_preheat_sends = found-Outcome sv trigger o r (sv.find (normalize_key o.account_key) r.now)

  -- Every execution, sent or refused, appends exactly the record that it returns to the history,
  -- once, and when it returns, each account is busy just as it was before.
  pub execute_preheat_logs :
      (k : String)
      → (done.0.history ≡ (History.append sv.max_history done.1 r.history).0)
        × (lookup k done.0.busy ≡ lookup k r.busy)
  execute_preheat_logs k = let e = execute_preheat-Executed sv trigger o r in (e.logged, e.busy k)
