-- ===== src/App/Manual/Left.antt =====
-- What an execution of a manual run leaves of the runtime, on every branch.
use codex_window_reset.Base.{
  String, Bool, true, false, not, ◌&&◌, ◌||◌, ◌∷◌, Option, none, some, ◌≡◌, refl, ◌⊎◌, inl, inr,
  ◌∙◌, ap, arith, Bool-cases, if◌then◌else◌,
}
use codex_window_reset.Base.Assoc.{lookup, insert, delete}
use codex_window_reset.Domain.Clock.{Time}
use codex_window_reset.Domain.Outcome.{RequestOutcome, WindowOutcome, QuotaDecision, ErrorCode}
use codex_window_reset.Domain.Operation.{OperationRecord}
use codex_window_reset.Store.History
use codex_window_reset.App.Runtime.{
  Account, Services, Runtime, normalize_key, acquire_busy, release_busy, is_busy, probe_timeout,
  refresh_snapshot, append_history, operation_base_at, next_id,
}
use codex_window_reset.App.Execute.{Done, refused, probed}
use codex_window_reset.App.Execute.Steady.{Steady, Steady-trans, refresh_snapshot-Steady}
use codex_window_reset.App.Execute.Effects.{
  Effect, after_Steady, refused-Effect, append_history-Effect,
}
use codex_window_reset.App.Execute.Once.{unsent, restored}
use codex_window_reset.App.Manual.{
  manual_base, record_manual_eligibility, observe_manual, send_manual, with_busy_manual,
  execute_current, manual_found, execute_manual,
}

manual_base-Steady :
    (sv : Services) (run_id : String) (account : Account) (started : Time) (r : Runtime)
    → Steady r (manual_base sv run_id account started r).0
unfolding operation_base_at next_id
manual_base-Steady sv run_id account started r = record {
  history = refl;
  busy = refl;
  probes = refl;
  config = refl;
  states = λ id h. h;
}

-- The conditions of a request of a manual run.
pub record Open (allow_unavailable : Bool) (a : Account) (r : Runtime) : Type 0 where
  pub not_disabled : a.disabled ≡ false
  pub available : (a.unavailable ≡ false) ⊎ (allow_unavailable ≡ true)
  pub running : r.stopped ≡ false
  pub free : is_busy a.key r ≡ false

-- What an execution leaves: its record logged once, the busy accounts, and at most one request,
-- made under a condition.
record Left (sv : Services) (key : String) (Cond : Type 0) (r : Runtime) (d : Done) : Type 0 where
  logged : d.0.history ≡ (History.append sv.max_history d.1 r.history).0
  busy : (k : String) → lookup k d.0.busy ≡ lookup k r.busy
  sent :
      ((d.0.probes ≡ r.probes) × (d.1.window_outcome ≡ WindowOutcome.not_observed))
      ⊎ ((d.0.probes ≡ key ∷ r.probes) × Cond)

available_or :
    (unavailable allow : Bool)
    → (unavailable && not allow) ≡ false
    → (unavailable ≡ false) ⊎ (allow ≡ true)
available_or false allow e = inl refl
available_or true true e = inr refl
available_or true false e = cc

of_refused :
    (sv : Services) (key : String) (Cond : Type 0) (code : ErrorCode) (outcome : RequestOutcome)
    (r : Runtime) (x : Runtime × OperationRecord)
    → Steady r x.0
    → Left sv key Cond r (refused sv outcome QuotaDecision.unset code x)
unfolding append_history
of_refused sv key Cond code outcome r x s =
    let e = refused-Effect sv key outcome QuotaDecision.unset code r x s in
    record {
      logged = e.logged;
      busy = λ k. ap (lookup k) e.busy;
      sent = inl (unsent sv outcome QuotaDecision.unset code x ∙ s.probes, refl);
    }

module _ (sv : Services) (run_id : String) (a : Account) where
  send_manual-Effect : (r : Runtime) → Effect sv a.key r (send_manual sv run_id a r)
  unfolding send_manual observe_manual
  send_manual-Effect r =
      let (r1, before') = refresh_snapshot sv a r in
      let (t, result) = sv.probe a r1.config.probe_model (probe_timeout r1.config) r1.now in
      let start = probed a r1 t in
      let after' = refresh_snapshot sv a start in
      let based = manual_base sv run_id a r.now after'.0 in
      let s =
        Steady-trans start after'.0 based.0 (refresh_snapshot-Steady sv a start)
          (manual_base-Steady sv run_id a r.now after'.0) in
      after_Steady sv a.key r r1 _ (refresh_snapshot-Steady sv a r) (
        append_history-Effect sv a.key _ r1 based.0 s.history s.busy s.states
          (inr (s.probes, (λ e. cc), (λ e. cc))))

  record_manual_eligibility-Left :
      (key : String) (Cond : Type 0) (code : ErrorCode) (r : Runtime)
      → Left sv key Cond r (record_manual_eligibility sv run_id a code r)
  unfolding record_manual_eligibility
  record_manual_eligibility-Left key Cond code r =
      of_refused sv key Cond code _ r (manual_base sv run_id a r.now r)
        (manual_base-Steady sv run_id a r.now r)

  claimed-Left :
      (Cond : Type 0) (r : Runtime)
      → is_busy a.key r ≡ false
      → Cond
      → Left sv a.key Cond r (
          with_busy_manual sv run_id a
            (record r { busy = insert (normalize_key a.key) tt r.busy }, true))
  unfolding with_busy_manual release_busy is_busy
  claimed-Left Cond r free ok =
      let key = normalize_key a.key in
      let e = send_manual-Effect (record r { busy = insert key tt r.busy }) in
      record {
        logged = e.logged;
        busy = λ k. ap (λ m. lookup k (delete key m)) e.busy ∙ restored key k r.busy free;
        sent = elim e.sent [ inl q ↦ inl q | inr q ↦ inr (q.0, ok) ];
      }

  acquired-Left :
      (Cond : Type 0) (r : Runtime)
      → (r.stopped ≡ false → is_busy a.key r ≡ false → Cond)
      → Left sv a.key Cond r (with_busy_manual sv run_id a (acquire_busy a.key r))
  unfolding acquire_busy with_busy_manual is_busy
  acquired-Left Cond r ok = elim (Bool-cases (r.stopped || is_busy a.key r)) [
    | inl refusal ↦ rw refusal (
        of_refused sv a.key Cond _ _ r (manual_base sv run_id a r.now r)
          (manual_base-Steady sv run_id a r.now r))
    | inr accept ↦ rw accept (claimed-Left Cond r (ground arith) (ok (ground arith) (ground arith)))
  ]

  Left-if :
      (Cond : Type 0) (b : Bool) (r : Runtime) (x y : Done)
      → Left sv a.key Cond r x
      → (b ≡ false → Left sv a.key Cond r y)
      → Left sv a.key Cond r (if b then x else y)
  Left-if Cond true r x y hx hy = hx
  Left-if Cond false r x y hx hy = hy refl

  execute_current-Left :
      (allow_unavailable : Bool) (r : Runtime)
      → Left sv a.key
          (Open allow_unavailable a r)
          r
          (execute_current sv run_id allow_unavailable a r)
  unfolding execute_current
  execute_current-Left allow_unavailable r =
      let Cond = Open allow_unavailable a r in
      Left-if Cond a.disabled r _ _ (record_manual_eligibility-Left a.key Cond _ r) (λ d.
        Left-if Cond (a.unavailable && not allow_unavailable) r _ _
          (record_manual_eligibility-Left a.key Cond _ r)
          (λ u. acquired-Left Cond r (λ s b. record {
            not_disabled = d;
            available = available_or a.unavailable allow_unavailable u;
            running = s;
            free = b;
          })))

-- The account was found, as `a`, and a request for it is in order.
abbrev pub FoundOpen : Bool → String → Runtime → Time × Option Account → Type 0
FoundOpen allow_unavailable key r x =
    (a : Account) × (t : Time) × (x ≡ (t, some a))
    × Open allow_unavailable (record a { key = key }) r

manual_found-Left :
    (sv : Services) (run_id : String) (account : Account) (allow_unavailable : Bool) (r : Runtime)
    (x : Time × Option Account)
    → Left sv
        (normalize_key account.key)
        (FoundOpen allow_unavailable (normalize_key account.key) r x)
        r
        (manual_found sv run_id account allow_unavailable r x)
unfolding is_busy
manual_found-Left sv run_id account allow_unavailable r (t, none) =
    let l =
      record_manual_eligibility-Left sv run_id account (normalize_key account.key)
        (FoundOpen allow_unavailable (normalize_key account.key) r (t, none))
        ErrorCode.account_unavailable (record r { now = t }) in
    record { logged = l.logged; busy = l.busy; sent = l.sent }
manual_found-Left sv run_id account allow_unavailable r (t, some a) =
    let l =
      execute_current-Left sv run_id (record a { key = normalize_key account.key })
        allow_unavailable (record r { now = t }) in
    record {
      logged = l.logged;
      busy = l.busy;
      sent = elim l.sent [
        | inl q ↦ inl q
        | inr q ↦ inr (
          q.0,
          (
            a,
            t,
            refl,
            record {
              not_disabled = q.1.not_disabled;
              available = q.1.available;
              running = q.1.running;
              free = q.1.free;
            },
          ),
        )
      ];
    }

execute_manual-Left :
    (sv : Services) (run_id : String) (account : Account) (allow_unavailable : Bool) (r : Runtime)
    → Left sv
        (normalize_key account.key)
        (FoundOpen allow_unavailable (normalize_key account.key) r (sv.find account.key r.now))
        r
        (execute_manual sv run_id account allow_unavailable r)
unfolding execute_manual
execute_manual-Left sv run_id account allow_unavailable r =
    manual_found-Left sv run_id account allow_unavailable r (sv.find account.key r.now)

module _ (sv : Services) (run_id : String) (account : Account) (allow_unavailable : Bool)
    (r : Runtime) where
  abbrev done : Done
  done = execute_manual sv run_id account allow_unavailable r

  -- One account of a manual run, on every branch: the record that is returned is appended to the
  -- history, once, every account is busy just as it was before, and no request is sent, with no
  -- window observed, or one, for the account. If one is sent, the account was found, it is not
  -- disabled, it is available or the run allows unavailable accounts, and neither is it busy nor the
  -- runtime stopped.
  pub execute_manual_leaves :
      (k : String)
      → (done.0.history ≡ (History.append sv.max_history done.1 r.history).0)
        × (lookup k done.0.busy ≡ lookup k r.busy)
        × (((done.0.probes ≡ r.probes) × (done.1.window_outcome ≡ WindowOutcome.not_observed))
            ⊎ ((done.0.probes ≡ normalize_key account.key ∷ r.probes)
                × FoundOpen allow_unavailable
                    (normalize_key account.key)
                    r
                    (sv.find account.key r.now)))
  execute_manual_leaves k =
      let l = execute_manual-Left sv run_id account allow_unavailable r in
      (l.logged, l.busy k, l.sent)
