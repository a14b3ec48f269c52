-- ===== src/App/Execute/Steady.antt =====
-- The steps of an execution that neither log, nor send, nor plan anything again.
use codex_window_reset.Base.{
  String, Bool, true, false, some, ◌≡◌, refl, inl, inr, ◌∙◌, Bool-cases, if◌then◌else◌,
}
use codex_window_reset.Base.Assoc.{lookup, lookup-insert}
use codex_window_reset.Base.Text.{is_empty, trim_space, str_eq, eq_iff}
use codex_window_reset.Domain.Clock.{Time}
use codex_window_reset.Domain.Outcome.{QuotaDecision, DomainError, Result, ok, err}
use codex_window_reset.Domain.Snapshot.{UsageSnapshot}
use codex_window_reset.Domain.Operation.{PlannedOccurrence, RuntimeState}
use codex_window_reset.Domain.Config.{Config}
use codex_window_reset.Store.Disk.{Disk, StoreError}
use codex_window_reset.Store.Runtime
use codex_window_reset.Store.Runtime.{OnDisk, update-OnDisk, normalize_runtime_state}
use codex_window_reset.Quota.Service.Kept.{load-OnDisk, evaluate-OnDisk}
use codex_window_reset.Schedule.Scheduler.Reconcile.Spent.{Spent}
use codex_window_reset.Schedule.Scheduler.Loop.Compensated.{KeepsSpent}
use codex_window_reset.App.Runtime.{
  Account, Services, Runtime, normalize_key, noted, refresh, refreshed, keyed, refresh_snapshot,
  operation_base_at, next_id,
}
use codex_window_reset.App.Preheat.{
  evaluate_quota, or_fallback, fallback_decision, has_hold, hold_found, service_decision,
  is_undecided, set_due, entry_or_new, update_compensation,
}
use codex_window_reset.App.Execute.{Job, base_of}

-- A step that neither logs nor probes, leaves the busy accounts, and plans nothing again.
pub record Steady (r r' : Runtime) : Type 0 where
  pub history : r'.history ≡ r.history
  pub busy : r'.busy ≡ r.busy
  pub probes : r'.probes ≡ r.probes
  pub config : r'.config ≡ r.config
  pub states : KeepsSpent r.states r'.states

pub steady : (r : Runtime) → Steady r r
steady r = record { history = refl; busy = refl; probes = refl; config = refl; states = λ id h. h }

pub Steady-trans : (a b c : Runtime) → Steady a b → Steady b c → Steady a c
Steady-trans a b c f g = record {
  history = g.history ∙ f.history;
  busy = g.busy ∙ f.busy;
  probes = g.probes ∙ f.probes;
  config = g.config ∙ f.config;
  states = λ id h. g.states id (f.states id h);
}

pub Steady-if :
    (b : Bool) (r x y : Runtime) → Steady r x → Steady r y → Steady r (if b then x else y)
Steady-if true r x y hx hy = hx
Steady-if false r x y hx hy = hy

pub noted-Steady :
    {A : Type 0} (result : Result StoreError A) (r : Runtime) → Steady r (noted result r)
noted-Steady (ok a) r = steady r
noted-Steady (err e) r = record {
  history = refl;
  busy = refl;
  probes = refl;
  config = refl;
  states = λ id h. h;
}

pub base_of-Steady : (sv : Services) (job : Job) (r : Runtime) → Steady r (base_of sv job r).0
unfolding operation_base_at next_id
base_of-Steady sv job r = record {
  history = refl;
  busy = refl;
  probes = refl;
  config = refl;
  states = λ id h. h;
}

pub refresh_snapshot-Steady :
    (sv : Services) (account : Account) (r : Runtime) → Steady r (refresh_snapshot sv account r).0
unfolding refresh_snapshot refresh
refresh_snapshot-Steady sv account r =
    of_keyed (refresh sv account r) (of_refresh (is_empty (trim_space account.key)))
  where
    of_keyed :
        (x : Runtime × Result DomainError UsageSnapshot)
        → Steady r x.0
        → Steady r (keyed (normalize_key account.key) x).0
    of_keyed (r', ok s) h = h
    of_keyed (r', err e) h = h

    of_refresh :
        (b : Bool)
        → Steady r
            (if b
              then (r, err codex_window_reset.Quota.Service.refresh_error)
              else refreshed (trim_space account.key) r (sv.fetch account r.now)).0
    of_refresh true = steady r
    of_refresh false = record {
      history = refl;
      busy = refl;
      probes = refl;
      config = refl;
      states = λ id h. h;
    }

has_hold-Steady : (key : String) (r : Runtime) → Steady r (has_hold key r).0
unfolding has_hold
has_hold-Steady key r = of_load (Runtime.load r.states) (λ id. load-OnDisk (Spent id) r.states)
  where
    of_load :
        (x : Disk RuntimeState × Result StoreError RuntimeState)
        → KeepsSpent r.states x.0
        → Steady r (hold_found key r x).0
    of_load (d, ok s) h = record {
      history = refl;
      busy = refl;
      probes = refl;
      config = refl;
      states = h;
    }
    of_load (d, err e) h = record {
      history = refl;
      busy = refl;
      probes = refl;
      config = refl;
      states = h;
    }

pub evaluate_quota-Steady :
    (cfg : Config) (key : String) (now : Time) (before' : Result DomainError UsageSnapshot)
    (r : Runtime)
    → Steady r (evaluate_quota cfg key now before' r).0
unfolding evaluate_quota service_decision fallback_decision
evaluate_quota-Steady cfg key now before' r =
    let x = service_decision cfg key now r in
    Steady-trans r x.0 (or_fallback cfg key now before' x).0
      (record {
        history = refl;
        busy = refl;
        probes = refl;
        config = refl;
        states = λ id. evaluate-OnDisk (Spent id) (λ s v holds p. p) r.entries cfg key now r.states;
      })
      (of_test (is_undecided x.1) x (fallen before' x.0))
  where
    fallen :
        (b : Result DomainError UsageSnapshot) (y : Runtime)
        → Steady y (fallback_decision cfg key now b y).0
    fallen (ok s) y = steady y
    fallen (err e) y = has_hold-Steady key y

    of_test :
        (b : Bool) (x : Runtime × QuotaDecision)
        → Steady x.0 (fallback_decision cfg key now before' x.0).0
        → Steady x.0 (if b then fallback_decision cfg key now before' x.0 else x).0
    of_test true x h = h
    of_test false x h = steady x.0

-- What updateCompensation writes plans no occurrence.
set_due-Spent :
    (o : PlannedOccurrence) (due : Time) (id : String) (s : RuntimeState)
    → Spent id s
    → Spent id (normalize_runtime_state (set_due o due s).0)
unfolding set_due
set_due-Spent o due id s (x, e, n) = elim (Bool-cases (str_eq o.id id)) [
  | inl same ↦
      let eq : o.id ≡ id = (eq_iff o.id id).0 same in
      let found : lookup o.id s.occurrences ≡ some x = cc (e, eq) in
      let entry = record (entry_or_new o (lookup o.id s.occurrences)) {
        compensation_due_at = due;
      } in
      (entry, lookup-insert o.id id entry s.occurrences ∙ rw same refl, rw found n)
  | inr other ↦ (x, lookup-insert o.id id _ s.occurrences ∙ rw other e, n)
]

pub update_compensation-Steady :
    (o : PlannedOccurrence) (due : Time) (r : Runtime) → Steady r (update_compensation o due r)
unfolding update_compensation
update_compensation-Steady o due r =
    let (d, result) = Runtime.update_always (set_due o due) r.states in
    Steady-if (is_empty (trim_space o.id)) r r (noted result (record r { states = d })) (steady r) (
      Steady-trans r (record r { states = d }) (noted result (record r { states = d }))
        (record {
          history = refl;
          busy = refl;
          probes = refl;
          config = refl;
          states = λ id h.
              update-OnDisk (Spent id) (set_due o due) r.states h
                (λ s e p. set_due-Spent o due id s p);
        })
        (noted-Steady result (record r { states = d })))
