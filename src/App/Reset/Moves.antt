-- ===== src/App/Reset/Moves.antt =====
-- The steps of a call, one by one, under the permissions of a key.
use codex_window_reset.Base.{
  ℕ, ◌+◌, ◌-◌, ◌≤◌, String, true, false, ◌||◌, Option, none, some, ◌≡◌, refl, arith, ◌==◌, subst,
  sym, Bool-cases, inl, inr,
}
use codex_window_reset.Base.Assoc.{lookup}
use codex_window_reset.Base.Text.{str_eq}
use codex_window_reset.Domain.Clock.{Time}
use codex_window_reset.Domain.Outcome.{Result, ok, err}
use codex_window_reset.Domain.Operation.{ResetAudit, ResetOutcome}
use codex_window_reset.Store.Disk.{StoreError}
use codex_window_reset.Store.Audit
use codex_window_reset.Store.Audit.{AuditDisk}
use codex_window_reset.Store.Audit.Keys.{OnDisk}
use codex_window_reset.App.Reset.{Phase, Call, Flight, Reply, Resets, Answers}
use codex_window_reset.App.Reset.Steps.{
  move, recover_orphaned, begin_reset_flight, append_pending, appended, reset_consume,
  replace_audit, finish_reset_flight, closed, wait_reset_flight, waited, ended_reply, left_pending,
}
use codex_window_reset.App.Reset.Evidence.{is_young, Level, Level-lower}
use codex_window_reset.App.Reset.Writes.{
  find-kept, find-young, append-kept, append-new, replace-kept,
}
use codex_window_reset.App.Reset.Sound.{
  credit, used, Holding, total, settled, Good, Evidenced, stay, Good-if, looked-Good,
  recovered-Good, start_flight-Good, conflict_looked-Good, replaced-Good, wait_looked-Good,
  find_account-Calm, use_snapshot-Calm,
}

module _ (k : String) (start : Time) (retention : ℕ) (base : ℕ) (c : Call) (s : Resets) (m : ℕ)
    (one : m ≤ 1) (less : base + used k s.consumed ≤ m) where
  credited :
      (n : ℕ) (a : ResetAudit) (d : AuditDisk)
      → m ≡ 0
      → is_young k start a ≡ true
      → OnDisk (Level k start 1) d
      → Good k start retention base c s (Phase.consuming n a, record s { audit = d })
  unfolding credit Holding
  credited n a d z y h = record {
    one = ground (arith, less, z);
    evidence = λ rs e. Level-lower k start _ 1 rs (ground (arith, less, z)) (h rs e);
    holding = y;
    same_now = refl;
  }

  appended-Good :
      (n : ℕ) (a : ResetAudit) (x : AuditDisk × Result StoreError Unit)
      → Evidenced k start retention base c s m one less x.0
      → is_young k start a ≡ true
      → (x.1 ≡ ok tt → str_eq c.key k ≡ true → (m ≡ 0) × OnDisk (Level k start 1) x.0)
      → Good k start retention base c s (appended retention n a s x)
  unfolding credit Holding
  appended-Good n a (d, err StoreError.conflict) h y new =
      stay k start retention base c s m one less _ _ refl refl h (refl, tt)
  appended-Good n a (d, err StoreError.io_error) h y new =
      stay k start retention base c s m one less _ _ refl refl h (refl, tt)
  appended-Good n a (d, err StoreError.corrupt_document) h y new =
      stay k start retention base c s m one less _ _ refl refl h (refl, tt)
  appended-Good n a (d, err StoreError.unsupported_schema) h y new =
      stay k start retention base c s m one less _ _ refl refl h (refl, tt)
  appended-Good n a (d, err StoreError.not_found) h y new =
      stay k start retention base c s m one less _ _ refl refl h (refl, tt)
  appended-Good n a (d, ok u) h y new = elim (Bool-cases (str_eq c.key k)) [
    | inr other ↦ stay k start retention base c s m one less _ _ refl refl h (rw other refl, y)
    | inl same ↦ let (z, g) = new refl same in credited n a d z y g
  ]

  closed-Good :
      (n : ℕ) (reply : Reply) (f : Option Flight)
      → Evidenced k start retention base c s m one less s.audit
      → Good k start retention base c s (Phase.done reply, closed retention n c reply f s)
  unfolding credit Holding
  closed-Good n reply none h = stay k start retention base c s m one less _ s refl refl h (refl, tt)
  closed-Good n reply (some f) h =
      stay k start retention base c s m one less _ _ refl refl h (refl, tt)

  consume-Good :
      (n : ℕ) (a : ResetAudit) (answers : Answers)
      → base + credit k c.key (Phase.consuming n a) + used k s.consumed ≤ m
      → Evidenced k start retention base c s m one less s.audit
      → is_young k start a ≡ true
      → Good k start retention base c s (reset_consume retention n c a answers s)
  unfolding credit Holding reset_consume used
  consume-Good n a answers all h y =
      Good-if k start retention base c s m one less (s.stopped || answers.canceled) _ _
        (stay k start retention base c s m one less _ s refl refl h (refl, tt))
        (settled k start base c.key s.now _ _ m one (omega (arith, all)) h (refl, y) refl)

  waited-Good :
      (n : ℕ) (left : Option Reply)
      → Evidenced k start retention base c s m one less s.audit
      → Evidenced k start retention base c s m one less
          (Audit.find_by_key retention s.now c.key s.audit).0
      → Good k start retention base c s (waited retention n c left s)
  unfolding credit Holding
  waited-Good n none h g = stay k start retention base c s m one less _ s refl refl h (refl, tt)
  waited-Good n (some left) h g =
      Good-if k start retention base c s m one less (left_pending retention left) _ _
        (stay k start retention base c s m one less _ s refl refl h (refl, tt))
        (wait_looked-Good k start retention base c s m one less left
          (Audit.find_by_key retention s.now c.key s.audit) g)

-- A step of a call, whatever the outside answers, at an instant from `start` on at which no record
-- that was requested from `start` on has expired.
module _ (k : String) (start : Time) (retention : ℕ) (base : ℕ) (c : Call) (s : Resets)
    (later : start ≤ s.now) (recent : (retention == 0) ≡ false → s.now - retention ≤ start) where
  abbrev before' : Phase → ℕ
  before' ph = total k start base c.key s.now (ph, s)

  pub move-Good :
      (a : Answers) (ph : Phase)
      → Good k start retention base c s (ph, s)
      → Good k start retention base c s (move retention a c ph s)
  unfolding credit Holding move recover_orphaned begin_reset_flight append_pending replace_audit
      finish_reset_flight wait_reset_flight
  move-Good a Phase.looking g =
      looked-Good k start retention base c s (before' Phase.looking) g.one (omega arith)
        (Audit.find_by_key retention s.now c.key s.audit)
        (find-kept k start retention s.now recent _ c.key s.audit g.evidence)
        (λ x e. find-young k start retention s.now recent _ c.key s.audit x g.evidence e)
  move-Good a (Phase.orphaned old) g =
      let new = record old { outcome = ResetOutcome.unknown; finished_at = s.now } in
      recovered-Good k start retention base c s (before' (Phase.orphaned old)) g.one (omega arith)
        old new (Audit.replace retention s.now new s.audit)
        (replace-kept k start retention s.now recent _ new s.audit g.holding g.evidence)
  move-Good a Phase.finding g =
      stay k start retention base c s (before' Phase.finding) g.one (omega arith) _ s refl refl
        g.evidence (find_account-Calm k start retention base c s a.account)
  move-Good a (Phase.beginning account) g =
      start_flight-Good k start retention base c s (before' (Phase.beginning account)) g.one
        (omega arith) account (lookup c.key s.flights) g.evidence
  move-Good a (Phase.refreshing n account) g =
      stay k start retention base c s (before' (Phase.refreshing n account)) g.one (omega arith) _ s
        refl refl g.evidence
        (use_snapshot-Calm k start retention base c s n account a.id a.snapshot later)
  move-Good a (Phase.appending n p) g =
      appended-Good k start retention base c s (before' (Phase.appending n p)) g.one (omega arith) n
        p (Audit.append_pending retention s.now p s.audit)
        (append-kept k start retention s.now recent _ p s.audit g.holding.0 g.evidence) g.holding.0
        (λ e same.
          append-new k start retention s.now recent _ p s.audit
            (subst (λ x. str_eq x k ≡ true) (sym g.holding.1) same) g.holding.0 g.evidence e)
  move-Good a (Phase.conflicted n) g =
      conflict_looked-Good k start retention base c s (before' (Phase.conflicted n)) g.one
        (omega arith) n (Audit.find_by_key retention s.now c.key s.audit)
        (find-kept k start retention s.now recent _ c.key s.audit g.evidence)
  move-Good a (Phase.consuming n p) g =
      consume-Good k start retention base c s (before' (Phase.consuming n p)) g.one (omega arith) n
        p a (omega arith) g.evidence g.holding
  move-Good a (Phase.refreshing_again n p result failure) g =
      stay k start retention base c s (before' (Phase.refreshing_again n p result failure)) g.one
        (omega arith) _ s refl refl g.evidence (refl, g.holding)
  move-Good a (Phase.replacing n final) g =
      replaced-Good k start retention base c s (before' (Phase.replacing n final)) g.one
        (omega arith) n final (Audit.replace retention s.now final s.audit)
        (replace-kept k start retention s.now recent _ final s.audit g.holding g.evidence)
  move-Good a (Phase.finishing n reply) g =
      closed-Good k start retention base c s (before' (Phase.finishing n reply)) g.one (omega arith)
        n reply (lookup c.key s.flights) g.evidence
  move-Good a (Phase.waiting n) g =
      Good-if k start retention base c s (before' (Phase.waiting n)) g.one (omega arith) a.canceled
        _ _
        (stay k start retention base c s (before' (Phase.waiting n)) g.one (omega arith) _ s refl
          refl g.evidence (refl, tt))
        (waited-Good k start retention base c s (before' (Phase.waiting n)) g.one (omega arith) n
          (ended_reply retention n s.ended) g.evidence
          (find-kept k start retention s.now recent _ c.key s.audit g.evidence))
  move-Good a (Phase.done reply) g = g
