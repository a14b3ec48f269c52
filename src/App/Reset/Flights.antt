-- ===== src/App/Reset/Flights.antt =====
-- What each step of a call of ResetQuota does to the flights.
use codex_window_reset.Base.{
  ℕ, suc, String, Bool, true, false, not, ◌||◌, Option, none, some, ◌≡◌, refl, ◌⊎◌, inl, inr,
  if◌then◌else◌,
}
use codex_window_reset.Base.Assoc.{lookup, insert, delete, has_key}
use codex_window_reset.Base.Text.{str_eq}
use codex_window_reset.Domain.Outcome.{Result, ok, err, DomainError}
use codex_window_reset.Domain.Snapshot.{UsageSnapshot}
use codex_window_reset.Domain.Operation.{ResetAudit, ResetOutcome}
use codex_window_reset.Store.Disk.{StoreError}
use codex_window_reset.Store.Audit
use codex_window_reset.Store.Audit.{AuditDisk, is_pending}
use codex_window_reset.App.Runtime.{Account}
use codex_window_reset.App.Reset.{Phase, Call, Flight, Reply, Resets, Answers, Moved}
use codex_window_reset.App.Reset.Steps.{
  move, looked, recover_orphaned, recovered, find_account, begin_reset_flight, start_flight,
  use_snapshot, has_credits, append_pending, appended, conflict_looked, reset_consume,
  replace_audit, replaced, closed, finish_reset_flight, wait_reset_flight, waited, wait_looked,
  ended_reply, left_pending,
}

-- The number of the flight that a call in this phase owns.
abbrev pub owner_of : Phase → Option ℕ
owner_of (Phase.refreshing n account) = some n
owner_of (Phase.appending n a) = some n
owner_of (Phase.consuming n a) = some n
owner_of (Phase.refreshing_again n a result failure) = some n
owner_of (Phase.conflicted n) = some n
owner_of (Phase.replacing n a) = some n
owner_of (Phase.finishing n reply) = some n
owner_of _ = none

module _ (c : Call) (s : Resets) where
  -- No flight begins or ends.
  pub record Stays (owner : Option ℕ) (x : Moved) : Type 0 where
    pub flights : x.1.flights ≡ s.flights
    pub next_flight : x.1.next_flight ≡ s.next_flight
    pub owned : (owner_of x.0 ≡ none) ⊎ (owner_of x.0 ≡ owner)

  -- The call begins a flight of its own.
  pub record Begins (x : Moved) : Type 0 where
    pub vacant : lookup c.key s.flights ≡ none
    pub flights :
        x.1.flights
        ≡ insert c.key (record { number = s.next_flight; account_key = c.account_key }) s.flights
    pub next_flight : x.1.next_flight ≡ suc s.next_flight
    pub owned : owner_of x.0 ≡ some s.next_flight

  -- The call ends its flight.
  pub record Ends (owner : Option ℕ) (x : Moved) : Type 0 where
    pub flights : x.1.flights ≡ delete c.key s.flights
    pub next_flight : x.1.next_flight ≡ s.next_flight
    pub owned : owner_of x.0 ≡ none
    pub number : (n : ℕ) × (owner ≡ some n)

  abbrev pub Change : Option ℕ → Moved → Type 0
  Change owner x = Stays owner x ⊎ (Begins x ⊎ Ends owner x)

  free :
      (owner : Option ℕ) (x : Moved)
      → x.1.flights ≡ s.flights
      → x.1.next_flight ≡ s.next_flight
      → owner_of x.0 ≡ none
      → Change owner x
  free owner x f n h = inl (record { flights = f; next_flight = n; owned = inl h })

  same :
      (owner : Option ℕ) (x : Moved)
      → x.1.flights ≡ s.flights
      → x.1.next_flight ≡ s.next_flight
      → owner_of x.0 ≡ owner
      → Change owner x
  same owner x f n h = inl (record { flights = f; next_flight = n; owned = inr h })

  Change-if :
      (owner : Option ℕ) (b : Bool) (x y : Moved)
      → Change owner x
      → Change owner y
      → Change owner (if b then x else y)
  Change-if owner true x y hx hy = hx
  Change-if owner false x y hx hy = hy

  phase-if :
      (owner : Option ℕ) (b : Bool) (x y : Phase) (t : Resets)
      → Change owner (x, t)
      → Change owner (y, t)
      → Change owner (if b then x else y, t)
  phase-if owner true x y t hx hy = hx
  phase-if owner false x y t hx hy = hy

module _ (retention : ℕ) (c : Call) (s : Resets) where
  looked-Change :
      (x : AuditDisk × Result StoreError (Option ResetAudit))
      → Change c s none (looked retention c s x)
  looked-Change (d, err e) = free c s none _ refl refl refl
  looked-Change (d, ok none) = free c s none _ refl refl refl
  looked-Change (d, ok (some a)) =
      phase-if c s none (not (str_eq a.account_key c.account_key)) _ _ _
        (free c s none _ refl refl refl)
        (phase-if c s none (is_pending a.outcome) _ _ _ (free c s none _ refl refl refl)
          (free c s none _ refl refl refl))

  recovered-Change :
      (old new : ResetAudit) (x : AuditDisk × Result StoreError Unit)
      → Change c s none (recovered retention old new s x)
  recovered-Change old new (d, ok u) = free c s none _ refl refl refl
  recovered-Change old new (d, err e) = free c s none _ refl refl refl

  find_account-Change : (a : Option Account) → Change c s none (find_account retention c a, s)
  unfolding find_account
  find_account-Change none = free c s none _ refl refl refl
  find_account-Change (some a) =
      phase-if c s none a.disabled _ _ s (free c s none _ refl refl refl) (
        phase-if c s none a.unavailable _ _ s (free c s none _ refl refl refl)
          (free c s none _ refl refl refl))

  start_flight-Change :
      (account : Account) (f : Option Flight)
      → lookup c.key s.flights ≡ f
      → Change c s none (start_flight retention c account f s)
  start_flight-Change account (some f) e =
      phase-if c s none (str_eq f.account_key c.account_key) _ _ s (free c s none _ refl refl refl)
        (free c s none _ refl refl refl)
  start_flight-Change account none e =
      Change-if c s none (s.stopped || has_key c.account_key s.busy) _ _
        (free c s none _ refl refl refl)
        (inr (inl (record { vacant = e; flights = refl; next_flight = refl; owned = refl })))

  use_snapshot-Change :
      (n : ℕ) (account : Account) (id : String) (r : Result DomainError UsageSnapshot)
      → Change c s (some n) (use_snapshot retention n c account id s.now r, s)
  unfolding use_snapshot
  use_snapshot-Change n account id (err e) = same c s (some n) _ refl refl refl
  use_snapshot-Change n account id (ok snapshot) =
      phase-if c s (some n) (has_credits retention snapshot) _ _ s
        (same c s (some n) _ refl refl refl) (same c s (some n) _ refl refl refl)

  appended-Change :
      (n : ℕ) (a : ResetAudit) (x : AuditDisk × Result StoreError Unit)
      → Change c s (some n) (appended retention n a s x)
  appended-Change n a (d, ok u) = same c s (some n) _ refl refl refl
  appended-Change n a (d, err StoreError.conflict) = same c s (some n) _ refl refl refl
  appended-Change n a (d, err StoreError.io_error) = same c s (some n) _ refl refl refl
  appended-Change n a (d, err StoreError.corrupt_document) = same c s (some n) _ refl refl refl
  appended-Change n a (d, err StoreError.unsupported_schema) = same c s (some n) _ refl refl refl
  appended-Change n a (d, err StoreError.not_found) = same c s (some n) _ refl refl refl

  conflict_looked-Change :
      (n : ℕ) (x : AuditDisk × Result StoreError (Option ResetAudit))
      → Change c s (some n) (conflict_looked retention n c s x)
  conflict_looked-Change n (d, ok e) = same c s (some n) _ refl refl refl
  conflict_looked-Change n (d, err e) = same c s (some n) _ refl refl refl

  replaced-Change :
      (n : ℕ) (a : ResetAudit) (x : AuditDisk × Result StoreError Unit)
      → Change c s (some n) (replaced retention n a s x)
  replaced-Change n a (d, ok u) = same c s (some n) _ refl refl refl
  replaced-Change n a (d, err e) = same c s (some n) _ refl refl refl

  closed-Change :
      (n : ℕ) (reply : Reply) (f : Option Flight)
      → Change c s (some n) (Phase.done reply, closed retention n c reply f s)
  closed-Change n reply none = free c s (some n) _ refl refl refl
  closed-Change n reply (some f) =
      inr (inr (record { flights = refl; next_flight = refl; owned = refl; number = (n, refl) }))

  wait_looked-Change :
      (left : Reply) (x : AuditDisk × Result StoreError (Option ResetAudit))
      → Change c s none (wait_looked retention left s x)
  wait_looked-Change left (d, ok e) = free c s none _ refl refl refl
  wait_looked-Change left (d, err e) = free c s none _ refl refl refl

  waited-Change : (n : ℕ) (left : Option Reply) → Change c s none (waited retention n c left s)
  waited-Change n none = free c s none _ refl refl refl
  waited-Change n (some left) =
      Change-if c s none (left_pending retention left) _ _ (free c s none _ refl refl refl)
        (wait_looked-Change left (Audit.find_by_key retention s.now c.key s.audit))

  -- A step begins a flight, ends the one of its call, or leaves the flights alone.
  pub move-Change : (a : Answers) (ph : Phase) → Change c s (owner_of ph) (move retention a c ph s)
  unfolding move recover_orphaned begin_reset_flight append_pending reset_consume replace_audit
      finish_reset_flight wait_reset_flight
  move-Change a Phase.looking = looked-Change (Audit.find_by_key retention s.now c.key s.audit)
  move-Change a (Phase.orphaned old) =
      let new = record old { outcome = ResetOutcome.unknown; finished_at = s.now } in
      recovered-Change old new (Audit.replace retention s.now new s.audit)
  move-Change a Phase.finding = find_account-Change a.account
  move-Change a (Phase.beginning account) =
      start_flight-Change account (lookup c.key s.flights) refl
  move-Change a (Phase.refreshing n account) = use_snapshot-Change n account a.id a.snapshot
  move-Change a (Phase.appending n p) =
      appended-Change n p (Audit.append_pending retention s.now p s.audit)
  move-Change a (Phase.conflicted n) =
      conflict_looked-Change n (Audit.find_by_key retention s.now c.key s.audit)
  move-Change a (Phase.consuming n p) =
      Change-if c s (some n) (s.stopped || a.canceled) _ _ (same c s (some n) _ refl refl refl)
        (same c s (some n) _ refl refl refl)
  move-Change a (Phase.refreshing_again n p result failure) = same c s (some n) _ refl refl refl
  move-Change a (Phase.replacing n final) =
      replaced-Change n final (Audit.replace retention s.now final s.audit)
  move-Change a (Phase.finishing n reply) = closed-Change n reply (lookup c.key s.flights)
  move-Change a (Phase.waiting n) =
      Change-if c s none a.canceled _ _ (free c s none _ refl refl refl)
        (waited-Change n (ended_reply retention n s.ended))
  move-Change a (Phase.done reply) = free c s none _ refl refl refl
