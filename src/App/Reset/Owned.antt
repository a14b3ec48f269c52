-- ===== src/App/Reset/Owned.antt =====
-- The steps of a call of ResetQuota that owns a flight.
use codex_window_reset.Base.{
  ℕ, suc, ◌≤◌, String, Bool, true, false, ◌||◌, Option, none, some, ◌≡◌, refl, ◌⊎◌, inl, inr, arith,
  if◌then◌else◌,
}
use codex_window_reset.Base.Assoc.{lookup, has_key, lookup-delete}
use codex_window_reset.Base.Text.{eq_iff}
use codex_window_reset.Domain.Outcome.{Result, ok, err, DomainError}
use codex_window_reset.Domain.Snapshot.{UsageSnapshot}
use codex_window_reset.Domain.Operation.{ResetAudit}
use codex_window_reset.Store.Disk.{StoreError}
use codex_window_reset.Store.Audit
use codex_window_reset.Store.Audit.{AuditDisk}
use codex_window_reset.App.Runtime.{Account}
use codex_window_reset.App.Reset.{Phase, Call, Flight, Reply, Resets, Answers, Moved}
use codex_window_reset.App.Reset.Steps.{
  move, use_snapshot, has_credits, append_pending, appended, conflict_looked, reset_consume,
  replace_audit, replaced, finish_reset_flight, ended_reply,
}

-- The phase of a call that owns flight n, and that has at most k steps to go.
abbrev pub OwnedBy : ℕ → ℕ → Phase → Type 0
OwnedBy n k (Phase.refreshing m account) = (m ≡ n) × (6 ≤ k)
OwnedBy n k (Phase.appending m a) = (m ≡ n) × (5 ≤ k)
OwnedBy n k (Phase.consuming m a) = (m ≡ n) × (4 ≤ k)
OwnedBy n k (Phase.refreshing_again m a result failure) = (m ≡ n) × (3 ≤ k)
OwnedBy n k (Phase.conflicted m) = (m ≡ n) × (2 ≤ k)
OwnedBy n k (Phase.replacing m a) = (m ≡ n) × (2 ≤ k)
OwnedBy n k (Phase.finishing m reply) = (m ≡ n) × (1 ≤ k)
OwnedBy n k _ = ⊥

abbrev pub is_done : Phase → Bool
is_done (Phase.done reply) = true
is_done _ = false

-- The call has its reply, and at this step its flight was closed with it and its account freed.
abbrev pub Released : ℕ → Call → ℕ → Flight → Moved → Type 0
Released retention c n f (phase, s) =
    (reply : Reply) × (phase ≡ Phase.done reply)
    × (lookup c.key s.flights ≡ none)
    × (has_key f.account_key s.busy ≡ false)
    × (ended_reply retention n s.ended ≡ some reply)

module _ (retention : ℕ) (c : Call) (n : ℕ) (f : Flight) where
  abbrev Owned : ℕ → Phase → Type 0
  Owned k ph = OwnedBy n k ph

  Owned-if : (k : ℕ) (b : Bool) (x y : Phase) → Owned k x → Owned k y → Owned k (if b then x else y)
  Owned-if k true x y hx hy = hx
  Owned-if k false x y hx hy = hy

  Moved-if :
      (k : ℕ) (b : Bool) (x y : Moved) → Owned k x.0 → Owned k y.0 → Owned k (if b then x else y).0
  Moved-if k true x y hx hy = hx
  Moved-if k false x y hx hy = hy

  use_snapshot-Owned :
      (k : ℕ) (s : Resets) (account : Account) (id : String) (r : Result DomainError UsageSnapshot)
      → 5 ≤ k
      → Owned k (use_snapshot retention n c account id s.now r)
  unfolding use_snapshot
  use_snapshot-Owned k s account id (err e) h = (refl, omega (arith, h))
  use_snapshot-Owned k s account id (ok snapshot) h =
      Owned-if k (has_credits retention snapshot) _ _ (refl, h) (refl, omega (arith, h))

  appended-Owned :
      (k : ℕ) (s : Resets) (a : ResetAudit) (x : AuditDisk × Result StoreError Unit)
      → 4 ≤ k
      → Owned k (appended retention n a s x).0
  appended-Owned k s a (d, ok u) h = (refl, h)
  appended-Owned k s a (d, err StoreError.conflict) h = (refl, omega (arith, h))
  appended-Owned k s a (d, err StoreError.io_error) h = (refl, omega (arith, h))
  appended-Owned k s a (d, err StoreError.corrupt_document) h = (refl, omega (arith, h))
  appended-Owned k s a (d, err StoreError.unsupported_schema) h = (refl, omega (arith, h))
  appended-Owned k s a (d, err StoreError.not_found) h = (refl, omega (arith, h))

  conflict_looked-Owned :
      (k : ℕ) (s : Resets) (x : AuditDisk × Result StoreError (Option ResetAudit))
      → 1 ≤ k
      → Owned k (conflict_looked retention n c s x).0
  conflict_looked-Owned k s (d, ok e) h = (refl, h)
  conflict_looked-Owned k s (d, err e) h = (refl, h)

  reset_consume-Owned :
      (k : ℕ) (s : Resets) (p : ResetAudit) (a : Answers)
      → 3 ≤ k
      → Owned k (reset_consume retention n c p a s).0
  unfolding reset_consume
  reset_consume-Owned k s p a h =
      Moved-if k (s.stopped || a.canceled) _ _ (refl, omega (arith, h)) (refl, h)

  replaced-Owned :
      (k : ℕ) (s : Resets) (a : ResetAudit) (x : AuditDisk × Result StoreError Unit)
      → 1 ≤ k
      → Owned k (replaced retention n a s x).0
  replaced-Owned k s a (d, ok u) h = (refl, h)
  replaced-Owned k s a (d, err e) h = (refl, h)

  finished-Released :
      (s : Resets) (reply : Reply)
      → lookup c.key s.flights ≡ some f
      → Released retention c n f (Phase.done reply, finish_reset_flight retention n c reply s)
  unfolding finish_reset_flight ended_reply has_key
  finished-Released s reply h = rw h (
    reply,
    refl,
    ground (arith, lookup-delete c.key c.key s.flights, eq_iff c.key c.key),
    ground (
      arith,
      lookup-delete f.account_key f.account_key s.busy,
      eq_iff f.account_key f.account_key,
    ),
    ground arith,
  )

  abbrev Next : ℕ → Moved → Type 0
  Next k x = Owned k x.0 ⊎ Released retention c n f x

  -- One step of the owner: on to a later phase of the flight, or the flight is closed.
  pub Next-move :
      (a : Answers) (s : Resets) (k : ℕ) (ph : Phase)
      → Owned (suc k) ph
      → lookup c.key s.flights ≡ some f
      → Next k (move retention a c ph s)
  unfolding move append_pending replace_audit
  Next-move a s k Phase.looking h here = absurd h
  Next-move a s k Phase.finding h here = absurd h
  Next-move a s k (Phase.orphaned old) h here = absurd h
  Next-move a s k (Phase.beginning account) h here = absurd h
  Next-move a s k (Phase.refreshing m account) (e, h) here =
      inl (rw e (use_snapshot-Owned k s account a.id a.snapshot (omega (arith, h))))
  Next-move a s k (Phase.appending m p) (e, h) here = inl (
      rw e
        (appended-Owned k s p (Audit.append_pending retention s.now p s.audit) (omega (arith, h))))
  Next-move a s k (Phase.conflicted m) (e, h) here = inl (
      rw e (
        conflict_looked-Owned k s (Audit.find_by_key retention s.now c.key s.audit)
          (omega (arith, h))))
  Next-move a s k (Phase.consuming m p) (e, h) here =
      inl (rw e (reset_consume-Owned k s p a (omega (arith, h))))
  Next-move a s k (Phase.refreshing_again m p result failure) (e, h) here =
      inl (e, omega (arith, h))
  Next-move a s k (Phase.replacing m final) (e, h) here = inl (
      rw e
        (replaced-Owned k s final (Audit.replace retention s.now final s.audit) (omega (arith, h))))
  Next-move a s k (Phase.finishing m reply) (e, h) here =
      inr (rw e (finished-Released s reply here))
  Next-move a s k (Phase.waiting m) h here = absurd h
  Next-move a s k (Phase.done reply) h here = absurd h

  pub Owned-zero : (ph : Phase) → Owned 0 ph → ⊥
  Owned-zero Phase.looking h = h
  Owned-zero Phase.finding h = h
  Owned-zero (Phase.orphaned old) h = h
  Owned-zero (Phase.beginning account) h = h
  Owned-zero (Phase.refreshing m account) (e, h) = omega (arith, h)
  Owned-zero (Phase.appending m p) (e, h) = omega (arith, h)
  Owned-zero (Phase.conflicted m) (e, h) = omega (arith, h)
  Owned-zero (Phase.consuming m p) (e, h) = omega (arith, h)
  Owned-zero (Phase.refreshing_again m p result failure) (e, h) = omega (arith, h)
  Owned-zero (Phase.replacing m final) (e, h) = omega (arith, h)
  Owned-zero (Phase.finishing m reply) (e, h) = omega (arith, h)
  Owned-zero (Phase.waiting m) h = h
  Owned-zero (Phase.done reply) h = h
