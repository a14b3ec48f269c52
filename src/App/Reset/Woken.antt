-- ===== src/App/Reset/Woken.antt =====
-- The owner of a flight as a phase, and the waiters of a flight that has ended.
use codex_window_reset.Base.{
  ℕ, Bool, true, false, Option, some, ◌≡◌, refl, ap, arith, some-injective, if◌then◌else◌,
}
use codex_window_reset.Domain.Outcome.{Result, ok, err}
use codex_window_reset.Domain.Operation.{ResetAudit}
use codex_window_reset.Store.Disk.{StoreError}
use codex_window_reset.Store.Audit
use codex_window_reset.Store.Audit.{AuditDisk}
use codex_window_reset.App.Reset.{
  Phase, Call, Reply, Resets, Answers, Moved, refusal, reset_wait_canceled_error,
}
use codex_window_reset.App.Reset.Steps.{
  move, wait_reset_flight, waited, wait_looked, ended_reply, left_pending,
}
use codex_window_reset.App.Reset.Flights.{owner_of}
use codex_window_reset.App.Reset.Owned.{OwnedBy, is_done}

module _ (retention : ℕ) (n : ℕ) where
  -- A waiter whose flight has ended has its reply after one step.
  pub wait-ended :
      (w : Call) (a : Answers) (s : Resets) (reply : Reply)
      → ended_reply retention n s.ended ≡ some reply
      → is_done (move retention a w (Phase.waiting n) s).0 ≡ true
  unfolding move wait_reset_flight
  wait-ended w a s reply e = rw e (of_test a.canceled)
    where
      looked :
          (x : AuditDisk × Result StoreError (Option ResetAudit))
          → is_done (wait_looked retention reply s x).0 ≡ true
      looked (d, ok found) = refl
      looked (d, err z) = refl

      of_pending :
          (b : Bool) (y : Moved)
          → is_done y.0 ≡ true
          → is_done (if b then (Phase.done reply, s) else y).0 ≡ true
      of_pending true y h = refl
      of_pending false y h = h

      of_test :
          (b : Bool)
          → is_done
              (if b
                then (Phase.done (refusal reset_wait_canceled_error), s)
                else waited retention n w (some reply) s).0
            ≡ true
      of_test true = refl
      of_test false =
          of_pending (left_pending retention reply) _
            (looked (Audit.find_by_key retention s.now w.key s.audit))

pub owner-OwnedBy : (n : ℕ) (ph : Phase) → owner_of ph ≡ some n → OwnedBy n 6 ph
owner-OwnedBy n Phase.looking h = cc
owner-OwnedBy n Phase.finding h = cc
owner-OwnedBy n (Phase.orphaned old) h = cc
owner-OwnedBy n (Phase.beginning account) h = cc
owner-OwnedBy n (Phase.refreshing m account) h = (some-injective h, omega arith)
owner-OwnedBy n (Phase.appending m p) h = (some-injective h, omega arith)
owner-OwnedBy n (Phase.consuming m p) h = (some-injective h, omega arith)
owner-OwnedBy n (Phase.refreshing_again m p result failure) h = (some-injective h, omega arith)
owner-OwnedBy n (Phase.conflicted m) h = (some-injective h, omega arith)
owner-OwnedBy n (Phase.replacing m final) h = (some-injective h, omega arith)
owner-OwnedBy n (Phase.finishing m reply) h = (some-injective h, omega arith)
owner-OwnedBy n (Phase.waiting m) h = cc
owner-OwnedBy n (Phase.done reply) h = cc

pub OwnedBy-owner : (n k : ℕ) (ph : Phase) → OwnedBy n k ph → owner_of ph ≡ some n
OwnedBy-owner n k Phase.looking h = absurd h
OwnedBy-owner n k Phase.finding h = absurd h
OwnedBy-owner n k (Phase.orphaned old) h = absurd h
OwnedBy-owner n k (Phase.beginning account) h = absurd h
OwnedBy-owner n k (Phase.refreshing m account) h = ap some h.0
OwnedBy-owner n k (Phase.appending m p) h = ap some h.0
OwnedBy-owner n k (Phase.consuming m p) h = ap some h.0
OwnedBy-owner n k (Phase.refreshing_again m p result failure) h = ap some h.0
OwnedBy-owner n k (Phase.conflicted m) h = ap some h.0
OwnedBy-owner n k (Phase.replacing m final) h = ap some h.0
OwnedBy-owner n k (Phase.finishing m reply) h = ap some h.0
OwnedBy-owner n k (Phase.waiting m) h = absurd h
OwnedBy-owner n k (Phase.done reply) h = absurd h
