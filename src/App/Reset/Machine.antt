-- ===== src/App/Reset/Machine.antt =====
-- Any number of calls of ResetQuota, interleaved with other users of the accounts, a stop and restarts
-- of the process.
use codex_window_reset.Base.{
  ◌≡◌, ◌≢◌, refl, ap, ℕ, suc, zero, String, true, false, List, [], ◌∷◌, ◌++◌, Option, none, some,
  get_elem?,
}
use codex_window_reset.Base.Assoc.{insert, delete}
use codex_window_reset.Domain.Clock.{Time}
use codex_window_reset.Domain.Outcome.{ErrorCode, Result, ok, err}
use codex_window_reset.Store.Disk.{StoreError}
use codex_window_reset.Store.Audit
use codex_window_reset.Store.Audit.{AuditDisk}
use codex_window_reset.App.Runtime.{normalize_key}
use codex_window_reset.App.Reset.{Call, Resets, Answers, Moved, failed_with, arrive}
use codex_window_reset.App.Reset.Steps.{move}

pub data Event : Type 0 where
  arrives : String → String → Event
  steps : ℕ → Answers → Event
  occupies leaves : String → Event
  passes : Time → Event
  stops restarts : Event

-- The calls, in the order of their arrival.
pub record Machine : Type 0 where
  pub calls : List Call
  pub shared : Resets

abbrev pub set_call : ℕ → Call → List Call → List Call
set_call i c [] = []
set_call zero c (x ∷ xs) = c ∷ xs
set_call (suc i) c (x ∷ xs) = x ∷ set_call i c xs

-- Start of a new process: RecoverPending, over a runtime that has nothing in memory.
abbrev pub noted_recovery : Resets → AuditDisk × Result StoreError Unit → Resets
noted_recovery s (d, ok u) = record s { audit = d }
noted_recovery s (d, err e) = failed_with e (record s { audit = d })

abbrev pub forgotten : Resets → Resets
forgotten s = record s {
  flights = [];
  ended = [];
  busy = [];
  stopped = false;
  store_error = ErrorCode.unset;
}

module _ (retention : ℕ) where
  unfoldable pub restart : Resets → Resets
  restart s = noted_recovery (forgotten s) (Audit.recover_pending retention s.now s.now s.audit)

  abbrev pub moved : ℕ → Call → List Call → Moved → Machine
  moved i c calls (phase, s) = record {
    calls = set_call i (record c { phase = phase }) calls;
    shared = s;
  }

  abbrev pub step_of : ℕ → Answers → Option Call → Machine → Machine
  step_of i a none m = m
  step_of i a (some c) m = moved i c m.calls (move retention a c c.phase m.shared)

  abbrev pub step : Event → Machine → Machine
  step (Event.arrives account_key key) m = record m {
    calls = m.calls ++ arrive account_key key m.shared ∷ [];
  }
  step (Event.steps i a) m = step_of i a (get_elem? m.calls i) m
  step (Event.occupies key) m = record m {
    shared = record (m.shared) { busy = insert (normalize_key key) tt m.shared.busy };
  }
  step (Event.leaves key) m = record m {
    shared = record (m.shared) { busy = delete (normalize_key key) m.shared.busy };
  }
  step (Event.passes now) m = record m { shared = record (m.shared) { now = now } }
  step Event.stops m = record m { shared = record (m.shared) { stopped = true } }
  step Event.restarts m = record { calls = []; shared = restart m.shared }

  unfoldable pub run : List Event → Machine → Machine
  run [] m = m
  run (e ∷ es) m = run es (step e m)

-- The calls at a place after one of them is set, and after a call arrives.
pub set-same :
    (i : ℕ) (c d : Call) (calls : List Call)
    → get_elem? calls i ≡ some c
    → get_elem? (set_call i d calls) i ≡ some d
set-same i c d [] h = cc
set-same zero c d (x ∷ xs) h = refl
set-same (suc i) c d (x ∷ xs) h = set-same i c d xs h

pub set-other :
    (i j : ℕ) (d : Call) (calls : List Call)
    → j ≢ i
    → get_elem? (set_call j d calls) i ≡ get_elem? calls i
set-other i j d [] ne = refl
set-other zero zero d (x ∷ xs) ne = absurd (ne refl)
set-other (suc i) zero d (x ∷ xs) ne = refl
set-other zero (suc j) d (x ∷ xs) ne = refl
set-other (suc i) (suc j) d (x ∷ xs) ne = set-other i j d xs (λ e. ne (ap suc e))

pub append-get :
    (i : ℕ) (c d : Call) (calls : List Call)
    → get_elem? calls i ≡ some c
    → get_elem? (calls ++ d ∷ []) i ≡ some c
append-get i c d [] h = cc
append-get zero c d (x ∷ xs) h = h
append-get (suc i) c d (x ∷ xs) h = append-get i c d xs h
