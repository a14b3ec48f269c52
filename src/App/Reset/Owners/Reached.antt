-- ===== src/App/Reset/Owners/Reached.antt =====
-- The flights of the owners in every state that a machine reaches.
use codex_window_reset.Base.{
  ℕ, zero, suc, String, Bool, true, false, not, List, [], ◌∷◌, ◌++◌, Option, none, some, ◌≡◌, refl,
  ◌⊎◌, ap, inl, inr, sym, get_elem?, some-injective, if◌then◌else◌,
}
use codex_window_reset.Base.Assoc.{lookup}
use codex_window_reset.Base.Text.{str_eq, is_empty}
use codex_window_reset.Domain.Outcome.{Result, ok, err}
use codex_window_reset.Store.Disk.{StoreError}
use codex_window_reset.Store.Audit
use codex_window_reset.Store.Audit.{AuditDisk}
use codex_window_reset.App.Runtime.{normalize_key}
use codex_window_reset.App.Reset.{Phase, Call, Flight, Resets, Answers, arrive, flight_or}
use codex_window_reset.App.Reset.Steps.{move}
use codex_window_reset.App.Reset.Uuid.{canonical_uuid}
use codex_window_reset.App.Reset.Flights.{owner_of, move-Change}
use codex_window_reset.App.Reset.Machine.{
  Event, Machine, noted_recovery, forgotten, restart, step_of, step, run,
}
use codex_window_reset.App.Reset.Owners.{Owns, Kept, move-Kept}

arrive-owner :
    (account_key key : String) (s : Resets) → owner_of (arrive account_key key s).phase ≡ none
unfolding arrive
arrive-owner account_key key s =
    of_test (not (canonical_uuid key)) _ _ refl
      (of_test (is_empty (normalize_key account_key)) _ _ refl (of_flight (lookup key s.flights)))
  where
    of_test :
        (b : Bool) (x y : Phase)
        → owner_of x ≡ none
        → owner_of y ≡ none
        → owner_of (if b then x else y) ≡ none
    of_test true x y hx hy = hx
    of_test false x y hx hy = hy

    of_flight :
        (f : Option Flight)
        → owner_of (
            flight_or
              (record { account_key = normalize_key account_key; key = key; phase = Phase.looking })
              Phase.looking
              f)
          ≡ none
    of_flight none = refl
    of_flight (some f) = of_test (str_eq f.account_key (normalize_key account_key)) _ _ refl refl

append-cases :
    (calls : List Call) (d e : Call) (j : ℕ)
    → get_elem? (calls ++ d ∷ []) j ≡ some e
    → (get_elem? calls j ≡ some e) ⊎ (e ≡ d)
append-cases [] d e zero h = inr (sym (some-injective h))
append-cases [] d e (suc j) h = cc
append-cases (x ∷ xs) d e zero h = inl h
append-cases (x ∷ xs) d e (suc j) h = append-cases xs d e j h

arrived-Kept :
    (calls : List Call) (d : Call) (s : Resets)
    → owner_of d.phase ≡ none
    → Kept calls s
    → Kept (calls ++ d ∷ []) s
arrived-Kept calls d s idle kept = record {
  bounded = kept.bounded;
  held = λ i c n o. kept.held i c n (before' i c n o);
  distinct = λ i j c e n p q. kept.distinct i j c e n (before' i c n p) (before' j e n q);
}
  where
    before' : (i : ℕ) (c : Call) (n : ℕ) → Owns (calls ++ d ∷ []) i c n → Owns calls i c n
    before' i c n (at, own) = elim (append-cases calls d c i at) [
      | inl q ↦ (q, own)
      | inr q ↦ absurd (cc (own, q, idle))
    ]

restart-Kept : (retention : ℕ) (s : Resets) → Kept [] (restart retention s)
unfolding restart lookup
restart-Kept retention s = of_recovery (Audit.recover_pending retention s.now s.now s.audit)
  where
    of_recovery :
        (x : AuditDisk × Result StoreError Unit) → Kept [] (noted_recovery (forgotten s) x)
    of_recovery (d, ok u) = record {
      bounded = λ k f h. cc;
      held = λ i c n o. cc;
      distinct = λ i j c e n p q. cc;
    }
    of_recovery (d, err e) = record {
      bounded = λ k f h. cc;
      held = λ i c n o. cc;
      distinct = λ i j c e n p q. cc;
    }

-- The flights are those of before.
same-Kept :
    (calls : List Call) (s t : Resets)
    → t.flights ≡ s.flights
    → t.next_flight ≡ s.next_flight
    → Kept calls s
    → Kept calls t
same-Kept calls s t e f kept = record {
  bounded = λ k g h. rw f (kept.bounded k g (rw (sym e) h));
  held = λ i c n o. rw e (kept.held i c n o);
  distinct = kept.distinct;
}

module _ (retention : ℕ) where
  step_of-Kept :
      (i : ℕ) (a : Answers) (m : Machine) (c : Option Call)
      → get_elem? m.calls i ≡ c
      → Kept m.calls m.shared
      → let m' = step_of retention i a c m in Kept m'.calls m'.shared
  step_of-Kept i a m none here kept = kept
  step_of-Kept i a m (some c) here kept =
      move-Kept m.calls i c m.shared (move retention a c c.phase m.shared) here kept
        (move-Change retention c m.shared a c.phase)

  pub step-Kept :
      (e : Event) (m : Machine)
      → Kept m.calls m.shared
      → let m' = step retention e m in Kept m'.calls m'.shared
  step-Kept (Event.arrives account_key key) m kept =
      arrived-Kept m.calls (arrive account_key key m.shared) m.shared
        (arrive-owner account_key key m.shared) kept
  step-Kept (Event.steps i a) m kept = step_of-Kept i a m (get_elem? m.calls i) refl kept
  step-Kept (Event.occupies key) m kept = same-Kept m.calls m.shared _ refl refl kept
  step-Kept (Event.leaves key) m kept = same-Kept m.calls m.shared _ refl refl kept
  step-Kept (Event.passes now) m kept = same-Kept m.calls m.shared _ refl refl kept
  step-Kept Event.stops m kept = same-Kept m.calls m.shared _ refl refl kept
  step-Kept Event.restarts m kept = restart-Kept retention m.shared

  -- Whatever events take place, each call that owns a flight finds it under its key.
  pub run-Kept :
      (es : List Event) (m : Machine)
      → Kept m.calls m.shared
      → let m' = run retention es m in Kept m'.calls m'.shared
  unfolding run
  run-Kept [] m kept = kept
  run-Kept (e ∷ es) m kept = run-Kept es (step retention e m) (step-Kept e m kept)

-- A process that has just started.
pub start-Kept : (s : Resets) → s.flights ≡ [] → Kept [] s
unfolding lookup
start-Kept s e = record {
  bounded = λ k f h. cc (h, ap (lookup k) e);
  held = λ i c n o. cc;
  distinct = λ i j c d n p q. cc;
}
