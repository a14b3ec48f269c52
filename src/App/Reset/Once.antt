-- ===== src/App/Reset/Once.antt =====
-- Runs of the machine of resets: how often the upstream consumes with a key, and the audits left.
use codex_window_reset.Base.{
  ℕ, ◌+◌, ◌-◌, ◌≤◌, ◌<◌, String, true, false, not, List, [], ◌∷◌, Option, none, some, ◌≡◌, refl,
  ◌⊎◌, inr, arith, All, All-append, any, get_elem?, ◌==◌, subst, sym,
}
use codex_window_reset.Base.Assoc.{lookup}
use codex_window_reset.Base.Text.{is_empty, str_eq}
use codex_window_reset.Domain.Clock.{Time}
use codex_window_reset.Domain.Outcome.{ErrorCode, Result, ok, err}
use codex_window_reset.Domain.Operation.{ResetAudit}
use codex_window_reset.Store.Disk.{StoreError}
use codex_window_reset.Store.Audit
use codex_window_reset.Store.Audit.{AuditDisk, same_key, stored}
use codex_window_reset.Store.Audit.Keys.{OnDisk}
use codex_window_reset.App.Runtime.{normalize_key}
use codex_window_reset.App.Reset.{Phase, Call, Flight, Resets, Answers, Moved, arrive, flight_or}
use codex_window_reset.App.Reset.Uuid.{canonical_uuid}
use codex_window_reset.App.Reset.Steps.{move}
use codex_window_reset.App.Reset.Machine.{
  Event, Machine, noted_recovery, forgotten, restart, moved, step_of, step, run,
}
use codex_window_reset.App.Reset.Evidence.{Young, Level, Level-lower}
use codex_window_reset.App.Reset.Writes.{recover-kept}
use codex_window_reset.App.Reset.Sound.{credit, used, Holding, Sound, Quiet, Quiet-if}
use codex_window_reset.App.Reset.Moves.{move-Good}
use codex_window_reset.App.Reset.Credits.{
  credits, credits-append, others, HeldBy, credits-get, credits-set, held-get, held-set,
}

module _ (k : String) (start : Time) where
  -- A call that arrives has no permission.
  arrive-Quiet :
      (account_key key : String) (s : Resets)
      → Quiet k start 0 (arrive account_key key s).key 0 (arrive account_key key s).phase
  unfolding arrive credit Holding
  arrive-Quiet account_key key s =
      Quiet-if k start 0 key 0 (not (canonical_uuid key)) _ _ (refl, tt)
        (Quiet-if k start 0 key 0 (is_empty (normalize_key account_key)) _ _ (refl, tt)
          (of_flight (lookup key s.flights)))
    where
      of_flight :
          (f : Option Flight)
          → Quiet k start 0 key 0 (
              flight_or
                (record {
                  account_key = normalize_key account_key;
                  key = key;
                  phase = Phase.looking;
                })
                Phase.looking
                f)
      of_flight none = (refl, tt)
      of_flight (some f) =
          Quiet-if k start 0 key 0 (str_eq f.account_key (normalize_key account_key)) _ _ (refl, tt)
            (refl, tt)

  module _ (retention : ℕ) where
    -- The instants that the machine reaches lie within the retention of `start`.
    abbrev pub Timely : Event → Type 0
    Timely (Event.passes now) = (start ≤ now) × ((retention ≡ 0) ⊎ (now ≤ start + retention))
    Timely _ = Unit

    abbrev permissions : Machine → ℕ
    permissions m = credits k m.calls + used k m.shared.consumed

    record Invariant (m : Machine) : Type 0 where
      one : permissions m ≤ 1
      evidence : OnDisk (Level k start (permissions m)) m.shared.audit
      holding : All (HeldBy k start) m.calls
      later : start ≤ m.shared.now
      recent : (retention ≡ 0) ⊎ (m.shared.now ≤ start + retention)

    not_expired :
        (now : Time)
        → (retention ≡ 0) ⊎ (now ≤ start + retention)
        → (retention == 0) ≡ false
        → now - retention ≤ start
    not_expired now h e = ground (arith, h)

    moved-Invariant :
        (i : ℕ) (c : Call) (m : Machine) (x : Moved)
        → get_elem? m.calls i ≡ some c
        → Invariant m
        → Sound k start (others k i m.calls) c.key m.shared.now x
        → Invariant (moved retention i c m.calls x)
    moved-Invariant i c m (ph, s) e v g =
        let total = credits-set k start i m.calls c (record c { phase = ph }) e in
        record {
          one = omega (arith, total, g.one);
          evidence = λ rs h. Level-lower k start _ _ rs (omega (arith, total)) (g.evidence rs h);
          holding = held-set k start i m.calls (record c { phase = ph }) g.holding v.holding;
          later = omega (arith, g.same_now, v.later);
          recent = subst (λ n. (retention ≡ 0) ⊎ (n ≤ start + retention)) (sym g.same_now) v.recent;
        }

    -- A call is sound in a machine that keeps the invariant.
    call-Sound :
        (i : ℕ) (c : Call) (m : Machine)
        → get_elem? m.calls i ≡ some c
        → Invariant m
        → Sound k start (others k i m.calls) c.key m.shared.now (c.phase, m.shared)
    call-Sound i c m e v =
        let total = credits-get k start i m.calls c e in
        record {
          one = omega (arith, total, v.one);
          evidence = λ rs h. Level-lower k start _ _ rs (omega (arith, total)) (v.evidence rs h);
          holding = held-get k start i m.calls c e v.holding;
          same_now = refl;
        }

    step_of-Invariant :
        (i : ℕ) (a : Answers) (m : Machine) (c : Option Call)
        → get_elem? m.calls i ≡ c
        → Invariant m
        → Invariant (step_of retention i a c m)
    step_of-Invariant i a m none e v = v
    step_of-Invariant i a m (some c) e v =
        moved-Invariant i c m (move retention a c c.phase m.shared) e v (
          move-Good k start retention (others k i m.calls) c m.shared v.later
            (not_expired m.shared.now v.recent) a c.phase (call-Sound i c m e v))

    restart-Invariant :
        (s : Resets) (x : AuditDisk × Result StoreError Unit)
        → used k s.consumed ≤ 1
        → OnDisk (Level k start (used k s.consumed)) x.0
        → start ≤ s.now
        → (retention ≡ 0) ⊎ (s.now ≤ start + retention)
        → Invariant (record { calls = []; shared = noted_recovery s x })
    unfolding credits
    restart-Invariant s (d, ok u) one h l r = record {
      one = omega (arith, one);
      evidence = λ rs g. Level-lower k start _ _ rs (omega arith) (h rs g);
      holding = tt;
      later = l;
      recent = r;
    }
    restart-Invariant s (d, err e) one h l r = record {
      one = omega (arith, one);
      evidence = λ rs g. Level-lower k start _ _ rs (omega arith) (h rs g);
      holding = tt;
      later = l;
      recent = r;
    }

    step-Invariant :
        (e : Event) (m : Machine) → Timely e → Invariant m → Invariant (step retention e m)
    unfolding restart credits
    step-Invariant (Event.arrives account_key key) m t v =
        let c = arrive account_key key m.shared in
        let q = arrive-Quiet account_key key m.shared in
        let sum = credits-append k m.calls (c ∷ []) in
        record {
          one = omega (arith, sum, q.0, v.one);
          evidence = λ rs h. Level-lower k start _ _ rs (omega (arith, sum, q.0)) (v.evidence rs h);
          holding = All-append (HeldBy k start) m.calls (c ∷ []) v.holding (q.1, tt);
          later = v.later;
          recent = v.recent;
        }
    step-Invariant (Event.steps i a) m t v = step_of-Invariant i a m (get_elem? m.calls i) refl v
    step-Invariant (Event.occupies key) m t v = record {
      one = v.one;
      evidence = v.evidence;
      holding = v.holding;
      later = v.later;
      recent = v.recent;
    }
    step-Invariant (Event.leaves key) m t v = record {
      one = v.one;
      evidence = v.evidence;
      holding = v.holding;
      later = v.later;
      recent = v.recent;
    }
    step-Invariant (Event.passes now) m t v = record {
      one = v.one;
      evidence = v.evidence;
      holding = v.holding;
      later = t.0;
      recent = t.1;
    }
    step-Invariant Event.stops m t v = record {
      one = v.one;
      evidence = v.evidence;
      holding = v.holding;
      later = v.later;
      recent = v.recent;
    }
    step-Invariant Event.restarts m t v =
        let n = used k m.shared.consumed in
        let less : n ≤ permissions m = omega arith in
        let kept : OnDisk (Level k start n) m.shared.audit =
          λ rs h. Level-lower k start n (permissions m) rs less (v.evidence rs h) in
        restart-Invariant (forgotten m.shared)
          (Audit.recover_pending retention m.shared.now m.shared.now m.shared.audit)
          (omega (arith, v.one))
          (recover-kept k start retention m.shared.now (not_expired m.shared.now v.recent) n
            m.shared.audit kept)
          v.later v.recent

    run-Invariant :
        (es : List Event) (m : Machine)
        → All Timely es
        → Invariant m
        → Invariant (run retention es m)
    unfolding run
    run-Invariant [] m t v = v
    run-Invariant (e ∷ es) m t v =
        run-Invariant es (step retention e m) t.1 (step-Invariant e m t.0 v)

-- A process that has just started over the audits of a disk.
abbrev pub machine_of : AuditDisk → Time → Machine
machine_of d now = record {
  calls = [];
  shared = record {
    audit = d;
    flights = [];
    ended = [];
    next_flight = 0;
    busy = [];
    stopped = false;
    store_error = ErrorCode.unset;
    now = now;
    consumed = [];
  };
}

module _ (k : String) (start : Time) (retention : ℕ) (d : AuditDisk)
    (young : OnDisk (Young k start) d) (events : List Event)
    (timely : All (Timely k start retention) events) where
  abbrev end : Machine
  end = run retention events (machine_of d start)

  ended : Invariant k start retention end
  unfolding credits used
  ended = run-Invariant k start retention events (machine_of d start) timely (record {
    one = omega arith;
    evidence =
        λ rs e. Level-lower k start (credits k [] + used k []) 0 rs (omega arith) (young rs e);
    holding = tt;
    later = omega arith;
    recent = inr (omega arith);
  })

  -- However calls of ResetQuota interleave with each other, with other users of the accounts, a stop and
  -- restarts of the process, whichever accesses to the audit repository fail, and whatever the accounts,
  -- the quota endpoint and the consume call answer: the upstream is asked to consume at most once
  -- with an idempotency key. At the start no stored audit of the key is older than the start, the
  -- clock stays within the retention of the start, and the audit is not cleared.
  pub consumed_once : used k end.shared.consumed ≤ 1
  consumed_once = omega (arith, ended.one)

  -- Under the same conditions a consumption is never without evidence: once the upstream was asked
  -- to consume with a key, whenever the stored audits can be read, one of them has the key.
  pub consumed_has_audit :
      (rs : List ResetAudit)
      → 0 < used k end.shared.consumed
      → stored end.shared.audit ≡ ok rs
      → any (same_key k) rs ≡ true
  consumed_has_audit rs h e =
      (Level-lower k start 1 _ rs (omega (arith, h)) (ended.evidence rs e)).1
