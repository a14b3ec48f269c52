-- ===== src/Schedule/Scheduler/Callbacks/Claims.antt =====
-- The claims: an occurrence is claimed once, and its compensation once.
use codex_window_reset.Base.{
  String, Bool, true, false, not, ◌&&◌, Option, none, some, ◌≡◌, refl, ◌⊎◌, inl, inr, arith,
  if◌then◌else◌, Bool-cases, Option-cases, ◌∙◌, sym, ◌≤◌,
}
use codex_window_reset.Base.Assoc.{
  Assoc, lookup, insert, delete, has_key, lookup-insert, lookup-delete,
}
use codex_window_reset.Base.Text.{str_eq, eq_iff, trim_space}
use codex_window_reset.Domain.Clock.{Time}
use codex_window_reset.Domain.Operation.{
  OccurrenceStatus, PlannedOccurrence, OccurrenceState, RuntimeState,
}
use codex_window_reset.Domain.Config.{Config}
use codex_window_reset.Schedule.Scheduler.{
  PendingTerminal, is_planned, compensation_pending, scheduled_for_config,
}
use codex_window_reset.Schedule.Scheduler.Watch.{same_due}
use codex_window_reset.Schedule.Scheduler.Callbacks.{
  Verdict, settle, terminal_state, claimable, claim, compensable, claim_compensation,
}
use codex_window_reset.Schedule.Scheduler.Reconcile.Spent.{SpentAmong, Spent}

-- An insertion leaves what is known and not planned so, if what it inserts is not planned.
insert-Spent :
    (k id : String) (x : OccurrenceState) (m : Assoc OccurrenceState)
    → is_planned x.status ≡ false
    → SpentAmong id m
    → SpentAmong id (insert k x m)
insert-Spent k id x m n (o, h, w) = elim (Bool-cases (str_eq k id)) [
  | inl e ↦ (x, lookup-insert k id x m ∙ rw e, n)
  | inr d ↦ (o, lookup-insert k id x m ∙ rw d h, w)
]

pub terminal_state-Spent :
    (p : PendingTerminal) (k id : String) (s : RuntimeState)
    → is_planned p.status ≡ false
    → Spent id s
    → Spent id (terminal_state p k s)
unfolding terminal_state settle
terminal_state-Spent p k id s n w = elim (Option-cases (lookup k s.occurrences)) [
  | inl e ↦ rw e w
  | inr (o, e) ↦ rw e (insert-Spent k id (settle p o) s.occurrences (ground arith) w)
]

pub claim_compensation-Spent :
    (cfg : Config) (eligible : Bool) (k id : String) (s : RuntimeState)
    → Spent id s
    → Spent id (claim_compensation cfg eligible k s).0
unfolding claim_compensation
claim_compensation-Spent cfg eligible k id s w = elim (Option-cases (lookup k s.occurrences)) [
  | inl e ↦ rw e w
  | inr (o, e) ↦ elim (Bool-cases (compensable cfg o (lookup k s.next_runs))) [
    | inl t ↦ rw (e, t) (insert-Spent k id _ s.occurrences (ground arith) w)
    | inr f ↦ rw (e, f) w
  ]
]

pub claim-Spent :
    (cfg : Config) (now : Time) (k id : String) (s : RuntimeState)
    → Spent id s
    → Spent id (claim cfg now k s).0
unfolding claim
claim-Spent cfg now k id s w = elim (Option-cases (lookup k s.occurrences)) [
  | inl e ↦ rw e w
  | inr (o, e) ↦ elim (Bool-cases (claimable cfg now o (lookup k s.next_runs))) [
    | inl t ↦ rw (e, t) (insert-Spent k id _ s.occurrences refl w)
    | inr f ↦ rw (e, f) w
  ]
]

-- What a claim needs, and what it leaves.
abbrev pub Claimed :
    Config → Time → String → RuntimeState → RuntimeState × Option PlannedOccurrence → Type 0
Claimed cfg now id s (s', none) = s'.occurrences ≡ s.occurrences
Claimed cfg now id s (s', some p) =
    (o : OccurrenceState) × (lookup id s.occurrences ≡ some o)
    × (p ≡ o.occurrence)
    × (o.status ≡ OccurrenceStatus.planned)
    × (o.planned_at ≤ now)
    × (lookup id s.next_runs ≡ some o.planned_at)
    × (cfg.enabled ≡ true)
    × (scheduled_for_config cfg o.account_key ≡ true)
    × (lookup id s'.occurrences ≡ some (record o { status = OccurrenceStatus.running }))
    × (lookup id s'.next_runs ≡ none)

due_run : (r : Option Time) (t : Time) → same_due r t ≡ true → r ≡ some t
due_run none t h = cc
due_run (some u) t h = ground arith

planned_status : (x : OccurrenceStatus) → is_planned x ≡ true → x ≡ OccurrenceStatus.planned
planned_status OccurrenceStatus.planned h = refl
planned_status _ h = cc

lookup-inserted : {V : Type 0} (k : String) (v : V) (m : Assoc V) → lookup k (insert k v m) ≡ some v
lookup-inserted k v m = lookup-insert k k v m ∙ rw ((eq_iff k k).1 refl)

lookup-deleted : {V : Type 0} (k : String) (m : Assoc V) → lookup k (delete k m) ≡ none
lookup-deleted k m = lookup-delete k k m ∙ rw ((eq_iff k k).1 refl)

-- An occurrence is claimed only if it is planned, due, has its run at the planned time, and its
-- account is scheduled by an enabled configuration; it is then running and has no run. Else the
-- occurrences are as they were.
pub claim-Claimed :
    (cfg : Config) (now : Time) (id : String) (s : RuntimeState)
    → Claimed cfg now id s (claim cfg now id s)
unfolding claim
claim-Claimed cfg now id s = elim (Option-cases (lookup id s.occurrences)) [
  | inl e ↦ rw e refl
  | inr (o, e) ↦ elim (Bool-cases (claimable cfg now o (lookup id s.next_runs))) [
    | inr f ↦ rw (e, f) refl
    | inl t ↦
        rw (e, t)
          (
            o,
            e,
            refl,
            planned_status o.status (ground arith),
            ground arith,
            due_run (lookup id s.next_runs) o.planned_at (ground arith),
            ground arith,
            ground arith,
            lookup-inserted id _ s.occurrences,
            lookup-deleted id s.next_runs,
          )
  ]
]

-- The one compensation of an occurrence: a claim consumes the attempt.
abbrev pub Consumed : Config → Bool → String → RuntimeState → RuntimeState × Verdict → Type 0
Consumed cfg eligible id s (s', v) =
    ((s'.occurrences ≡ s.occurrences) × (v.claimed ≡ false) × (v.eligible ≡ eligible))
    ⊎ ((o : OccurrenceState) × (lookup id s.occurrences ≡ some o)
        × (compensation_pending o ≡ true)
        × (lookup id s.next_runs ≡ some o.compensation_due_at)
        × (v.claimed ≡ (eligible && not (has_key (trim_space o.account_key) s.guardrail_holds)))
        × (v.eligible ≡ v.claimed)
        × (lookup id s'.occurrences
            ≡ some (record o {
              status = if v.claimed then OccurrenceStatus.running else OccurrenceStatus.skipped;
              compensation_due_at = 0;
              compensation_attempted = true;
            }))
        × (lookup id s'.next_runs ≡ none))

-- The transaction of handleCompensation changes no occurrence and claims nothing; or the occurrence
-- was failed with its compensation pending and its run at the due time, and then its one attempt is
-- consumed and its run removed: it runs if it is eligible and its account has no guardrail hold, and
-- is skipped if not.
pub claim_compensation-Consumed :
    (cfg : Config) (eligible : Bool) (id : String) (s : RuntimeState)
    → Consumed cfg eligible id s (claim_compensation cfg eligible id s)
unfolding claim_compensation
claim_compensation-Consumed cfg eligible id s = elim (Option-cases (lookup id s.occurrences)) [
  | inl e ↦ rw e (inl (refl, refl, refl))
  | inr (o, e) ↦ elim (Bool-cases (compensable cfg o (lookup id s.next_runs))) [
    | inr f ↦ rw (e, f) (inl (refl, refl, refl))
    | inl t ↦
        rw (e, t)
          (inr (
            o,
            refl,
            ground arith,
            due_run (lookup id s.next_runs) o.compensation_due_at (ground arith),
            refl,
            refl,
            lookup-inserted id _ s.occurrences,
            lookup-deleted id s.next_runs,
          ))
  ]
]

-- An attempt that is consumed is not pending.
spent_attempt :
    (o : OccurrenceState) (x : OccurrenceStatus) (o' : OccurrenceState)
    → some (record o { status = x; compensation_due_at = 0; compensation_attempted = true })
      ≡ some o'
    → compensation_pending o' ≡ true
    → ⊥
spent_attempt o x o' e p = ground (arith, e, p)

-- After any claim of a compensation, a second one for the same occurrence claims nothing and changes
-- no occurrence, whatever the configuration and the verdict on eligibility.
pub claim_compensation_once :
    (cfg cfg' : Config) (eligible eligible' : Bool) (id : String) (s : RuntimeState)
    → (claim_compensation cfg eligible id s).1.claimed ≡ true
    → let s' = (claim_compensation cfg eligible id s).0 in
      let again = claim_compensation cfg' eligible' id s' in
      (again.1.claimed ≡ false) × (again.0.occurrences ≡ s'.occurrences)
claim_compensation_once cfg cfg' eligible eligible' id s h =
    let s' = (claim_compensation cfg eligible id s).0 in
    elim (claim_compensation-Consumed cfg eligible id s) [
      | inl (same, c, e) ↦ cc
      | inr (o, known, p, run, c, e, consumed, none_left) ↦
          elim (claim_compensation-Consumed cfg' eligible' id s') [
            | inl (same, c', e') ↦ (c', same)
            | inr (o', known', p', run', c'', e'', after', none') ↦
                absurd (spent_attempt o _ o' (sym consumed ∙ known') p')
          ]
    ]
