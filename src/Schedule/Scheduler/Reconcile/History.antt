-- ===== src/Schedule/Scheduler/Reconcile/History.antt =====
-- A reconciliation rewrites no history.
use codex_window_reset.Base.{
  String, false, List, [], ◌∷◌, Option, none, some, ◌≡◌, ◌≢◌, inl, inr, arith, Bool-cases,
  Option-cases, ◌∙◌, subst, sym,
}
use codex_window_reset.Base.Assoc.{Assoc, lookup, delete, lookup-insert, lookup-map_entries}
use codex_window_reset.Base.Text.{str_eq, eq_iff, is_empty}
use codex_window_reset.Domain.Clock.{Time}
use codex_window_reset.Domain.Operation.{PlannedOccurrence, OccurrenceState, RuntimeState}
use codex_window_reset.Schedule.Scheduler.{is_planned, compensation_pending, ensure_maps}
use codex_window_reset.Schedule.Scheduler.Reconcile.{
  Progress, normalize_plan, place, new_state, put_placed, plan_entry, plan_step, plan_all,
  release_entry, release_undesired, drop_ownerless, reconcile_state, disable_entry, disable_state,
}

-- Neither planned nor waiting for a compensation: running, or ended for good.
abbrev pub IsSettled : OccurrenceState → Type 0
IsSettled o = (is_planned o.status ≡ false) × (compensation_pending o ≡ false)

abbrev pub Has : String → OccurrenceState → RuntimeState → Type 0
Has id o s = lookup id s.occurrences ≡ some o

put_placed-Has :
    (id k : String) (o x : OccurrenceState) (runs : Assoc Time) (s : RuntimeState)
    → str_eq id k ≡ false
    → Has k o s
    → Has k o (put_placed id x runs s)
put_placed-Has id k o x runs s n h = lookup-insert id k x s.occurrences ∙ rw n h

-- An entry that differs from the one that its id has is another id's.
other_id :
    (id k : String) (o : OccurrenceState) (x : Option OccurrenceState) (s : RuntimeState)
    → lookup id s.occurrences ≡ x
    → x ≢ some o
    → Has k o s
    → str_eq id k ≡ false
other_id id k o x s e d h = elim (Bool-cases (str_eq id k)) [
  | inr n ↦ n
  | inl t ↦
      absurd (d (sym e ∙ subst (λ j. lookup j s.occurrences ≡ some o) (sym ((eq_iff id k).0 t)) h))
]

plan_entry-Has :
    (now : Time) (p : PlannedOccurrence) (k : String) (o : OccurrenceState) (s : RuntimeState)
    → is_planned o.status ≡ false
    → Has k o s
    → Has k o (plan_entry now p (lookup p.id s.occurrences) s)
plan_entry-Has now p k o s w h = elim (Option-cases (lookup p.id s.occurrences)) [
  | inl e ↦ rw e (
      put_placed-Has p.id k o (place now (new_state p)) s.next_runs s
        (other_id p.id k o none s e (λ x. cc) h) h)
  | inr (q, e) ↦ elim (Bool-cases (is_planned q.status)) [
    | inl t ↦
        rw (e, t)
          (put_placed-Has p.id k o (place now (record q { occurrence = p }))
            (delete p.id s.next_runs) s (other_id p.id k o (some q) s e (λ x. ground (arith, x)) h)
            h)
    | inr f ↦ elim (Bool-cases (compensation_pending q)) [
      | inl c ↦ rw (e, f, c) h
      | inr c ↦ rw (e, f, c) h
    ]
  ]
]

plan_step-Has :
    (now : Time) (p : PlannedOccurrence) (k : String) (o : OccurrenceState) (g : Progress)
    → is_planned o.status ≡ false
    → Has k o g.state
    → Has k o (plan_step now p g).state
unfolding plan_step
plan_step-Has now p k o g w h =
    let q = normalize_plan p in
    elim (Bool-cases (is_empty q.id)) [
      | inl e ↦ rw e h
      | inr n ↦ rw n (plan_entry-Has now q k o g.state w h)
    ]

pub plan_all-Has :
    (now : Time) (ps : List PlannedOccurrence) (k : String) (o : OccurrenceState) (g : Progress)
    → is_planned o.status ≡ false
    → Has k o g.state
    → Has k o (plan_all now ps g).state
unfolding plan_all
plan_all-Has now [] k o g w h = h
plan_all-Has now (p ∷ ps) k o g w h =
    plan_all-Has now ps k o (plan_step now p g) w (plan_step-Has now p k o g w h)

released-Has :
    (desired : List String) (k : String) (o : OccurrenceState) (s : RuntimeState)
    → IsSettled o
    → Has k o s
    → Has k o (drop_ownerless (release_undesired desired s))
unfolding drop_ownerless release_undesired
released-Has desired k o s w h =
    rw (lookup-map_entries (release_entry desired) k s.occurrences, h) (ground arith)

-- A reconciliation, enabled or disabled, leaves every occurrence that is running or has ended for
-- good exactly as it was: it is never planned again, and its outcome is never rewritten.
pub reconcile_keeps_settled :
    (now : Time) (plans : List PlannedOccurrence) (s : RuntimeState) (id : String)
    (o : OccurrenceState)
    → IsSettled o
    → lookup id s.occurrences ≡ some o
    → (lookup id (reconcile_state now plans s).occurrences ≡ some o)
      × (lookup id (disable_state s).occurrences ≡ some o)
unfolding reconcile_state disable_state
reconcile_keeps_settled now plans s id o w h =
    let start : Progress = record { state = ensure_maps s; desired = [] } in
    (
      released-Has (plan_all now plans start).desired id o (plan_all now plans start).state w
          (plan_all-Has now plans id o start w.0 h),
      rw (lookup-map_entries disable_entry id s.occurrences, h) (ground arith),
    )
