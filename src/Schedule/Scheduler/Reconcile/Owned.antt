-- ===== src/Schedule/Scheduler/Reconcile/Owned.antt =====
-- After a reconciliation every run has an owner.
use mathlib.Core.Option
use codex_window_reset.Base.{
  ◌<◌, String, Bool, true, false, not, ◌||◌, List, [], ◌∷◌, Option, none, some, ◌≡◌, refl, ◌⊎◌, inl,
  inr, arith, if◌then◌else◌, Bool-cases, Option-cases, subst, ◌∙◌,
}
use codex_window_reset.Base.Assoc.{
  Assoc, lookup, insert, delete, map_entries, keep_keys, lookup-insert, lookup-delete,
  lookup-map_entries, lookup-keep_keys,
}
use codex_window_reset.Base.Text.{str_eq, eq_iff, is_empty}
use codex_window_reset.Domain.Clock.{Time}
use codex_window_reset.Domain.Operation.{
  OccurrenceStatus, PlannedOccurrence, OccurrenceState, RuntimeState,
}
use codex_window_reset.Schedule.Scheduler.{
  is_planned, compensation_pending, mark_missed, ensure_maps,
}
use codex_window_reset.Schedule.Scheduler.Reconcile.{
  Progress, normalize_plan, place, new_state, put_placed, plan_entry, plan_named, plan_step,
  plan_all, is_desired, release_entry, release_undesired, owning, drop_ownerless, reconcile_state,
  planned_entry,
}

-- An occurrence and the run of its id: a planned occurrence runs at its planned time, which is in
-- the future; a failed one with a compensation left runs when that is due; no other has a run.
abbrev pub Owned : Time → Option OccurrenceState → Option Time → Type 0
Owned now o none = Unit
Owned now none (some t) = ⊥
Owned now (some o) (some t) =
    ((o.status ≡ OccurrenceStatus.planned) × (t ≡ o.planned_at) × (now < t))
    ⊎ ((compensation_pending o ≡ true) × (t ≡ o.compensation_due_at))

-- The same, but that an occurrence of another kind may still have a run.
abbrev Tidy : Time → Option OccurrenceState → Option Time → Type 0
Tidy now o none = Unit
Tidy now none (some t) = Unit
Tidy now (some o) (some t) =
    (is_planned o.status ≡ true → (t ≡ o.planned_at) × (now < t))
    × (compensation_pending o ≡ true → t ≡ o.compensation_due_at)

abbrev TidyAt : Time → RuntimeState → String → Type 0
TidyAt now s id = Tidy now (lookup id s.occurrences) (lookup id s.next_runs)

abbrev DesiredTidy : Time → Progress → Type 0
DesiredTidy now g = (id : String) → is_desired g.desired id ≡ true → TidyAt now g.state id

place-planned :
    (now : Time) (o : OccurrenceState)
    → is_planned (place now o).status ≡ true
    → ((place now o).planned_at ≡ o.planned_at) × (now < o.planned_at)
unfolding place
place-planned now o h = ground arith

place-not_pending : (now : Time) (o : OccurrenceState) → compensation_pending (place now o) ≡ false
unfolding place
place-not_pending now o = ground arith

placed-Tidy :
    (now : Time) (o : OccurrenceState) (r : Option Time)
    → (is_planned (place now o).status ≡ true → r ≡ some (place now o).planned_at)
    → Tidy now (some (place now o)) r
placed-Tidy now o none h = tt
placed-Tidy now o (some t) h =
    ((λ p. ground (arith, h p, place-planned now o p)), (λ c. cc (c, place-not_pending now o)))

-- A conditional insertion, read at its key and at another.
inserted_if :
    (b : Bool) (id k : String) (v : Time) (runs : Assoc Time)
    → (str_eq id k ≡ true → b ≡ true → lookup k (if b then insert id v runs else runs) ≡ some v)
      × (str_eq id k ≡ false → lookup k (if b then insert id v runs else runs) ≡ lookup k runs)
inserted_if true id k v runs =
    ((λ e b. lookup-insert id k v runs ∙ rw e), (λ n. lookup-insert id k v runs ∙ rw n))
inserted_if false id k v runs = ((λ e b. cc), (λ n. refl))

-- One entry is rewritten: its own id becomes tidy, and any other stays so.
put_placed-Tidy :
    (now : Time) (id k : String) (o : OccurrenceState) (runs : Assoc Time) (s : RuntimeState)
    → (str_eq id k ≡ false → lookup k runs ≡ lookup k s.next_runs)
    → (str_eq id k ≡ true) ⊎ TidyAt now s k
    → TidyAt now (put_placed id (place now o) runs s) k
put_placed-Tidy now id k o runs s same h =
    let put = place now o in
    let runs_at = inserted_if (is_planned put.status) id k put.planned_at runs in
    elim (Bool-cases (str_eq id k)) [
      | inl e ↦
          rw (lookup-insert id k put s.occurrences, e) (placed-Tidy now o _ (λ p. runs_at.0 e p))
      | inr n ↦
          rw (lookup-insert id k put s.occurrences, n, runs_at.1 n, same n)
            (elim h [ inl e ↦ cc | inr t ↦ t ])
    ]

due-Tidy :
    (now : Time) (o : OccurrenceState) (r : Option Time)
    → is_planned o.status ≡ false
    → (compensation_pending o ≡ true → r ≡ some o.compensation_due_at)
    → Tidy now (some o) r
due-Tidy now o none n h = tt
due-Tidy now o (some t) n h = ((λ p. cc), (λ c. ground (arith, h c)))

-- An entry that is left, with its run set again if it has a compensation pending.
kept-Tidy :
    (now : Time) (id k : String) (o : OccurrenceState) (runs : Assoc Time) (s : RuntimeState)
    → lookup id s.occurrences ≡ some o
    → is_planned o.status ≡ false
    → (compensation_pending o ≡ true → lookup id runs ≡ some o.compensation_due_at)
    → (str_eq id k ≡ false → lookup k runs ≡ lookup k s.next_runs)
    → (str_eq id k ≡ true) ⊎ TidyAt now s k
    → Tidy now (lookup k s.occurrences) (lookup k runs)
kept-Tidy now id k o runs s e f due same h = elim (Bool-cases (str_eq id k)) [
  | inl t ↦
      subst (λ j. Tidy now (lookup j s.occurrences) (lookup j runs)) ((eq_iff id k).0 t)
        (rw e (due-Tidy now o (lookup id runs) f due))
  | inr n ↦ rw (same n) (elim h [ inl t ↦ cc | inr tidy ↦ tidy ])
]

plan_entry-Tidy :
    (now : Time) (p : PlannedOccurrence) (k : String) (s : RuntimeState)
    → (str_eq p.id k ≡ true) ⊎ TidyAt now s k
    → TidyAt now (plan_entry now p (lookup p.id s.occurrences) s) k
plan_entry-Tidy now p k s h = elim (Option-cases (lookup p.id s.occurrences)) [
  | inl e ↦ rw e (put_placed-Tidy now p.id k (new_state p) s.next_runs s (λ n. refl) h)
  | inr (o, e) ↦ elim (Bool-cases (is_planned o.status)) [
    | inl t ↦
        rw (e, t)
          (put_placed-Tidy now p.id k (record o { occurrence = p }) (delete p.id s.next_runs) s
            (λ n. lookup-delete p.id k s.next_runs ∙ rw n) h)
    | inr f ↦ elim (Bool-cases (compensation_pending o)) [
      | inl c ↦
          let runs = insert p.id o.compensation_due_at s.next_runs in
          let at = λ (j : String). lookup-insert p.id j o.compensation_due_at s.next_runs in
          rw (e, f, c)
            (kept-Tidy now p.id k o runs s e f (λ x. ground (arith, at p.id, eq_iff p.id p.id))
              (λ n. at k ∙ rw n) h)
      | inr c ↦ rw (e, f, c) (kept-Tidy now p.id k o s.next_runs s e f (λ x. cc) (λ n. refl) h)
    ]
  ]
]

plan_named-DesiredTidy :
    (now : Time) (p : PlannedOccurrence) (g : Progress)
    → DesiredTidy now g
    → DesiredTidy now (plan_named now p g)
plan_named-DesiredTidy now p g h = elim (Bool-cases (is_empty p.id)) [
  | inl e ↦ rw e h
  | inr n ↦ rw n (λ k d. plan_entry-Tidy now p k g.state (elim (Bool-cases (str_eq k p.id)) [
    | inl t ↦ inl (ground (arith, eq_iff k p.id, eq_iff p.id k))
    | inr f ↦ inr (h k (ground arith))
  ]))
]

plan_all-DesiredTidy :
    (now : Time) (ps : List PlannedOccurrence) (g : Progress)
    → DesiredTidy now g
    → DesiredTidy now (plan_all now ps g)
unfolding plan_all plan_step
plan_all-DesiredTidy now [] g h = h
plan_all-DesiredTidy now (p ∷ ps) g h =
    plan_all-DesiredTidy now ps (plan_step now p g)
      (plan_named-DesiredTidy now (normalize_plan p) g h)

ownerless-Tidy : (now : Time) (r : Option Time) → Tidy now none r
ownerless-Tidy now none = tt
ownerless-Tidy now (some t) = tt

planned_status : (x : OccurrenceStatus) → is_planned x ≡ true → x ≡ OccurrenceStatus.planned
planned_status OccurrenceStatus.planned h = refl
planned_status _ h = cc

-- The entries of ids outside the horizon are made tidy.
released-Tidy :
    (now : Time) (desired : List String) (k : String) (o : Option OccurrenceState) (r : Option Time)
    → (is_desired desired k ≡ true → Tidy now o r)
    → Tidy now
        (Option.map (release_entry desired k) o)
        (if is_desired desired k || not (planned_entry o) then r else none)
released-Tidy now desired k none r h = ownerless-Tidy now _
released-Tidy now desired k (some o) r h = elim (Bool-cases (is_desired desired k)) [
  | inl d ↦ rw d (h d)
  | inr u ↦ elim (Bool-cases (is_planned o.status)) [
    | inl t ↦ rw (u, t) tt
    | inr f ↦ elim (Bool-cases (compensation_pending o)) [
      | inl c ↦ rw (u, f, c) (due-Tidy now (mark_missed o "selection_removed") r refl (λ x. cc))
      | inr c ↦ rw (u, f, c) (due-Tidy now o r f (λ x. cc))
    ]
  ]
]

Tidy-Owned :
    (now : Time) (o : Option OccurrenceState) (r : Option Time)
    → Tidy now o r
    → Owned now o (if owning o then r else none)
Tidy-Owned now none r h = tt
Tidy-Owned now (some o) none h = elim (Bool-cases (owning (some o))) [
  | inl t ↦ rw t tt
  | inr f ↦ rw f tt
]
Tidy-Owned now (some o) (some t) h = elim (Bool-cases (is_planned o.status)) [
  | inl p ↦ rw p (inl (planned_status o.status p, (h.0 p).0, ground (arith, h.0 p)))
  | inr f ↦ elim (Bool-cases (compensation_pending o)) [
    | inl c ↦ rw (f, c) (inr (c, h.1 c))
    | inr n ↦ rw (f, n) tt
  ]
]

abbrev OwnedAt : Time → RuntimeState → String → Type 0
OwnedAt now s id = Owned now (lookup id s.occurrences) (lookup id s.next_runs)

finish-Owned :
    (now : Time) (g : Progress) (id : String)
    → DesiredTidy now g
    → OwnedAt now (drop_ownerless (release_undesired g.desired g.state)) id
unfolding drop_ownerless release_undesired
finish-Owned now g id h =
    let s = g.state in
    let occurrences = map_entries (release_entry g.desired) s.occurrences in
    let kept =
      λ (k : String). is_desired g.desired k || not (planned_entry (lookup k s.occurrences)) in
    rw (lookup-keep_keys (λ k. owning (lookup k occurrences)) id (keep_keys kept s.next_runs)) (
      rw (lookup-keep_keys kept id s.next_runs) (
        Tidy-Owned now (lookup id occurrences) _ (
          rw (lookup-map_entries (release_entry g.desired) id s.occurrences) (
            released-Tidy now g.desired id (lookup id s.occurrences) (lookup id s.next_runs)
              (h id)))))

-- After an enabled reconciliation, from whatever state it starts, every next run belongs to an
-- occurrence: a planned one, which runs at its planned time and that lies in the future, or a
-- failed one with its one compensation left, which runs when that is due.
pub reconcile_state-Owned :
    (now : Time) (plans : List PlannedOccurrence) (s : RuntimeState) (id : String)
    → let s' = reconcile_state now plans s in
      Owned now (lookup id s'.occurrences) (lookup id s'.next_runs)
unfolding reconcile_state
reconcile_state-Owned now plans s id =
    let start : Progress = record { state = ensure_maps s; desired = [] } in
    finish-Owned now (plan_all now plans start) id
      (plan_all-DesiredTidy now plans start (λ k d. cc))
