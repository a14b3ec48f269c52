-- ===== src/App/Reset/Owners.antt =====
-- The flights of the calls of a machine: each call that owns one finds it in the shared state.
pub mod Reached
use codex_window_reset.Base.{
  ℕ, zero, suc, ◌<◌, String, Bool, true, false, List, [], ◌∷◌, ◌++◌, Option, none, some, ◌≡◌, ◌≢◌,
  refl, ◌⊎◌, inl, inr, ◌∙◌, sym, ap, subst, arith, get_elem?, some-injective, Bool-cases,
  if◌then◌else◌,
}
use codex_window_reset.Base.Assoc.{Assoc, lookup, insert, delete, lookup-insert, lookup-delete}
use codex_window_reset.Base.Text.{str_eq, eq_iff}
use codex_window_reset.App.Reset.{Phase, Call, Flight, Resets, Answers, Moved}
use codex_window_reset.App.Reset.Flights.{owner_of, Stays, Begins, Ends, Change, move-Change}
use codex_window_reset.App.Reset.Machine.{set_call}

-- The call at place i owns flight n.
abbrev pub Owns : List Call → ℕ → Call → ℕ → Type 0
Owns calls i c n = (get_elem? calls i ≡ some c) × (owner_of c.phase ≡ some n)

pub record Kept (calls : List Call) (s : Resets) : Type 0 where
  pub bounded : (k : String) (f : Flight) → lookup k s.flights ≡ some f → f.number < s.next_flight
  pub held :
      (i : ℕ) (c : Call) (n : ℕ)
      → Owns calls i c n
      → (f : Flight) × (lookup c.key s.flights ≡ some f) × (f.number ≡ n)
  pub distinct : (i j : ℕ) (c d : Call) (n : ℕ) → Owns calls i c n → Owns calls j d n → i ≡ j

-- After a call moved, the call at a place is the moved one, or what was there.
set-cases :
    (i j : ℕ) (d e : Call) (calls : List Call)
    → get_elem? (set_call i d calls) j ≡ some e
    → ((j ≡ i) × (e ≡ d)) ⊎ ((j ≢ i) × (get_elem? calls j ≡ some e))
set-cases i j d e [] h = cc
set-cases zero zero d e (x ∷ xs) h = inl (refl, sym (some-injective h))
set-cases zero (suc j) d e (x ∷ xs) h = inr ((λ q. omega (arith, q)), h)
set-cases (suc i) zero d e (x ∷ xs) h = inr ((λ q. omega (arith, q)), h)
set-cases (suc i) (suc j) d e (x ∷ xs) h = elim (set-cases i j d e xs h) [
  | inl q ↦ inl (ap suc q.0, q.1)
  | inr q ↦ inr ((λ p. q.0 (omega (arith, p))), q.1)
]

module _ (calls : List Call) (i : ℕ) (c : Call) (s : Resets) (x : Moved)
    (here : get_elem? calls i ≡ some c) (kept : Kept calls s) where
  abbrev moved_call : Call
  moved_call = record c { phase = x.0 }

  abbrev after_calls : List Call
  after_calls = set_call i moved_call calls

  -- An owner after the step owned the same flight before it.
  abbrev Before : ℕ → Call → ℕ → Type 0
  Before j e n = (d : Call) × Owns calls j d n × (d.key ≡ e.key)

  Stays-Before :
      (j : ℕ) (e : Call) (n : ℕ)
      → Stays c s (owner_of c.phase) x
      → Owns after_calls j e n
      → Before j e n
  Stays-Before j e n st (at, own) = elim (set-cases i j moved_call e calls at) [
    | inr q ↦ (e, (q.1, own), refl)
    | inl q ↦ elim st.owned [
      | inl none' ↦ absurd (cc (own, q.1, none'))
      | inr old ↦ (c, (rw (q.0) here, cc (own, q.1, old)), cc (q.1))
    ]
  ]

  Stays-Kept : Stays c s (owner_of c.phase) x → Kept after_calls x.1
  Stays-Kept st = record {
    bounded = λ k f h. rw (st.next_flight) (kept.bounded k f (sym (ap (lookup k) st.flights) ∙ h));
    held = λ j e n o.
        let (d, own, k) = Stays-Before j e n st o in
        let (f, h, m) = kept.held j d n own in
        (f, ap (lookup e.key) st.flights ∙ subst (λ y. lookup y s.flights ≡ some f) k h, m);
    distinct = λ j k e g n p q.
        let (d, o, _) = Stays-Before j e n st p in
        let (b, r, _) = Stays-Before k g n st q in kept.distinct j k d b n o r;
  }

  -- An owner after the call began a flight is the call, or owned the same flight before.
  Begins-cases :
      (j : ℕ) (e : Call) (n : ℕ)
      → Begins c s x
      → Owns after_calls j e n
      → ((j ≡ i) × (e.key ≡ c.key) × (n ≡ s.next_flight)) ⊎ Owns calls j e n
  Begins-cases j e n b (at, own) = elim (set-cases i j moved_call e calls at) [
    | inr q ↦ inr (q.1, own)
    | inl q ↦ inl (q.0, cc (q.1), cc (own, q.1, b.owned))
  ]

  abbrev begun : Flight
  begun = record { number = s.next_flight; account_key = c.account_key }

  Begins-Kept : Begins c s x → Kept after_calls x.1
  Begins-Kept b = record {
    bounded = λ k f h.
        of_bound k f (str_eq c.key k)
          (sym (lookup-insert c.key k begun s.flights) ∙ sym (ap (lookup k) b.flights) ∙ h);
    held = λ j e n o. elim (Begins-cases j e n b o) [
      | inl q ↦ (begun, found e.key q.1, sym (q.2))
      | inr old ↦ of_held e n (kept.held j e n old)
    ];
    distinct = λ j k e g n p q. elim (Begins-cases j e n b p) [
      | inl u ↦ elim (Begins-cases k g n b q) [
        | inl v ↦ u.0 ∙ sym (v.0)
        | inr old ↦ absurd (later n k g old u.2)
      ]
      | inr old ↦ elim (Begins-cases k g n b q) [
        | inl v ↦ absurd (later n j e old v.2)
        | inr other ↦ kept.distinct j k e g n old other
      ]
    ];
  }
    where
      of_bound :
          (k : String) (f : Flight) (t : Bool)
          → (if t then some begun else lookup k s.flights) ≡ some f
          → f.number < x.1.next_flight
      of_bound k f true h =
          let e = ap (λ y. y.number) (some-injective h) in omega (arith, e, b.next_flight)
      of_bound k f false h = let l = kept.bounded k f h in omega (arith, l, b.next_flight)

      found : (k : String) → k ≡ c.key → lookup k x.1.flights ≡ some begun
      found k e =
          ap (lookup k) b.flights
          ∙ lookup-insert c.key k begun s.flights
          ∙ ap (λ t. if t then some begun else lookup k s.flights) ((eq_iff c.key k).1 (sym e))

      later : (n : ℕ) (j : ℕ) (e : Call) → Owns calls j e n → n ≡ s.next_flight → ⊥
      later n j e o q =
          let (f, h, m) = kept.held j e n o in
          let l = kept.bounded e.key f h in omega (arith, l, m, q)

      of_held :
          (e : Call) (n : ℕ)
          → (f : Flight) × (lookup e.key s.flights ≡ some f) × (f.number ≡ n)
          → (f : Flight) × (lookup e.key x.1.flights ≡ some f) × (f.number ≡ n)
      of_held e n (f, h, m) = elim (Bool-cases (str_eq c.key e.key)) [
        | inl t ↦ absurd (cc (b.vacant, h, (eq_iff c.key e.key).0 t))
        | inr t ↦ (
          f,
          ap (lookup e.key) b.flights
              ∙ lookup-insert c.key e.key begun s.flights
              ∙ ap (λ t. if t then some begun else lookup e.key s.flights) t
              ∙ h,
          m,
        )
      ]

  Ends-Kept : Ends c s (owner_of c.phase) x → Kept after_calls x.1
  Ends-Kept d = record {
    bounded = λ k f h.
        of_bound k f (str_eq c.key k)
          (sym (lookup-delete c.key k s.flights) ∙ sym (ap (lookup k) d.flights) ∙ h);
    held = λ j e n o. of_held j e n (other j e n o);
    distinct = λ j k e g n p q. kept.distinct j k e g n (other j e n p).1 (other k g n q).1;
  }
    where
      of_bound :
          (k : String) (f : Flight) (t : Bool)
          → (if t then none else lookup k s.flights) ≡ some f
          → f.number < x.1.next_flight
      of_bound k f true h = cc
      of_bound k f false h = let l = kept.bounded k f h in omega (arith, l, d.next_flight)

      other : (j : ℕ) (e : Call) (n : ℕ) → Owns after_calls j e n → (j ≢ i) × Owns calls j e n
      other j e n (at, own) = elim (set-cases i j moved_call e calls at) [
        | inr q ↦ (q.0, (q.1, own))
        | inl q ↦ absurd (cc (own, q.1, d.owned))
      ]

      -- Two owners of one key would own one flight.
      apart : (j : ℕ) (e : Call) (n : ℕ) → (j ≢ i) → Owns calls j e n → c.key ≢ e.key
      apart j e n ne o q =
          let (f, h, m) = kept.held j e n o in
          let (k, own) = d.number in
          let (g, h', m') = kept.held i c k (here, own) in
          let same : g ≡ f = some-injective (sym h' ∙ ap (λ y. lookup y s.flights) q ∙ h) in
          let numbers : k ≡ n = sym m' ∙ ap (λ y. y.number) same ∙ m in
          ne (kept.distinct j i e c n o (here, own ∙ ap some numbers))

      of_held :
          (j : ℕ) (e : Call) (n : ℕ)
          → (j ≢ i) × Owns calls j e n
          → (f : Flight) × (lookup e.key x.1.flights ≡ some f) × (f.number ≡ n)
      of_held j e n (ne, o) =
          let (f, h, m) = kept.held j e n o in
          elim (Bool-cases (str_eq c.key e.key)) [
            | inl t ↦ absurd (apart j e n ne o ((eq_iff c.key e.key).0 t))
            | inr t ↦ (
              f,
              ap (lookup e.key) d.flights
                  ∙ lookup-delete c.key e.key s.flights
                  ∙ ap (λ t. if t then none else lookup e.key s.flights) t
                  ∙ h,
              m,
            )
          ]

  -- The step of a call keeps the flights of all owners.
  pub move-Kept : Change c s (owner_of c.phase) x → Kept after_calls x.1
  move-Kept (inl st) = Stays-Kept st
  move-Kept (inr (inl b)) = Begins-Kept b
  move-Kept (inr (inr d)) = Ends-Kept d
