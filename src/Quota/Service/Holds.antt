-- ===== src/Quota/Service/Holds.antt =====
-- When a guardrail hold is established, kept and cleared.
use codex_window_reset.Base.{
  String, true, false, not, ◌&&◌, List, Option, none, some, is_none, ◌≡◌, refl, ◌⊎◌, inl, inr,
  arith, Bool-cases, Option-cases,
}
use codex_window_reset.Base.Assoc.{Assoc, lookup, lookup-insert, lookup-delete}
use codex_window_reset.Base.Text.{is_empty, trim_space, str_eq}
use codex_window_reset.Domain.Clock.{Time}
use codex_window_reset.Domain.Outcome.{QuotaDecision, Result, ok, err}
use codex_window_reset.Domain.Snapshot.{SnapshotView, GuardrailHold}
use codex_window_reset.Domain.Operation.{RuntimeState}
use codex_window_reset.Domain.Config.{Config}
use codex_window_reset.Store.Disk.{StoreError, Fault}
use codex_window_reset.Store.Runtime.{
  stored, OnDisk, update-OnDisk, load-cases, normalize_runtime_state,
}
use codex_window_reset.Quota.Windows.{any_long_at_or_below, all_long_above, has_long_window}
use codex_window_reset.Quota.Decide.{decide}
use codex_window_reset.Quota.Decide.Floors.{decide_guardrail}
use codex_window_reset.Quota.Service.{
  StateDisk, Entry, load_hold, hold_in, move_hold, transition_hold, establish, release, is_fresh,
  get, evaluate, evaluate_view, decide_with, unknown_or_hold,
}

abbrev pub Holds : String → RuntimeState → Type 0
Holds key s = is_none (lookup key s.guardrail_holds) ≡ false

establish-Holds :
    (key k : String) (h : GuardrailHold) (s : RuntimeState)
    → Holds k s
    → Holds k (normalize_runtime_state (establish key h s).0)
unfolding establish
establish-Holds key k h s p = ground (arith, lookup-insert key k h s.guardrail_holds)

release-Holds :
    (key k : String) (s : RuntimeState)
    → str_eq key k ≡ false
    → Holds k s
    → Holds k (normalize_runtime_state (release key s).0)
unfolding release
release-Holds key k s n p = ground (arith, lookup-delete key k s.guardrail_holds)

-- A fresh snapshot with a long window, and none at or below its floor.
abbrev pub Recovered : SnapshotView → Config → Type 0
Recovered view cfg =
    (is_fresh view ≡ true)
    × (has_long_window view.snapshot.windows ≡ true)
    × (all_long_above view.snapshot cfg.long_window_floor_percent ≡ true)

moved-Holds :
    (view : SnapshotView) (cfg : Config) (key k : String) (now : Time) (d : StateDisk)
    (r : Result StoreError (Option GuardrailHold))
    → OnDisk (Holds k) d
    → (str_eq key k ≡ true → ¬ Recovered view cfg)
    → OnDisk (Holds k) (move_hold view cfg key now (d, r)).0
moved-Holds view cfg key k now d (err e) h no_release = h
moved-Holds view cfg key k now d (ok hold) h no_release = elim (Bool-cases (is_fresh view)) [
  | inr old ↦ rw old h
  | inl fresh ↦
      let low = any_long_at_or_below view.snapshot cfg.long_window_floor_percent in
      elim (Bool-cases (low && is_none hold)) [
        | inl t ↦
            rw (fresh, t)
              (update-OnDisk (Holds k) (establish key _) d h (λ s e p. establish-Holds key k _ s p))
        | inr f ↦
            elim (Bool-cases (
              not (is_none hold)
              && has_long_window view.snapshot.windows
              && all_long_above view.snapshot cfg.long_window_floor_percent)) [
                | inr g ↦ rw (fresh, f, g) h
                | inl t ↦
                    rw (fresh, f, t)
                      (update-OnDisk (Holds k) (release key) d h (λ s e p.
                        release-Holds key k s
                          (elim (Bool-cases (str_eq key k)) [
                            | inr n ↦ n
                            | inl same ↦
                                absurd (no_release same (fresh, ground arith, ground arith))
                          ])
                          p))
              ]
      ]
]

load_hold-cases :
    (key : String) (d : StateDisk)
    → is_empty key ≡ false
    → (fs : List Fault) × ((load_hold key d
          ≡ hold_in key (record { file = d.file; faults = fs }, stored d))
        ⊎ (load_hold key d ≡ (record { file = d.file; faults = fs }, err StoreError.io_error)))
unfolding load_hold
load_hold-cases key d n =
    let (fs, c) = load-cases d in (fs, elim c [ inl e ↦ inl (rw (n, e)) | inr e ↦ inr (rw (n, e)) ])

read-Holds :
    (view : SnapshotView) (cfg : Config) (key k : String) (now : Time) (d : StateDisk)
    (r : Result StoreError RuntimeState)
    → OnDisk (Holds k) d
    → (str_eq key k ≡ true → ¬ Recovered view cfg)
    → OnDisk (Holds k) (move_hold view cfg key now (hold_in key (d, r))).0
read-Holds view cfg key k now d (ok s) h no_release =
    moved-Holds view cfg key k now d (ok (lookup key s.guardrail_holds)) h no_release
read-Holds view cfg key k now d (err e) h no_release = h

-- Whatever fault the repository meets, transitionHold removes a hold that stands on disk only if it
-- is the hold of its own key and the snapshot is fresh, has a long window, and has every long
-- window above the floor; every other hold stays.
pub transition_hold-Holds :
    (view : SnapshotView) (cfg : Config) (key k : String) (now : Time) (d : StateDisk)
    → is_empty key ≡ false
    → OnDisk (Holds k) d
    → (str_eq key k ≡ true → ¬ Recovered view cfg)
    → OnDisk (Holds k) (transition_hold view cfg key now d).0
unfolding transition_hold
transition_hold-Holds view cfg key k now d n h no_release =
    let (fs, c) = load_hold-cases key d n in
    elim c [
      | inl e ↦ rw e (
          read-Holds view cfg key k now (record { file = d.file; faults = fs }) (stored d) h
            no_release)
      | inr e ↦ rw e h
    ]

-- The cached view lets no proof of recovery through: there is none, or it is not fresh.
abbrev pub Unproved : Option SnapshotView → Type 0
Unproved none = Unit
Unproved (some view) = is_fresh view ≡ false

decide_held :
    (view : SnapshotView) (hold : Option GuardrailHold) (cfg : Config) (now : Time)
    → is_fresh view ≡ false
    → is_none hold ≡ false
    → decide view hold cfg now ≡ QuotaDecision.guardrail_hold
decide_held view hold cfg now f p = (decide_guardrail view hold cfg now).1 (inl (p, ground arith))

module _ (cfg : Config) (k : String) (now : Time) (d : StateDisk) where
  unknown_blocked :
      (r : Result StoreError RuntimeState)
      → ((s : RuntimeState) → r ≡ ok s → Holds k s)
      → (unknown_or_hold (hold_in k (d, r))).1 ≡ QuotaDecision.guardrail_hold
  unknown_blocked (err e) p = refl
  unknown_blocked (ok s) p = elim (Option-cases (lookup k s.guardrail_holds)) [
    | inl e ↦ cc (e, p s refl)
    | inr (h, e) ↦ rw e
  ]

  view_blocked :
      (view : SnapshotView) (r : Result StoreError RuntimeState)
      → is_fresh view ≡ false
      → ((s : RuntimeState) → r ≡ ok s → Holds k s)
      → (decide_with view cfg now (move_hold view cfg k now (hold_in k (d, r)))).1
        ≡ QuotaDecision.guardrail_hold
  view_blocked view (err e) f p = refl
  view_blocked view (ok s) f p =
      rw f (decide_held view (lookup k s.guardrail_holds) cfg now f (p s refl))

evaluate_view_blocked :
    (v : Option SnapshotView) (cfg : Config) (k : String) (now : Time) (d : StateDisk)
    → is_empty k ≡ false
    → OnDisk (Holds k) d
    → Unproved v
    → (evaluate_view v cfg k now d).1 ≡ QuotaDecision.guardrail_hold
unfolding transition_hold
evaluate_view_blocked none cfg k now d n h u =
    let (fs, c) = load_hold-cases k d n in
    elim c [
      | inl e ↦
          rw e (unknown_blocked cfg k now (record { file = d.file; faults = fs }) (stored d) h)
      | inr e ↦ rw e refl
    ]
evaluate_view_blocked (some view) cfg k now d n h u =
    let (fs, c) = load_hold-cases k d n in
    elim c [
      | inl e ↦
          rw e (view_blocked cfg k now (record { file = d.file; faults = fs }) view (stored d) u h)
      | inr e ↦ rw e refl
    ]

-- A hold on disk blocks the account while the cache has no fresh snapshot of it, whatever fault the
-- repository meets: the decision is for the hold.
pub evaluate_blocked :
    (entries : Assoc Entry) (cfg : Config) (key : String) (now : Time) (d : StateDisk)
    → is_empty (trim_space key) ≡ false
    → OnDisk (Holds (trim_space key)) d
    → Unproved (get entries key now)
    → (evaluate entries cfg key now d).1 ≡ QuotaDecision.guardrail_hold
unfolding evaluate
evaluate_blocked entries cfg key now d n h u =
    evaluate_view_blocked (get entries key now) cfg (trim_space key) now d n h u
