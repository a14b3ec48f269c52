-- ===== src/Quota/Service/Kept.antt =====
-- An evaluation of the quota service, and the properties of the runtime state beside the holds.
use codex_window_reset.Base.{
  ℕ, String, not, ◌&&◌, Option, none, some, is_none, inl, inr, Option-cases, if◌then◌else◌, Bool,
  true, false,
}
use codex_window_reset.Base.Assoc.{Assoc, lookup}
use codex_window_reset.Base.Text.{is_empty, trim_space}
use codex_window_reset.Domain.Clock.{Time}
use codex_window_reset.Domain.Outcome.{Result, ok, err}
use codex_window_reset.Domain.Snapshot.{SnapshotView, GuardrailHold}
use codex_window_reset.Domain.Operation.{RuntimeState}
use codex_window_reset.Domain.Config.{Config}
use codex_window_reset.Store.Disk.{StoreError}
use codex_window_reset.Store.Runtime.{
  load, OnDisk, update-OnDisk, load-cases, normalize_runtime_state,
}
use codex_window_reset.Quota.Windows.{any_long_at_or_below, all_long_above, has_long_window}
use codex_window_reset.Quota.Service.{
  StateDisk, Entry, load_hold, hold_in, move_hold, transition_hold, establish, release, is_fresh,
  get, evaluate, evaluate_view, decide_with, unknown_or_hold,
}

-- A property of the runtime state that does not depend on its holds, nor on its schema version.
abbrev pub IgnoresHolds : (RuntimeState → Type 0) → Type 0
IgnoresHolds P =
    (s : RuntimeState) (version : ℕ) (holds : Assoc GuardrailHold)
    → P s
    → P (record s { schema_version = version; guardrail_holds = holds })

pub load-OnDisk : (P : RuntimeState → Type 0) (d : StateDisk) → OnDisk P d → OnDisk P (load d).0
load-OnDisk P d h = let (fs, c) = load-cases d in elim c [ inl e ↦ rw e h | inr e ↦ rw e h ]

module _ (P : RuntimeState → Type 0) (ignores : IgnoresHolds P) where
  establish-keeps :
      (key : String) (h : GuardrailHold) (s : RuntimeState)
      → P s
      → P (normalize_runtime_state (establish key h s).0)
  unfolding establish
  establish-keeps key h s p = elim (Option-cases (lookup key s.guardrail_holds)) [
    | inl e ↦ rw (e, establish) (ignores s _ _ p)
    | inr (g, e) ↦ rw (e, establish) (ignores s _ _ p)
  ]

  release-keeps :
      (key : String) (s : RuntimeState) → P s → P (normalize_runtime_state (release key s).0)
  unfolding release
  release-keeps key s p = ignores s _ _ p

  if-OnDisk :
      {A : Type 0} (b : Bool) (x y : StateDisk × A)
      → OnDisk P x.0
      → OnDisk P y.0
      → OnDisk P (if b then x else y).0
  if-OnDisk true x y hx hy = hx
  if-OnDisk false x y hx hy = hy

  moved-OnDisk :
      (view : SnapshotView) (cfg : Config) (key : String) (now : Time)
      (r : StateDisk × Result StoreError (Option GuardrailHold))
      → OnDisk P r.0
      → OnDisk P (move_hold view cfg key now r).0
  moved-OnDisk view cfg key now (d, err e) h = h
  moved-OnDisk view cfg key now (d, ok hold) h =
      if-OnDisk (not (is_fresh view)) (d, ok hold) _ h
        (if-OnDisk
          (any_long_at_or_below view.snapshot cfg.long_window_floor_percent && is_none hold) _ _
          (update-OnDisk P (establish key _) d h (λ s e p. establish-keeps key _ s p))
          (if-OnDisk
            (not (is_none hold)
              && has_long_window view.snapshot.windows
              && all_long_above view.snapshot cfg.long_window_floor_percent)
            _ (d, ok hold) (update-OnDisk P (release key) d h (λ s e p. release-keeps key s p)) h))

  held-OnDisk :
      (key : String) (r : StateDisk × Result StoreError RuntimeState)
      → OnDisk P r.0
      → OnDisk P (hold_in key r).0
  held-OnDisk key (d, ok s) h = h
  held-OnDisk key (d, err e) h = h

  load_hold-OnDisk : (key : String) (d : StateDisk) → OnDisk P d → OnDisk P (load_hold key d).0
  unfolding load_hold
  load_hold-OnDisk key d h =
      if-OnDisk (is_empty key) (d, ok none) (hold_in key (load d)) h
        (held-OnDisk key (load d) (load-OnDisk P d h))

  decided-OnDisk :
      (view : SnapshotView) (cfg : Config) (now : Time)
      (r : StateDisk × Result StoreError (Option GuardrailHold))
      → OnDisk P r.0
      → OnDisk P (decide_with view cfg now r).0
  decided-OnDisk view cfg now (d, ok hold) h = h
  decided-OnDisk view cfg now (d, err e) h = h

  unknown-OnDisk :
      (r : StateDisk × Result StoreError (Option GuardrailHold))
      → OnDisk P r.0
      → OnDisk P (unknown_or_hold r).0
  unknown-OnDisk (d, ok none) h = h
  unknown-OnDisk (d, ok (some hold)) h = h
  unknown-OnDisk (d, err e) h = h

  viewed-OnDisk :
      (v : Option SnapshotView) (cfg : Config) (key : String) (now : Time) (d : StateDisk)
      → OnDisk P d
      → OnDisk P (evaluate_view v cfg key now d).0
  unfolding transition_hold
  viewed-OnDisk none cfg key now d h = unknown-OnDisk (load_hold key d) (load_hold-OnDisk key d h)
  viewed-OnDisk (some view) cfg key now d h =
      decided-OnDisk view cfg now (move_hold view cfg key now (load_hold key d))
        (moved-OnDisk view cfg key now (load_hold key d) (load_hold-OnDisk key d h))

  -- An evaluation keeps on disk what does not depend on the holds, whichever faults it meets.
  pub evaluate-OnDisk :
      (entries : Assoc Entry) (cfg : Config) (key : String) (now : Time) (d : StateDisk)
      → OnDisk P d
      → OnDisk P (evaluate entries cfg key now d).0
  unfolding evaluate
  evaluate-OnDisk entries cfg key now d h =
      viewed-OnDisk (get entries key now) cfg (trim_space key) now d h
