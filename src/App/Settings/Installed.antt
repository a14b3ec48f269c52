-- ===== src/App/Settings/Installed.antt =====
-- What an update of the schedule installs, in memory, on disk and in the scheduler.
use codex_window_reset.Base.{
  suc, Bool, true, false, List, Option, none, some, ◌≡◌, ◌≢◌, refl, ◌⊎◌, inl, inr, ◌==◌, ==_iff, ap,
  if◌then◌else◌, Bool-cases,
}
use codex_window_reset.Domain.Outcome.{ErrorCode, Result, ok, err}
use codex_window_reset.Domain.Config.{Config, ValidationMode}
use codex_window_reset.Domain.Validate.{Check, validate_config}
use codex_window_reset.Store.Disk.{Disk, File, StoreError, write_atomic, write_atomic-Wrote, Wrote}
use codex_window_reset.Store.Configs
use codex_window_reset.Store.Configs.{versioned}
use codex_window_reset.Schedule.Scheduler.{SchedulerError}
use codex_window_reset.Schedule.Scheduler.Callbacks.{Environment, Step}
use codex_window_reset.Schedule.Scheduler.Commands.{reconcile}
use codex_window_reset.App.Runtime.{Account, store_error_code}
use codex_window_reset.App.Settings.{
  Settings, Update, UpdateError, discovered, with_version, reconciled, installed, validated,
  update_listed, update_schedule,
}

abbrev pub prepared_config : Config → Config → Config
prepared_config draft current = record (with_version draft current) {
  revision = suc current.revision;
}

module _ (env : Environment) (accounts : Option (List Account)) (draft : Config)
    (s : Settings) where
  abbrev pub Verdict : Check → Type 0
  Verdict check =
      (listed : List Account) × (accounts ≡ some listed)
      × (validate_config env.zone_known (discovered listed) (with_version draft s.config)
            ValidationMode.persisted
          ≡ check)

  -- The reason for an error that refuses the draft, and what it leaves.
  abbrev pub Refused : UpdateError → Settings → Type 0
  Refused UpdateError.revision_conflict s' = (draft.revision ≢ s.config.revision) × (s' ≡ s)
  Refused UpdateError.accounts_not_listed s' =
      (draft.revision ≡ s.config.revision) × (accounts ≡ none) × (s' ≡ s)
  Refused (UpdateError.rejected fault) s' =
      (draft.revision ≡ s.config.revision) × Verdict (err fault) × (s' ≡ s)
  Refused (UpdateError.not_saved e) s' =
      (draft.revision ≡ s.config.revision)
      × Verdict (ok tt)
      × ((Configs.save (prepared_config draft s.config) s.disk).1 ≡ err e)
      × (s'.config ≡ s.config)
      × (s'.scheduler ≡ s.scheduler)
      × (s'.store_error ≡ store_error_code e)
      × ((s'.disk.file ≡ s.disk.file)
          ⊎ (s'.disk.file ≡ File.holds (versioned (prepared_config draft s.config))))
  Refused (UpdateError.not_reconciled e) s' = ⊥

  abbrev pub reconcile_error : Option SchedulerError → Option UpdateError
  reconcile_error none = none
  reconcile_error (some e) = some (UpdateError.not_reconciled e)

  -- The draft was installed, with the next revision.
  pub record Installed (u : Update) : Type 0 where
    pub same_revision : draft.revision ≡ s.config.revision
    pub accepted : Verdict (ok tt)
    pub returned : u.1.config ≡ some (prepared_config draft s.config)
    pub in_memory : u.0.config ≡ prepared_config draft s.config
    pub on_disk : u.0.disk.file ≡ File.holds (versioned (prepared_config draft s.config))
    pub scheduled : u.0.scheduler ≡ (reconcile env (prepared_config draft s.config) s.scheduler).0
    pub reported :
        u.1.error ≡ reconcile_error (reconcile env (prepared_config draft s.config) s.scheduler).1

  abbrev pub Outcome : Update → Type 0
  Outcome u =
      ((e : UpdateError) × (u.1 ≡ record { config = none; error = some e }) × Refused e u.0)
      ⊎ Installed u

-- A save replaced the document, or reports an error and left it or replaced it.
abbrev Saved : Config → Disk Config → Disk Config × Result StoreError Unit → Type 0
Saved c d (d', ok u) = d'.file ≡ File.holds (versioned c)
Saved c d (d', err e) = (d'.file ≡ d.file) ⊎ (d'.file ≡ File.holds (versioned c))

save-Saved : (c : Config) (d : Disk Config) → Saved c d (Configs.save c d)
unfolding Configs.save
save-Saved c d = by_test ((versioned c).schema_version == 1)
  where
    by_write : (x : Disk Config × Result StoreError Unit) → Wrote (versioned c) d x → Saved c d x
    by_write (d', ok u) (fs, inl w) = ap (λ r. r.0.file) w
    by_write (d', ok u) (fs, inr (inl w)) = cc (ap (λ r. r.1) w)
    by_write (d', ok u) (fs, inr (inr w)) = cc (ap (λ r. r.1) w)
    by_write (d', err e) (fs, inl w) = cc (ap (λ r. r.1) w)
    by_write (d', err e) (fs, inr (inl w)) = inl (ap (λ r. r.0.file) w)
    by_write (d', err e) (fs, inr (inr w)) = inr (ap (λ r. r.0.file) w)

    by_test :
        (b : Bool)
        → Saved c d
            (if b then write_atomic (versioned c) d else (d, err StoreError.unsupported_schema))
    by_test true = by_write (write_atomic (versioned c) d) (write_atomic-Wrote (versioned c) d)
    by_test false = inl refl

module _ (env : Environment) (accounts : List Account) (draft : Config)
    (code : SchedulerError → ErrorCode) (s : Settings)
    (same : draft.revision ≡ s.config.revision) where
  abbrev next : Config
  next = prepared_config draft s.config

  abbrev Done : Update → Type 0
  Done = Outcome env (some accounts) draft s

  reconciled-Outcome :
      (d : Disk Config) (step : Step)
      → Verdict env (some accounts) draft s (ok tt)
      → d.file ≡ File.holds (versioned next)
      → step ≡ reconcile env next s.scheduler
      → Done (reconciled env next code (record s { disk = d; config = next }) step)
  reconciled-Outcome d (scheduler, none) v w e = inr (record {
    same_revision = same;
    accepted = v;
    returned = refl;
    in_memory = refl;
    on_disk = w;
    scheduled = ap (λ x. x.0) e;
    reported = ap (λ x. reconcile_error env (some accounts) draft s x.1) e;
  })
  reconciled-Outcome d (scheduler, some x) v w e = inr (record {
    same_revision = same;
    accepted = v;
    returned = refl;
    in_memory = refl;
    on_disk = w;
    scheduled = ap (λ x. x.0) e;
    reported = ap (λ x. reconcile_error env (some accounts) draft s x.1) e;
  })

  installed-Outcome :
      (x : Disk Config × Result StoreError Unit)
      → Verdict env (some accounts) draft s (ok tt)
      → Configs.save next s.disk ≡ x
      → Saved next s.disk x
      → Done (installed env next code s x)
  installed-Outcome (d, err e) v es w =
      inl (UpdateError.not_saved e, refl, (same, v, ap (λ r. r.1) es, refl, refl, refl, w))
  installed-Outcome (d, ok u) v es w =
      reconciled-Outcome d (reconcile env next s.scheduler) v w refl

  validated-Outcome :
      (check : Check)
      → validate_config env.zone_known
          (discovered accounts)
          (with_version draft s.config)
          ValidationMode.persisted
        ≡ check
      → Done (validated env (with_version draft s.config) code s check)
  validated-Outcome (err fault) e =
      inl (UpdateError.rejected fault, refl, (same, (accounts, refl, e), refl))
  validated-Outcome (ok u) e =
      installed-Outcome (Configs.save next s.disk) (accounts, refl, e) refl (save-Saved next s.disk)

-- An update of the schedule refuses the draft exactly for a reason that it reports, or installs it.
-- It refuses a draft with another revision than the current one, one for which the accounts cannot be
-- listed, one that ValidateConfig rejects for the accounts that are listed, and then changes nothing;
-- and one that cannot be saved, and then memory and scheduler are as they were and the document is as
-- it was or holds the draft. Otherwise the draft with the next revision is in memory, on disk and
-- returned, and the scheduler was reconciled with it, with that error reported.
pub update_schedule-Outcome :
    (env : Environment) (accounts : Option (List Account)) (draft : Config)
    (code : SchedulerError → ErrorCode) (s : Settings)
    → Outcome env accounts draft s (update_schedule env draft accounts code s)
unfolding update_schedule
update_schedule-Outcome env accounts draft code s =
    elim (Bool-cases (draft.revision == s.config.revision)) [
      | inr other ↦
          rw other (inl (UpdateError.revision_conflict, refl, ((λ e. differs e other), refl)))
      | inl same ↦ rw same (of_listed accounts ((==_iff draft.revision s.config.revision).0 same))
    ]
  where
    differs : draft.revision ≡ s.config.revision → (draft.revision == s.config.revision) ≡ false → ⊥
    differs e n = cc ((==_iff draft.revision s.config.revision).1 e, n)

    of_listed :
        (a : Option (List Account))
        → draft.revision ≡ s.config.revision
        → Outcome env a draft s (update_listed env draft code s a)
    of_listed none same = inl (UpdateError.accounts_not_listed, refl, (same, refl, refl))
    of_listed (some listed) same =
        validated-Outcome env listed draft code s same
          (validate_config env.zone_known (discovered listed) (with_version draft s.config)
            ValidationMode.persisted)
          refl
