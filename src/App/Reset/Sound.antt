-- ===== src/App/Reset/Sound.antt =====
-- One step of one call: how many permissions to consume there are of a key, and the evidence for them.
use codex_window_reset.Base.{
  ℕ, ◌+◌, ◌≤◌, String, Bool, true, false, not, ◌||◌, List, [], ◌∷◌, Option, none, some, ◌≡◌, refl,
  arith, ap, if◌then◌else◌,
}
use codex_window_reset.Base.Assoc.{has_key}
use codex_window_reset.Base.Text.{str_eq}
use codex_window_reset.Domain.Clock.{Time}
use codex_window_reset.Domain.Outcome.{Result, ok, err, DomainError}
use codex_window_reset.Domain.Snapshot.{UsageSnapshot}
use codex_window_reset.Domain.Operation.{ResetAudit}
use codex_window_reset.Store.Disk.{StoreError}
use codex_window_reset.Store.Audit
use codex_window_reset.Store.Audit.{AuditDisk}
use codex_window_reset.Store.Audit.Keys.{OnDisk}
use codex_window_reset.App.Runtime.{Account}
use codex_window_reset.App.Reset.{Phase, Call, Flight, Reply, Resets, Moved, join}
use codex_window_reset.App.Reset.Steps.{
  looked, existing_or, recovered, find_account, start_flight, use_snapshot, has_credits,
  conflict_looked, replaced, wait_looked,
}
use codex_window_reset.App.Reset.Evidence.{is_young, Level, Level-lower}

-- A call that appended its pending record, and did not consume yet, has a permission to consume.
unfoldable pub credit : String → String → Phase → ℕ
credit k key (Phase.consuming n a) = if str_eq key k then 1 else 0
credit k key _ = 0

unfoldable pub used : String → List String → ℕ
used k [] = 0
used k (key ∷ keys) = (if str_eq key k then 1 else 0) + used k keys

-- The audits that a call keeps from one step to a later one are recent, and an audit that it is about
-- to append carries its key.
unfoldable pub Holding : String → Time → String → Phase → Type 0
Holding k start key (Phase.orphaned a) = is_young k start a ≡ true
Holding k start key (Phase.appending n a) = (is_young k start a ≡ true) × (a.idempotency_key ≡ key)
Holding k start key (Phase.consuming n a) = is_young k start a ≡ true
Holding k start key (Phase.refreshing_again n a result failure) = is_young k start a ≡ true
Holding k start key (Phase.replacing n a) = is_young k start a ≡ true
Holding k start key _ = Unit

module _ (k : String) (start : Time) (base : ℕ) (key : String) (now : Time) where
  abbrev pub total : Moved → ℕ
  total x = base + credit k key x.0 + used k x.1.consumed

  -- At most one permission was ever given, with its evidence on disk.
  pub record Sound (x : Moved) : Type 0 where
    pub one : total x ≤ 1
    pub evidence : OnDisk (Level k start (total x)) x.1.audit
    pub holding : Holding k start key x.0
    pub same_now : x.1.now ≡ now

  lower :
      (m n : ℕ) (d : AuditDisk) → m ≤ n → OnDisk (Level k start n) d → OnDisk (Level k start m) d
  lower m n d h l rs e = Level-lower k start m n rs h (l rs e)

  -- A phase without a permission.
  abbrev pub Quiet : Phase → Type 0
  Quiet ph = (credit k key ph ≡ 0) × Holding k start key ph

  pub Quiet-if : (b : Bool) (x y : Phase) → Quiet x → Quiet y → Quiet (if b then x else y)
  Quiet-if true x y hx hy = hx
  Quiet-if false x y hx hy = hy

  -- A step that gives no permission.
  pub settled :
      (ph : Phase) (s : Resets) (n : ℕ)
      → n ≤ 1
      → base + used k s.consumed ≤ n
      → OnDisk (Level k start n) s.audit
      → Quiet ph
      → s.now ≡ now
      → Sound (ph, s)
  settled ph s n one less evidence quiet e = record {
    one = omega (arith, one, less, quiet.0);
    evidence = lower (total (ph, s)) n s.audit (omega (arith, less, quiet.0)) evidence;
    holding = quiet.1;
    same_now = e;
  }

-- The steps of a call c of the key, in the state s, at an instant within the retention.
module _ (k : String) (start : Time) (retention : ℕ) (base : ℕ) (c : Call) (s : Resets) where
  abbrev pub Good : Moved → Type 0
  Good = Sound k start base c.key s.now

  abbrev pub Calm : Phase → Type 0
  Calm = Quiet k start base c.key s.now

  join-Calm : (f : Flight) → Calm (join c f)
  unfolding credit Holding
  join-Calm f =
      Quiet-if k start base c.key s.now (str_eq f.account_key c.account_key) _ _ (refl, tt)
        (refl, tt)

  existing-Calm : (a : ResetAudit) → is_young k start a ≡ true → Calm (existing_or c (some a))
  unfolding credit Holding
  existing-Calm a y =
      Quiet-if k start base c.key s.now (not (str_eq a.account_key c.account_key)) _ _ (refl, tt)
        (Quiet-if k start base c.key s.now (Audit.is_pending a.outcome) _ _ (refl, y) (refl, tt))

  pub find_account-Calm : (account : Option Account) → Calm (find_account retention c account)
  unfolding credit Holding find_account
  find_account-Calm none = (refl, tt)
  find_account-Calm (some a) =
      Quiet-if k start base c.key s.now a.disabled _ _ (refl, tt)
        (Quiet-if k start base c.key s.now a.unavailable _ _ (refl, tt) (refl, tt))

  pub use_snapshot-Calm :
      (n : ℕ) (account : Account) (id : String) (r : Result DomainError UsageSnapshot)
      → start ≤ s.now
      → Calm (use_snapshot retention n c account id s.now r)
  unfolding credit Holding use_snapshot
  use_snapshot-Calm n account id (err e) h = (refl, tt)
  use_snapshot-Calm n account id (ok snapshot) h =
      Quiet-if k start base c.key s.now (has_credits retention snapshot) _ _
        (refl, (ground arith, refl)) (refl, tt)

  module _ (m : ℕ) (one : m ≤ 1) (less : base + used k s.consumed ≤ m) where
    abbrev pub Evidenced : AuditDisk → Type 0
    Evidenced d = OnDisk (Level k start m) d

    pub stay :
        (ph : Phase) (s' : Resets)
        → s'.consumed ≡ s.consumed
        → s'.now ≡ s.now
        → Evidenced s'.audit
        → Calm ph
        → Good (ph, s')
    stay ph s' e t h q =
        settled k start base c.key s.now ph s' m one (omega (arith, less, ap (used k) e)) h q t

    pub Good-if : (b : Bool) (x y : Moved) → Good x → Good y → Good (if b then x else y)
    Good-if true x y hx hy = hx
    Good-if false x y hx hy = hy

    pub looked-Good :
        (x : AuditDisk × Result StoreError (Option ResetAudit))
        → Evidenced x.0
        → ((a : ResetAudit) → x.1 ≡ ok (some a) → is_young k start a ≡ true)
        → Good (looked retention c s x)
    unfolding credit Holding
    looked-Good (d, err e) h y = stay _ _ refl refl h (refl, tt)
    looked-Good (d, ok none) h y = stay _ _ refl refl h (refl, tt)
    looked-Good (d, ok (some a)) h y = stay _ _ refl refl h (existing-Calm a (y a refl))

    pub recovered-Good :
        (old new : ResetAudit) (x : AuditDisk × Result StoreError Unit)
        → Evidenced x.0
        → Good (recovered retention old new s x)
    unfolding credit Holding
    recovered-Good old new (d, ok u) h = stay _ _ refl refl h (refl, tt)
    recovered-Good old new (d, err e) h = stay _ _ refl refl h (refl, tt)

    pub start_flight-Good :
        (account : Account) (f : Option Flight)
        → Evidenced s.audit
        → Good (start_flight retention c account f s)
    unfolding credit Holding
    start_flight-Good account (some f) h = stay _ _ refl refl h (join-Calm f)
    start_flight-Good account none h =
        Good-if (s.stopped || has_key c.account_key s.busy) _ _ (stay _ s refl refl h (refl, tt))
          (stay _ _ refl refl h (refl, tt))

    pub conflict_looked-Good :
        (n : ℕ) (x : AuditDisk × Result StoreError (Option ResetAudit))
        → Evidenced x.0
        → Good (conflict_looked retention n c s x)
    unfolding credit Holding
    conflict_looked-Good n (d, ok e) h = stay _ _ refl refl h (refl, tt)
    conflict_looked-Good n (d, err e) h = stay _ _ refl refl h (refl, tt)

    pub replaced-Good :
        (n : ℕ) (a : ResetAudit) (x : AuditDisk × Result StoreError Unit)
        → Evidenced x.0
        → Good (replaced retention n a s x)
    unfolding credit Holding
    replaced-Good n a (d, ok u) h = stay _ _ refl refl h (refl, tt)
    replaced-Good n a (d, err e) h = stay _ _ refl refl h (refl, tt)

    pub wait_looked-Good :
        (left : Reply) (x : AuditDisk × Result StoreError (Option ResetAudit))
        → Evidenced x.0
        → Good (wait_looked retention left s x)
    unfolding credit Holding
    wait_looked-Good left (d, ok found) h = stay _ _ refl refl h (refl, tt)
    wait_looked-Good left (d, err e) h = stay _ _ refl refl h (refl, tt)
