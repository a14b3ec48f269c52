-- ===== src/Store/Audit/Keys.antt =====
-- No operation of the audit repository, under any fault, makes two records of one idempotency key.
use codex_window_reset.Base.{String, false, List, [], ◌∷◌, ◌++◌, ◌≡◌, arith, All, any}
use codex_window_reset.Base.Text.{str_eq, eq_iff}
use codex_window_reset.Domain.Clock.{Time}
use codex_window_reset.Domain.Outcome.{ok}
use codex_window_reset.Domain.Operation.{ResetAudit}
use codex_window_reset.Store.Audit.{AuditDisk, stored, replace_key, recover, same_key, unexpired}

abbrev pub Unused : String → List ResetAudit → Type 0
Unused k = All (λ r. str_eq r.idempotency_key k ≡ false)

abbrev pub UniqueKeys : List ResetAudit → Type 0
UniqueKeys [] = Unit
UniqueKeys (r ∷ rs) = Unused r.idempotency_key rs × UniqueKeys rs

-- The property holds of the records on disk, whenever they can be read.
abbrev pub OnDisk : (List ResetAudit → Type 0) → AuditDisk → Type 0
OnDisk P d = (rs : List ResetAudit) → stored d ≡ ok rs → P rs

Unused-unexpired :
    (k : String) (cutoff : Time) (rs : List ResetAudit)
    → Unused k rs
    → Unused k (unexpired cutoff rs)
unfolding unexpired
Unused-unexpired k cutoff [] u = tt
Unused-unexpired k cutoff (r ∷ rs) u = ground (arith, Unused-unexpired k cutoff rs u.1)

pub unexpired-UniqueKeys :
    (cutoff : Time) (rs : List ResetAudit) → UniqueKeys rs → UniqueKeys (unexpired cutoff rs)
unfolding unexpired
unexpired-UniqueKeys cutoff [] u = tt
unexpired-UniqueKeys cutoff (r ∷ rs) u =
    ground
      (arith, Unused-unexpired r.idempotency_key cutoff rs u.0, unexpired-UniqueKeys cutoff rs u.1)

Unused-append :
    (k : String) (a : ResetAudit) (rs : List ResetAudit)
    → Unused k rs
    → str_eq a.idempotency_key k ≡ false
    → Unused k (rs ++ a ∷ [])
Unused-append k a [] u e = (e, tt)
Unused-append k a (r ∷ rs) u e = (u.0, Unused-append k a rs u.1 e)

pub append-UniqueKeys :
    (a : ResetAudit) (rs : List ResetAudit)
    → any (same_key a.idempotency_key) rs ≡ false
    → UniqueKeys rs
    → UniqueKeys (rs ++ a ∷ [])
append-UniqueKeys a [] n u = (tt, tt)
append-UniqueKeys a (r ∷ rs) n u = (
  Unused-append r.idempotency_key a rs u.0 (
      ground (
        arith,
        eq_iff a.idempotency_key r.idempotency_key,
        eq_iff r.idempotency_key a.idempotency_key,
      )),
  append-UniqueKeys a rs (ground arith) u.1,
)

Unused-replace :
    (k : String) (a : ResetAudit) (rs : List ResetAudit) → Unused k rs → Unused k (replace_key a rs)
unfolding replace_key
Unused-replace k a [] u = tt
Unused-replace k a (r ∷ rs) u =
    ground (arith, Unused-replace k a rs u.1, eq_iff r.idempotency_key a.idempotency_key)

pub replace-UniqueKeys :
    (a : ResetAudit) (rs : List ResetAudit) → UniqueKeys rs → UniqueKeys (replace_key a rs)
unfolding replace_key
replace-UniqueKeys a [] u = tt
replace-UniqueKeys a (r ∷ rs) u = ground (
  arith,
  replace-UniqueKeys a rs u.1,
  Unused-replace r.idempotency_key a rs u.0,
  eq_iff r.idempotency_key a.idempotency_key,
)

Unused-recover :
    (k : String) (now : Time) (rs : List ResetAudit) → Unused k rs → Unused k (recover now rs)
unfolding recover
Unused-recover k now [] u = tt
Unused-recover k now (r ∷ rs) u = ground (arith, Unused-recover k now rs u.1)

pub recover-UniqueKeys :
    (now : Time) (rs : List ResetAudit) → UniqueKeys rs → UniqueKeys (recover now rs)
unfolding recover
recover-UniqueKeys now [] u = tt
recover-UniqueKeys now (r ∷ rs) u =
    ground (arith, recover-UniqueKeys now rs u.1, Unused-recover r.idempotency_key now rs u.0)
