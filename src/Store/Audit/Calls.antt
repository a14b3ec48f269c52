-- ===== src/Store/Audit/Calls.antt =====
-- The audit repository over any sequence of calls and faults.
use codex_window_reset.Base.{ℕ, ◌-◌, String, false, List, [], ◌∷◌, ◌≡◌, ◌==◌}
use codex_window_reset.Domain.Clock.{Time}
use codex_window_reset.Domain.Operation.{ResetAudit}
use codex_window_reset.Store.Audit.{
  AuditDisk, load, find_by_key, append_pending, replace, delete_before, recover_pending, clear,
  unexpired,
}
use codex_window_reset.Store.Audit.Closed.{
  write-OnDisk, load-Loaded, find_by_key-OnDisk, append_pending-OnDisk, replace-OnDisk,
  delete_before-OnDisk, recover_pending-OnDisk,
}
use codex_window_reset.Store.Audit.Keys.{
  UniqueKeys, OnDisk, unexpired-UniqueKeys, append-UniqueKeys, replace-UniqueKeys,
  recover-UniqueKeys,
}

pub data AuditCall : Type 0 where
  loads : AuditCall
  finds : String → AuditCall
  appends replaces : ResetAudit → AuditCall
  deletes recovers : Time → AuditCall
  clears : AuditCall

pub step : ℕ → Time × AuditCall → AuditDisk → AuditDisk
step retention (now, loads) d = (load retention now d).0
step retention (now, finds key) d = (find_by_key retention now key d).0
step retention (now, appends a) d = (append_pending retention now a d).0
step retention (now, replaces a) d = (replace retention now a d).0
step retention (now, deletes cutoff) d = (delete_before retention now cutoff d).0
step retention (now, recovers at) d = (recover_pending retention now at d).0
step retention (now, clears) d = (clear d).0

pub run : ℕ → List (Time × AuditCall) → AuditDisk → AuditDisk
run retention [] d = d
run retention (c ∷ cs) d = run retention cs (step retention c d)

abbrev Prunes : ℕ → Time → Type 0
Prunes retention now =
    (retention == 0) ≡ false
    → (rs : List ResetAudit) → UniqueKeys rs
    → UniqueKeys (unexpired (now - retention) rs)

Prunes-unique : (retention : ℕ) (now : Time) → Prunes retention now
Prunes-unique retention now on rs u = unexpired-UniqueKeys (now - retention) rs u

-- One call of the repository, at any time and under any fault, keeps the keys on disk unique.
pub step-OnDisk :
    (retention : ℕ) (c : Time × AuditCall) (d : AuditDisk)
    → OnDisk UniqueKeys d
    → OnDisk UniqueKeys (step retention c d)
unfolding step clear
step-OnDisk retention (now, loads) d v =
    (load-Loaded UniqueKeys retention now (Prunes-unique retention now) d v).disk
step-OnDisk retention (now, finds key) d v =
    find_by_key-OnDisk UniqueKeys retention now (Prunes-unique retention now) key d v
step-OnDisk retention (now, appends a) d v =
    append_pending-OnDisk UniqueKeys retention now (Prunes-unique retention now) a d
      (append-UniqueKeys a) v
step-OnDisk retention (now, replaces a) d v =
    replace-OnDisk UniqueKeys retention now (Prunes-unique retention now) a d (replace-UniqueKeys a)
      v
step-OnDisk retention (now, deletes cutoff) d v =
    delete_before-OnDisk UniqueKeys retention now (Prunes-unique retention now) cutoff d
      (unexpired-UniqueKeys cutoff) v
step-OnDisk retention (now, recovers at) d v =
    recover_pending-OnDisk UniqueKeys retention now (Prunes-unique retention now) at d
      (recover-UniqueKeys at) v
step-OnDisk retention (now, clears) d v = write-OnDisk UniqueKeys [] d tt v

-- Over any sequence of repository calls, times and faults, starting from a document with unique
-- idempotency keys, no two stored audits ever share one.
pub run-UniqueKeys :
    (retention : ℕ) (cs : List (Time × AuditCall)) (d : AuditDisk)
    → OnDisk UniqueKeys d
    → OnDisk UniqueKeys (run retention cs d)
unfolding run
run-UniqueKeys retention [] d v = v
run-UniqueKeys retention (c ∷ cs) d v =
    run-UniqueKeys retention cs (step retention c d) (step-OnDisk retention c d v)
