-- ===== src/Store/Audit.antt =====
-- internal/store/reset_audit.go: the durable audit of quota resets, with its retention. `retention`
-- is a duration of which 0 stands for every value that turns pruning off. A failed write is taken
-- for an error other than `fs.ErrNotExist`.
pub mod Keys
pub mod Closed
pub mod Calls
use codex_window_reset.Base.{
  ℕ, ◌-◌, String, Bool, not, ◌&&◌, List, [], ◌∷◌, ◌++◌, Option, none, some, any, keep_if, ◌==◌,
  if◌then◌else◌,
}
use codex_window_reset.Base.Text.{str_eq}
use codex_window_reset.Domain.Clock.{Time, is_zero, before}
use codex_window_reset.Domain.Outcome.{Result, ok, err}
use codex_window_reset.Domain.Operation.{ResetAudit, ResetOutcome}
use codex_window_reset.Store.Disk.{Disk, File, StoreError, read_json, read_file, write_atomic}

pub record AuditDocument : Type 0 where
  pub schema_version : ℕ
  pub records : List ResetAudit

abbrev pub AuditDisk : Type 0
AuditDisk = Disk AuditDocument

abbrev pub document : List ResetAudit → AuditDocument
document rs = record { schema_version = 1; records = rs }

abbrev pub accept : File AuditDocument → Result StoreError (List ResetAudit)
accept (File.holds d) =
    if d.schema_version == 1 then ok d.records else err StoreError.unsupported_schema
accept _ = ok []

abbrev pub accept_read :
    Result StoreError (File AuditDocument) → Result StoreError (List ResetAudit)
accept_read (ok f) = accept f
accept_read (err e) = err e

-- A zero request time is not evidence of an old record.
unfoldable pub expired : Time → ResetAudit → Bool
expired cutoff r = not (is_zero r.requested_at) && before r.requested_at cutoff

unfoldable pub unexpired : Time → List ResetAudit → List ResetAudit
unfolding expired
unexpired cutoff = keep_if (λ r. not (expired cutoff r))

abbrev pub kept_after :
    List ResetAudit
    → AuditDisk × Result StoreError Unit
    → AuditDisk × Result StoreError (List ResetAudit)
kept_after rs (d, ok u) = (d, ok rs)
kept_after rs (d, err e) = (d, err e)

abbrev pub prune :
    ℕ
    → Time
    → AuditDisk × Result StoreError (List ResetAudit)
    → AuditDisk × Result StoreError (List ResetAudit)
prune retention now (d, err e) = (d, err e)
prune retention now (d, ok rs) =
    if retention == 0
    then (d, ok rs)
    else if any (expired (now - retention)) rs
    then (let kept = unexpired (now - retention) rs in
        kept_after kept (write_atomic (document kept) d))
    else (d, ok rs)

-- loadLocked; Load is the same under the lock.
unfoldable pub load : ℕ → Time → AuditDisk → AuditDisk × Result StoreError (List ResetAudit)
load retention now d = let (d', r) = read_json d in prune retention now (d', accept_read r)

unfoldable pub find_key : String → List ResetAudit → Option ResetAudit
find_key key [] = none
find_key key (r ∷ rs) = if str_eq r.idempotency_key key then some r else find_key key rs

-- What an operation does with the records that were loaded: an error of the load is its own.
abbrev pub with_records :
    {A : Type 0}
    → (List ResetAudit → AuditDisk → AuditDisk × Result StoreError A)
    → AuditDisk × Result StoreError (List ResetAudit)
    → AuditDisk × Result StoreError A
with_records f (d, err e) = (d, err e)
with_records f (d, ok rs) = f rs d

unfoldable pub find_by_key :
    ℕ → Time → String → AuditDisk → AuditDisk × Result StoreError (Option ResetAudit)
find_by_key retention now key d =
    with_records (λ rs d'. (d', ok (find_key key rs))) (load retention now d)

abbrev pub same_key : String → ResetAudit → Bool
same_key key r = str_eq r.idempotency_key key

abbrev pub append_records :
    ResetAudit → List ResetAudit → AuditDisk → AuditDisk × Result StoreError Unit
append_records audit rs d =
    if any (same_key audit.idempotency_key) rs
    then (d, err StoreError.conflict)
    else write_atomic (document (rs ++ audit ∷ [])) d

unfoldable pub append_pending :
    ℕ → Time → ResetAudit → AuditDisk → AuditDisk × Result StoreError Unit
append_pending retention now audit d = with_records (append_records audit) (load retention now d)

-- The first record with the key is overwritten.
unfoldable pub replace_key : ResetAudit → List ResetAudit → List ResetAudit
replace_key audit [] = []
replace_key audit (r ∷ rs) =
    if str_eq r.idempotency_key audit.idempotency_key then audit ∷ rs else r ∷ replace_key audit rs

abbrev pub replace_records :
    ResetAudit → List ResetAudit → AuditDisk → AuditDisk × Result StoreError Unit
replace_records audit rs d =
    if any (same_key audit.idempotency_key) rs
    then write_atomic (document (replace_key audit rs)) d
    else (d, err StoreError.not_found)

unfoldable pub replace : ℕ → Time → ResetAudit → AuditDisk → AuditDisk × Result StoreError Unit
replace retention now audit d = with_records (replace_records audit) (load retention now d)

abbrev pub delete_records : Time → List ResetAudit → AuditDisk → AuditDisk × Result StoreError Unit
delete_records cutoff rs d =
    if any (expired cutoff) rs then write_atomic (document (unexpired cutoff rs)) d else (d, ok tt)

pub delete_before : ℕ → Time → Time → AuditDisk → AuditDisk × Result StoreError Unit
delete_before retention now cutoff d = with_records (delete_records cutoff) (load retention now d)

abbrev pub is_pending : ResetOutcome → Bool
is_pending ResetOutcome.pending = Bool.true
is_pending _ = Bool.false

unfoldable pub recover : Time → List ResetAudit → List ResetAudit
recover finished_at [] = []
recover finished_at (r ∷ rs) =
    (if is_pending r.outcome
      then record r { finished_at = finished_at; outcome = ResetOutcome.unknown }
      else r)
    ∷ recover finished_at rs

abbrev pub recover_records : Time → List ResetAudit → AuditDisk → AuditDisk × Result StoreError Unit
recover_records now rs d =
    if any (λ r. is_pending r.outcome) rs
    then write_atomic (document (recover now rs)) d
    else (d, ok tt)

unfoldable pub recover_pending : ℕ → Time → Time → AuditDisk → AuditDisk × Result StoreError Unit
recover_pending retention clock now d = with_records (recover_records now) (load retention clock d)

unfoldable pub clear : AuditDisk → AuditDisk × Result StoreError Unit
clear d = write_atomic (document []) d

-- The records that the document holds, old ones included.
abbrev pub stored : AuditDisk → Result StoreError (List ResetAudit)
stored d = accept_read (read_file d.file)
