-- ===== src/Store/History.antt =====
-- internal/store/history.go: the bounded operational history.
use codex_window_reset.Base.{
  ℕ, suc, ◌-◌, ◌≤◌, List, [], ◌∷◌, ◌++◌, ◌≡◌, ◌⊎◌, refl, true, ltb, ◌==◌, arith, drop, length,
  length-drop, if◌then◌else◌, Bool-cases, inl, inr, zero,
}
use codex_window_reset.Domain.Outcome.{Result, ok, err}
use codex_window_reset.Domain.Operation.{OperationRecord}
use codex_window_reset.Store.Disk.{
  Disk, File, StoreError, Fault, read_json, write_atomic, read_file, write_atomic-Wrote,
  read_json-Read,
}

pub record HistoryDocument : Type 0 where
  pub schema_version : ℕ
  pub records : List OperationRecord

abbrev pub accept : File HistoryDocument → Result StoreError (List OperationRecord)
accept (File.holds d) =
    if d.schema_version == 1 then ok d.records else err StoreError.unsupported_schema
accept _ = ok []

abbrev accept_read :
    Result StoreError (File HistoryDocument) → Result StoreError (List OperationRecord)
accept_read (ok f) = accept f
accept_read (err e) = err e

pub load : Disk HistoryDocument → Disk HistoryDocument × Result StoreError (List OperationRecord)
load d = let (d', r) = read_json d in (d', accept_read r)

-- The newest records stay: the oldest are cut until at most `max_records` are left.
pub truncate : ℕ → List OperationRecord → List OperationRecord
truncate max_records items =
    if ltb max_records (length items) then drop (length items - max_records) items else items

abbrev append_loaded :
    ℕ
    → OperationRecord
    → Disk HistoryDocument × Result StoreError (List OperationRecord)
    → Disk HistoryDocument × Result StoreError Unit
append_loaded max_records record' (d, err e) = (d, err e)
append_loaded max_records record' (d, ok items) =
    write_atomic
      (record { schema_version = 1; records = truncate max_records (items ++ record' ∷ []) }) d

pub append :
    ℕ → OperationRecord → Disk HistoryDocument → Disk HistoryDocument × Result StoreError Unit
append max_records record' d = append_loaded max_records record' (load d)

pub clear : Disk HistoryDocument → Disk HistoryDocument × Result StoreError Unit
clear d = write_atomic (record { schema_version = 1; records = [] }) d

abbrev pub stored : Disk HistoryDocument → Result StoreError (List OperationRecord)
stored d = accept_read (read_file d.file)

drop-append :
    (n : ℕ) (xs : List OperationRecord) → (pre : List OperationRecord) × (xs ≡ pre ++ drop n xs)
drop-append zero xs = ([], refl)
drop-append (suc n) [] = ([], refl)
drop-append (suc n) (x ∷ xs) = let (pre, e) = drop-append n xs in (x ∷ pre, cc e)

-- The records kept are the newest of the log, `max_records` of them or all.
abbrev pub Newest : ℕ → List OperationRecord → List OperationRecord → Type 0
Newest max_records log kept =
    (length kept ≤ max_records)
    × ((pre : List OperationRecord) × (log ≡ pre ++ kept))
    × (length log ≤ max_records → kept ≡ log)
    × (max_records ≤ length log → length kept ≡ max_records)

pub truncate-Newest :
    (max_records : ℕ) (log : List OperationRecord)
    → Newest max_records log (truncate max_records log)
unfolding truncate
truncate-Newest m log = elim (Bool-cases (ltb m (length log))) [
  | inl over ↦ rw over (
    omega (arith, length-drop (length log - m) log, cut over),
    drop-append (length log - m) log,
    λ h. absurd (ground arith),
    λ h. omega (arith, length-drop (length log - m) log, cut over),
  )
  | inr fits ↦ rw fits (ground arith, ([], refl), λ h. refl, λ h. ground arith)
]
  where
    cut : ltb m (length log) ≡ true → m ≤ length log
    cut e = ground arith

abbrev Kept : ℕ → OperationRecord → Disk HistoryDocument → Disk HistoryDocument → Type 0
Kept m r d d' =
    (old kept : List OperationRecord) × (stored d ≡ ok old)
    × (stored d' ≡ ok kept)
    × Newest m (old ++ r ∷ []) kept

abbrev pub Appended :
    ℕ
    → OperationRecord
    → Disk HistoryDocument
    → Disk HistoryDocument × Result StoreError Unit
    → Type 0
Appended m r d (d', ok u) = Kept m r d d'
Appended m r d (d', err e) = (d'.file ≡ d.file) ⊎ Kept m r d d'

write-Appended :
    (m : ℕ) (r : OperationRecord) (d : Disk HistoryDocument) (fs : List Fault)
    (old : Result StoreError (List OperationRecord))
    → stored d ≡ old
    → Appended m r d (append_loaded m r (record { file = d.file; faults = fs }, old))
write-Appended m r d fs (err e) h = inl refl
write-Appended m r d fs (ok old) h =
    let log = old ++ r ∷ [] in
    let newest = truncate-Newest m log in
    let doc : HistoryDocument = record { schema_version = 1; records = truncate m log } in
    let (gs, c) = write_atomic-Wrote doc (record { file = d.file; faults = fs }) in
    elim c [
      | inl w ↦ rw w (old, truncate m log, h, refl, newest)
      | inr (inl w) ↦ rw w (inl refl)
      | inr (inr w) ↦ rw w (inr (old, truncate m log, h, refl, newest))
    ]

-- Append keeps the newest `max_records` entries of the old log followed by the new record (all of
-- them while they fit); on an error it has done so, or has changed nothing.
pub append-Appended :
    (max_records : ℕ) (r : OperationRecord) (d : Disk HistoryDocument)
    → Appended max_records r d (append max_records r d)
unfolding append load
append-Appended m r d =
    let (fs, c) = read_json-Read d in
    elim c [ inl e ↦ rw e (write-Appended m r d fs (stored d) refl) | inr e ↦ rw e (inl refl) ]
