-- ===== src/Store/Disk.antt =====
-- internal/store/atomic_json.go: one JSON document on disk. The file system is the environment: the
-- next entry of `faults` decides what the next read or write does, and an empty list means that all
-- goes well from there on. A document is kept as the value that it encodes.
use codex_window_reset.Base.{List, [], ◌∷◌, ◌≡◌, refl, ◌⊎◌, inl, inr}
use codex_window_reset.Domain.Outcome.{Result, ok, err}

-- `unsynced`: the rename took place, and the directory could not be opened or synced after it, so
-- the call reports an error over a document that was replaced.
pub data Fault : Type 0 where
  fine fails unsynced : Fault

pub data File (D : Type 0) : Type 0 where
  missing corrupt : File D
  holds : D → File D

pub data StoreError : Type 0 where
  io_error corrupt_document unsupported_schema conflict not_found : StoreError

pub record Disk (D : Type 0) : Type 0 where
  pub file : File D
  pub faults : List Fault

abbrev pub next_fault : List Fault → Fault
next_fault [] = Fault.fine
next_fault (f ∷ fs) = f

abbrev pub later_faults : List Fault → List Fault
later_faults [] = []
later_faults (f ∷ fs) = fs

abbrev pub read_file : {D : Type 0} → File D → Result StoreError (File D)
read_file File.missing = ok File.missing
read_file File.corrupt = err StoreError.corrupt_document
read_file (File.holds d) = ok (File.holds d)

-- A missing document is no error to the callers: each starts from its empty one.
abbrev pub read_result : {D : Type 0} → Fault → File D → Result StoreError (File D)
read_result Fault.fine f = read_file f
read_result Fault.fails f = err StoreError.io_error
read_result Fault.unsynced f = read_file f

unfoldable pub read_json : {D : Type 0} → Disk D → Disk D × Result StoreError (File D)
read_json d =
    (record d { faults = later_faults d.faults }, read_result (next_fault d.faults) d.file)

abbrev pub after_write : {D : Type 0} → Fault → D → File D → File D
after_write Fault.fine v f = File.holds v
after_write Fault.fails v f = f
after_write Fault.unsynced v f = File.holds v

abbrev pub write_result : Fault → Result StoreError Unit
write_result Fault.fine = ok tt
write_result Fault.fails = err StoreError.io_error
write_result Fault.unsynced = err StoreError.io_error

unfoldable pub write_atomic : {D : Type 0} → D → Disk D → Disk D × Result StoreError Unit
write_atomic v d = (
  record { file = after_write (next_fault d.faults) v d.file; faults = later_faults d.faults },
  write_result (next_fault d.faults),
)

-- A write leaves the old document and an error, or the new one, with an error or without.
abbrev pub Wrote : {D : Type 0} → D → Disk D → Disk D × Result StoreError Unit → Type 0
Wrote {D} v d r =
    (fs : List Fault) × ((r ≡ (record { file = File.holds v; faults = fs }, ok tt))
      ⊎ ((r ≡ (record { file = d.file; faults = fs }, err StoreError.io_error))
          ⊎ (r ≡ (record { file = File.holds v; faults = fs }, err StoreError.io_error))))

pub write_atomic-Wrote : {D : Type 0} (v : D) (d : Disk D) → Wrote v d (write_atomic v d)
unfolding write_atomic
write_atomic-Wrote v d = cases (next_fault d.faults) (later_faults d.faults)
  where
    cases :
        (f : Fault) (fs : List Fault)
        → Wrote v d (record { file = after_write f v d.file; faults = fs }, write_result f)
    cases Fault.fine fs = (fs, inl refl)
    cases Fault.fails fs = (fs, inr (inl refl))
    cases Fault.unsynced fs = (fs, inr (inr refl))

-- A read changes no document, and returns it or an error.
abbrev pub Read : {D : Type 0} → Disk D → Disk D × Result StoreError (File D) → Type 0
Read {D} d r =
    (fs : List Fault) × ((r ≡ (record { file = d.file; faults = fs }, read_file d.file))
      ⊎ (r ≡ (record { file = d.file; faults = fs }, err StoreError.io_error)))

pub read_json-Read : {D : Type 0} (d : Disk D) → Read d (read_json d)
unfolding read_json
read_json-Read d = cases (next_fault d.faults) (later_faults d.faults)
  where
    cases :
        (f : Fault) (fs : List Fault)
        → Read d (record { file = d.file; faults = fs }, read_result f d.file)
    cases Fault.fine fs = (fs, inl refl)
    cases Fault.fails fs = (fs, inr refl)
    cases Fault.unsynced fs = (fs, inl refl)
