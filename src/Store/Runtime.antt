-- ===== src/Store/Runtime.antt =====
-- internal/store/runtime_state.go: the transactional repository of the runtime state. Nil maps are
-- empty association lists, so normalising a state touches its schema version alone.
use codex_window_reset.Base.{
  ℕ, List, [], ◌≡◌, refl, ◌⊎◌, inl, inr, arith, ◌==◌, Bool-cases, if◌then◌else◌, ap, sym, subst,
  ◌∙◌,
}
use codex_window_reset.Domain.Outcome.{Result, ok, err, ok-injective}
use codex_window_reset.Domain.Operation.{RuntimeState}
use codex_window_reset.Store.Disk.{
  Disk, File, StoreError, Fault, read_json, write_atomic, read_file, write_atomic-Wrote,
  read_json-Read,
}

abbrev pub persisted_schema_version : ℕ
persisted_schema_version = 1

abbrev pub empty_runtime_state : RuntimeState
empty_runtime_state = record {
  schema_version = 1;
  occurrences = [];
  next_runs = [];
  guardrail_holds = [];
}

abbrev pub normalize_runtime_state : RuntimeState → RuntimeState
normalize_runtime_state s = record s {
  schema_version = if s.schema_version == 0 then persisted_schema_version else s.schema_version;
}

abbrev pub accept : File RuntimeState → Result StoreError RuntimeState
accept (File.holds s) =
    if s.schema_version == persisted_schema_version
    then ok (normalize_runtime_state s)
    else err StoreError.unsupported_schema
accept _ = ok empty_runtime_state

abbrev accept_read : Result StoreError (File RuntimeState) → Result StoreError RuntimeState
accept_read (ok f) = accept f
accept_read (err e) = err e

-- Load, and loadLocked of the others.
unfoldable pub load : Disk RuntimeState → Disk RuntimeState × Result StoreError RuntimeState
load d = let (d', r) = read_json d in (d', accept_read r)

-- Save
unfoldable pub save : RuntimeState → Disk RuntimeState → Disk RuntimeState × Result StoreError Unit
save s d =
    let n = normalize_runtime_state s in
    if n.schema_version == persisted_schema_version
    then write_atomic n d
    else (d, err StoreError.unsupported_schema)

-- An error of Update is the repository's, under `wrap`, or the mutation's own. A mutation returns what
-- it makes of the state and, when it has no error, what it writes into captured variables, which a
-- caller reads only after a call without error.
module _ {A E : Type 0} (wrap : StoreError → E) where
  abbrev pub saved : A → Disk RuntimeState × Result StoreError Unit → Disk RuntimeState × Result E A
  saved a (d, ok u) = (d, ok a)
  saved a (d, err e) = (d, err (wrap e))

  abbrev pub save_mutated :
      RuntimeState × Result E A → Disk RuntimeState → Disk RuntimeState × Result E A
  save_mutated (s, ok a) d = saved a (save s d)
  save_mutated (s, err e) d = (d, err e)

  abbrev pub mutate_and_save :
      (RuntimeState → RuntimeState × Result E A)
      → Disk RuntimeState × Result StoreError RuntimeState
      → Disk RuntimeState × Result E A
  mutate_and_save f (d, ok s) = save_mutated (f s) d
  mutate_and_save f (d, err e) = (d, err (wrap e))

  -- Update: load, mutate and save as one transaction.
  unfoldable pub update :
      (RuntimeState → RuntimeState × Result E A)
      → Disk RuntimeState
      → Disk RuntimeState × Result E A
  update f d = mutate_and_save f (load d)

-- Update with a mutation that returns no error, as its callers have it.
abbrev pub update_always :
    {A : Type 0}
    → (RuntimeState → RuntimeState × A)
    → Disk RuntimeState
    → Disk RuntimeState × Result StoreError A
update_always f d = update (λ e. e) (λ s. ((f s).0, ok (f s).1)) d

-- What a load that meets no fault returns.
abbrev pub stored : Disk RuntimeState → Result StoreError RuntimeState
stored d = accept_read (read_file d.file)

-- A load changes no document, and returns its state or an error.
pub load-cases :
    (d : Disk RuntimeState)
    → (fs : List Fault) × ((load d ≡ (record { file = d.file; faults = fs }, stored d))
        ⊎ (load d ≡ (record { file = d.file; faults = fs }, err StoreError.io_error)))
unfolding load
load-cases d =
    let (fs, c) = read_json-Read d in (fs, elim c [ inl e ↦ inl (rw e) | inr e ↦ inr (rw e) ])

-- A save stores the state whole, without an error or with one, or leaves the document.
abbrev Saved :
    RuntimeState → Disk RuntimeState → Disk RuntimeState × Result StoreError Unit → Type 0
Saved t d (d', ok u) = stored d' ≡ ok (normalize_runtime_state t)
Saved t d (d', err x) = (d'.file ≡ d.file) ⊎ (stored d' ≡ ok (normalize_runtime_state t))

save-Saved : (t : RuntimeState) (d : Disk RuntimeState) → Saved t d (save t d)
unfolding save
save-Saved t d =
    let n = normalize_runtime_state t in
    elim (Bool-cases (n.schema_version == persisted_schema_version)) [
      | inr bad ↦ rw bad (inl refl)
      | inl good ↦
          let (fs, c) = write_atomic-Wrote n d in
          elim c [
            | inl w ↦ rw (good, w) (ground arith)
            | inr (inl w) ↦ rw (good, w) (inl refl)
            | inr (inr w) ↦ rw (good, w) (inr (ground arith))
          ]
    ]

module _ {A E : Type 0} (wrap : StoreError → E) (f : RuntimeState → RuntimeState × Result E A) where
  -- The mutation ended without error on the stored state, with the state t.
  abbrev pub Mutated : Disk RuntimeState → RuntimeState → A → Type 0
  Mutated d t a = (s : RuntimeState) × (stored d ≡ ok s) × (f s ≡ (t, ok a))

  -- What failed: the load, the mutation, or the save of what the mutation returned.
  abbrev pub Failed : Disk RuntimeState → Disk RuntimeState → E → Type 0
  Failed d d' e =
      ((x : StoreError) × ((load d).1 ≡ err x) × (e ≡ wrap x) × (d'.file ≡ d.file))
      ⊎ (((s : RuntimeState) × (t : RuntimeState) × (stored d ≡ ok s)
            × (f s ≡ (t, err e))
            × (d'.file ≡ d.file))
          ⊎ ((t : RuntimeState) × (a : A) × (x : StoreError) × Mutated d t a
              × ((save t (load d).0).1 ≡ err x)
              × (e ≡ wrap x)
              × ((d'.file ≡ d.file) ⊎ (stored d' ≡ ok (normalize_runtime_state t)))))

  abbrev pub Outcome : Disk RuntimeState → Disk RuntimeState × Result E A → Type 0
  Outcome d (d', ok a) =
      (t : RuntimeState) × Mutated d t a × (stored d' ≡ ok (normalize_runtime_state t))
  Outcome d (d', err e) = Failed d d' e

  saved-Outcome :
      (d l : Disk RuntimeState) (t : RuntimeState) (a : A)
      (x : Disk RuntimeState × Result StoreError Unit)
      → (load d).0 ≡ l
      → l.file ≡ d.file
      → Mutated d t a
      → save t l ≡ x
      → Saved t l x
      → Outcome d (saved wrap a x)
  saved-Outcome d l t a (d', ok u) el same m es w = (t, m, w)
  saved-Outcome d l t a (d', err x) el same m es (inl w) =
      inr (inr (t, a, x, m, ap (λ k. (save t k).1) el ∙ ap (λ r. r.1) es, refl, inl (w ∙ same)))
  saved-Outcome d l t a (d', err x) el same m es (inr w) =
      inr (inr (t, a, x, m, ap (λ k. (save t k).1) el ∙ ap (λ r. r.1) es, refl, inr w))

  mutated-Outcome :
      (d l : Disk RuntimeState) (s : RuntimeState) (r : RuntimeState × Result E A)
      → (load d).0 ≡ l
      → l.file ≡ d.file
      → stored d ≡ ok s
      → f s ≡ r
      → Outcome d (save_mutated wrap r l)
  mutated-Outcome d l s (t, err e) el same es er = inr (inl (s, t, es, er, same))
  mutated-Outcome d l s (t, ok a) el same es er =
      saved-Outcome d l t a (save t l) el same (s, es, er) refl (save-Saved t l)

  loaded-Outcome :
      (d l : Disk RuntimeState) (r : Result StoreError RuntimeState)
      → load d ≡ (l, r)
      → l.file ≡ d.file
      → (r ≡ stored d) ⊎ (r ≡ err StoreError.io_error)
      → Outcome d (mutate_and_save wrap f (l, r))
  loaded-Outcome d l (err x) el same w = inl (x, ap (λ r. r.1) el, refl, same)
  loaded-Outcome d l (ok s) el same (inl w) =
      mutated-Outcome d l s (f s) (ap (λ r. r.0) el) same (sym w) refl
  loaded-Outcome d l (ok s) el same (inr w) = cc

  -- Update is a transaction. Without an error the mutation ended without one on the stored state, and
  -- what it made of it is stored. An error is that of a load or of the mutation, and then the document
  -- is as it was, or that of the save of what the mutation returned, and then the document is as it
  -- was or holds all of it.
  pub update-Outcome : (d : Disk RuntimeState) → Outcome d (update wrap f d)
  unfolding update
  update-Outcome d =
      let (fs, c) = load-cases d in
      let l : Disk RuntimeState = record { file = d.file; faults = fs } in
      elim c [
        | inl e ↦ rw e (loaded-Outcome d l (stored d) e refl (inl refl))
        | inr e ↦ rw e (loaded-Outcome d l (err StoreError.io_error) e refl (inr refl))
      ]

-- A property of the stored state, whenever one can be read.
abbrev pub OnDisk {ℓ} : (RuntimeState → Type ℓ) → Disk RuntimeState → Type ℓ
OnDisk P d = (s : RuntimeState) → stored d ≡ ok s → P s

module _ {A : Type 0} (P : RuntimeState → Type 0) (f : RuntimeState → RuntimeState × A) where
  Outcome-OnDisk :
      (d : Disk RuntimeState) (r : Disk RuntimeState × Result StoreError A)
      → Outcome (λ e. e) (λ s. ((f s).0, ok (f s).1)) d r
      → OnDisk P d
      → ((s : RuntimeState) → stored d ≡ ok s → P s → P (normalize_runtime_state (f s).0))
      → OnDisk P r.0
  Outcome-OnDisk d (d', ok a) (t, (s, e, m), e') h keep x ex =
      subst P (ok-injective (sym e' ∙ ex))
        (subst (λ k. P (normalize_runtime_state k)) (ap (λ r. r.0) m) (keep s e (h s e)))
  Outcome-OnDisk d (d', err y) (inl (z, l, w, same)) h keep x ex =
      h x (sym (ap (λ f. accept_read (read_file f)) same) ∙ ex)
  Outcome-OnDisk d (d', err y) (inr (inl (s, t, e, m, same))) h keep x ex = cc (ap (λ r. r.1) m)
  Outcome-OnDisk d (d', err y) (inr (inr (t, a, z, m, w, q, inl same))) h keep x ex =
      h x (sym (ap (λ f. accept_read (read_file f)) same) ∙ ex)
  Outcome-OnDisk d (d', err y) (inr (inr (t, a, z, (s, e, m), w, q, inr e'))) h keep x ex =
      subst P (ok-injective (sym e' ∙ ex))
        (subst (λ k. P (normalize_runtime_state k)) (ap (λ r. r.0) m) (keep s e (h s e)))

  -- What the mutation preserves, an update preserves on disk, with or without an error.
  pub update-OnDisk :
      (d : Disk RuntimeState)
      → OnDisk P d
      → ((s : RuntimeState) → stored d ≡ ok s → P s → P (normalize_runtime_state (f s).0))
      → OnDisk P (update_always f d).0
  update-OnDisk d =
      Outcome-OnDisk d (update_always f d) (update-Outcome (λ e. e) (λ s. ((f s).0, ok (f s).1)) d)
