-- ===== src/App/Reset/Writes.antt =====
-- The accesses of a reset to the audit repository, at an instant within the retention.
use codex_window_reset.Base.{
  ℕ, zero, suc, ◌-◌, ◌≤◌, String, Bool, true, false, List, [], ◌∷◌, ◌++◌, some, ◌≡◌, refl, inl, inr,
  any, ◌==◌, subst, ap, if◌then◌else◌,
}
use codex_window_reset.Base.Text.{str_eq, eq_iff}
use codex_window_reset.Domain.Clock.{Time}
use codex_window_reset.Domain.Outcome.{Result, ok, err, ok-injective}
use codex_window_reset.Domain.Operation.{ResetAudit}
use codex_window_reset.Store.Disk.{StoreError, write_atomic, write_atomic-Wrote}
use codex_window_reset.Store.Audit
use codex_window_reset.Store.Audit.{
  AuditDisk, document, with_records, append_records, same_key, unexpired, stored,
}
use codex_window_reset.Store.Audit.Keys.{OnDisk}
use codex_window_reset.Store.Audit.Closed.{
  Loaded, load-Loaded, find_by_key-OnDisk, find_by_key-found, append_pending-OnDisk, replace-OnDisk,
  recover_pending-OnDisk,
}
use codex_window_reset.App.Reset.Evidence.{
  is_young, Young, Level, Level-unexpired, Level-append, Level-replace, Level-recover, Level-Young,
  Has-appended, Young-found, Young-append,
}

module _ (k : String) (start : Time) (retention : ℕ) (now : Time)
    (recent : (retention == 0) ≡ false → now - retention ≤ start) where
  abbrev Kept : ℕ → AuditDisk → Type 0
  Kept n = OnDisk (Level k start n)

  prunes :
      (n : ℕ)
      → (retention == 0) ≡ false
      → (rs : List ResetAudit) → Level k start n rs
      → Level k start n (unexpired (now - retention) rs)
  prunes n on rs l = Level-unexpired k start n (now - retention) rs (recent on) l

  pub find-kept :
      (n : ℕ) (key : String) (d : AuditDisk)
      → OnDisk (Level k start n) d
      → OnDisk (Level k start n) (Audit.find_by_key retention now key d).0
  find-kept n key d h = find_by_key-OnDisk (Level k start n) retention now (prunes n) key d h

  pub find-young :
      (n : ℕ) (key : String) (d : AuditDisk) (a : ResetAudit)
      → OnDisk (Level k start n) d
      → (Audit.find_by_key retention now key d).1 ≡ ok (some a)
      → is_young k start a ≡ true
  find-young n key d a h e =
      let (rs, l, f) = find_by_key-found (Level k start n) retention now (prunes n) key d a h e in
      Young-found k start key rs a (Level-Young k start n rs l) f

  pub append-kept :
      (n : ℕ) (a : ResetAudit) (d : AuditDisk)
      → is_young k start a ≡ true
      → OnDisk (Level k start n) d
      → OnDisk (Level k start n) (Audit.append_pending retention now a d).0
  append-kept n a d y h =
      append_pending-OnDisk (Level k start n) retention now (prunes n) a d
        (λ rs new l. Level-append k start n a rs y l) h

  pub replace-kept :
      (n : ℕ) (a : ResetAudit) (d : AuditDisk)
      → is_young k start a ≡ true
      → OnDisk (Level k start n) d
      → OnDisk (Level k start n) (Audit.replace retention now a d).0
  replace-kept n a d y h =
      replace-OnDisk (Level k start n) retention now (prunes n) a d
        (λ rs l. Level-replace k start n a rs y l) h

  pub recover-kept :
      (n : ℕ) (d : AuditDisk)
      → OnDisk (Level k start n) d
      → OnDisk (Level k start n) (Audit.recover_pending retention now now d).0
  recover-kept n d h =
      recover_pending-OnDisk (Level k start n) retention now (prunes n) now d
        (λ rs l. Level-recover k start n now rs l) h

  unused-zero :
      (n : ℕ) (a : ResetAudit) (rs : List ResetAudit)
      → str_eq a.idempotency_key k ≡ true
      → any (same_key a.idempotency_key) rs ≡ false
      → Level k start n rs
      → n ≡ 0
  unused-zero zero a rs e new l = refl
  unused-zero (suc n) a rs e new l =
      let same : a.idempotency_key ≡ k = (eq_iff a.idempotency_key k).0 e in
      absurd (cc (same, new, l.1))

  written-Has :
      (a : ResetAudit) (rs : List ResetAudit) (d : AuditDisk)
      → str_eq a.idempotency_key k ≡ true
      → is_young k start a ≡ true
      → Young k start rs
      → (write_atomic (document (rs ++ a ∷ [])) d).1 ≡ ok tt
      → OnDisk (Level k start 1) (write_atomic (document (rs ++ a ∷ [])) d).0
  written-Has a rs d e y l s =
      let (fs, c) = write_atomic-Wrote (document (rs ++ a ∷ [])) d in
      let level : Level k start 1 (rs ++ a ∷ []) =
        (Young-append k start a rs y l, Has-appended k start a rs e) in
      elim c [
        | inl w ↦ rw w (λ xs h. subst (Level k start 1) (ok-injective h) level)
        | inr (inl w) ↦ absurd (cc (ap (λ r. r.1) w, s))
        | inr (inr w) ↦ absurd (cc (ap (λ r. r.1) w, s))
      ]

  -- A successful append found no record of its key, and leaves one.
  new-appended :
      (n : ℕ) (a : ResetAudit) (rs : List ResetAudit) (d : AuditDisk)
      → str_eq a.idempotency_key k ≡ true
      → is_young k start a ≡ true
      → Level k start n rs
      → (append_records a rs d).1 ≡ ok tt
      → (n ≡ 0) × OnDisk (Level k start 1) (append_records a rs d).0
  new-appended n a rs d e y l s = by_test (any (same_key a.idempotency_key) rs) refl s
    where
      by_test :
          (b : Bool)
          → any (same_key a.idempotency_key) rs ≡ b
          → (if b then (d, err StoreError.conflict) else write_atomic (document (rs ++ a ∷ [])) d).1
            ≡ ok tt
          → (n ≡ 0)
            × OnDisk
                (Level k start 1)
                (if b
                  then (d, err StoreError.conflict)
                  else write_atomic (document (rs ++ a ∷ [])) d).0
      by_test true used h = cc
      by_test false new h =
          (unused-zero n a rs e new l, written-Has a rs d e y (Level-Young k start n rs l) h)

  pub append-new :
      (n : ℕ) (a : ResetAudit) (d : AuditDisk)
      → str_eq a.idempotency_key k ≡ true
      → is_young k start a ≡ true
      → OnDisk (Level k start n) d
      → (Audit.append_pending retention now a d).1 ≡ ok tt
      → (n ≡ 0) × OnDisk (Level k start 1) (Audit.append_pending retention now a d).0
  unfolding Audit.append_pending
  append-new n a d e y h s =
      of_load (Audit.load retention now d)
        (load-Loaded (Level k start n) retention now (prunes n) d h) s
    where
      of_load :
          (r : AuditDisk × Result StoreError (List ResetAudit))
          → Loaded (Level k start n) r
          → (with_records (append_records a) r).1 ≡ ok tt
          → (n ≡ 0) × OnDisk (Level k start 1) (with_records (append_records a) r).0
      of_load (x, ok rs) l g = new-appended n a rs x e y (l.records rs refl) g
      of_load (x, err z) l g = cc
