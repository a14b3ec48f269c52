-- ===== src/Store/Audit/Closed.antt =====
-- Properties of the stored audits that pruning and the change of an operation preserve.
use codex_window_reset.Base.{
  ℕ, ◌-◌, String, Bool, true, false, List, [], ◌∷◌, ◌++◌, some, ◌≡◌, refl, inl, inr, any, ◌==◌,
  Bool-cases, if◌then◌else◌, subst,
}
use codex_window_reset.Domain.Clock.{Time}
use codex_window_reset.Domain.Outcome.{Result, ok, err, ok-injective}
use codex_window_reset.Domain.Operation.{ResetAudit}
use codex_window_reset.Store.Disk.{StoreError, write_atomic, write_atomic-Wrote, read_json-Read}
use codex_window_reset.Store.Audit.{
  AuditDisk, document, stored, prune, kept_after, with_records, load, find_by_key, append_records,
  append_pending, replace_key, replace_records, replace, delete_records, delete_before, recover,
  recover_records, recover_pending, same_key, expired, unexpired, find_key,
}
use codex_window_reset.Store.Audit.Keys.{OnDisk}

module _ (P : List ResetAudit → Type 0) where
  pub write-OnDisk :
      (rs : List ResetAudit) (d : AuditDisk)
      → P rs
      → OnDisk P d
      → OnDisk P (write_atomic (document rs) d).0
  write-OnDisk rs d u v =
      let (fs, c) = write_atomic-Wrote (document rs) d in
      elim c [
        | inl w ↦ rw w (λ xs e. subst P (ok-injective e) u)
        | inr (inl w) ↦ rw w v
        | inr (inr w) ↦ rw w (λ xs e. subst P (ok-injective e) u)
      ]

  -- A conditional write keeps the property if what it writes has it.
  write_if-OnDisk :
      (b : Bool) (xs : List ResetAudit) (d : AuditDisk) (r : Result StoreError Unit)
      → P xs
      → OnDisk P d
      → OnDisk P (if b then write_atomic (document xs) d else (d, r)).0
  write_if-OnDisk true xs d r u v = write-OnDisk xs d u v
  write_if-OnDisk false xs d r u v = v

  -- What a load leaves and hands on.
  pub record Loaded (r : AuditDisk × Result StoreError (List ResetAudit)) : Type 0 where
    pub disk : OnDisk P r.0
    pub records : (rs : List ResetAudit) → r.1 ≡ ok rs → P rs

  kept-Loaded :
      (rs : List ResetAudit) (r : AuditDisk × Result StoreError Unit)
      → P rs
      → OnDisk P r.0
      → Loaded (kept_after rs r)
  kept-Loaded rs (d, ok u) k v = record { disk = v; records = λ xs e. subst P (ok-injective e) k }
  kept-Loaded rs (d, err x) k v = record { disk = v; records = λ xs e. cc }

  pub with_records-OnDisk :
      {A : Type 0} (f : List ResetAudit → AuditDisk → AuditDisk × Result StoreError A)
      (r : AuditDisk × Result StoreError (List ResetAudit))
      → Loaded r
      → ((rs : List ResetAudit) (d : AuditDisk) → P rs → OnDisk P d → OnDisk P (f rs d).0)
      → OnDisk P (with_records f r).0
  with_records-OnDisk f (d, ok rs) l keep = keep rs d (l.records rs refl) l.disk
  with_records-OnDisk f (d, err e) l keep = l.disk

  append_records-OnDisk :
      (a : ResetAudit) (rs : List ResetAudit) (d : AuditDisk)
      → (any (same_key a.idempotency_key) rs ≡ false → P (rs ++ a ∷ []))
      → OnDisk P d
      → OnDisk P (append_records a rs d).0
  append_records-OnDisk a rs d u v = elim (Bool-cases (any (same_key a.idempotency_key) rs)) [
    | inl used ↦ rw used v
    | inr new ↦ rw new (write-OnDisk (rs ++ a ∷ []) d (u new) v)
  ]

  module _ (retention : ℕ) (now : Time)
      (prunes : (retention == 0) ≡ false
        → (rs : List ResetAudit) → P rs
        → P (unexpired (now - retention) rs)) where
    prune-Loaded :
        (d : AuditDisk) (r : Result StoreError (List ResetAudit))
        → Loaded (d, r)
        → Loaded (prune retention now (d, r))
    prune-Loaded d (err x) l = l
    prune-Loaded d (ok rs) l = elim (Bool-cases (retention == 0)) [
      | inl off ↦ rw off l
      | inr on ↦ elim (Bool-cases (any (expired (now - retention)) rs)) [
        | inr young ↦ rw (on, young) l
        | inl old ↦
            let kept = unexpired (now - retention) rs in
            let k = prunes on rs (l.records rs refl) in
            rw (on, old)
              (kept-Loaded kept (write_atomic (document kept) d) k (write-OnDisk kept d k l.disk))
      ]
    ]

    pub load-Loaded : (d : AuditDisk) → OnDisk P d → Loaded (load retention now d)
    unfolding load
    load-Loaded d v =
        let (fs, c) = read_json-Read d in
        elim c [
          | inl e ↦ rw e (
              prune-Loaded (record { file = d.file; faults = fs }) (stored d)
                (record { disk = v; records = v }))
          | inr e ↦ rw e (record { disk = v; records = λ rs x. cc })
        ]

    pub find_by_key-OnDisk :
        (key : String) (d : AuditDisk) → OnDisk P d → OnDisk P (find_by_key retention now key d).0
    unfolding find_by_key
    find_by_key-OnDisk key d v =
        with_records-OnDisk (λ rs x. (x, ok (find_key key rs))) (load retention now d)
          (load-Loaded d v) (λ rs x u w. w)

    -- A record that is found is one of records that have the property.
    pub find_by_key-found :
        (key : String) (d : AuditDisk) (a : ResetAudit)
        → OnDisk P d
        → (find_by_key retention now key d).1 ≡ ok (some a)
        → (rs : List ResetAudit) × P rs × (find_key key rs ≡ some a)
    unfolding find_by_key
    find_by_key-found key d a v e = of_load (load retention now d) (load-Loaded d v) e
      where
        of_load :
            (r : AuditDisk × Result StoreError (List ResetAudit))
            → Loaded r
            → (with_records (λ rs x. (x, ok (find_key key rs))) r).1 ≡ ok (some a)
            → (rs : List ResetAudit) × P rs × (find_key key rs ≡ some a)
        of_load (x, ok rs) l h = (rs, l.records rs refl, ok-injective h)
        of_load (x, err y) l h = cc

    pub append_pending-OnDisk :
        (a : ResetAudit) (d : AuditDisk)
        → ((rs : List ResetAudit)
            → any (same_key a.idempotency_key) rs ≡ false
            → P rs
            → P (rs ++ a ∷ []))
        → OnDisk P d
        → OnDisk P (append_pending retention now a d).0
    unfolding append_pending
    append_pending-OnDisk a d keep v =
        with_records-OnDisk (append_records a) (load retention now d) (load-Loaded d v)
          (λ rs d' u w. append_records-OnDisk a rs d' (λ new. keep rs new u) w)

    pub replace-OnDisk :
        (a : ResetAudit) (d : AuditDisk)
        → ((rs : List ResetAudit) → P rs → P (replace_key a rs))
        → OnDisk P d
        → OnDisk P (replace retention now a d).0
    unfolding replace
    replace-OnDisk a d keep v =
        with_records-OnDisk (replace_records a) (load retention now d) (load-Loaded d v)
          (λ rs d' u w. write_if-OnDisk _ (replace_key a rs) d' _ (keep rs u) w)

    pub delete_before-OnDisk :
        (cutoff : Time) (d : AuditDisk)
        → ((rs : List ResetAudit) → P rs → P (unexpired cutoff rs))
        → OnDisk P d
        → OnDisk P (delete_before retention now cutoff d).0
    unfolding delete_before
    delete_before-OnDisk cutoff d keep v =
        with_records-OnDisk (delete_records cutoff) (load retention now d) (load-Loaded d v)
          (λ rs d' u w. write_if-OnDisk _ (unexpired cutoff rs) d' _ (keep rs u) w)

    pub recover_pending-OnDisk :
        (at : Time) (d : AuditDisk)
        → ((rs : List ResetAudit) → P rs → P (recover at rs))
        → OnDisk P d
        → OnDisk P (recover_pending retention now at d).0
    unfolding recover_pending
    recover_pending-OnDisk at d keep v =
        with_records-OnDisk (recover_records at) (load retention now d) (load-Loaded d v)
          (λ rs d' u w. write_if-OnDisk _ (recover at rs) d' _ (keep rs u) w)
