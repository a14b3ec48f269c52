-- ===== src/App/Reset/Audits.antt =====
-- ListResetAudit and ClearResetAudit of internal/app/reset.go.
use codex_window_reset.Base.{
  ℕ, String, false, not, List, [], Option, none, some, ◌≡◌, ◌≢◌, refl, ◌⊎◌, inl, inr, Bool-cases,
  if◌then◌else◌,
}
use codex_window_reset.Base.Text.{str_eq, eq_iff}
use codex_window_reset.Domain.Outcome.{ErrorCode, DomainError, Result, ok, err}
use codex_window_reset.Domain.Operation.{ResetAudit}
use codex_window_reset.Store.Disk.{StoreError, write_atomic-Wrote}
use codex_window_reset.Store.Audit
use codex_window_reset.Store.Audit.{AuditDisk, stored, document}
use codex_window_reset.App.Reset.{Resets, app_error, reset_store_error, failed_with}

abbrev listed :
    Resets
    → AuditDisk × Result StoreError (List ResetAudit)
    → Resets × Result DomainError (List ResetAudit)
listed s (d, ok rs) = (record s { audit = d }, ok rs)
listed s (d, err e) = (failed_with e (record s { audit = d }), err (reset_store_error e))

unfoldable pub list_reset_audit : ℕ → Resets → Resets × Result DomainError (List ResetAudit)
list_reset_audit retention s = listed s (Audit.load retention s.now s.audit)

abbrev pub cleared : Resets → AuditDisk × Result StoreError Unit → Resets × Option DomainError
cleared s (d, ok u) = (record s { audit = d; store_error = ErrorCode.unset }, none)
cleared s (d, err e) = (failed_with e (record s { audit = d }), some (reset_store_error e))

unfoldable pub clear_reset_audit : String → Resets → Resets × Option DomainError
clear_reset_audit phrase s =
    if not (str_eq phrase "DELETE AUDIT")
    then (s, some (app_error ErrorCode.config_invalid 400 false))
    else cleared s (Audit.clear s.audit)

-- ClearResetAudit changes nothing without the exact phrase; with it, it reports no error and leaves
-- no audit on disk, or reports one and leaves the document as it was or without audits.
pub clear_reset_audit_lem :
    (phrase : String) (s : Resets)
    → ((phrase ≢ "DELETE AUDIT") × ((clear_reset_audit phrase s).0 ≡ s))
      ⊎ ((phrase ≡ "DELETE AUDIT")
          × ((stored (clear_reset_audit phrase s).0.audit ≡ ok [])
              ⊎ (((clear_reset_audit phrase s).0.audit.file ≡ s.audit.file)
                  × ((e : DomainError) × ((clear_reset_audit phrase s).1 ≡ some e)))))
unfolding clear_reset_audit Audit.clear
clear_reset_audit_lem phrase s = elim (Bool-cases (str_eq phrase "DELETE AUDIT")) [
  | inr other ↦ rw other (inl (refused other, refl))
  | inl exact ↦
      let (fs, c) = write_atomic-Wrote (document []) s.audit in
      let same : phrase ≡ "DELETE AUDIT" = (eq_iff phrase "DELETE AUDIT").0 exact in
      elim c [
        | inl w ↦ rw (exact, w) (inr (same, inl refl))
        | inr (inl w) ↦ rw (exact, w) (inr (same, inr (refl, (_, refl))))
        | inr (inr w) ↦ rw (exact, w) (inr (same, inl refl))
      ]
]
  where
    refused : str_eq phrase "DELETE AUDIT" ≡ false → phrase ≢ "DELETE AUDIT"
    refused other e = cc (other, (eq_iff phrase "DELETE AUDIT").1 e)
