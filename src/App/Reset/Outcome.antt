-- ===== src/App/Reset/Outcome.antt =====
-- What the outcome of a consume call is recorded as.
use codex_window_reset.Base.{◌≤◌, ◌<◌, Option, none, some, ◌≡◌, ◌≢◌, ◌⊎◌, ◌↔◌, arith}
use codex_window_reset.Domain.Operation.{ResetOutcome, ResetHttpResult}
use codex_window_reset.App.Reset.{CallFailure, final_reset_outcome}

-- A reset is recorded as succeeded exactly when the call did not fail and its status is from 200 to
-- 299; as unknown exactly when the call ran out of time or brought no status; and never as pending.
pub final_reset_outcome_lem :
    (result : ResetHttpResult) (failure : Option CallFailure)
    → ((final_reset_outcome result failure ≡ ResetOutcome.succeeded)
        ↔ ((failure ≡ none) × (200 ≤ result.status_code) × (result.status_code < 300)))
      × ((final_reset_outcome result failure ≡ ResetOutcome.unknown)
          ↔ ((failure ≡ some CallFailure.deadline_exceeded) ⊎ (result.status_code ≡ 0)))
      × (final_reset_outcome result failure ≢ ResetOutcome.pending)
unfolding final_reset_outcome
final_reset_outcome_lem result none = (
  (λ h. ground arith, λ h. ground arith),
  (λ h. ground arith, λ h. ground arith),
  λ h. ground arith,
)
final_reset_outcome_lem result (some CallFailure.deadline_exceeded) = (
  (λ h. ground arith, λ h. ground arith),
  (λ h. ground arith, λ h. ground arith),
  λ h. ground arith,
)
final_reset_outcome_lem result (some CallFailure.other_failure) = (
  (λ h. ground arith, λ h. ground arith),
  (λ h. ground arith, λ h. ground arith),
  λ h. ground arith,
)
