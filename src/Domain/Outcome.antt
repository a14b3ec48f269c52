-- ===== src/Domain/Outcome.antt =====
-- internal/domain/quota.go, errors.go and reset.go: the outcomes, decisions and error codes. A
-- constructor `unset` is the empty string that a Go variable of the type starts with.
use codex_window_reset.Base.{ℕ, Bool, ◌≡◌, refl, ◌⊎◌, inl, inr}

pub data RequestOutcome : Type 0 where
  unset succeeded unauthorized forbidden payment_required rate_limited upstream_error :
      RequestOutcome
  network_error timeout response_error unexpected_output credential_error disabled : RequestOutcome

pub data WindowOutcome : Type 0 where
  unset verified_started already_active unchanged unverified not_observed : WindowOutcome

pub data QuotaDecision : Type 0 where
  unset proceed sufficient_window guardrail_hold quota_unknown_fail_open : QuotaDecision

pub data ErrorCode : Type 0 where
  unset config_invalid revision_conflict run_in_progress account_busy account_disabled : ErrorCode
  account_unavailable guardrail_hold quota_refresh_failed probe_failed window_unverified : ErrorCode
  idempotency_conflict reset_outcome_unknown store_corrupt : ErrorCode

-- A domain error, less its message and its correlation id, which no code path reads.
pub record DomainError : Type 0 where
  pub code : ErrorCode
  pub http_status : ℕ
  pub retryable : Bool

pub record ProbeResult : Type 0 where
  pub outcome : RequestOutcome
  pub http_status : ℕ
  pub latency_ms : ℕ
  pub error_code : ErrorCode
  pub retry_eligible : Bool

pub data Result {ℓ} (E A : Type ℓ) : Type ℓ where
  ok : A → Result E A
  err : E → Result E A

infixl 5 ◌>>=◌ ◌>>◌
abbrev pub ◌>>=◌ {ℓ} : {E A B : Type ℓ} → Result E A → (A → Result E B) → Result E B
ok a >>= f = f a
err e >>= f = err e

abbrev pub ◌>>◌ {ℓ} : {E A B : Type ℓ} → Result E A → Result E B → Result E B
ok a >> k = k
err e >> k = err e

pub ok-injective : {E A : Type 0} {a b : A} → ◌≡◌ {A = Result E A} (ok a) (ok b) → a ≡ b
ok-injective e = cc

pub Result-cases {ℓ} :
    {E A : Type ℓ} (r : Result E A) → ((a : A) × (r ≡ ok a)) ⊎ ((e : E) × (r ≡ err e))
Result-cases (ok a) = inl (a, refl)
Result-cases (err e) = inr (e, refl)
