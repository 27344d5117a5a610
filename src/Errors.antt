-- ===== src/Errors.antt =====
-- src/lib/errors.ts: typed application errors, and results that may fail with one. A plain `Error`
-- is `internal_error`.
use production_backend_found.Prelude.{
  ℕ, Bool, true, false, max, Option, none, some, ◌≡◌, refl, ◌⊎◌, inl, inr,
}

pub data ErrorCode : Type 0 where
  bad_request unauthenticated forbidden not_found conflict rate_limited : ErrorCode
  service_unavailable invalid_csrf_token internal_error : ErrorCode

pub record AppError : Type 0 where
  pub status_code : ℕ
  pub code : ErrorCode
  pub retry_after_seconds : Option ℕ

abbrev plain : ℕ → ErrorCode → AppError
plain s c = record { status_code = s; code = c; retry_after_seconds = none }

abbrev pub bad_request_error : AppError
bad_request_error = plain 400 bad_request

abbrev pub unauthenticated_error : AppError
unauthenticated_error = plain 401 unauthenticated

abbrev pub forbidden_error : AppError
forbidden_error = plain 403 forbidden

abbrev pub not_found_error : AppError
not_found_error = plain 404 not_found

abbrev pub conflict_error : AppError
conflict_error = plain 409 conflict

abbrev pub rate_limited_error : ℕ → AppError
rate_limited_error seconds = record {
  status_code = 429;
  code = rate_limited;
  retry_after_seconds = some (max 1 seconds);
}

abbrev pub service_unavailable_error : AppError
service_unavailable_error = plain 503 service_unavailable

-- `throw new Error(…)`, which the error handler answers with 500.
abbrev pub plain_error : AppError
plain_error = plain 500 internal_error

-- What code that may throw returns.
pub data Result {ℓ} (R : Type ℓ) : Type ℓ where
  err : AppError → Result R
  ok : R → Result R

infixl 5 ◌>>=◌ ◌>>◌
abbrev pub ◌>>=◌ {ℓ κ} : {R : Type ℓ} {S : Type κ} → Result R → (R → Result S) → Result S
err thrown >>= next = err thrown
ok value >>= next = next value

-- `if (test) throw e`.
abbrev pub throw_if : Bool → AppError → Result (Unit {0})
throw_if true e = err e
throw_if false e = ok tt

abbrev pub ◌>>◌ {ℓ} : {S : Type ℓ} → Result (Unit {0}) → Result S → Result S
err thrown >> next = err thrown
ok _ >> next = next

-- `if (!value) throw e`.
abbrev pub or_throw {ℓ} : {A : Type ℓ} → Option A → AppError → Result A
or_throw none e = err e
or_throw (some a) e = ok a

pub Result-cases {ℓ} :
    {A : Type ℓ} (r : Result A) → ((a : A) × (r ≡ ok a)) ⊎ ((e : AppError) × (r ≡ err e))
Result-cases (ok a) = inl (a, refl)
Result-cases (err e) = inr (e, refl)
