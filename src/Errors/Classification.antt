-- ===== src/Errors/Classification.antt =====
-- What the classification of an HTTP response promises to the retry loop and to startup.
use homebridge_myalarmcom.Common.{ℕ, ◌≤◌, ◌≡◌, ◌⊎◌, ◌↔◌, ◌&&◌, Bool, true, false, Option, arith}
use homebridge_myalarmcom.Errors.{is_retryable, is_authentication, create_api_error}

-- An HTTP failure is retryable exactly when its status is 401, 429 or at least 500.
create_api_error-is_retryable :
    (status : ℕ) (marked : Bool) (wait : Option ℕ)
    → (is_retryable (create_api_error status marked wait) ≡ true)
      ↔ ((status ≡ 401) ⊎ ((status ≡ 429) ⊎ (500 ≤ status)))
unfolding is_retryable create_api_error
create_api_error-is_retryable status marked wait = (λ h. ground arith, λ h. ground arith)

-- A response is read as a rejected sign-in exactly when it is a 409 whose body carries the
-- two-factor marker, and no response is both that and retryable.
create_api_error-is_authentication :
    (status : ℕ) (marked : Bool) (wait : Option ℕ)
    → let error = create_api_error status marked wait in
      ((is_authentication error ≡ true) ↔ ((status ≡ 409) × (marked ≡ true)))
      × ((is_authentication error && is_retryable error) ≡ false)
unfolding is_retryable is_authentication create_api_error
create_api_error-is_authentication status marked wait =
    ((λ h. ground arith, λ h. ground arith), ground arith)

-- An HTTP failure is retryable exactly when its status is 401, 429 or at least 500; it is read as a
-- rejected sign-in exactly when it is a 409 whose body carries the two-factor marker; and no failure
-- is both.
pub create_api_error_facts :
    (status : ℕ) (marked : Bool) (wait : Option ℕ)
    → let error = create_api_error status marked wait in
      ((is_retryable error ≡ true) ↔ ((status ≡ 401) ⊎ ((status ≡ 429) ⊎ (500 ≤ status))))
      × ((is_authentication error ≡ true) ↔ ((status ≡ 409) × (marked ≡ true)))
      × ((is_authentication error && is_retryable error) ≡ false)
create_api_error_facts status marked wait =
    let (as_sign_in, not_both) = create_api_error-is_authentication status marked wait in
    (create_api_error-is_retryable status marked wait, as_sign_in, not_both)
