-- ===== src/Api/Filtering.antt =====
-- apps/sirius-api/src: what the exception filter answers.
use sirius_gateway.Base.{
  ℕ, String, true, false, none, if◌then◌else◌, nat_eq, ◌≡◌, refl, Bool-cases, inl, inr, subst, sym,
  ap, arith,
}
use sirius_gateway.OpenAi.Errors.{OpenAiErrorResponse, error_type, format_error}
use sirius_gateway.Api.{
  text, error_body, http, rejected, filter_exception, reply_error, filter_type, filter_body,
  has_error,
}

-- The body that the filter makes for a status has the type of `formatError`, except for 503.
abbrev pub expected_body : ℕ → String → OpenAiErrorResponse
expected_body status message =
    if nat_eq status 503
    then record { message = message; type = "api_error"; code = none }
    else format_error status message none none

is_503 : (n : ℕ) → nat_eq n 503 ≡ true → n ≡ 503
is_503 n h = ground arith

filter_body_lem :
    (status : ℕ) (message : String) → filter_body status message ≡ expected_body status message
unfolding filter_body filter_type format_error error_type
filter_body_lem status message = elim (Bool-cases (nat_eq status 503)) [
  | inl e ↦
      subst (λ n. filter_body n message ≡ expected_body n message) (sym (is_503 status e)) refl
  | inr e ↦ rw (e) refl
]

module _ (R : Type 0) where
  -- The exception filter answers an HttpException that holds an error body as a controller does,
  -- and one that holds a text with the body of `formatError`, except that the type is "api_error"
  -- for status 503.
  pub filter_exception_lem :
      (status : ℕ) (message t : String) (e : OpenAiErrorResponse)
      → (filter_exception {R = R} (http status message (error_body e))
          ≡ reply_error false (http status message (error_body e)))
        × (filter_exception {R = R} (http status message (text t))
            ≡ rejected status (error_body (expected_body status message)))
  unfolding filter_exception reply_error has_error
  filter_exception_lem status message t e =
      (refl, ap (λ b. rejected status (error_body b)) (filter_body_lem status message))
