-- ===== src/Api/Failures.antt =====
-- apps/sirius-api/src: how a call of the gateway fails, and the error that a client then reads.
use sirius_gateway.Base.{ℕ, String, some, none, ◌&◌, ◌⊎◌, inl, inr, ◌≡◌, refl}
use sirius_gateway.Policy.Breaker.{Error, error_message}
use sirius_gateway.Gateway.Responses.{
  Reply, replied, no_provider, not_registered, all_failed, failed,
}
use sirius_gateway.Api.{ExceptionResponse, error_body}

module _ {R : Type 0} (printed : ℕ → String) where
  -- A call that fails, with its message.
  pub data IsFailure : Reply R → String → Type 0 where
    no_route : (reason : String) → IsFailure (no_provider reason) reason
    unregistered :
        (name : String)
        → IsFailure (not_registered name) ("Provider \"" & name & "\" not registered")
    none_tried :
        (model : String)
        → IsFailure (all_failed none model) ("All providers failed for model \"" & model & "\"")
    last_failed :
        (e : Error) (model : String)
        → IsFailure
            (all_failed (some e) model)
            ("All providers failed. Last error: " & error_message printed e)
    failed_with : (e : Error) → IsFailure (failed e) (error_message printed e)

  pub Reply-cases :
      (reply : Reply R)
      → ((x : R) × (reply ≡ replied x)) ⊎ ((message : String) × IsFailure reply message)
  Reply-cases (replied x) = inl (x, refl)
  Reply-cases (no_provider reason) = inr (_, IsFailure.no_route reason)
  Reply-cases (not_registered name) = inr (_, IsFailure.unregistered name)
  Reply-cases (all_failed none model) = inr (_, IsFailure.none_tried model)
  Reply-cases (all_failed (some e) model) = inr (_, IsFailure.last_failed e model)
  Reply-cases (failed e) = inr (_, IsFailure.failed_with e)

-- The status and the body of a server error.
abbrev pub IsServerError : (message : String) → (status : ℕ) → ExceptionResponse → Type 0
IsServerError message status b =
    (status ≡ 500)
    × (b ≡ error_body (record { message = message; type = "server_error"; code = none }))
