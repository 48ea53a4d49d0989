-- ===== src/OpenAi/Errors.antt =====
-- libs/sirius-compat-openai/src/openai-compat.service.ts: `formatError` and `createHttpError`.
pub mod Refusals
use sirius_gateway.Base.{ℕ, String, Option, some, none, or_else, if◌then◌else◌, nat_eq}
use mathlib.Core.Option.{get_or}

-- The body of an error reply; its `param` is always null.
pub record OpenAiErrorResponse : Type 0 where
  pub message : String
  pub type : String
  pub code : Option String

pub record HttpError : Type 0 where
  pub body : OpenAiErrorResponse
  pub status : ℕ

abbrev bad_request : ℕ
bad_request = 400

unfoldable pub error_type : ℕ → Option String
error_type status =
    if nat_eq status 400
    then some "invalid_request_error"
    else if nat_eq status 401
    then some "authentication_error"
    else if nat_eq status 403
    then some "permission_error"
    else if nat_eq status 404
    then some "not_found_error"
    else if nat_eq status 429
    then some "rate_limit_error"
    else if nat_eq status 500
    then some "server_error"
    else if nat_eq status 503
    then some "service_unavailable_error"
    else none

unfoldable pub format_error : ℕ → String → (type code : Option String) → OpenAiErrorResponse
unfolding error_type
format_error status message type code = record {
  message = message;
  type = get_or (or_else type (error_type status)) "api_error";
  code = code;
}

pub create_http_error : ℕ → String → (type code : Option String) → HttpError
unfolding format_error
create_http_error status message type code = record {
  body = format_error status message type code;
  status = status;
}

-- What a converter of requests comes to.
pub data Parsed (A : Type 0) : Type 0 where
  parsed : A → Parsed A
  refused : HttpError → Parsed A

-- A refusal with status 400; the code is left out where the source leaves it out.
unfoldable pub invalid_request : {A : Type 0} → String → Option String → Parsed A
unfolding create_http_error
invalid_request message code =
    refused (create_http_error bad_request message (some "invalid_request_error") code)

-- The first refusal, or the second result.
abbrev pub and_then : {A B : Type 0} → Parsed A → (A → Parsed B) → Parsed B
and_then (parsed a) f = f a
and_then (refused e) f = refused e
