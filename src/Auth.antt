-- ===== src/Auth.antt =====
-- libs/sirius-auth/src/auth.guard.ts: `canActivate`, of the route's public mark, the request's
-- authorization header and the setting `SIRIUS_API_KEYS`.
mod Tests
pub mod Keys
use sirius_gateway.Base.{
  String, Bool, true, false, List, [], ◌∷◌, Option, some, none, if◌then◌else◌, ◌==◌, not, is_blank,
  any, filter, map, split_on, trim, after_prefix, truthy,
}
use sirius_gateway.OpenAi.Errors.{OpenAiErrorResponse}

-- How a request fares: a public route, a request with a valid key, or a refusal (status 401) with
-- its body.
pub data Access : Type 0 where
  open_route : Access
  granted : (api_key : String) → Access
  unauthorized : OpenAiErrorResponse → Access

abbrev invalid_api_key : OpenAiErrorResponse
invalid_api_key = record {
  message = "Invalid API key provided.";
  type = "authentication_error";
  code = some "invalid_api_key";
}

pub valid_keys : Option String → List String
valid_keys none = []
valid_keys (some setting) = filter (λ k. not (is_blank k)) (map trim (split_on b',' setting))

-- The check of a bearer token, if there is one.
check_token : Option String → List String → Access
check_token none keys = unauthorized invalid_api_key
check_token (some token) keys =
    if any (λ k. k == token) keys then granted token else unauthorized invalid_api_key

abbrev pub bearer : Option String → Option String
bearer none = none
bearer (some header) = after_prefix "Bearer " header

pub can_activate : (is_public : Bool) → (authorization setting : Option String) → Access
unfolding check_token valid_keys
can_activate is_public authorization setting =
    if is_public
    then open_route
    else check_token (bearer (truthy authorization)) (valid_keys setting)
