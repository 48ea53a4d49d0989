-- ===== src/OpenAi/Errors/Refusals.antt =====
-- libs/sirius-compat-openai/src/openai-compat.service.ts: the refusals of the request converters.
use sirius_gateway.Base.{String, Bool, true, false, Option, ◌&&◌, ◌≡◌, refl}
use sirius_gateway.OpenAi.Errors.{
  HttpError, Parsed, parsed, refused, invalid_request, create_http_error, format_error, and_then,
}

abbrev pub is_parsed : {A : Type 0} → Parsed A → Bool
is_parsed (parsed a) = true
is_parsed (refused e) = false

-- A refusal as the client sees it: status 400, `invalid_request_error`.
abbrev pub IsBadRequest : HttpError → Type 0
IsBadRequest e = (e.status ≡ 400) × (e.body.type ≡ "invalid_request_error")

-- A refusal, if it is one, is such a one.
abbrev pub OnlyBadRequests : {A : Type 0} → Parsed A → Type 0
OnlyBadRequests (parsed a) = Unit {0}
OnlyBadRequests (refused e) = IsBadRequest e

module _ (A : Type 0) where
  pub invalid_request-OnlyBadRequests :
      (message : String) (code : Option String)
      → OnlyBadRequests (invalid_request {A = A} message code)
  unfolding invalid_request create_http_error format_error
  invalid_request-OnlyBadRequests message code = (refl, refl)

module _ {A B : Type 0} where
  pub is_parsed-and_then :
      (b : Bool) (x : Parsed A) (f : A → Parsed B)
      → ((a : A) → is_parsed (f a) ≡ b)
      → is_parsed (and_then x f) ≡ (is_parsed x && b)
  is_parsed-and_then b (parsed a) f h = h a
  is_parsed-and_then b (refused e) f h = refl

  pub and_then-OnlyBadRequests :
      (x : Parsed A) (f : A → Parsed B)
      → OnlyBadRequests x
      → ((a : A) → OnlyBadRequests (f a))
      → OnlyBadRequests (and_then x f)
  and_then-OnlyBadRequests (parsed a) f h k = k a
  and_then-OnlyBadRequests (refused e) f h k = h
