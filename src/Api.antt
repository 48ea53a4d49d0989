-- ===== src/Api.antt =====
-- apps/sirius-api/src: exception.filter.ts (`catch`) and controllers/embeddings.controller.ts
-- (`createEmbeddings`), whose catch block the other controllers have too.
mod Tests
pub mod Filtering
pub mod Failures
pub mod Answers
pub mod Health
pub mod Models
pub mod ChatStream
pub mod ResponsesStream
pub mod Completions
use sirius_gateway.Base.{
  ℕ, String, Bool, true, false, List, [], ◌∷◌, Option, some, none, if◌then◌else◌, nat_eq, ◌&◌,
}
use mathlib.Core.Option.{get_or}
use sirius_gateway.Core.Numbers.{Numbers}
use sirius_gateway.Core.Messages.{UnifiedEmbeddingRequest, UnifiedEmbeddingResponse}
use sirius_gateway.Observability.UsageRecorder.{UsageRecorderInput}
use sirius_gateway.OpenAi.Types.{OpenAiEmbeddingRequest, OpenAiEmbeddingResponse}
use sirius_gateway.OpenAi.Errors.{
  OpenAiErrorResponse, HttpError, Parsed, parsed, refused, format_error,
}
use sirius_gateway.OpenAi.EmbeddingRequests.{parse_embedding_request}
use sirius_gateway.OpenAi.Replies.{format_embedding_response}
use sirius_gateway.Routing.Service.{Sources}
use sirius_gateway.Policy.Breaker.{Settings, error_message}
use sirius_gateway.Gateway.Providers.{Provider}
use sirius_gateway.Gateway.Streams.{all_failed_message}
use sirius_gateway.Gateway.Responses.{
  Reply, replied, no_provider, not_registered, all_failed, failed, GatewayState, create_embeddings,
}

-- What `getResponse` of an HttpException gives: a text, an error body as of `formatError`, or the
-- framework's own object.
pub data ExceptionResponse : Type 0 where
  text : String → ExceptionResponse
  error_body : OpenAiErrorResponse → ExceptionResponse
  plain_body : (status_code : ℕ) (message : String) (error : Option String) → ExceptionResponse

-- `not_error` is a thrown value that is no Error.
pub data Exception : Type 0 where
  http : (status : ℕ) (message : String) → ExceptionResponse → Exception
  thrown : (message : String) → Exception
  not_error : Exception

-- What the client is sent: a result (status 200), a refusal, or nothing because it has gone.
pub data Sent (R : Type 0) : Type 0 where
  sent : R → Sent R
  rejected : (status : ℕ) → ExceptionResponse → Sent R
  nothing : Sent R

abbrev pub internal_server_error : ℕ
internal_server_error = 500

-- `'error' in exResponse`
has_error : ExceptionResponse → Bool
has_error (text t) = false
has_error (error_body e) = true
has_error (plain_body status message (some e)) = true
has_error (plain_body status message none) = false

-- The filter's own table.
filter_type : ℕ → Option String
filter_type status =
    if nat_eq status 400
    then some "invalid_request_error"
    else if nat_eq status 401
    then some "authentication_error"
    else if nat_eq status 403
    then some "permission_error"
    else if nat_eq status 404
    then some "not_found_error"
    else if nat_eq status 429
    then some "rate_limit_error"
    else if nat_eq status 500
    then some "server_error"
    else none

-- The body that the filter makes.
filter_body : ℕ → String → OpenAiErrorResponse
unfolding filter_type
filter_body status message = record {
  message = message;
  type = get_or (filter_type status) "api_error";
  code = none;
}

-- GatewayExceptionFilter.catch
pub filter_exception : {R : Type 0} → Exception → Sent R
unfolding has_error filter_body
filter_exception (http status message response) =
    if has_error response
    then rejected status response
    else rejected status (error_body (filter_body status message))
filter_exception (thrown message) =
    rejected internal_server_error
      (error_body (filter_body internal_server_error "Internal server error"))
filter_exception not_error =
    rejected internal_server_error
      (error_body (filter_body internal_server_error "Internal server error"))

-- The catch block of a controller; `gone`: the client has closed its connection by then.
pub reply_error : {R : Type 0} → (gone : Bool) → Exception → Sent R
reply_error true e = nothing
reply_error false (http status message response) = rejected status response
reply_error false (thrown message) =
    rejected internal_server_error
      (error_body (format_error internal_server_error message none none))
reply_error false not_error =
    rejected internal_server_error
      (error_body (format_error internal_server_error "Internal server error" none none))

pub embedding_usage : {N : Type 0} → String → UnifiedEmbeddingResponse N → UsageRecorderInput N
embedding_usage request_id response = record {
  provider = response.provider;
  model = response.model;
  kind = "embedding";
  prompt_tokens = response.usage.input_tokens;
  completion_tokens = response.usage.output_tokens;
  total_tokens = response.usage.total_tokens;
  latency_ms = response.latency_ms;
  request_id = request_id;
  route = none;
}

-- The text of the error that a gateway call throws, if it does.
pub thrown_message : {R : Type 0} → (printed : ℕ → String) → Reply R → String
thrown_message printed (replied r) = ""
thrown_message printed (no_provider reason) = reason
thrown_message printed (not_registered name) = "Provider \"" & name & "\" not registered"
thrown_message printed (all_failed last model) = all_failed_message printed last model
thrown_message printed (failed e) = error_message printed e

-- What a call of a controller does: what is sent, and what the usage recorder gets.
pub record Outcome (R N : Type 0) : Type 0 where
  pub sent : Sent R
  pub recorded : List (UsageRecorderInput N)

module _ (F : Numbers) (J : Type 0) (printed : ℕ → String) (gone : Bool) (request_id : String) where
  open F use {Num}

  abbrev pub EmbeddingOutcome : Type 0
  EmbeddingOutcome = Outcome (OpenAiEmbeddingResponse Num) Num

  -- The end of the handler, after the gateway's call.
  pub answer_embeddings : Reply (UnifiedEmbeddingResponse Num) → EmbeddingOutcome
  unfolding embedding_usage thrown_message reply_error
  answer_embeddings (replied response) = record {
    sent = sent (format_embedding_response response);
    recorded = embedding_usage request_id response ∷ [];
  }
  answer_embeddings reply = record {
    sent = reply_error gone (thrown (thrown_message printed reply));
    recorded = [];
  }

  embeddings_of :
      Settings
      → Sources (Provider F J) Num
      → Parsed UnifiedEmbeddingRequest
      → GatewayState Num
      → EmbeddingOutcome × GatewayState Num
  unfolding answer_embeddings reply_error
  embeddings_of s sources (refused e) st = (
    record {
      sent = reply_error gone (http e.status "Http Exception" (error_body e.body));
      recorded = [];
    },
    st,
  )
  embeddings_of s sources (parsed request) st =
      let x = create_embeddings F J s sources request st in (answer_embeddings x.0, x.1)

  -- EmbeddingsController.createEmbeddings
  pub post_embeddings :
      Settings
      → Sources (Provider F J) Num
      → OpenAiEmbeddingRequest
      → GatewayState Num
      → EmbeddingOutcome × GatewayState Num
  unfolding embeddings_of
  post_embeddings s sources body st =
      embeddings_of s sources (parse_embedding_request body request_id) st
