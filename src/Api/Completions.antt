-- ===== src/Api/Completions.antt =====
-- apps/sirius-api/src/controllers: chat-completions.controller.ts (`chatCompletions`) and
-- responses.controller.ts (`responses`), from the body to what is sent.
mod Tests
pub mod Answers
pub mod Routes
pub mod EndToEnd
use sirius_gateway.Base.{
  ℕ, suc, String, Bool, List, [], ◌∷◌, Option, some, none, if◌then◌else◌, ◌&◌,
}
use sirius_gateway.Core.Numbers.{Numbers}
use sirius_gateway.Core.Messages.{UnifiedAiRequest, UnifiedAiResponse, UnifiedStreamEvent}
use sirius_gateway.Observability.UsageRecorder.{UsageRecorderInput}
use sirius_gateway.OpenAi.Types.{
  OpenAiChatCompletionRequest, OpenAiChatCompletion, OpenAiResponsesRequest,
  OpenAiResponsesResponse,
}
use sirius_gateway.OpenAi.Errors.{Parsed, parsed, refused}
use sirius_gateway.OpenAi.ChatRequests.{parse_chat_completion_request}
use sirius_gateway.OpenAi.ResponsesRequests.{parse_responses_request}
use sirius_gateway.OpenAi.Replies.{format_chat_completion_response}
use sirius_gateway.OpenAi.ResponsesReplies.{format_responses_response}
use sirius_gateway.Routing.Service.{Sources}
use sirius_gateway.Policy.Breaker.{Settings}
use sirius_gateway.Gateway.Providers.{Provider}
use sirius_gateway.Gateway.Responses.{Reply, replied, GatewayState, Response, create_response}
use sirius_gateway.Gateway.Streams.{stream_response}
use sirius_gateway.Api.{http, thrown, error_body, sent, reply_error, thrown_message, Outcome}
use sirius_gateway.Api.ChatStream.{Frame, Step, StreamEnd, exhausted, threw, chat_frames}
use sirius_gateway.Api.ResponsesStream.{ResponsesFrame, responses_frames}

-- What a route does: one answer, or the frames of a stream.
pub data Served (R W N : Type 0) : Type 0 where
  answered : Outcome R N → Served R W N
  streamed : List W → Served R W N

-- What the client and the clock do while a stream runs: whether the connection is closed at event
-- number `i`, the time in seconds then, and whether it is closed at the end.
pub record Viewing : Type 0 where
  pub closed : ℕ → Bool
  pub clock : ℕ → ℕ
  pub gone : Bool

pub steps_from : Viewing → ℕ → List UnifiedStreamEvent → List Step
steps_from v i [] = []
steps_from v i (e ∷ events) =
    record { event = e; closed = v.closed i; now = v.clock i } ∷ steps_from v (suc i) events

abbrev pub ending_of : Option String → StreamEnd
ending_of none = exhausted
ending_of (some message) = threw message

module _ (F : Numbers) (J : Type 0) (printed : ℕ → String) (s : Settings) (idle_timeout : ℕ)
    (v : Viewing) (request_id : String) where
  open F use {Num}

  pub completion_usage : (kind : String) → Response F J → UsageRecorderInput Num
  completion_usage kind (response, m) = record {
    provider = m.provider;
    model = m.model;
    kind = kind;
    prompt_tokens = response.usage.input_tokens;
    completion_tokens = response.usage.output_tokens;
    total_tokens = response.usage.total_tokens;
    latency_ms = response.latency_ms;
    request_id = request_id;
    route = some m.strategy;
  }

  module _ {R W : Type 0} (kind : String) (format : UnifiedAiResponse Num → R)
      (frames : (model : String) → List Step → StreamEnd → (gone : Bool) → List W) where
    pub answer : Reply (Response F J) → Outcome R Num
    unfolding completion_usage
    answer (replied x) = record {
      sent = sent (format x.0);
      recorded = completion_usage kind x ∷ [];
    }
    answer reply = record {
      sent = reply_error v.gone (thrown (thrown_message printed reply));
      recorded = [];
    }

    -- The route, once the body is parsed.
    pub serve :
        Sources (Provider F J) Num
        → Parsed (UnifiedAiRequest Num J)
        → GatewayState Num
        → Served R W Num × GatewayState Num
    unfolding answer steps_from
    serve sources (refused e) st = (
      answered (record {
        sent = reply_error v.gone (http e.status "Http Exception" (error_body e.body));
        recorded = [];
      }),
      st,
    )
    serve sources (parsed request) st =
        let x = stream_response F J printed s idle_timeout sources request st in
        let y = create_response F J s sources request st in
        if request.stream
        then (
          streamed
              (frames request.model (steps_from v 0 x.0.events) (ending_of x.0.refused) v.gone),
          x.1,
        )
        else (answered (answer y.0), y.1)

  -- ChatCompletionsController.chatCompletions
  pub post_chat_completions :
      (uuid : String)
      → (now : ℕ) → Sources (Provider F J) Num
      → OpenAiChatCompletionRequest Num J
      → GatewayState Num
      → Served OpenAiChatCompletion Frame Num × GatewayState Num
  unfolding serve
  post_chat_completions uuid now sources body =
      serve "chat" (format_chat_completion_response uuid now)
        (λ model. chat_frames ("chatcmpl-" & uuid) model) sources
        (parse_chat_completion_request F printed body request_id)

  -- ResponsesController.responses
  pub post_responses :
      (uuids : ℕ → String)
      → (now : ℕ) → Sources (Provider F J) Num
      → OpenAiResponsesRequest Num J
      → GatewayState Num
      → Served OpenAiResponsesResponse ResponsesFrame Num × GatewayState Num
  unfolding serve
  post_responses uuids now sources body =
      serve "responses" (format_responses_response uuids now)
        (λ model. responses_frames ("resp_" & uuids 0)) sources
        (parse_responses_request printed body request_id)
