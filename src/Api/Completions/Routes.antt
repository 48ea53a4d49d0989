-- ===== src/Api/Completions/Routes.antt =====
-- apps/sirius-api/src/controllers: chat-completions.controller.ts and responses.controller.ts: what
-- the two routes send and record.
use sirius_gateway.Base.{ℕ, String, Bool, true, false, List, ◌≡◌, refl, ◌&◌, if◌then◌else◌}
use sirius_gateway.Core.Numbers.{Numbers}
use sirius_gateway.Core.Messages.{UnifiedAiRequest, UnifiedAiResponse}
use sirius_gateway.OpenAi.Types.{OpenAiChatCompletionRequest, OpenAiResponsesRequest}
use sirius_gateway.OpenAi.Errors.{Parsed, parsed, refused}
use sirius_gateway.OpenAi.ChatRequests.{parse_chat_completion_request}
use sirius_gateway.OpenAi.ResponsesRequests.{parse_responses_request}
use sirius_gateway.OpenAi.Replies.{format_chat_completion_response}
use sirius_gateway.OpenAi.ResponsesReplies.{format_responses_response}
use sirius_gateway.Routing.Service.{Sources}
use sirius_gateway.Policy.Breaker.{Settings}
use sirius_gateway.Gateway.Providers.{Provider}
use sirius_gateway.Gateway.Responses.{GatewayState, create_response}
use sirius_gateway.Gateway.Streams.{stream_response}
use sirius_gateway.Api.Completions.Answers.{IsAnswer, answer-IsAnswer, refused-IsAnswer}
use sirius_gateway.Api.ChatStream.{Step, StreamEnd, chat_frames}
use sirius_gateway.Api.ResponsesStream.{responses_frames}
use sirius_gateway.Api.Completions.{
  Served, answered, streamed, Viewing, steps_from, ending_of, answer, serve, post_chat_completions,
  post_responses,
}

module _ (F : Numbers) (J : Type 0) (printed : ℕ → String) (s : Settings) (idle_timeout : ℕ)
    (v : Viewing) (request_id : String) (sources : Sources (Provider F J) (F.Num)) where
  open F use {Num}

  module _ {R W : Type 0} (kind : String) (format : UnifiedAiResponse Num → R)
      (frames : (model : String) → List Step → StreamEnd → (gone : Bool) → List W) where
    -- What a stream writes: the frames of the gateway's events.
    abbrev pub IsStreamed :
        Parsed (UnifiedAiRequest Num J) → GatewayState Num → List W → GatewayState Num → Type 0
    IsStreamed p st fs later =
        (request : UnifiedAiRequest Num J) × (p ≡ parsed request)
        × (request.stream ≡ true)
        × (later ≡ (stream_response F J printed s idle_timeout sources request st).1)
        × (fs
            ≡ frames request.model
                (steps_from v 0
                  (stream_response F J printed s idle_timeout sources request st).0.events)
                (ending_of
                  (stream_response F J printed s idle_timeout sources request st).0.refused)
                v.gone)

    -- What the route does for the outcome of the parser.
    abbrev pub IsServed :
        Parsed (UnifiedAiRequest Num J)
        → GatewayState Num
        → Served R W Num × GatewayState Num
        → Type 0
    IsServed p st (answered o, later) =
        IsAnswer F J printed s idle_timeout v request_id sources kind format frames p st o.sent
          o.recorded later
    IsServed p st (streamed fs, later) = IsStreamed p st fs later

    branch-IsServed :
        (request : UnifiedAiRequest Num J) (st : GatewayState Num) (live : Bool)
        → request.stream ≡ live
        → let x = stream_response F J printed s idle_timeout sources request st in
          let y = create_response F J s sources request st in
          IsServed (parsed request) st (
            if live
            then (
              streamed
                  (frames request.model (steps_from v 0 x.0.events) (ending_of x.0.refused) v.gone),
              x.1,
            )
            else (
              answered (answer F J printed s idle_timeout v request_id kind format frames y.0),
              y.1,
            ))
    branch-IsServed request st true h = (request, refl, h, refl, refl)
    branch-IsServed request st false h =
        answer-IsAnswer F J printed s idle_timeout v request_id sources kind format frames request h
          (create_response F J s sources request st).0 st
          (create_response F J s sources request st).1 refl

    serve-IsServed :
        (p : Parsed (UnifiedAiRequest Num J)) (st : GatewayState Num)
        → IsServed p st
            (serve F J printed s idle_timeout v request_id kind format frames sources p st)
    unfolding serve
    serve-IsServed (refused e) st =
        refused-IsAnswer F J printed s idle_timeout v request_id sources kind format frames e st
          v.gone refl
    serve-IsServed (parsed request) st = branch-IsServed request st request.stream refl

  -- What the chat route sends, if the parser takes the body: for a request that streams the frames
  -- of the gateway's events; else the formatted response, exactly if the gateway replies, and then
  -- its usage is recorded, or, exactly if the gateway fails, a server error with the failure's
  -- message. If the parser refuses, its refusal is sent and the gateway's state is as it was. After a
  -- failure nothing is recorded, and nothing is sent exactly if the client has gone.
  pub post_chat_completions-IsServed :
      (uuid : String) (now : ℕ) (body : OpenAiChatCompletionRequest Num J) (st : GatewayState Num)
      → IsServed "chat"
          (format_chat_completion_response uuid now)
          (λ model. chat_frames ("chatcmpl-" & uuid) model)
          (parse_chat_completion_request F printed body request_id)
          st
          (post_chat_completions F J printed s idle_timeout v request_id uuid now sources body st)
  unfolding post_chat_completions
  post_chat_completions-IsServed uuid now body st =
      serve-IsServed "chat" (format_chat_completion_response uuid now)
        (λ model. chat_frames ("chatcmpl-" & uuid) model) _ st

  -- What the Responses route sends: the same, in its own formats.
  pub post_responses-IsServed :
      (uuids : ℕ → String) (now : ℕ) (body : OpenAiResponsesRequest Num J) (st : GatewayState Num)
      → IsServed "responses"
          (format_responses_response uuids now)
          (λ model. responses_frames ("resp_" & uuids 0))
          (parse_responses_request printed body request_id)
          st
          (post_responses F J printed s idle_timeout v request_id uuids now sources body st)
  unfolding post_responses
  post_responses-IsServed uuids now body st =
      serve-IsServed "responses" (format_responses_response uuids now)
        (λ model. responses_frames ("resp_" & uuids 0)) _ st
