-- ===== src/Api/Completions/Answers.antt =====
-- apps/sirius-api/src/controllers: chat-completions.controller.ts and responses.controller.ts: what
-- the two routes answer and record.
use sirius_gateway.Base.{
  inl, inr, some, ap, ◌∙◌, ℕ, String, Bool, true, false, List, [], ◌∷◌, ◌≡◌, refl,
}
use sirius_gateway.Core.Numbers.{Numbers}
use sirius_gateway.Core.Messages.{UnifiedAiRequest, UnifiedAiResponse}
use sirius_gateway.Observability.UsageRecorder.{UsageRecorderInput}
use sirius_gateway.OpenAi.Errors.{HttpError, Parsed, parsed, refused, error_type, format_error}
use sirius_gateway.Routing.Service.{Sources}
use sirius_gateway.Policy.Breaker.{Settings}
use sirius_gateway.Gateway.Providers.{Provider}
use sirius_gateway.Gateway.Responses.{Reply, replied, GatewayState, Response, create_response}
use sirius_gateway.Gateway.Streams.{all_failed_message}
use sirius_gateway.Api.Failures.{IsFailure, Reply-cases, IsServerError}
use sirius_gateway.Api.{
  thrown_message, ExceptionResponse, error_body, http, thrown, Sent, sent, rejected, nothing,
  reply_error,
}
use sirius_gateway.Api.ChatStream.{Step, StreamEnd}
use sirius_gateway.Api.Completions.{Viewing, completion_usage, answer}

module _ (F : Numbers) (J : Type 0) (printed : ℕ → String) (s : Settings) (idle_timeout : ℕ)
    (v : Viewing) (request_id : String) (sources : Sources (Provider F J) (F.Num)) where
  open F use {Num}

  module _ {R W : Type 0} (kind : String) (format : UnifiedAiResponse Num → R)
      (frames : (model : String) → List Step → StreamEnd → (gone : Bool) → List W) where
    -- A failure: of the parser, with the state as it was, or of the gateway, with its message, for a
    -- request that does not stream.
    abbrev pub IsFailed :
        Parsed (UnifiedAiRequest Num J) → GatewayState Num → GatewayState Num → Type 0
    IsFailed (refused e) st later = later ≡ st
    IsFailed (parsed request) st later =
        (reply : Reply (Response F J)) × (message : String) × (create_response F J s sources request
            st
          ≡ (reply, later))
        × (request.stream ≡ false)
        × IsFailure printed reply message

    -- What a failure that is answered says.
    abbrev pub IsRefusal :
        (p : Parsed (UnifiedAiRequest Num J))
        → (st later : GatewayState Num) → IsFailed p st later
        → ℕ
        → ExceptionResponse
        → Type 0
    IsRefusal (refused e) st later h status b = (status ≡ e.status) × (b ≡ error_body e.body)
    IsRefusal (parsed request) st later (reply, message, e, w, f) status b =
        IsServerError message status b

    -- The counts of a response, the names of the link of the chain that gave it, and its strategy.
    abbrev pub IsUsage : Response F J → UsageRecorderInput Num → Type 0
    IsUsage (response, m) u =
        (u.provider ≡ m.provider)
        × (u.model ≡ m.model)
        × (u.kind ≡ kind)
        × (u.prompt_tokens ≡ response.usage.input_tokens)
        × (u.completion_tokens ≡ response.usage.output_tokens)
        × (u.total_tokens ≡ response.usage.total_tokens)
        × (u.latency_ms ≡ response.latency_ms)
        × (u.request_id ≡ request_id)
        × (u.route ≡ some m.strategy)

    -- What is answered, and recorded: nothing but a response is.
    abbrev pub IsAnswer :
        Parsed (UnifiedAiRequest Num J)
        → GatewayState Num
        → Sent R
        → List (UsageRecorderInput Num)
        → GatewayState Num
        → Type 0
    IsAnswer p st (sent r) recorded later =
        (request : UnifiedAiRequest Num J) × (p ≡ parsed request)
        × (request.stream ≡ false)
        × ((x : Response F J) × (create_response F J s sources request st ≡ (replied x, later))
            × (r ≡ format x.0)
            × ((u : UsageRecorderInput Num) × (recorded ≡ u ∷ []) × IsUsage x u))
    IsAnswer p st (rejected status b) recorded later =
        (v.gone ≡ false)
        × (recorded ≡ [])
        × ((h : IsFailed p st later) × IsRefusal p st later h status b)
    IsAnswer p st nothing recorded later = (v.gone ≡ true) × (recorded ≡ []) × IsFailed p st later

    failed-IsAnswer :
        (request : UnifiedAiRequest Num J) (st later : GatewayState Num)
        (h : IsFailed (parsed request) st later) (gone : Bool)
        → v.gone ≡ gone
        → IsAnswer (parsed request) st (reply_error gone (thrown h.1)) [] later
    unfolding reply_error format_error error_type
    failed-IsAnswer request st later h true g = (g, refl, h)
    failed-IsAnswer request st later h false g = (g, refl, (h, (refl, refl)))

    replied-IsAnswer :
        (request : UnifiedAiRequest Num J) (x : Response F J) (st later : GatewayState Num)
        → request.stream ≡ false
        → create_response F J s sources request st ≡ (replied x, later)
        → let o = answer F J printed s idle_timeout v request_id kind format frames (replied x) in
          IsAnswer (parsed request) st o.sent o.recorded later
    unfolding answer completion_usage
    replied-IsAnswer request (response, m) st later h e = (
      request,
      refl,
      h,
      ((response, m), e, refl, (_, refl, (refl, refl, refl, refl, refl, refl, refl, refl, refl))),
    )

    answer-failed :
        {reply : Reply (Response F J)} {message : String}
        → IsFailure printed reply message
        → answer F J printed s idle_timeout v request_id kind format frames reply
          ≡ record { sent = reply_error v.gone (thrown message); recorded = [] }
    unfolding answer thrown_message all_failed_message
    answer-failed (IsFailure.no_route reason) = refl
    answer-failed (IsFailure.unregistered name) = refl
    answer-failed (IsFailure.none_tried model) = refl
    answer-failed (IsFailure.last_failed e model) = refl
    answer-failed (IsFailure.failed_with e) = refl

    pub answer-IsAnswer :
        (request : UnifiedAiRequest Num J)
        → request.stream ≡ false
        → (reply : Reply (Response F J)) (st later : GatewayState Num)
        → create_response F J s sources request st ≡ (reply, later)
        → let o = answer F J printed s idle_timeout v request_id kind format frames reply in
          IsAnswer (parsed request) st o.sent o.recorded later
    answer-IsAnswer request h reply st later e = elim (Reply-cases printed reply) [
      | inl (x, r) ↦ rw r (replied-IsAnswer request x st later h (e ∙ ap (λ y. (y, later)) r))
      | inr (message, f) ↦
          rw (answer-failed f)
            (failed-IsAnswer request st later (reply, message, e, h, f) v.gone refl)
    ]

    pub refused-IsAnswer :
        (e : HttpError) (st : GatewayState Num)
        → (gone : Bool) → v.gone ≡ gone
        → IsAnswer
            (refused e)
            st
            (reply_error gone (http e.status "Http Exception" (error_body e.body)))
            []
            st
    unfolding reply_error
    refused-IsAnswer e st true g = (g, refl, refl)
    refused-IsAnswer e st false g = (g, refl, (refl, (refl, refl)))
