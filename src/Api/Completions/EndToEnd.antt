-- ===== src/Api/Completions/EndToEnd.antt =====
-- apps/sirius-api/src: a streamed chat completion from the request's body to the text that the client
-- reads, through the gateway, the policy and the providers.
use sirius_gateway.Base.{
  ℕ, suc, String, Bool, true, false, List, [], ◌∷◌, ◌++◌, if◌then◌else◌, any, map, Bool-cases, inl,
  inr, ◌≡◌, refl, ap, ◌∙◌, ◌&◌, All,
}
use sirius_gateway.Core.Numbers.{Numbers}
use sirius_gateway.Core.Messages.{UnifiedAiRequest, UnifiedStreamEvent}
use sirius_gateway.OpenAi.Types.{
  OpenAiChatCompletionRequest, OpenAiChatCompletion, OpenAiChatCompletionChunk,
}
use sirius_gateway.OpenAi.Errors.{parsed}
use sirius_gateway.OpenAi.ChatRequests.{parse_chat_completion_request}
use sirius_gateway.OpenAi.Replies.Fidelity.{chunk_text, event_text}
use sirius_gateway.Routing.Service.{Sources}
use sirius_gateway.Policy.Breaker.{Settings}
use sirius_gateway.Gateway.Providers.{Provider}
use sirius_gateway.Gateway.Responses.{GatewayState}
use sirius_gateway.Gateway.Streams.{stream_response}
use sirius_gateway.Gateway.Streams.Origin.{IsUnspliced, stream_response-IsUnspliced}
use sirius_gateway.Api.ChatStream.{Frame, chunk_frame, Step, StreamEnd, is_error, chat_frames}
use sirius_gateway.Api.ChatStream.Fragments.{chunk_fragments, event_fragments}
use sirius_gateway.Api.ChatStream.Delivery.{
  delivered, has_error, last_frames, chat_frames-delivered,
}
use sirius_gateway.Api.Completions.{
  Served, streamed, Viewing, steps_from, ending_of, serve, post_chat_completions,
}

-- The events up to the first error.
abbrev pub until_error : List UnifiedStreamEvent → List UnifiedStreamEvent
until_error [] = []
until_error (e ∷ es) = if is_error e then [] else e ∷ until_error es

abbrev pub any_error : List UnifiedStreamEvent → Bool
any_error es = any is_error es

-- The client stays to the end.
pub record Stays (v : Viewing) : Type 0 where
  pub never_closed : (i : ℕ) → v.closed i ≡ false
  pub there : v.gone ≡ false

delivered-steps_from :
    (v : Viewing) (i : ℕ) (es : List UnifiedStreamEvent)
    → delivered (steps_from v i es) ≡ until_error es
unfolding steps_from
delivered-steps_from v i [] = refl
delivered-steps_from v i (e ∷ es) = elim (Bool-cases (is_error e)) [
  | inl bad ↦ rw bad refl
  | inr good ↦ rw good (ap (λ x. e ∷ x) (delivered-steps_from v (suc i) es))
]

has_error-steps_from :
    (v : Viewing) (i : ℕ) (es : List UnifiedStreamEvent)
    → has_error (steps_from v i es) ≡ any_error es
unfolding steps_from
has_error-steps_from v i [] = refl
has_error-steps_from v i (e ∷ es) = elim (Bool-cases (is_error e)) [
  | inl bad ↦ rw bad refl
  | inr good ↦ rw good (has_error-steps_from v (suc i) es)
]

open-steps_from :
    (v : Viewing)
    → ((i : ℕ) → v.closed i ≡ false)
    → (i : ℕ) (es : List UnifiedStreamEvent)
    → All (λ (s : Step). s.closed ≡ false) (steps_from v i es)
unfolding steps_from
open-steps_from v h i [] = tt
open-steps_from v h i (e ∷ es) = (h i, open-steps_from v h (suc i) es)

module _ (F : Numbers) (J : Type 0) (printed : ℕ → String) (s : Settings) (idle_timeout : ℕ)
    (v : Viewing) (request_id : String) (sources : Sources (Provider F J) (F.Num)) where
  open F use {Num}

  -- What is sent for a request that streams, to a client that stays to the end.
  abbrev pub IsRelayed : Served OpenAiChatCompletion Frame Num → UnifiedAiRequest Num J → Type 0
  IsRelayed served request =
      (events : List UnifiedStreamEvent) × (ending : StreamEnd) × (chunks : List
        OpenAiChatCompletionChunk)
      × IsUnspliced F J printed s idle_timeout request sources.provider_registry events
      × (served ≡ streamed (map chunk_frame chunks ++ last_frames (any_error events) ending))
      × (chunk_text chunks ≡ event_text (until_error events))
      × (chunk_fragments chunks ≡ event_fragments (until_error events))

  serve-IsRelayed :
      (uuid : String) (request : UnifiedAiRequest Num J) (st : GatewayState Num) (live : Bool)
      → live ≡ true
      → Stays v
      → let x = stream_response F J printed s idle_timeout sources request st in
        (otherwise : Served OpenAiChatCompletion Frame Num × GatewayState Num)
        → IsRelayed
            (if live
              then (
                streamed (
                    chat_frames
                      ("chatcmpl-" & uuid)
                      request.model
                      (steps_from v 0 x.0.events)
                      (ending_of x.0.refused)
                      v.gone),
                x.1,
              )
              else otherwise).0
            request
  serve-IsRelayed uuid request st live h stays otherwise =
      let x = stream_response F J printed s idle_timeout sources request st in
      let steps = steps_from v 0 x.0.events in
      let ending = ending_of x.0.refused in
      let (chunks, frames, text, fragments) =
        chat_frames-delivered ("chatcmpl-" & uuid) request.model steps ending
          (open-steps_from v stays.never_closed 0 x.0.events) in
      (
        x.0.events,
        ending,
        chunks,
        stream_response-IsUnspliced F J printed s idle_timeout request sources st,
        rw h (
            ap streamed (
              ap (chat_frames ("chatcmpl-" & uuid) request.model steps ending) stays.there
              ∙ (frames
                  ∙ ap (λ b. map chunk_frame chunks ++ last_frames b ending)
                      (has_error-steps_from v 0 x.0.events)))),
        text ∙ ap event_text (delivered-steps_from v 0 x.0.events),
        fragments ∙ ap event_fragments (delivered-steps_from v 0 x.0.events),
      )

  -- End to end: what a client that stays to the end is sent for a body that asks for a stream is
  -- chunks and then the mark, after a frame for an error that the stream has thrown; there are
  -- events such that the text and the fragments of tool calls of the chunks are those of the events
  -- up to the first error, and the events are the first events of exactly one attempt at one registered provider, or nothing, and
  -- after them at most one error event of the gateway.
  pub post_chat_completions-IsRelayed :
      (uuid : String) (now : ℕ) (body : OpenAiChatCompletionRequest Num J) (st : GatewayState Num)
      (request : UnifiedAiRequest Num J)
      → parse_chat_completion_request F printed body request_id ≡ parsed request
      → request.stream ≡ true
      → Stays v
      → IsRelayed
          (post_chat_completions F J printed s idle_timeout v request_id uuid now sources body st).0
          request
  unfolding post_chat_completions serve
  post_chat_completions-IsRelayed uuid now body st request h live stays =
      rw h (serve-IsRelayed uuid request st request.stream live stays _)
