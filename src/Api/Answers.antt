-- ===== src/Api/Answers.antt =====
-- apps/sirius-api/src: what the embeddings route answers.
use sirius_gateway.Base.{
  map, ◌+◌, ◌∙◌, ℕ, String, Bool, true, false, List, [], ◌∷◌, none, ◌≡◌, refl, inl, inr, ap,
}
use sirius_gateway.Core.Numbers.{Numbers}
use sirius_gateway.Core.Messages.{UnifiedEmbeddingRequest, UnifiedEmbeddingResponse}
use sirius_gateway.Observability.UsageRecorder.{UsageRecorderInput}
use sirius_gateway.OpenAi.Types.{OpenAiEmbeddingRequest, OpenAiEmbedding, OpenAiEmbeddingResponse}
use sirius_gateway.OpenAi.Errors.{HttpError, Parsed, parsed, refused, error_type, format_error}
use sirius_gateway.OpenAi.EmbeddingRequests.{parse_embedding_request}
use sirius_gateway.OpenAi.Replies.{format_embedding_response, index_embeddings}
use sirius_gateway.Routing.Service.{Sources}
use sirius_gateway.Policy.Breaker.{Settings}
use sirius_gateway.Gateway.Providers.{Provider}
use sirius_gateway.Gateway.Responses.{Reply, replied, GatewayState, create_embeddings}
use sirius_gateway.Gateway.Streams.{all_failed_message}
use sirius_gateway.Api.Failures.{IsFailure, Reply-cases, IsServerError}
use sirius_gateway.Api.{
  thrown_message, ExceptionResponse, error_body, http, thrown, Sent, sent, rejected, nothing,
  reply_error, embedding_usage, EmbeddingOutcome, answer_embeddings, embeddings_of, post_embeddings,
}

-- The numbers from one on, one for each element.
abbrev pub positions {ℓ} : {A : Type ℓ} → ℕ → List A → List ℕ
positions i [] = []
positions i (x ∷ xs) = i ∷ positions (i + 1) xs

index_embeddings_lem :
    {N : Type 0} (i : ℕ) (es : List (List N))
    → (map (λ (d : OpenAiEmbedding N). d.embedding) (index_embeddings i es) ≡ es)
      × (map (λ (d : OpenAiEmbedding N). d.index) (index_embeddings i es) ≡ positions i es)
unfolding index_embeddings
index_embeddings_lem i [] = (refl, refl)
index_embeddings_lem i (e ∷ es) =
    let (a, b) = index_embeddings_lem (i + 1) es in (ap (λ t. e ∷ t) a, ap (λ t. i ∷ t) b)

module _ (F : Numbers) (J : Type 0) (printed : ℕ → String) (request_id : String) (s : Settings)
    (sources : Sources (Provider F J) (F.Num)) where
  open F use {Num}

  -- A failure: of the parser, with the state as it was, or of the gateway, with its message.
  abbrev pub IsFailed :
      Parsed UnifiedEmbeddingRequest → GatewayState Num → GatewayState Num → Type 0
  IsFailed (refused e) st later = later ≡ st
  IsFailed (parsed request) st later =
      (reply : Reply (UnifiedEmbeddingResponse Num)) × (message : String) × (create_embeddings F J s
          sources request st
        ≡ (reply, later))
      × IsFailure printed reply message

  -- What a failure that is answered says.
  abbrev pub IsRefusal :
      (p : Parsed UnifiedEmbeddingRequest)
      → (st later : GatewayState Num) → IsFailed p st later
      → ℕ
      → ExceptionResponse
      → Type 0
  IsRefusal (refused e) st later h status b = (status ≡ e.status) × (b ≡ error_body e.body)
  IsRefusal (parsed request) st later (reply, message, e, f) status b =
      IsServerError message status b

  -- The counts and the names of a response, under the id of the request.
  abbrev pub IsUsage : UnifiedEmbeddingResponse Num → UsageRecorderInput Num → Type 0
  IsUsage response u =
      (u.provider ≡ response.provider)
      × (u.model ≡ response.model)
      × (u.kind ≡ "embedding")
      × (u.prompt_tokens ≡ response.usage.input_tokens)
      × (u.completion_tokens ≡ response.usage.output_tokens)
      × (u.total_tokens ≡ response.usage.total_tokens)
      × (u.latency_ms ≡ response.latency_ms)
      × (u.request_id ≡ request_id)
      × (u.route ≡ none)

  -- All vectors in their order, with their positions, and the counts.
  abbrev pub IsFormatted : UnifiedEmbeddingResponse Num → OpenAiEmbeddingResponse Num → Type 0
  IsFormatted response r =
      (map (λ (d : OpenAiEmbedding Num). d.embedding) r.data_rows ≡ response.embeddings)
      × (map (λ (d : OpenAiEmbedding Num). d.index) r.data_rows ≡ positions 0 response.embeddings)
      × (r.model ≡ response.model)
      × (r.prompt_tokens ≡ response.usage.input_tokens)
      × (r.total_tokens ≡ response.usage.total_tokens)

  abbrev pub IsAnswer :
      (gone : Bool)
      → Parsed UnifiedEmbeddingRequest
      → GatewayState Num
      → Sent (OpenAiEmbeddingResponse Num)
      → List (UsageRecorderInput Num)
      → GatewayState Num
      → Type 0
  IsAnswer gone p st (sent r) recorded later =
      (request : UnifiedEmbeddingRequest) × (p ≡ parsed request)
      × ((response : UnifiedEmbeddingResponse Num) × (create_embeddings F J s sources request st
            ≡ (replied response, later))
          × IsFormatted response r
          × ((u : UsageRecorderInput Num) × (recorded ≡ u ∷ []) × IsUsage response u))
  IsAnswer gone p st (rejected status b) recorded later =
      (gone ≡ false)
      × (recorded ≡ [])
      × ((h : IsFailed p st later) × IsRefusal p st later h status b)
  IsAnswer gone p st nothing recorded later = (gone ≡ true) × (recorded ≡ []) × IsFailed p st later

  abbrev pub IsAnswered :
      (gone : Bool)
      → OpenAiEmbeddingRequest
      → GatewayState Num
      → (EmbeddingOutcome F J printed gone request_id) × GatewayState Num
      → Type 0
  IsAnswered gone body st (o, later) =
      IsAnswer gone (parse_embedding_request body request_id) st o.sent o.recorded later

  replied-IsAnswer :
      (gone : Bool) (request : UnifiedEmbeddingRequest) (response : UnifiedEmbeddingResponse Num)
      (st later : GatewayState Num)
      → create_embeddings F J s sources request st ≡ (replied response, later)
      → let o = answer_embeddings F J printed gone request_id (replied response) in
        IsAnswer gone (parsed request) st o.sent o.recorded later
  unfolding answer_embeddings embedding_usage format_embedding_response
  replied-IsAnswer gone request response st later e =
      let (vectors, indices) = index_embeddings_lem 0 response.embeddings in
      (
        request,
        refl,
        (
          response,
          e,
          (vectors, indices, refl, refl, refl),
          (_, refl, (refl, refl, refl, refl, refl, refl, refl, refl, refl)),
        ),
      )

  answer_embeddings-failed :
      (gone : Bool) {reply : Reply (UnifiedEmbeddingResponse Num)} {message : String}
      → IsFailure printed reply message
      → answer_embeddings F J printed gone request_id reply
        ≡ record { sent = reply_error gone (thrown message); recorded = [] }
  unfolding answer_embeddings thrown_message all_failed_message
  answer_embeddings-failed gone (IsFailure.no_route reason) = refl
  answer_embeddings-failed gone (IsFailure.unregistered name) = refl
  answer_embeddings-failed gone (IsFailure.none_tried model) = refl
  answer_embeddings-failed gone (IsFailure.last_failed e model) = refl
  answer_embeddings-failed gone (IsFailure.failed_with e) = refl

  failed-IsAnswer :
      (gone : Bool) (request : UnifiedEmbeddingRequest) (st later : GatewayState Num)
      (h : IsFailed (parsed request) st later)
      → IsAnswer gone (parsed request) st (reply_error gone (thrown h.1)) [] later
  unfolding reply_error format_error error_type
  failed-IsAnswer true request st later h = (refl, refl, h)
  failed-IsAnswer false request st later h = (refl, refl, (h, (refl, refl)))

  answer_embeddings-IsAnswer :
      (gone : Bool) (request : UnifiedEmbeddingRequest)
      (reply : Reply (UnifiedEmbeddingResponse Num)) (st later : GatewayState Num)
      → create_embeddings F J s sources request st ≡ (reply, later)
      → let o = answer_embeddings F J printed gone request_id reply in
        IsAnswer gone (parsed request) st o.sent o.recorded later
  answer_embeddings-IsAnswer gone request reply st later e = elim (Reply-cases printed reply) [
    | inl (response, r) ↦
        rw r (replied-IsAnswer gone request response st later (e ∙ ap (λ x. (x, later)) r))
    | inr (message, f) ↦
        rw (answer_embeddings-failed gone f)
          (failed-IsAnswer gone request st later (reply, message, e, f))
  ]

  refused-IsAnswer :
      (gone : Bool) (e : HttpError) (st : GatewayState Num)
      → IsAnswer gone
          (refused e)
          st
          (reply_error gone (http e.status "Http Exception" (error_body e.body)))
          []
          st
  unfolding reply_error
  refused-IsAnswer true e st = (refl, refl, refl)
  refused-IsAnswer false e st = (refl, refl, (refl, (refl, refl)))

  embeddings_of-IsAnswer :
      (gone : Bool) (st : GatewayState Num) (p : Parsed UnifiedEmbeddingRequest)
      → let o = embeddings_of F J printed gone request_id s sources p st in
        IsAnswer gone p st o.0.sent o.0.recorded o.1
  unfolding embeddings_of
  embeddings_of-IsAnswer gone st (refused e) = refused-IsAnswer gone e st
  embeddings_of-IsAnswer gone st (parsed request) =
      answer_embeddings-IsAnswer gone request (create_embeddings F J s sources request st).0 st
        (create_embeddings F J s sources request st).1 refl

  -- What the embeddings route sends: exactly if the gateway replies to the parsed request, all
  -- vectors of the response in their order, with their positions, its model and its counts, and
  -- then its usage is recorded; if the parser refuses, that refusal, the gateway's state as it was;
  -- if the gateway fails, a server error with the failure's message. After a failure nothing is
  -- recorded, and nothing is sent exactly if the client has gone.
  pub post_embeddings-IsAnswered :
      (gone : Bool) (body : OpenAiEmbeddingRequest) (st : GatewayState Num)
      → IsAnswered gone body st (post_embeddings F J printed gone request_id s sources body st)
  unfolding post_embeddings
  post_embeddings-IsAnswered gone body st =
      embeddings_of-IsAnswer gone st (parse_embedding_request body request_id)
