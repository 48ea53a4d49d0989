-- ===== src/Providers/OpenAiAdapter/Refusals.antt =====
-- libs/provider-openai/src/openai.adapter.ts under libs/sirius-policy/src/policy.service.ts: what
-- becomes of a reply whose status is not ok.
use sirius_gateway.Base.{ℕ, String, true, false, List, [], ◌∷◌, Option, none, ◌≡◌, refl, ap, ◌∙◌}
use sirius_gateway.Base.Dict.{Dict}
use sirius_gateway.Core.Messages.{UnifiedAiRequest, UnifiedStreamEvent}
use sirius_gateway.Policy.Breaker.{
  Settings, CircuitState, thrown, ok, err, check_circuit_breaker, record_success,
  get_circuit_breaker_state,
}
use sirius_gateway.Policy.Breaker.Opening.{failures-record_success}
use sirius_gateway.Policy.Retry.{running}
use sirius_gateway.Policy.Stream.{StreamAttempt, Streaming, stop, execute_stream_with_policy}
use sirius_gateway.Policy.Stream.Splicing.{execute_stream_with_policy-first}
use sirius_gateway.Providers.Fetched.{
  ErrorReply, Fetched, not_ok, json_refusal, reply, stream_reply,
}
use sirius_gateway.Providers.OpenAiMapper.{WireChatRequest, WireChatResponse, to_open_ai_request}
use sirius_gateway.Providers.OpenAiStream.{OpenAiChatChunk, parse_open_ai_stream}
use sirius_gateway.Providers.OpenAiAdapter.{create_response, stream_response}

module _ (printed : ℕ → String) {N J : Type 0} where
  -- Attempts at a stream of the adapter; `fetch n` is what the upstream does in attempt number `n`.
  abbrev pub stream_attempts :
      (parse : String → Option OpenAiChatChunk)
      → (ℕ → WireChatRequest N J → Fetched (Option (List String)))
      → UnifiedAiRequest N J
      → (times : ℕ → ℕ) → ℕ
      → StreamAttempt UnifiedStreamEvent
  stream_attempts parse fetch request times n =
      let x = stream_response printed parse (fetch n) request in
      record { events = x.0; failure = x.1; aborted = false; now = times n }

  -- The stream under the policy.
  abbrev pub run :
      (parse : String → Option OpenAiChatChunk)
      → (ℕ → WireChatRequest N J → Fetched (Option (List String)))
      → UnifiedAiRequest N J
      → (times : ℕ → ℕ) → Settings
      → String
      → (now : ℕ) → Dict CircuitState
      → Streaming UnifiedStreamEvent
  run parse fetch request times s provider now circuits =
      execute_stream_with_policy s provider (stream_attempts parse fetch request times) running now
        circuits

  run-refused :
      (parse : String → Option OpenAiChatChunk)
      (fetch : ℕ → WireChatRequest N J → Fetched (Option (List String)))
      (request : UnifiedAiRequest N J) (r : ErrorReply)
      → fetch 0 (to_open_ai_request (record request { stream = true })) ≡ not_ok r
      → (times : ℕ → ℕ) (s : Settings) (provider : String) (now : ℕ) (circuits : Dict CircuitState)
      → (check_circuit_breaker s provider now circuits).0 ≡ ok tt
      → run parse fetch request times s provider now circuits
        ≡ stop
            (UnifiedStreamEvent.error (json_refusal printed "OpenAI API" r) none ∷ [])
            none
            (record_success provider (check_circuit_breaker s provider now circuits).1)
  unfolding stream_response stream_reply
  run-refused parse fetch request r k times s provider now circuits let_through =
      let first = stream_reply (json_refusal printed "OpenAI API") (parse_open_ai_stream parse) in
      execute_stream_with_policy-first s provider (stream_attempts parse fetch request times) now
        circuits let_through (ap (λ f. (first f).1) k)
      ∙ ap
          (λ f.
            stop (first f).0 none
              (record_success provider (check_circuit_breaker s provider now circuits).1))
          k

  -- A reply whose status is not ok is thrown for a whole response, so that the policy sees a failure.
  -- For a stream it becomes an event: under the policy, if the breaker lets the call through, the
  -- stream is that one error event, it does not fail, it is not tried again, and the provider has
  -- no failure counted afterwards.
  pub stream_response-refused :
      (parse : String → Option OpenAiChatChunk)
      (whole : WireChatRequest N J → Fetched WireChatResponse)
      (fetch : ℕ → WireChatRequest N J → Fetched (Option (List String)))
      (request : UnifiedAiRequest N J) (r : ErrorReply) (latency_ms : N)
      → whole (to_open_ai_request (record request { stream = false })) ≡ not_ok r
      → fetch 0 (to_open_ai_request (record request { stream = true })) ≡ not_ok r
      → (times : ℕ → ℕ) (s : Settings) (provider : String) (now : ℕ) (circuits : Dict CircuitState)
      → (check_circuit_breaker s provider now circuits).0 ≡ ok tt
      → (create_response printed whole latency_ms request
          ≡ err (thrown (json_refusal printed "OpenAI API" r)))
        × ((run parse fetch request times s provider now circuits).events
            ≡ UnifiedStreamEvent.error (json_refusal printed "OpenAI API" r) none ∷ [])
        × ((run parse fetch request times s provider now circuits).failure ≡ none)
        × ((run parse fetch request times s provider now circuits).calls ≡ 1)
        × ((get_circuit_breaker_state provider
              (run parse fetch request times s provider now circuits).circuits).failures
            ≡ 0)
  unfolding create_response reply
  stream_response-refused parse whole fetch request r latency_ms h k times s provider now circuits
        let_through =
      let e = run-refused parse fetch request r k times s provider now circuits let_through in
      (
        rw h refl,
        ap (λ x. x.events) e,
        ap (λ x. x.failure) e,
        ap (λ x. x.calls) e,
        ap (λ x. (get_circuit_breaker_state provider x.circuits).failures) e
            ∙ failures-record_success provider (check_circuit_breaker s provider now circuits).1,
      )
