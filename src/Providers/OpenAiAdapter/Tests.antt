-- ===== src/Providers/OpenAiAdapter/Tests.antt =====
-- libs/provider-openai/src/openai.adapter.ts with an upstream that is overloaded, and the use of the
-- result there.
use sirius_gateway.Base.{ℕ, String, List, [], ◌∷◌, Option, some, none, ◌≡◌, refl, inl}
use sirius_gateway.Base.Dict
use sirius_gateway.Core.Numbers.{Whole}
use sirius_gateway.Core.Messages.{UnifiedStreamEvent}
use sirius_gateway.Samples.{settings, digits}
use sirius_gateway.OpenAi.ChatRequests.Sample.{streamed_request}
use sirius_gateway.Policy.Breaker.{
  thrown, ok, err, check_circuit_breaker, get_circuit_breaker_state,
}
use sirius_gateway.Policy.Breaker.Opening.{check_circuit_breaker-passes}
use sirius_gateway.Providers.Fetched.{ErrorReply, Fetched, not_ok, json_refusal}
use sirius_gateway.Providers.OpenAiMapper.{WireChatRequest, WireChatResponse}
use sirius_gateway.Providers.OpenAiStream.{OpenAiChatChunk}
use sirius_gateway.Providers.OpenAiAdapter.{create_response}
use sirius_gateway.Providers.OpenAiAdapter.Refusals.{run, stream_response-refused}

abbrev overloaded : ErrorReply
overloaded = record {
  status = 503;
  status_text = "Service Unavailable";
  message = some "try later";
  text = none;
}

abbrev whole : WireChatRequest Whole String → Fetched WireChatResponse
whole request = not_ok overloaded

abbrev fetch : ℕ → WireChatRequest Whole String → Fetched (Option (List String))
fetch n request = not_ok overloaded

abbrev parse : String → Option OpenAiChatChunk
parse text = none

closed : (check_circuit_breaker settings "openai" 0 []).0 ≡ ok tt
closed =
    check_circuit_breaker-passes settings "openai" 0 []
      (inl (unfold get_circuit_breaker_state Dict.get in refl))

stream_response-refused_example :
    (create_response digits whole (some 40) streamed_request
      ≡ err (thrown (json_refusal digits "OpenAI API" overloaded)))
    × ((run digits parse fetch streamed_request (λ n. 40) settings "openai" 0 []).events
        ≡ UnifiedStreamEvent.error (json_refusal digits "OpenAI API" overloaded) none ∷ [])
    × ((run digits parse fetch streamed_request (λ n. 40) settings "openai" 0 []).failure ≡ none)
    × ((run digits parse fetch streamed_request (λ n. 40) settings "openai" 0 []).calls ≡ 1)
    × ((get_circuit_breaker_state "openai"
          (run digits parse fetch streamed_request
            (λ n. 40)
            settings
            "openai"
            0
            []).circuits).failures
        ≡ 0)
stream_response-refused_example =
    stream_response-refused digits parse whole fetch streamed_request overloaded (some 40) refl refl
      (λ n. 40) settings "openai" 0 [] closed
