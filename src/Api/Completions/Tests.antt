-- ===== src/Api/Completions/Tests.antt =====
-- The routes chat/completions and responses of apps/sirius-api/src/controllers on sample requests,
-- and the uses of their theorems there.
use sirius_gateway.Base.{String, false, [], ◌∷◌, refl, ◌&◌}
use sirius_gateway.Core.Numbers.{Whole, whole_numbers}
use sirius_gateway.Samples.{cloud_model, settings, digits, provider, idle}
use sirius_gateway.Registry.ModelRegistry.{init}
use sirius_gateway.Routing.Service.{Sources}
use sirius_gateway.Gateway.Providers.{Provider}
use sirius_gateway.OpenAi.ChatRequests.{parse_chat_completion_request}
use sirius_gateway.OpenAi.ChatRequests.Sample.{
  streamed_body, streamed_request, parse_chat_completion_request-streamed_body,
}
use sirius_gateway.OpenAi.Replies.{format_chat_completion_response}
use sirius_gateway.Api.ChatStream.{chat_frames}
use sirius_gateway.Api.Completions.{Viewing, post_chat_completions}
use sirius_gateway.Api.Completions.Routes.{IsServed, post_chat_completions-IsServed}
use sirius_gateway.Api.Completions.EndToEnd.{IsRelayed, post_chat_completions-IsRelayed}

abbrev sources : Sources (Provider whole_numbers String) Whole
sources = record {
  model_registry = init (cloud_model ∷ []);
  provider_registry = ("openai", provider) ∷ [];
  latencies = [];
  now = 0;
}

abbrev patient : Viewing
patient = record { closed = λ i. false; clock = λ i. 7; gone = false }

post_chat_completions-IsServed_example :
    IsServed whole_numbers String digits settings 30000 patient "r1" sources "chat"
      (format_chat_completion_response "u" 7)
      (λ model. chat_frames ("chatcmpl-" & "u") model)
      (parse_chat_completion_request whole_numbers digits streamed_body "r1")
      idle
      (post_chat_completions whole_numbers String digits settings 30000 patient "r1" "u" 7 sources
        streamed_body idle)
post_chat_completions-IsServed_example =
    post_chat_completions-IsServed whole_numbers String digits settings 30000 patient "r1" sources
      "u" 7 streamed_body idle

post_chat_completions-IsRelayed_example :
    IsRelayed whole_numbers String digits settings 30000 patient "r1" sources
      (post_chat_completions whole_numbers String digits settings 30000 patient "r1" "u" 7 sources
        streamed_body idle).0
      streamed_request
post_chat_completions-IsRelayed_example =
    post_chat_completions-IsRelayed whole_numbers String digits settings 30000 patient "r1" sources
      "u" 7 streamed_body idle streamed_request parse_chat_completion_request-streamed_body refl
      (record { never_closed = λ i. refl; there = refl })
