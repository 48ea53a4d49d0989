-- ===== src/Gateway/Tests.antt =====
-- apps/sirius-api/src/gateway.service.ts on sample decisions and providers, and the uses of its
-- theorems there.
use sirius_gateway.Base.{ℕ, String, false, [], ◌∷◌, some, none, ◌≡◌, refl, if◌then◌else◌, is_blank}
use sirius_gateway.Base.Dict.{Dict}
use sirius_gateway.Core.Numbers.{Whole, whole_numbers}
use sirius_gateway.Core.Models.{RoutingDecision}
use sirius_gateway.Core.Messages.{UnifiedAiRequest}
use sirius_gateway.Core.ProviderRegistry
use sirius_gateway.Samples.{two_models, settings, digits, provider, idle}
use sirius_gateway.Routing.Service.{Sources}
use sirius_gateway.Gateway.Chain.{parse_label}
use sirius_gateway.Gateway.Chain.Labels.{parse_label-truncates}
use sirius_gateway.Gateway.Streams.{stream_decided}
use sirius_gateway.Gateway.Streams.Origin.{IsUnspliced, stream_decided-IsUnspliced}
use sirius_gateway.Gateway.Responses.{no_provider, respond, create_response}
use sirius_gateway.Gateway.Providers.{Provider}
use sirius_gateway.Gateway.Responses.Replies.{
  IsServed, respond-IsServed, create_response-single, decision_for, single_use,
}

abbrev providers : Dict ℕ
providers = ("openai", 1) ∷ ("ollama", 2) ∷ []

parse_label-truncates_example : parse_label "openai/meta/llama3" ≡ some ("openai", "meta")
parse_label-truncates_example =
    parse_label-truncates "openai" "meta" "llama3" (refl, refl) (refl, refl)

abbrev decision : RoutingDecision
decision = record {
  selected_provider = "openai";
  selected_model = "gpt-4o";
  strategy = "fastest";
  reason = "";
  fallback_chain = "ollama/llama3" ∷ [];
  attempt_number = 1;
}

abbrev request : UnifiedAiRequest Whole String
request = record {
  request_id = "r1";
  model = "openai:gpt-4o";
  messages = [];
  stream = false;
  temperature = none;
  top_p = none;
  max_tokens = none;
  stop = none;
  tools = none;
  tool_choice = none;
  response_format = none;
  stream_options = none;
  user = none;
  metadata = none;
}

abbrev sources : Sources (Provider whole_numbers String) Whole
sources = record {
  model_registry = two_models;
  provider_registry = ("openai", provider) ∷ ("ollama", provider) ∷ [];
  latencies = [];
  now = 0;
}

respond-IsServed_example :
    IsServed whole_numbers String settings request sources.provider_registry
      (respond whole_numbers String settings request sources.provider_registry decision idle).0
respond-IsServed_example =
    respond-IsServed whole_numbers String settings request sources.provider_registry decision idle

create_response-single_example :
    let d = decision_for whole_numbers String settings request sources idle in
    (create_response whole_numbers String settings sources request idle).0 ≡ (
      if is_blank d.selected_provider
      then no_provider d.reason
      else single_use whole_numbers String settings request d
          (ProviderRegistry.get d.selected_provider sources.provider_registry)
          idle)
create_response-single_example =
    create_response-single whole_numbers String settings request sources idle

stream_decided-IsUnspliced_example :
    IsUnspliced whole_numbers String digits settings 30000 request sources.provider_registry
      (stream_decided whole_numbers String digits settings 30000 request sources.provider_registry
        decision idle).0.events
stream_decided-IsUnspliced_example =
    stream_decided-IsUnspliced whole_numbers String digits settings 30000 request
      sources.provider_registry decision idle
