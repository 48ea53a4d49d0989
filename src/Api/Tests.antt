-- ===== src/Api/Tests.antt =====
-- apps/sirius-api/src on a sample request, and the uses of its theorems there.
use sirius_gateway.Base.{String, true, false, List, [], ◌∷◌, some, none}
use sirius_gateway.Core.Numbers.{Whole, whole_numbers}
use sirius_gateway.Core.Models.{ModelCapabilityMatrix}
use sirius_gateway.Samples.{chat_only, cloud_model, settings, digits, provider, idle}
use sirius_gateway.Registry.ModelRegistry.{init}
use sirius_gateway.Routing.Service.{Sources}
use sirius_gateway.OpenAi.Types.{OpenAiEmbeddingRequest, Texts}
use sirius_gateway.Gateway.Providers.{Provider}
use sirius_gateway.Api.{post_embeddings}
use sirius_gateway.Core.Messages.{UnifiedStreamEvent}
use sirius_gateway.Api.ChatStream.{Step, exhausted, chat_frames}
use sirius_gateway.Api.ChatStream.Frames.{IsStarted, chat_frames-IsStarted}
use sirius_gateway.Api.Answers.{IsAnswered, post_embeddings-IsAnswered}

abbrev embedder : ModelCapabilityMatrix Whole
embedder = record cloud_model { capabilities = record chat_only { embeddings = true } }

abbrev sources : Sources (Provider whole_numbers String) Whole
sources = record {
  model_registry = init (embedder ∷ []);
  provider_registry = ("openai", provider) ∷ [];
  latencies = [];
  now = 0;
}

abbrev body : OpenAiEmbeddingRequest
body = record {
  model = some "gpt-4o";
  input = some (Texts.one "hello");
  dimensions = none;
  user = none;
}

post_embeddings-IsAnswered_example :
    IsAnswered whole_numbers String digits "r1" settings sources false body idle
      (post_embeddings whole_numbers String digits false "r1" settings sources body idle)
post_embeddings-IsAnswered_example =
    post_embeddings-IsAnswered whole_numbers String digits "r1" settings sources false body idle

abbrev at : UnifiedStreamEvent → Step
at e = record { event = e; closed = false; now = 7 }

abbrev steps : List Step
steps =
    at (UnifiedStreamEvent.content_delta "Hel")
    ∷ at (UnifiedStreamEvent.content_delta "lo")
    ∷ at (UnifiedStreamEvent.done "stop")
    ∷ []

chat_frames-IsStarted_example :
    IsStarted false (chat_frames "chatcmpl-1" "gpt-4o" steps exhausted false)
chat_frames-IsStarted_example = chat_frames-IsStarted "chatcmpl-1" "gpt-4o" steps exhausted false
