-- ===== src/OpenAi/EmbeddingRequests.antt =====
-- libs/sirius-compat-openai/src/openai-compat.service.ts: `parseEmbeddingRequest`.
use sirius_gateway.Base.{String, Option, some, none, if◌then◌else◌, is_blank, truthy}
use sirius_gateway.Core.Messages.{UnifiedEmbeddingRequest, EmbeddingInput}
use sirius_gateway.OpenAi.Types.{OpenAiEmbeddingRequest, Texts}
use sirius_gateway.OpenAi.Errors.{Parsed, parsed, invalid_request}

-- `!body.input`: an empty text is refused, an empty list is not.
input_of : Option Texts → Option EmbeddingInput
input_of none = none
input_of (some (Texts.one t)) = if is_blank t then none else some (EmbeddingInput.one t)
input_of (some (Texts.many ts)) = some (EmbeddingInput.many ts)

parse_embedding_with :
    OpenAiEmbeddingRequest
    → String
    → Option String
    → Option EmbeddingInput
    → Parsed UnifiedEmbeddingRequest
parse_embedding_with body request_id none input =
    invalid_request "The 'model' field is required." (some "model_required")
parse_embedding_with body request_id (some model) none =
    invalid_request "The 'input' field is required." (some "input_required")
parse_embedding_with body request_id (some model) (some input) = parsed (record {
  request_id = request_id;
  model = model;
  input = input;
  dimensions = body.dimensions;
  user = truthy body.user;
})

pub parse_embedding_request : OpenAiEmbeddingRequest → String → Parsed UnifiedEmbeddingRequest
unfolding input_of parse_embedding_with
parse_embedding_request body request_id =
    parse_embedding_with body request_id (truthy body.model) (input_of body.input)
