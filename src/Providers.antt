-- ===== src/Providers.antt =====
-- libs/provider-openai, libs/provider-anthropic and libs/provider-ollama (src): the mappers, the stream
-- parsers and the adapters.
mod Tests
pub mod Lines
pub mod AnthropicTypes
pub mod AnthropicMapper
pub mod AnthropicStream
pub mod OllamaMapper
pub mod OllamaStream
pub mod OpenAiMapper
pub mod OpenAiStream
pub mod Fetched
pub mod OpenAiAdapter
pub mod AnthropicAdapter
pub mod OllamaAdapter
