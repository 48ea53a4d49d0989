-- ===== src/OpenAi.antt =====
-- libs/sirius-compat-openai/src: the OpenAI-compatible surface.
mod Tests
pub mod Types
pub mod Errors
pub mod ChatMessages
pub mod ChatRequests
pub mod ResponsesRequests
pub mod EmbeddingRequests
pub mod Replies
pub mod ResponsesReplies
