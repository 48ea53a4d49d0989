-- ===== src/Lib.antt =====
-- Verification of sirius-gateway.
--
-- The gateway serves OpenAI-compatible requests from several AI providers. A controller turns a
-- request body into a unified request (OpenAi) and hands it to the gateway service. That asks the
-- routing service for a decision, which resolves the model in the model registry, collects
-- candidates from both registries and the latency tracker, and lets a strategy choose. The gateway
-- builds a chain of providers from the decision, calls them one after the other under the policy
-- service (circuit breaker, timeout, retries with backoff), and records the latencies that routing
-- reads again. Discovery fills the model registry from what the providers list.
--
-- Files and code, with one function for each operation of the source, in its words:
-- - Base: Boolean tests, lists, texts and ordered maps (`Dict` is a JavaScript Map: insertion
--   order, replacement in place).
-- - Core: libs/sirius-core/src: the unified types and ProviderRegistry. Core/Numbers.antt has the
--   JavaScript numbers (latencies, prices, scores) as a record of operations with the laws of a weak
--   order; NaN is left out, and token counts, times and delays are natural numbers. Core/Json.antt
--   has JSON values and their parser and printer as a record; the one law is that printing and
--   parsing gives a value back.
-- - Registry: libs/sirius-model-registry/src: ModelRegistry (both maps of ModelRegistryService),
--   ModelCatalog (DEFAULT_MODEL_CATALOG) and ModelDiscovery (ModelDiscoveryService, over what each
--   probe gives).
-- - Routing: libs/sirius-routing/src: Strategies (the six strategies), Service (RoutingService)
--   and Sorting (the stable sort of Array.prototype.sort). What the service reads is a record
--   `Sources`.
-- - Policy: libs/sirius-policy/src/policy.service.ts: Breaker (the circuits), Retry
--   (executeWithPolicy) and Stream (executeStreamWithPolicy). What the operation does in attempt
--   number n, when it settles and what the clock and the caller's signal show then are an `Attempt`,
--   a parameter; the loops recurse on the attempts left, from maxRetries on, so they always end.
-- - Gateway: apps/sirius-api/src/gateway.service.ts: Providers (what is called of an AiProvider,
--   libs/sirius-core/src/provider.interface.ts), Chain (buildProviderChain), Responses
--   (createResponse, createEmbeddings), Streams (streamResponse) and Fleet (listModels,
--   getProviderHealth). State is passed on explicitly: the circuits and the windows of latencies.
-- - Observability: libs/sirius-observability/src: LatencyTracker, StreamingObserver and
--   UsageRecorder (what is handed to the writer, if anything; the schemas are arguments).
-- - OpenAi: libs/sirius-compat-openai/src: the request parsers (ChatMessages, ChatRequests,
--   ResponsesRequests, EmbeddingRequests), the formatters (Replies, ResponsesReplies) and the error
--   bodies (Errors). Ids, times and the printing of numbers are arguments. A body is one of its
--   declared type, or lacks what the service tests for.
-- - Mcp: apps/sirius-mcp/src/server.ts: Fetch (the calls of the gateway) and Tools (the tools of
--   the MCP server, each with its answer and its audit entry); what fetch gives and the YAML printer
--   are arguments.
-- - Api: apps/sirius-api/src: the exception filter and the embeddings route (Api.antt), ChatStream
--   and ResponsesStream (the frames that controllers/chat-completions.controller.ts and
--   responses.controller.ts write for a stream, given what the client and the clock do at each
--   event), Completions (both routes, the gateway's call included), Health
--   (controllers/health.controller.ts, the reload with its backfill included) and Models
--   (controllers/models.controller.ts). The usage that a route records is part of what it does,
--   without the observation that a provider attaches to its response.
-- - Auth: libs/sirius-auth/src/auth.guard.ts (canActivate).
-- - Providers: libs/provider-openai, libs/provider-anthropic and libs/provider-ollama (src): Lines
--   (the cutting of a body into lines, which the three parsers share, with the state that a parser
--   keeps), OpenAiStream, AnthropicStream and OllamaStream (what becomes of a line; JSON.parse is an
--   argument), OpenAiMapper, AnthropicMapper (with AnthropicTypes) and OllamaMapper, and
--   OpenAiAdapter, AnthropicAdapter and OllamaAdapter, whose operations take what fetch gives
--   (Fetched; a body that breaks off is left out). A field that a type leaves out and the code does
--   not read is left out.
-- - FromFile: libs/provider-fromfile/src: loader.ts (the environment, the files and the YAML
--   parser are arguments) and, in Reconcile, the reconciliation of the registry with the file, the
--   reload service and the start; AnthropicNative and DateSuffix are the listing and the health
--   probe of an Anthropic entry.
-- - Nova: the translators between the gateway's types and those of the nova package, which is not
--   in the repository and whose calls are arguments: Llamactl
--   (libs/provider-llamactl/src/llamactl.adapter.ts), SiriusAdapter (the adapter of
--   libs/provider-fromfile) and Registration (the nodes of
--   libs/provider-llamactl/src/llamactl-provider.module.ts).
-- - Samples and the Tests of each part hold concrete data and the uses of the results on it.
--
-- A call is modelled by itself: what other calls change while it waits is not seen. A stream is
-- taken to its end by its client. Log lines, dependency injection, URLs and headers are left out
-- as plain input and output, and with them the interceptor and the configuration of the log.
pub mod Base
pub mod Core
pub mod Registry
pub mod Routing
pub mod Policy
pub mod Gateway
pub mod Observability
pub mod Api
pub mod Auth
pub mod FromFile
pub mod Mcp
pub mod Nova
pub mod OpenAi
pub mod Providers
pub mod Samples
