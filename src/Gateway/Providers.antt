-- ===== src/Gateway/Providers.antt =====
-- libs/sirius-core/src/provider.interface.ts: what the gateway calls of a provider. How a provider
-- behaves is the environment's.
use sirius_gateway.Base.{ℕ, String, Bool, List}
use sirius_gateway.Core.Numbers.{Numbers}
use sirius_gateway.Core.Models.{ModelInfo, ProviderHealth}
use sirius_gateway.Core.Messages.{
  UnifiedAiRequest, UnifiedAiResponse, UnifiedStreamEvent, UnifiedEmbeddingResponse,
  UnifiedEmbeddingRequest,
}
use sirius_gateway.Policy.Retry.{Attempt, Caller}
use sirius_gateway.Policy.Stream.{StreamAttempt}

-- What one use of a provider meets: the caller's signal and the clock when the policy starts, the
-- attempts at the provider, and whether the caller has aborted when a failure reaches the gateway.
pub record Upstream (R : Type 0) : Type 0 where
  pub caller : Caller
  pub now : ℕ
  pub attempts : ℕ → Attempt R
  pub aborted : Bool

-- The same for a stream. `waits i` is how long the gateway's call number `i` of `next` waits, and
-- `elapsed` the time from the start to a normal end. An attempt that the gateway's own abort cuts
-- short is an aborted one.
pub record StreamUpstream (N : Type 0) : Type 0 where
  pub caller : Caller
  pub now : ℕ
  pub attempts : ℕ → StreamAttempt UnifiedStreamEvent
  pub waits : ℕ → ℕ
  pub elapsed : N
  pub aborted : Bool

-- One entry of the result of `Promise.allSettled`; a rejection by its message.
pub data Settled (R : Type 0) : Type 0 where
  fulfilled : R → Settled R
  rejected : (reason : String) → Settled R

pub record Provider (F : Numbers) (J : Type 0) : Type 0 where
  pub create_response : UnifiedAiRequest F.Num J → Upstream (UnifiedAiResponse F.Num)
  pub stream_response : UnifiedAiRequest F.Num J → StreamUpstream F.Num
  pub create_embeddings : UnifiedEmbeddingRequest → Upstream (UnifiedEmbeddingResponse F.Num)
  pub list_models : Settled (List ModelInfo)
  pub health_check : Settled (ProviderHealth F.Num)
