-- ===== src/Gateway/Streams.antt =====
-- apps/sirius-api/src/gateway.service.ts: `streamResponse`, for a client that takes all of it.
pub mod Origin
use sirius_gateway.Base.{
  ℕ, zero, suc, ◌+◌, String, Bool, true, false, List, [], ◌∷◌, ◌++◌, Option, some, none,
  if◌then◌else◌, ltb, not, is_empty, is_blank, ◌&◌,
}
use sirius_gateway.Base.Dict.{Dict}
use sirius_gateway.Core.Numbers.{Numbers}
use sirius_gateway.Core.Models.{RoutingDecision}
use sirius_gateway.Core.Messages.{UnifiedAiRequest, UnifiedStreamEvent}
use sirius_gateway.Observability.LatencyTracker.{record_latency}
use sirius_gateway.Observability.StreamingObserver.{observe}
use sirius_gateway.Routing.Service.{RouteRequest, Sources, route}
use sirius_gateway.Policy.Breaker.{Settings, Error, thrown, error_message}
use sirius_gateway.Policy.Stream.{Streaming, execute_stream_with_policy}
use sirius_gateway.Gateway.Providers.{StreamUpstream, Provider}
use sirius_gateway.Gateway.Chain.{Link, build_provider_chain}
use sirius_gateway.Gateway.Responses.{GatewayState}

-- What reaches the client, and the error that is thrown before anything does.
pub record StreamReply : Type 0 where
  pub events : List UnifiedStreamEvent
  pub refused : Option String

-- The inner loop from call number `i` of `next` on: what is yielded, and the error that ends it.
pub take_events :
    (idle_timeout : ℕ)
    → (ℕ → ℕ)
    → (i : ℕ) → List UnifiedStreamEvent
    → Option Error
    → List UnifiedStreamEvent × Option Error
take_events idle_timeout waits i [] failure =
    ([], if ltb (waits i) idle_timeout then failure else some (thrown "Stream idle timeout"))
take_events idle_timeout waits i (e ∷ events) failure =
    let rest = take_events idle_timeout waits (suc i) events failure in
    if ltb (waits i) idle_timeout
    then (e ∷ rest.0, rest.1)
    else ([], some (thrown "Stream idle timeout"))

-- `printed` prints a number.
unfoldable pub all_failed_message : (printed : ℕ → String) → Option Error → String → String
all_failed_message printed none model = "All providers failed for model \"" & model & "\""
all_failed_message printed (some e) model =
    "All providers failed. Last error: " & error_message printed e

abbrev pub error_event : String → UnifiedStreamEvent
error_event message = UnifiedStreamEvent.error message none

module _ (F : Numbers) (J : Type 0) (printed : ℕ → String) (s : Settings) (idle_timeout : ℕ) where
  open F use {Num}

  -- How one link's stream ends, given what is left of the chain.
  stream_end :
      StreamUpstream Num
      → String
      → List UnifiedStreamEvent
      → Option Error
      → GatewayState Num
      → (Error → List UnifiedStreamEvent × GatewayState Num)
      → List UnifiedStreamEvent × GatewayState Num
  stream_end up name yielded none st next =
      (yielded, record st { latencies = record_latency name up.elapsed st.latencies })
  stream_end up name yielded (some e) st next =
      if up.aborted
      then (yielded, st)
      else if not (is_empty yielded)
      then (yielded ++ error_event (error_message printed e) ∷ [], st)
      else next e

  -- The loop over the chain.
  pub stream_chain :
      UnifiedAiRequest Num J
      → List (Link (Provider F J))
      → Option Error
      → GatewayState Num
      → List UnifiedStreamEvent × GatewayState Num
  unfolding stream_end
  stream_chain request [] last st =
      (error_event (all_failed_message printed last request.model) ∷ [], st)
  stream_chain request (l ∷ chain) last st =
      let up = l.provider.stream_response (record request { model = l.model_id }) in
      let x = execute_stream_with_policy s l.name up.attempts up.caller up.now st.circuits in
      let taken = take_events idle_timeout up.waits 0 (observe x.events).0 x.failure in
      stream_end up l.name taken.0 taken.1 (record st { circuits = x.circuits })
        (λ e. stream_chain request chain (some e) (record st { circuits = x.circuits }))

  pub stream_decided :
      UnifiedAiRequest Num J
      → Dict (Provider F J)
      → RoutingDecision
      → GatewayState Num
      → StreamReply × GatewayState Num
  stream_decided request providers decision st =
      if is_blank decision.selected_provider
      then (record { events = []; refused = some decision.reason }, st)
      else let x = stream_chain request (build_provider_chain decision providers) none st in
        (record { events = x.0; refused = none }, x.1)

  pub stream_response :
      Sources (Provider F J) Num
      → UnifiedAiRequest Num J
      → GatewayState Num
      → StreamReply × GatewayState Num
  unfolding stream_decided
  stream_response sources request st =
      stream_decided request sources.provider_registry
        (route F (record sources { latencies = st.latencies })
          (record {
            model = request.model;
            stream = true;
            tools = request.tools;
            embeddings = none;
          })
          none)
        st
