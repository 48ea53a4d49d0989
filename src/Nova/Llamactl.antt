-- ===== src/Nova/Llamactl.antt =====
-- libs/provider-llamactl/src/llamactl.adapter.ts: LlamactlAdapter.
pub mod Endings
pub mod Observations
use mathlib.Core.Option.{get_or}
use sirius_gateway.Base.{
  ℕ, String, Bool, List, [], ◌∷◌, ◌++◌, Option, some, none, map, ◌&◌, truthy, or_else,
}
use sirius_gateway.Base.Dict
use sirius_gateway.Base.Dict.{Dict}
use sirius_gateway.Core.Messages.{UnifiedAiRequest, UnifiedAiResponse, UnifiedStreamEvent}
use sirius_gateway.Nova.{
  NovaRequest, NovaResponse, NovaStreamEvent, chunk, tool_call, Completion, upstream, eof, Ending,
  ended, nova_message, nova_response_to_sirius, content_of_chunk,
}

pub sirius_request_to_nova : {N J : Type 0} → UnifiedAiRequest N J → NovaRequest N
sirius_request_to_nova req = record {
  model = req.model;
  messages = map nova_message req.messages;
  stream = req.stream;
  temperature = req.temperature;
  top_p = req.top_p;
  max_tokens = req.max_tokens;
  stop = req.stop;
  user = req.user;
}

abbrev pub upstream_eof : UnifiedStreamEvent
upstream_eof =
    UnifiedStreamEvent.error "upstream stream ended without a completion signal"
      (some "upstream_eof")

-- The end of the iteration, with no terminal event.
pub end_of_stream : Ending → List UnifiedStreamEvent
end_of_stream ended = upstream_eof ∷ []
end_of_stream (Ending.thrown message) = UnifiedStreamEvent.error message (some "upstream_eof") ∷ []

pub done_event : Option String → Completion → UnifiedStreamEvent
done_event reason upstream = UnifiedStreamEvent.done (get_or reason "stop")
done_event reason eof = upstream_eof

-- The loop over nova's events, which returns at the first `error` or `done`.
pub translate_stream : List NovaStreamEvent → Ending → List UnifiedStreamEvent
unfolding end_of_stream done_event
translate_stream [] ending = end_of_stream ending
translate_stream (chunk content ∷ es) ending =
    content_of_chunk content ++ translate_stream es ending
translate_stream (tool_call ∷ es) ending = translate_stream es ending
translate_stream (NovaStreamEvent.error message code ∷ es) ending =
    UnifiedStreamEvent.error message (truthy code) ∷ []
translate_stream (NovaStreamEvent.done reason completion ∷ es) ending =
    done_event reason completion ∷ []

-- `stream` is nothing when the nova provider cannot stream.
pub stream_response :
    (name : String) → (stream : Option (List NovaStreamEvent × Ending)) → List UnifiedStreamEvent
unfolding translate_stream
stream_response name none =
    UnifiedStreamEvent.error (name & ": upstream does not support streaming")
      (some "stream_unsupported")
    ∷ []
stream_response name (some (events, ending)) = translate_stream events ending

-- What awaiting nova comes to.
pub data Awaited (A : Type 0) : Type 0 where
  resolved : A → Awaited A
  failed : (message : String) → Awaited A

module _ {O : Type 0} where
  -- `onUsageObservation`: snapshots without an attempt id are dropped.
  note : Option String → O → Dict O → Dict O
  note none observation observations = observations
  note (some attempt) observation observations = Dict.set attempt observation observations

  pub observe : Dict O → List (Option String × O) → Dict O
  unfolding note
  observe observations [] = observations
  observe observations ((id, observation) ∷ snapshots) =
      observe (note (truthy id) observation observations) snapshots

  -- `createResponse`, and `createEmbeddings` likewise: `snapshots` are those that arrive while the
  -- call waits, of this call and of others; `translate` makes the result. The entry of the call's
  -- attempt is taken and deleted.
  pub with_observation :
      {A B : Type 0}
      → (translate : A → B) → (attempt : String) → (snapshots : List (Option String × O))
      → Awaited A
      → Dict O
      → Awaited (B × Option O) × Dict O
  unfolding observe
  with_observation translate attempt snapshots (resolved res) observations =
      let during = observe observations snapshots in
      (resolved (translate res, Dict.get attempt during), Dict.delete attempt during)
  with_observation translate attempt snapshots (failed message) observations =
      (failed message, Dict.delete attempt (observe observations snapshots))

-- The ids of `executionContext`: the request's and the attempt's.
pub execution_ids :
    (context request_id : Option String) → (attempt : String) → Option String × String
execution_ids context request_id attempt = (truthy (or_else context request_id), attempt)
