-- ===== src/Nova/SiriusAdapter.antt =====
-- libs/provider-fromfile/src/fromfile-provider.module.ts: `toSiriusAdapter` and `toNovaRequest`.
pub mod Truncation
use mathlib.Core.Option.{get_or}
use sirius_gateway.Base.{String, Bool, List, [], ◌∷◌, ◌++◌, Option, some, none, map, truthy}
use sirius_gateway.Core.Messages.{UnifiedAiRequest, UnifiedStreamEvent}
use sirius_gateway.Nova.{
  NovaRequest, NovaStreamEvent, chunk, tool_call, Completion, Ending, ended, nova_message,
  content_of_chunk,
}

-- Neither stop sequences nor the user are set.
pub to_nova_request : {N J : Type 0} → UnifiedAiRequest N J → (stream : Bool) → NovaRequest N
to_nova_request req stream = record {
  model = req.model;
  messages = map nova_message req.messages;
  stream = stream;
  temperature = req.temperature;
  top_p = req.top_p;
  max_tokens = req.max_tokens;
  stop = none;
  user = none;
}

-- One event; the loop goes on after each.
pub translate_event : NovaStreamEvent → List UnifiedStreamEvent
translate_event (chunk content) = content_of_chunk content
translate_event (NovaStreamEvent.error message code) =
    UnifiedStreamEvent.error message (truthy code) ∷ []
translate_event (NovaStreamEvent.done reason completion) =
    UnifiedStreamEvent.done (get_or reason "stop") ∷ []
translate_event tool_call = []

pub translate_events : List NovaStreamEvent → List UnifiedStreamEvent
unfolding translate_event
translate_events [] = []
translate_events (e ∷ es) = translate_event e ++ translate_events es

-- What the consumer gets, and the message of the error that the stream throws, if it does.
pub stream_from_core :
    (stream : Option (List NovaStreamEvent × Ending)) → List UnifiedStreamEvent × Option String
unfolding translate_events
stream_from_core none = (UnifiedStreamEvent.done "stop" ∷ [], none)
stream_from_core (some (events, ended)) = (translate_events events, none)
stream_from_core (some (events, Ending.thrown message)) = (translate_events events, some message)
