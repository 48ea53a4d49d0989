-- ===== src/Nova/Llamactl/Endings.antt =====
-- libs/provider-llamactl/src/llamactl.adapter.ts: how its streams end.
use sirius_gateway.Base.{
  String, Bool, true, false, List, [], ◌∷◌, ◌++◌, Option, some, none, is_blank, Bool-cases, inl,
  inr, ◌≡◌, refl,
}
use sirius_gateway.Core.Messages.{UnifiedStreamEvent}
use sirius_gateway.Nova.{
  NovaStreamEvent, chunk, tool_call, upstream, eof, Ending, ended, content_of_chunk,
}
use sirius_gateway.Nova.Llamactl.{end_of_stream, done_event, translate_stream, stream_response}

-- Text, and then one terminal event: `finished` says whether that is a successful end.
abbrev pub Closes : (finished : Bool) → List UnifiedStreamEvent → Type 0
Closes finished [] = ⊥
Closes finished (UnifiedStreamEvent.content_delta t ∷ es) = Closes finished es
Closes finished (UnifiedStreamEvent.done reason ∷ es) = (es ≡ []) × (finished ≡ true)
Closes finished (UnifiedStreamEvent.error message code ∷ es) = (es ≡ []) × (finished ≡ false)
Closes finished (e ∷ es) = ⊥

-- The upstream has signalled completion, with no error before.
abbrev pub completed : List NovaStreamEvent → Bool
completed [] = false
completed (NovaStreamEvent.done reason upstream ∷ es) = true
completed (NovaStreamEvent.done reason eof ∷ es) = false
completed (NovaStreamEvent.error message code ∷ es) = false
completed (e ∷ es) = completed es

abbrev pub stream_completed : Option (List NovaStreamEvent × Ending) → Bool
stream_completed none = false
stream_completed (some (events, ending)) = completed events

pub Closes-content :
    (finished : Bool) (content : Option String) (es : List UnifiedStreamEvent)
    → Closes finished es
    → Closes finished (content_of_chunk content ++ es)
Closes-content finished none es h = h
Closes-content finished (some t) es h = elim (Bool-cases (is_blank t)) [
  | inl e ↦ rw (e, Closes) h
  | inr e ↦ rw (e, Closes) h
]

translate_stream-Closes :
    (events : List NovaStreamEvent) (ending : Ending)
    → Closes (completed events) (translate_stream events ending)
unfolding translate_stream end_of_stream done_event
translate_stream-Closes [] ended = (refl, refl)
translate_stream-Closes [] (Ending.thrown message) = (refl, refl)
translate_stream-Closes (chunk content ∷ es) ending =
    Closes-content (completed es) content (translate_stream es ending)
      (translate_stream-Closes es ending)
translate_stream-Closes (tool_call ∷ es) ending = translate_stream-Closes es ending
translate_stream-Closes (NovaStreamEvent.error message code ∷ es) ending = (refl, refl)
translate_stream-Closes (NovaStreamEvent.done reason upstream ∷ es) ending = (refl, refl)
translate_stream-Closes (NovaStreamEvent.done reason eof ∷ es) ending = (refl, refl)

-- Whatever nova's stream does (an error in it, a throw, an end without a signal, or no streaming at
-- all), a stream of the llamactl adapter is text and then exactly one terminal event; that is `done`
-- exactly if the upstream has signalled completion, and an error otherwise.
pub stream_response-Closes :
    (name : String) (stream : Option (List NovaStreamEvent × Ending))
    → Closes (stream_completed stream) (stream_response name stream)
unfolding stream_response
stream_response-Closes name none = (refl, refl)
stream_response-Closes name (some (events, ending)) = translate_stream-Closes events ending
