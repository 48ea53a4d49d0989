-- ===== src/Api/ChatStream/Fragments.antt =====
-- apps/sirius-api/src/controllers/chat-completions.controller.ts: the fragments of tool calls in the
-- chunks of a stream.
use mathlib.Core.List.{append_assoc}
use mathlib.Core.Option.{get_or}
use sirius_gateway.Base.{
  ℕ, String, List, [], ◌∷◌, ◌++◌, Option, map, ◌≡◌, refl, sym, ap, ◌∙◌, truthy,
}
use sirius_gateway.Core.Messages.{UnifiedStreamEvent}
use sirius_gateway.OpenAi.Types.{OpenAiChatCompletionChunk, OpenAiChunkChoice, ToolCallDelta}
use sirius_gateway.OpenAi.Replies.{format_stream_chunk}
use sirius_gateway.OpenAi.Replies.Fidelity.{chunk_list}

-- The index of a call, and what a fragment tells of its id, its name and its arguments.
abbrev pub Fragment : Type 0
Fragment = ℕ × Option String × Option String × Option String

abbrev fragment_of : ToolCallDelta → Fragment
fragment_of d = (d.index, d.id, d.name, d.arguments)

abbrev choice_fragments : List OpenAiChunkChoice → List Fragment
choice_fragments [] = []
choice_fragments (c ∷ cs) = map fragment_of (get_or c.delta.tool_calls []) ++ choice_fragments cs

abbrev pub chunk_fragments : List OpenAiChatCompletionChunk → List Fragment
chunk_fragments [] = []
chunk_fragments (c ∷ cs) = choice_fragments c.choices ++ chunk_fragments cs

abbrev pub event_fragments : List UnifiedStreamEvent → List Fragment
event_fragments [] = []
event_fragments (UnifiedStreamEvent.tool_call_delta index id name arguments ∷ es) =
    (index, truthy id, truthy name, truthy arguments) ∷ event_fragments es
event_fragments (e ∷ es) = event_fragments es

pub chunk_fragments-append :
    (xs ys : List OpenAiChatCompletionChunk)
    → chunk_fragments (xs ++ ys) ≡ chunk_fragments xs ++ chunk_fragments ys
chunk_fragments-append [] ys = refl
chunk_fragments-append (x ∷ xs) ys =
    ap (λ fs. choice_fragments x.choices ++ fs) (chunk_fragments-append xs ys)
    ∙ sym (append_assoc (choice_fragments x.choices) (chunk_fragments xs) (chunk_fragments ys))

pub event_fragments-cons :
    (e : UnifiedStreamEvent) (es : List UnifiedStreamEvent)
    → event_fragments (e ∷ es) ≡ event_fragments (e ∷ []) ++ event_fragments es
event_fragments-cons (UnifiedStreamEvent.content_delta t) es = refl
event_fragments-cons (UnifiedStreamEvent.tool_call_delta index id name a) es = refl
event_fragments-cons (UnifiedStreamEvent.usage u) es = refl
event_fragments-cons (UnifiedStreamEvent.done reason) es = refl
event_fragments-cons (UnifiedStreamEvent.error message code) es = refl

pub chunk-fragments :
    (e : UnifiedStreamEvent) (response_id : String) (now : ℕ) (model : String)
    → chunk_fragments (chunk_list (format_stream_chunk e response_id now model))
      ≡ event_fragments (e ∷ [])
unfolding format_stream_chunk
chunk-fragments (UnifiedStreamEvent.content_delta t) response_id now model = refl
chunk-fragments (UnifiedStreamEvent.tool_call_delta index id name a) response_id now model = refl
chunk-fragments (UnifiedStreamEvent.usage u) response_id now model = refl
chunk-fragments (UnifiedStreamEvent.done reason) response_id now model = refl
chunk-fragments (UnifiedStreamEvent.error message code) response_id now model = refl
