-- ===== src/OpenAi/Replies/Fidelity.antt =====
-- libs/sirius-compat-openai/src/openai-compat.service.ts: the contents of chat replies and chunks.
use text.Mathlib.TextLemmas
use text.Mathlib.TextLemmas.{nil-append}
use mathlib.Core.List.{append_assoc, append-nil}
use sirius_gateway.Base.{
  if_any, ℕ, String, List, [], ◌∷◌, ◌++◌, Option, some, none, is_blank, empty_of_is_blank, ◌&◌, ◌≡◌,
  refl, sym, ap, ◌∙◌, Bool-cases, inl, inr,
}
use sirius_gateway.Core.Messages.{
  UnifiedAiResponse, UnifiedContent, UnifiedFinishReason, UnifiedStreamEvent,
}
use sirius_gateway.OpenAi.Types.{
  OpenAiToolCallMsg, OpenAiChoice, OpenAiChunkChoice, OpenAiChatCompletionChunk,
}
use sirius_gateway.OpenAi.Replies.{
  finish_reason_name, to_open_ai_finish_reason, add_text, add_item, add_items,
  format_chat_completion_response, format_stream_chunk,
}

abbrev pub text_or_empty : Option String → String
text_or_empty none = ""
text_or_empty (some t) = t

-- All text of a content.
abbrev pub text_of : List UnifiedContent → String
text_of [] = ""
text_of (UnifiedContent.text t ∷ items) = text_or_empty t & text_of items
text_of (UnifiedContent.tool_call c ∷ items) = text_of items

-- All tool calls of a content, in their order.
abbrev pub calls_of : List UnifiedContent → List OpenAiToolCallMsg
calls_of [] = []
calls_of (UnifiedContent.tool_call (some c) ∷ items) =
    record { id = c.id; name = c.name; arguments = c.arguments } ∷ calls_of items
calls_of (_ ∷ items) = calls_of items

add_text_lem :
    (texts : Option String) (t : String)
    → text_or_empty (add_text texts t) ≡ text_or_empty texts & t
unfolding add_text
add_text_lem none t = sym (nil-append t)
add_text_lem (some s) t = elim (Bool-cases (is_blank s)) [
  | inl empty ↦ rw empty (sym (nil-append t) ∙ ap (λ x. x & t) (sym (empty_of_is_blank s empty)))
  | inr given ↦ rw given refl
]

-- What one item adds.
add_item_lem :
    (texts : Option String) (calls : List OpenAiToolCallMsg) (item : UnifiedContent)
    → (text_or_empty (add_item (texts, calls) item).0 ≡ text_or_empty texts & text_of (item ∷ []))
      × ((add_item (texts, calls) item).1 ≡ calls ++ calls_of (item ∷ []))
unfolding add_item
add_item_lem texts calls (UnifiedContent.text none) =
    (sym (TextLemmas.append-nil (text_or_empty texts)), sym (append-nil calls))
add_item_lem texts calls (UnifiedContent.tool_call none) =
    (sym (TextLemmas.append-nil (text_or_empty texts)), sym (append-nil calls))
add_item_lem texts calls (UnifiedContent.tool_call (some c)) =
    (sym (TextLemmas.append-nil (text_or_empty texts)), refl)
add_item_lem texts calls (UnifiedContent.text (some t)) = elim (Bool-cases (is_blank t)) [
  | inl empty ↦ rw empty (
    sym (TextLemmas.append-nil (text_or_empty texts))
        ∙ ap (λ x. text_or_empty texts & x)
            (sym (TextLemmas.append-nil t ∙ empty_of_is_blank t empty)),
    sym (append-nil calls),
  )
  | inr given ↦ rw given (
    add_text_lem texts t ∙ ap (λ x. text_or_empty texts & x) (sym (TextLemmas.append-nil t)),
    sym (append-nil calls),
  )
]

pub text_of-cons :
    (item : UnifiedContent) (items : List UnifiedContent)
    → text_of (item ∷ items) ≡ text_of (item ∷ []) & text_of items
text_of-cons (UnifiedContent.text t) items =
    ap (λ x. x & text_of items) (sym (TextLemmas.append-nil (text_or_empty t)))
text_of-cons (UnifiedContent.tool_call c) items = sym (nil-append (text_of items))

pub calls_of-cons :
    (item : UnifiedContent) (items : List UnifiedContent)
    → calls_of (item ∷ items) ≡ calls_of (item ∷ []) ++ calls_of items
calls_of-cons (UnifiedContent.text t) items = refl
calls_of-cons (UnifiedContent.tool_call none) items = refl
calls_of-cons (UnifiedContent.tool_call (some c)) items = refl

add_items_lem :
    (acc : Option String × List OpenAiToolCallMsg) (items : List UnifiedContent)
    → (text_or_empty (add_items acc items).0 ≡ text_or_empty acc.0 & text_of items)
      × ((add_items acc items).1 ≡ acc.1 ++ calls_of items)
unfolding add_items
add_items_lem (texts, calls) [] =
    (sym (TextLemmas.append-nil (text_or_empty texts)), sym (append-nil calls))
add_items_lem (texts, calls) (item ∷ items) =
    let (a, b) = add_items_lem (add_item (texts, calls) item) items in
    let (c, d) = add_item_lem texts calls item in
    (
      a
          ∙ (ap (λ x. x & text_of items) c
              ∙ (TextLemmas.append_assoc (text_or_empty texts) (text_of (item ∷ [])) (text_of items)
                  ∙ ap (λ x. text_or_empty texts & x) (sym (text_of-cons item items)))),
      b
          ∙ (ap (λ x. x ++ calls_of items) d
              ∙ (append_assoc calls (calls_of (item ∷ [])) (calls_of items)
                  ∙ ap (λ x. calls ++ x) (sym (calls_of-cons item items)))),
    )

abbrev pub calls_or_empty : Option (List OpenAiToolCallMsg) → List OpenAiToolCallMsg
calls_or_empty none = []
calls_or_empty (some cs) = cs

if_any_lem : (cs : List OpenAiToolCallMsg) → calls_or_empty (if_any cs) ≡ cs
if_any_lem [] = refl
if_any_lem (c ∷ cs) = refl

known_reason :
    (r : UnifiedFinishReason)
    → to_open_ai_finish_reason (finish_reason_name r) ≡ finish_reason_name r
unfolding to_open_ai_finish_reason finish_reason_name
known_reason UnifiedFinishReason.stop = refl
known_reason UnifiedFinishReason.length = refl
known_reason UnifiedFinishReason.tool_calls = refl
known_reason UnifiedFinishReason.content_filter = refl
known_reason UnifiedFinishReason.error = refl

-- A chat completion has one choice, which holds all text of the response, all its tool calls in their
-- order, and its finish reason.
pub format_chat_completion_response_lem :
    {N : Type 0} (uuid : String) (now : ℕ) (response : UnifiedAiResponse N)
    → (c : OpenAiChoice) × ((format_chat_completion_response uuid now response).choices ≡ c ∷ [])
      × (text_or_empty c.content ≡ text_of response.content)
      × (calls_or_empty c.tool_calls ≡ calls_of response.content)
      × (c.finish_reason ≡ finish_reason_name response.finish_reason)
unfolding format_chat_completion_response
format_chat_completion_response_lem uuid now response =
    let (a, b) = add_items_lem (none, []) response.content in
    (
      _,
      refl,
      a ∙ nil-append (text_of response.content),
      if_any_lem _ ∙ b,
      known_reason response.finish_reason,
    )

abbrev pub choices_text : List OpenAiChunkChoice → String
choices_text [] = ""
choices_text (c ∷ cs) = text_or_empty c.delta.content & choices_text cs

abbrev pub chunk_list : Option OpenAiChatCompletionChunk → List OpenAiChatCompletionChunk
chunk_list none = []
chunk_list (some c) = c ∷ []

-- The chunks of a stream of events; an error event has none.
abbrev pub chunks_of :
    List UnifiedStreamEvent → String → ℕ → String → List OpenAiChatCompletionChunk
chunks_of [] id now model = []
chunks_of (e ∷ events) id now model =
    chunk_list (format_stream_chunk e id now model) ++ chunks_of events id now model

-- The text that the chunks add up to at the client.
abbrev pub chunk_text : List OpenAiChatCompletionChunk → String
chunk_text [] = ""
chunk_text (c ∷ chunks) = choices_text c.choices & chunk_text chunks

abbrev pub event_text : List UnifiedStreamEvent → String
event_text [] = ""
event_text (UnifiedStreamEvent.content_delta t ∷ events) = t & event_text events
event_text (_ ∷ events) = event_text events

-- The text of the chunks is the text of the events.
pub chunk_text-chunks_of :
    (events : List UnifiedStreamEvent) (id : String) (now : ℕ) (model : String)
    → chunk_text (chunks_of events id now model) ≡ event_text events
unfolding format_stream_chunk
chunk_text-chunks_of [] id now model = refl
chunk_text-chunks_of (UnifiedStreamEvent.content_delta t ∷ events) id now model =
    ap (λ x. x & chunk_text (chunks_of events id now model)) (TextLemmas.append-nil t)
    ∙ ap (λ x. t & x) (chunk_text-chunks_of events id now model)
chunk_text-chunks_of (UnifiedStreamEvent.tool_call_delta index i name arguments ∷ events) id now
      model =
    nil-append _ ∙ chunk_text-chunks_of events id now model
chunk_text-chunks_of (UnifiedStreamEvent.usage u ∷ events) id now model =
    nil-append _ ∙ chunk_text-chunks_of events id now model
chunk_text-chunks_of (UnifiedStreamEvent.done reason ∷ events) id now model =
    nil-append _ ∙ chunk_text-chunks_of events id now model
chunk_text-chunks_of (UnifiedStreamEvent.error message code ∷ events) id now model =
    chunk_text-chunks_of events id now model
