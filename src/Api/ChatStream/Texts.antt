-- ===== src/Api/ChatStream/Texts.antt =====
-- apps/sirius-api/src/controllers/chat-completions.controller.ts: the text of the chunks of a stream.
use text.Mathlib.TextLemmas
use text.Mathlib.TextLemmas.{nil-append}
use sirius_gateway.Base.{List, [], ◌∷◌, ◌++◌, ◌&◌, ◌≡◌, sym, ap, ◌∙◌}
use sirius_gateway.Core.Messages.{UnifiedStreamEvent}
use sirius_gateway.OpenAi.Types.{OpenAiChatCompletionChunk}
use sirius_gateway.OpenAi.Replies.Fidelity.{choices_text, chunk_text, event_text}

pub chunk_text-append :
    (xs ys : List OpenAiChatCompletionChunk) → chunk_text (xs ++ ys) ≡ chunk_text xs & chunk_text ys
chunk_text-append [] ys = sym (nil-append (chunk_text ys))
chunk_text-append (x ∷ xs) ys =
    ap (λ t. choices_text x.choices & t) (chunk_text-append xs ys)
    ∙ sym (TextLemmas.append_assoc (choices_text x.choices) (chunk_text xs) (chunk_text ys))

pub event_text-cons :
    (e : UnifiedStreamEvent) (es : List UnifiedStreamEvent)
    → event_text (e ∷ es) ≡ event_text (e ∷ []) & event_text es
event_text-cons (UnifiedStreamEvent.content_delta t) es =
    ap (λ x. x & event_text es) (sym (TextLemmas.append-nil t))
event_text-cons (UnifiedStreamEvent.tool_call_delta index id name a) es =
    sym (nil-append (event_text es))
event_text-cons (UnifiedStreamEvent.usage u) es = sym (nil-append (event_text es))
event_text-cons (UnifiedStreamEvent.done reason) es = sym (nil-append (event_text es))
event_text-cons (UnifiedStreamEvent.error message code) es = sym (nil-append (event_text es))
