-- ===== src/Providers/OpenAiMapper/Transparency.antt =====
-- libs/provider-openai/src/openai.mapper.ts and libs/sirius-compat-openai/src/openai-compat.service.ts:
-- an OpenAI response on its way through the gateway to the client.
use text.Mathlib.TextLemmas
use mathlib.Core.Option.{get_or}
use sirius_gateway.Base.{
  ℕ, String, Option, none, any, ◌==◌, eq_iff, if◌then◌else◌, List, [], ◌∷◌, ◌++◌, some, map,
  is_blank, empty_of_is_blank, Bool-cases, inl, inr, ◌≡◌, refl, sym, ap, ◌∙◌, ◌&◌,
}
use sirius_gateway.Core.Messages.{UnifiedToolCall, UnifiedContent}
use sirius_gateway.OpenAi.Types.{OpenAiToolCallMsg, OpenAiChoice, OpenAiChatCompletion, OpenAiUsage}
use sirius_gateway.OpenAi.Replies.{format_chat_completion_response, finish_reason_name, usage_of}
use sirius_gateway.OpenAi.Replies.Fidelity.{
  text_or_empty, text_of, calls_of, calls_or_empty, format_chat_completion_response_lem,
}
use sirius_gateway.Providers.OpenAiMapper.{
  WireMessage, WireChatResponse, from_open_ai_response, response_text, text_items, message_items,
  choice_items, choice_reason, unified_finish_reason,
}

-- The calls as a client sees them.
abbrev pub client_call : UnifiedToolCall → OpenAiToolCallMsg
client_call c = record { id = c.id; name = c.name; arguments = c.arguments }

text_of-calls :
    (calls : List UnifiedToolCall)
    → text_of (map (λ (c : UnifiedToolCall). UnifiedContent.tool_call (some c)) calls) ≡ ""
text_of-calls [] = refl
text_of-calls (c ∷ calls) = text_of-calls calls

calls_of-calls :
    (calls : List UnifiedToolCall)
    → calls_of (map (λ (c : UnifiedToolCall). UnifiedContent.tool_call (some c)) calls)
      ≡ map client_call calls
calls_of-calls [] = refl
calls_of-calls (c ∷ calls) = ap (λ x. client_call c ∷ x) (calls_of-calls calls)

text_of-message :
    (t : String) (rest : List UnifiedContent) → text_of (text_items t ++ rest) ≡ t & text_of rest
unfolding text_items
text_of-message t rest = elim (Bool-cases (is_blank t)) [
  | inl e ↦ rw (e, empty_of_is_blank t e) (sym (TextLemmas.nil-append (text_of rest)))
  | inr e ↦ rw e refl
]

calls_of-message :
    (t : String) (rest : List UnifiedContent) → calls_of (text_items t ++ rest) ≡ calls_of rest
unfolding text_items
calls_of-message t rest = elim (Bool-cases (is_blank t)) [ inl e ↦ rw e refl | inr e ↦ rw e refl ]

message_items_lem :
    (m : WireMessage)
    → (text_of (message_items m) ≡ response_text m.content)
      × (calls_of (message_items m) ≡ map client_call (get_or m.tool_calls []))
unfolding message_items
message_items_lem m = (
  text_of-message (response_text m.content) _
      ∙ (ap (λ s. response_text m.content & s) (text_of-calls (get_or m.tool_calls []))
          ∙ TextLemmas.append-nil (response_text m.content)),
  calls_of-message (response_text m.content) _ ∙ calls_of-calls (get_or m.tool_calls []),
)

-- The finish reasons that the gateway knows.
abbrev known_reasons : List String
known_reasons = "stop" ∷ "length" ∷ "tool_calls" ∷ "content_filter" ∷ []

-- What a client reads for a reason on the wire.
abbrev pub client_reason : Option String → String
client_reason none = "stop"
client_reason (some raw) = if any (λ r. raw == r) known_reasons then raw else "stop"

reason_back :
    (raw : Option String) → finish_reason_name (unified_finish_reason raw) ≡ client_reason raw
unfolding unified_finish_reason finish_reason_name
reason_back none = refl
reason_back (some raw) = elim (Bool-cases (raw == "length")) [
  | inl a ↦ rw ((eq_iff raw "length").0 a) refl
  | inr a ↦ elim (Bool-cases (raw == "tool_calls")) [
    | inl b ↦ rw ((eq_iff raw "tool_calls").0 b) refl
    | inr b ↦ elim (Bool-cases (raw == "content_filter")) [
      | inl c ↦ rw ((eq_iff raw "content_filter").0 c) refl
      | inr c ↦ elim (Bool-cases (raw == "stop")) [
        | inl d ↦ rw ((eq_iff raw "stop").0 d) refl
        | inr d ↦ rw (a, b, c, d) refl
      ]
    ]
  ]
]

-- A response with one choice.
abbrev pub response_with :
    (id model : String) → WireMessage → OpenAiUsage → (reason : Option String) → WireChatResponse
response_with id model m u reason = record {
  id = id;
  model = model;
  choices = record { message = m; finish_reason = reason } ∷ [];
  usage = some u;
}

-- What the client gets of a response.
abbrev pub client_reply :
    {N : Type 0}
    → (uuid : String) → (now : ℕ) → (provider : String) → N
    → WireChatResponse
    → OpenAiChatCompletion
client_reply uuid now provider latency_ms raw =
    format_chat_completion_response uuid now (from_open_ai_response raw provider latency_ms)

-- The gateway is transparent for OpenAI: what the client gets of a response with one choice has one
-- choice, with the text and the tool calls of its message, the response's model and token counts,
-- and the choice's finish reason if that is one of the four known reasons, else "stop".
pub format-from_open_ai_response :
    {N : Type 0} (uuid : String) (now : ℕ) (provider : String) (latency_ms : N) (id model : String)
    (m : WireMessage) (u : OpenAiUsage) (r : Option String)
    → (c : OpenAiChoice) × ((client_reply uuid now provider latency_ms
          (response_with id model m u r)).choices
        ≡ c ∷ [])
      × (text_or_empty c.content ≡ response_text m.content)
      × (calls_or_empty c.tool_calls ≡ map client_call (get_or m.tool_calls []))
      × (c.finish_reason ≡ client_reason r)
      × ((client_reply uuid now provider latency_ms (response_with id model m u r)).model ≡ model)
      × ((client_reply uuid now provider latency_ms (response_with id model m u r)).usage ≡ some u)
unfolding from_open_ai_response choice_items choice_reason format_chat_completion_response usage_of
format-from_open_ai_response uuid now provider latency_ms id model m u r =
    let raw = response_with id model m u r in
    let (c, one, texts, calls, reason) =
      format_chat_completion_response_lem uuid now
        (from_open_ai_response raw provider latency_ms) in
    let (a, b) = message_items_lem m in
    (c, one, texts ∙ a, calls ∙ b, reason ∙ reason_back r, refl, refl)
