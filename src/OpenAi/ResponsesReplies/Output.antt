-- ===== src/OpenAi/ResponsesReplies/Output.antt =====
-- libs/sirius-compat-openai/src/openai-compat.service.ts: the output of Responses replies.
use text.Mathlib.TextLemmas
use text.Mathlib.TextLemmas.{nil-append}
use mathlib.Core.List.{append_assoc, append-nil}
use sirius_gateway.Base.{
  ℕ, String, List, [], ◌∷◌, ◌++◌, some, none, is_blank, empty_of_is_blank, ◌&◌, ◌≡◌, refl, sym, ap,
  ◌∙◌, Bool-cases, inl, inr,
}
use sirius_gateway.Core.Messages.{UnifiedAiResponse, UnifiedContent}
use sirius_gateway.OpenAi.Types.{OpenAiToolCallMsg, OpenAiResponsesOutputItem}
use sirius_gateway.OpenAi.Replies.Fidelity.{text_of, calls_of, text_of-cons, calls_of-cons}
use sirius_gateway.OpenAi.ResponsesReplies.{
  Collected, collect_item, collect_items, with_message, format_responses_response,
}

abbrev pub joined : List String → String
joined [] = ""
joined (t ∷ ts) = t & joined ts

-- All text and all calls of an output, in their order.
abbrev pub output_text : List OpenAiResponsesOutputItem → String
output_text [] = ""
output_text (OpenAiResponsesOutputItem.message id status ts ∷ items) = joined ts & output_text items
output_text (OpenAiResponsesOutputItem.function_call id call_id name arguments status ∷ items) =
    output_text items

abbrev pub output_calls : List OpenAiResponsesOutputItem → List OpenAiToolCallMsg
output_calls [] = []
output_calls (OpenAiResponsesOutputItem.message id status ts ∷ items) = output_calls items
output_calls (OpenAiResponsesOutputItem.function_call id call_id name arguments status ∷ items) =
    record { id = call_id; name = name; arguments = arguments } ∷ output_calls items

joined-append : (ts : List String) (t : String) → joined (ts ++ t ∷ []) ≡ joined ts & t
joined-append [] t = TextLemmas.append-nil t ∙ sym (nil-append t)
joined-append (s ∷ ts) t =
    ap (λ x. s & x) (joined-append ts t) ∙ sym (TextLemmas.append_assoc s (joined ts) t)

output-append_call :
    (items : List OpenAiResponsesOutputItem) (id call_id name arguments status : String)
    → (output_calls
          (items ++ OpenAiResponsesOutputItem.function_call id call_id name arguments status ∷ [])
        ≡ output_calls items ++ record { id = call_id; name = name; arguments = arguments } ∷ [])
      × (output_text
            (items ++ OpenAiResponsesOutputItem.function_call id call_id name arguments status ∷ [])
          ≡ output_text items)
output-append_call [] id call_id name arguments status = (refl, refl)
output-append_call (OpenAiResponsesOutputItem.message i s ts ∷ items) id call_id name arguments
      status =
    let (a, b) = output-append_call items id call_id name arguments status in
    (a, ap (λ x. joined ts & x) b)
output-append_call (OpenAiResponsesOutputItem.function_call i c n a s ∷ items) id call_id name
      arguments status =
    let (p, q) = output-append_call items id call_id name arguments status in
    (ap (λ x. record { id = c; name = n; arguments = a } ∷ x) p, q)

-- What is collected: the texts, calls and no text among them.
abbrev Holds : String → List OpenAiToolCallMsg → Collected → Type 0
Holds t calls c =
    (joined c.texts ≡ t) × (output_calls c.output ≡ calls) × (output_text c.output ≡ "")

collect_item-Holds :
    (uuids : ℕ → String) (t : String) (calls : List OpenAiToolCallMsg) (c : Collected)
    (item : UnifiedContent)
    → Holds t calls c
    → Holds (t & text_of (item ∷ [])) (calls ++ calls_of (item ∷ [])) (collect_item uuids c item)
unfolding collect_item
collect_item-Holds uuids t calls c (UnifiedContent.text none) (h, k, e) =
    (h ∙ sym (TextLemmas.append-nil t), k ∙ sym (append-nil calls), e)
collect_item-Holds uuids t calls c (UnifiedContent.text (some s)) (h, k, e) =
    elim (Bool-cases (is_blank s)) [
      | inl empty ↦ rw empty (
        h
            ∙ (sym (TextLemmas.append-nil t)
                ∙ ap (λ x. t & x) (sym (TextLemmas.append-nil s ∙ empty_of_is_blank s empty))),
        k ∙ sym (append-nil calls),
        e,
      )
      | inr given ↦ rw given (
        joined-append c.texts s
            ∙ (ap (λ x. x & s) h ∙ ap (λ x. t & x) (sym (TextLemmas.append-nil s))),
        k ∙ sym (append-nil calls),
        e,
      )
    ]
collect_item-Holds uuids t calls c (UnifiedContent.tool_call none) (h, k, e) =
    (h ∙ sym (TextLemmas.append-nil t), k ∙ sym (append-nil calls), e)
collect_item-Holds uuids t calls c (UnifiedContent.tool_call (some call)) (h, k, e) =
    let (p, q) =
      output-append_call c.output ("fc_" & uuids c.drawn) call.id call.name call.arguments
        "completed" in
    (
      h ∙ sym (TextLemmas.append-nil t),
      p ∙ ap (λ x. x ++ calls_of (UnifiedContent.tool_call (some call) ∷ [])) k,
      q ∙ e,
    )

collect_items-Holds :
    (uuids : ℕ → String) (t : String) (calls : List OpenAiToolCallMsg) (c : Collected)
    (items : List UnifiedContent)
    → Holds t calls c
    → Holds (t & text_of items) (calls ++ calls_of items) (collect_items uuids c items)
unfolding collect_items
collect_items-Holds uuids t calls c [] (h, k, e) =
    (h ∙ sym (TextLemmas.append-nil t), k ∙ sym (append-nil calls), e)
collect_items-Holds uuids t calls c (item ∷ items) holds =
    let (h, k, e) =
      collect_items-Holds uuids (t & text_of (item ∷ [])) (calls ++ calls_of (item ∷ []))
        (collect_item uuids c item) items (collect_item-Holds uuids t calls c item holds) in
    (
      h
          ∙ (TextLemmas.append_assoc t (text_of (item ∷ [])) (text_of items)
              ∙ ap (λ x. t & x) (sym (text_of-cons item items))),
      k
          ∙ (append_assoc calls (calls_of (item ∷ [])) (calls_of items)
              ∙ ap (λ x. calls ++ x) (sym (calls_of-cons item items))),
      e,
    )

with_message_lem :
    (uuids : ℕ → String) (c : Collected) (texts : List String)
    → output_text c.output ≡ ""
    → (output_text (with_message uuids c texts).output ≡ joined texts)
      × (output_calls (with_message uuids c texts).output ≡ output_calls c.output)
unfolding with_message
with_message_lem uuids c [] e = (e, refl)
with_message_lem uuids c (t ∷ ts) e =
    (ap (λ x. (t & joined ts) & x) e ∙ TextLemmas.append-nil (t & joined ts), refl)

-- The output of a Responses reply holds all text of the response and all its tool calls, in their
-- order.
pub format_responses_response_lem :
    {N : Type 0} (uuids : ℕ → String) (now : ℕ) (response : UnifiedAiResponse N)
    → (output_text (format_responses_response uuids now response).output ≡ text_of response.content)
      × (output_calls (format_responses_response uuids now response).output
          ≡ calls_of response.content)
unfolding format_responses_response
format_responses_response_lem uuids now response =
    let (h, k, e) =
      collect_items-Holds uuids "" [] (record { texts = []; output = []; drawn = 0 })
        response.content (refl, refl, refl) in
    let (p, q) = with_message_lem uuids _ _ e in
    (p ∙ (h ∙ nil-append (text_of response.content)), q ∙ k)
