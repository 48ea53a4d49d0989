-- ===== src/OpenAi/ResponsesRequests/Turns.antt =====
-- libs/sirius-compat-openai/src/openai-compat.service.ts: the turns of a Responses request.
use mathlib.Core.List.{append_assoc, append-nil}
use sirius_gateway.Base.{
  ℕ, ◌+◌, String, List, [], ◌∷◌, ◌++◌, Option, some, none, is_blank, truthy, ◌≡◌, refl, sym, ap,
  ◌∙◌, subst, Bool-cases, inl, inr,
}
use sirius_gateway.Core.Messages.{UnifiedAiRequest, UnifiedMessage, UnifiedToolCall}
use sirius_gateway.OpenAi.Types.{
  OpenAiResponsesRequest, OpenAiResponsesInputItem, ResponsesInput, InputContent,
}
use sirius_gateway.OpenAi.Errors.{Parsed, parsed, refused, invalid_request, and_then}
use sirius_gateway.OpenAi.Errors.Refusals.{IsBadRequest, invalid_request-OnlyBadRequests}
use sirius_gateway.OpenAi.ResponsesRequests.{
  calls_or_empty, append_function_call, has_assistant_role, add_input_item, add_input_items,
  instruction_messages, input_required, input_messages, build_responses_request,
  parse_responses_with, parse_responses_request,
}

-- All tool calls of a conversation, in their order.
abbrev pub calls_of : List UnifiedMessage → List UnifiedToolCall
calls_of [] = []
calls_of (m ∷ ms) = calls_or_empty m.tool_calls ++ calls_of ms

-- The function calls among the input items.
abbrev pub item_calls : List OpenAiResponsesInputItem → List UnifiedToolCall
item_calls [] = []
item_calls (OpenAiResponsesInputItem.function_call call_id name arguments ∷ items) =
    record { id = call_id; name = name; arguments = arguments } ∷ item_calls items
item_calls (_ ∷ items) = item_calls items

calls_of-append : (xs ys : List UnifiedMessage) → calls_of (xs ++ ys) ≡ calls_of xs ++ calls_of ys
calls_of-append [] ys = refl
calls_of-append (x ∷ xs) ys =
    ap (λ t. calls_or_empty x.tool_calls ++ t) (calls_of-append xs ys)
    ∙ sym (append_assoc (calls_or_empty x.tool_calls) (calls_of xs) (calls_of ys))

calls_of-append_function_call :
    (ms : List UnifiedMessage) (c : UnifiedToolCall)
    → calls_of (append_function_call ms c) ≡ calls_of ms ++ c ∷ []
unfolding append_function_call
calls_of-append_function_call [] c = refl
calls_of-append_function_call (m ∷ []) c = elim (Bool-cases (has_assistant_role m.role)) [
  | inl assistant ↦
      rw assistant
        (append-nil _ ∙ sym (ap (λ t. t ++ c ∷ []) (append-nil (calls_or_empty m.tool_calls))))
  | inr other ↦ rw other (sym (ap (λ t. t ++ c ∷ []) (append-nil (calls_or_empty m.tool_calls))))
]
calls_of-append_function_call (m ∷ n ∷ ms) c =
    ap (λ t. calls_or_empty m.tool_calls ++ t) (calls_of-append_function_call (n ∷ ms) c)
    ∙ sym (append_assoc (calls_or_empty m.tool_calls) (calls_of (n ∷ ms)) (c ∷ []))

-- The messages, if there are any, hold just these calls; a refusal is a bad request.
abbrev pub HasCalls : List UnifiedToolCall → Parsed (List UnifiedMessage) → Type 0
HasCalls calls (parsed ms) = calls_of ms ≡ calls
HasCalls calls (refused e) = IsBadRequest e

plain_turn :
    (messages : List UnifiedMessage) (m : UnifiedMessage)
    → m.tool_calls ≡ none
    → calls_of (messages ++ m ∷ []) ≡ calls_of messages ++ []
plain_turn messages m h = rw (calls_of-append messages (m ∷ []), h) refl

refused-HasCalls :
    (calls : List UnifiedToolCall) (message : String) (code : Option String)
    → HasCalls calls (invalid_request message code)
unfolding invalid_request
refused-HasCalls calls message code =
    invalid_request-OnlyBadRequests (List UnifiedMessage) message code

and_then-HasCalls :
    (cs ds : List UnifiedToolCall) (x : Parsed (List UnifiedMessage))
    (f : List UnifiedMessage → Parsed (List UnifiedMessage))
    → HasCalls cs x
    → ((ms : List UnifiedMessage) → calls_of ms ≡ cs → HasCalls ds (f ms))
    → HasCalls ds (and_then x f)
and_then-HasCalls cs ds (parsed ms) f h k = k ms h
and_then-HasCalls cs ds (refused e) f h k = h

module _ (printed : ℕ → String) where
  add_input_item-HasCalls :
      (index : ℕ) (messages : List UnifiedMessage) (item : OpenAiResponsesInputItem)
      → HasCalls
          (calls_of messages ++ item_calls (item ∷ []))
          (add_input_item printed index messages item)
  unfolding add_input_item
  add_input_item-HasCalls index messages OpenAiResponsesInputItem.not_object =
      refused-HasCalls _ _ _
  add_input_item-HasCalls index messages
        (OpenAiResponsesInputItem.function_call call_id name arguments) =
      calls_of-append_function_call messages _
  add_input_item-HasCalls index messages
        (OpenAiResponsesInputItem.function_call_output call_id output) =
      plain_turn messages _ refl
  add_input_item-HasCalls index messages
        (OpenAiResponsesInputItem.message role InputContent.absent) =
      refused-HasCalls _ _ _
  add_input_item-HasCalls index messages
        (OpenAiResponsesInputItem.message role (InputContent.plain t)) =
      plain_turn messages _ refl
  add_input_item-HasCalls index messages
        (OpenAiResponsesInputItem.message role (InputContent.parts ps)) =
      plain_turn messages _ refl

  item_calls-cons :
      (item : OpenAiResponsesInputItem) (items : List OpenAiResponsesInputItem)
      → item_calls (item ∷ items) ≡ item_calls (item ∷ []) ++ item_calls items
  item_calls-cons OpenAiResponsesInputItem.not_object items = refl
  item_calls-cons (OpenAiResponsesInputItem.function_call call_id name arguments) items = refl
  item_calls-cons (OpenAiResponsesInputItem.function_call_output call_id output) items = refl
  item_calls-cons (OpenAiResponsesInputItem.message role content) items = refl

  add_input_items-HasCalls :
      (index : ℕ) (messages : List UnifiedMessage) (items : List OpenAiResponsesInputItem)
      → HasCalls
          (calls_of messages ++ item_calls items)
          (add_input_items printed index messages items)
  unfolding add_input_items
  add_input_items-HasCalls index messages [] = sym (append-nil (calls_of messages))
  add_input_items-HasCalls index messages (item ∷ items) =
      and_then-HasCalls (calls_of messages ++ item_calls (item ∷ [])) _
        (add_input_item printed index messages item) _ (add_input_item-HasCalls index messages item)
        (λ ms h.
          subst (λ cs. HasCalls cs (add_input_items printed (index + 1) ms items))
            (ap (λ t. t ++ item_calls items) h
              ∙ (append_assoc (calls_of messages) (item_calls (item ∷ [])) (item_calls items)
                  ∙ ap (λ t. calls_of messages ++ t) (sym (item_calls-cons item items))))
            (add_input_items-HasCalls (index + 1) ms items))

  abbrev pub items_of : ResponsesInput → List OpenAiResponsesInputItem
  items_of (ResponsesInput.items items) = items
  items_of _ = []

  instructions-no_calls : (t : Option String) → calls_of (instruction_messages printed t) ≡ []
  instructions-no_calls none = refl
  instructions-no_calls (some t) = refl

  input_messages-HasCalls :
      (instructions : Option String) (input : ResponsesInput)
      → HasCalls (item_calls (items_of input)) (input_messages printed instructions input)
  unfolding input_messages input_required
  input_messages-HasCalls instructions ResponsesInput.absent = refused-HasCalls _ _ _
  input_messages-HasCalls instructions ResponsesInput.malformed = refused-HasCalls _ _ _
  input_messages-HasCalls instructions (ResponsesInput.plain t) = elim (Bool-cases (is_blank t)) [
    | inl empty ↦ rw empty (refused-HasCalls _ _ _)
    | inr given ↦ rw given (
        calls_of-append (instruction_messages printed (truthy instructions)) _
        ∙ rw (instructions-no_calls (truthy instructions)) refl)
  ]
  input_messages-HasCalls instructions (ResponsesInput.items items) =
      subst
        (λ cs.
          HasCalls (cs ++ item_calls items)
            (add_input_items printed 0 (instruction_messages printed (truthy instructions)) items))
        (instructions-no_calls (truthy instructions))
        (add_input_items-HasCalls 0 (instruction_messages printed (truthy instructions)) items)

  -- A request that is accepted holds just those calls; a refusal is a bad request.
  abbrev pub KeepsCalls :
      {N J : Type 0} → List UnifiedToolCall → Parsed (UnifiedAiRequest N J) → Type 0
  KeepsCalls calls (parsed r) = calls_of r.messages ≡ calls
  KeepsCalls calls (refused e) = IsBadRequest e

  parsed-KeepsCalls :
      {N J : Type 0} (calls : List UnifiedToolCall) (x : Parsed (List UnifiedMessage))
      (f : List UnifiedMessage → UnifiedAiRequest N J)
      → HasCalls calls x
      → ((ms : List UnifiedMessage) → (f ms).messages ≡ ms)
      → KeepsCalls calls (and_then x (λ ms. parsed (f ms)))
  parsed-KeepsCalls calls (parsed ms) f h k = ap calls_of (k ms) ∙ h
  parsed-KeepsCalls calls (refused e) f h k = h

  refused-KeepsCalls :
      (N J : Type 0) (calls : List UnifiedToolCall) (message : String) (code : Option String)
      → KeepsCalls {N = N} {J = J} calls (invalid_request message code)
  unfolding invalid_request
  refused-KeepsCalls N J calls message code =
      invalid_request-OnlyBadRequests (UnifiedAiRequest N J) message code

  parse_responses_with-KeepsCalls :
      {N J : Type 0} (body : OpenAiResponsesRequest N J) (request_id : String)
      (model : Option String)
      → KeepsCalls
          (item_calls (items_of body.input))
          (parse_responses_with printed body request_id model)
  unfolding parse_responses_with build_responses_request
  parse_responses_with-KeepsCalls {N} {J} body request_id none = refused-KeepsCalls N J _ _ _
  parse_responses_with-KeepsCalls body request_id (some model) =
      parsed-KeepsCalls _ (input_messages printed body.instructions body.input) _
        (input_messages-HasCalls body.instructions body.input) (λ ms. refl)

  -- A Responses request is refused as a bad request, or its conversation holds exactly the function
  -- calls of its input items, in their order, however they were joined to turns of the assistant.
  pub parse_responses_request-KeepsCalls :
      {N J : Type 0} (body : OpenAiResponsesRequest N J) (request_id : String)
      → KeepsCalls
          (item_calls (items_of body.input))
          (parse_responses_request printed body request_id)
  unfolding parse_responses_request
  parse_responses_request-KeepsCalls body request_id =
      parse_responses_with-KeepsCalls body request_id (truthy body.model)
