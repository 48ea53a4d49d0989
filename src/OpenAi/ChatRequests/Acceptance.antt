-- ===== src/OpenAi/ChatRequests/Acceptance.antt =====
-- libs/sirius-compat-openai/src/openai-compat.service.ts: accepted and refused chat requests.
use sirius_gateway.Base.{
  ℕ, ◌+◌, String, Bool, true, false, List, [], ◌∷◌, Option, some, none, ◌&&◌, not, is_empty,
  is_some, all, truthy, ◌≡◌, refl, ap, ◌∙◌, Bool-cases, inl, inr, arith,
}
use sirius_gateway.Core.Numbers.{Numbers}
use sirius_gateway.OpenAi.Types.{OpenAiChatCompletionRequest, OpenAiMessage, UserContent}
use sirius_gateway.OpenAi.Errors.{Parsed, invalid_request}
use sirius_gateway.OpenAi.Errors.Refusals.{
  is_parsed, OnlyBadRequests, invalid_request-OnlyBadRequests, is_parsed-and_then,
  and_then-OnlyBadRequests,
}
use sirius_gateway.OpenAi.ChatMessages.{
  Fault, no_fault, no_object, no_role, no_content, bad_content, fault_of,
}
use sirius_gateway.OpenAi.ChatRequests.{
  parse_fault, parse_messages, outside, above_one, check_numbers, model_required, parse_with,
  parse_chat_completion_request,
}

-- A message is an object with a role; one that is not the assistant's has content, which for a user
-- is a text or a list of parts.
unfoldable pub well_formed : OpenAiMessage → Bool
well_formed OpenAiMessage.not_object = false
well_formed OpenAiMessage.missing_role = false
well_formed (OpenAiMessage.unknown_role has_content) = has_content
well_formed (OpenAiMessage.system content name) = is_some content
well_formed (OpenAiMessage.user UserContent.absent name) = false
well_formed (OpenAiMessage.user UserContent.malformed name) = false
well_formed (OpenAiMessage.user (UserContent.plain t) name) = true
well_formed (OpenAiMessage.user (UserContent.parts ps) name) = true
well_formed (OpenAiMessage.assistant content name tool_calls) = true
well_formed (OpenAiMessage.tool content tool_call_id) = is_some content

abbrev pub messages_or_empty : Option (List OpenAiMessage) → List OpenAiMessage
messages_or_empty none = []
messages_or_empty (some ms) = ms

and_true : (b : Bool) → (b && true) ≡ b
and_true true = refl
and_true false = refl

module _ (F : Numbers) (printed : ℕ → String) where
  open F use {Num, decimal}

  is_parsed-parse_fault :
      (index : ℕ) (m : OpenAiMessage)
      → is_parsed (parse_fault F printed index m (fault_of m)) ≡ well_formed m
  unfolding parse_fault fault_of well_formed invalid_request
  is_parsed-parse_fault index m = ground arith

  is_parsed-parse_messages :
      (index : ℕ) (ms : List OpenAiMessage)
      → is_parsed (parse_messages F printed index ms) ≡ all well_formed ms
  unfolding parse_messages
  is_parsed-parse_messages index [] = refl
  is_parsed-parse_messages index (m ∷ ms) =
      is_parsed-and_then (all well_formed ms) (parse_fault F printed index m (fault_of m)) _ (λ u.
        is_parsed-and_then true (parse_messages F printed (index + 1) ms) _ (λ us. refl)
        ∙ (and_true _ ∙ is_parsed-parse_messages (index + 1) ms))
      ∙ ap (λ b. b && all well_formed ms) (is_parsed-parse_fault index m)

  -- The requests that are accepted.
  abbrev pub acceptable : {J : Type 0} → OpenAiChatCompletionRequest Num J → Bool
  acceptable body =
      is_some (truthy body.model)
      && not (is_empty (messages_or_empty body.messages))
      && not (outside F printed (decimal 0 0) (decimal 2 0) body.temperature)
      && not (outside F printed (decimal 0 0) (decimal 1 0) body.top_p)
      && not (above_one F printed body.n)
      && all well_formed (messages_or_empty body.messages)

  is_parsed-check_numbers :
      {A J : Type 0} (body : OpenAiChatCompletionRequest Num J) (rest : Parsed A)
      → is_parsed (check_numbers F printed body rest) ≡ (
          not (outside F printed (decimal 0 0) (decimal 2 0) body.temperature)
          && not (outside F printed (decimal 0 0) (decimal 1 0) body.top_p)
          && not (above_one F printed body.n)
          && is_parsed rest)
  unfolding check_numbers invalid_request
  is_parsed-check_numbers body rest = ground arith

  is_parsed-parse_with :
      {J : Type 0} (body : OpenAiChatCompletionRequest Num J) (request_id : String)
      (model : Option String) (messages : Option (List OpenAiMessage))
      → is_parsed (parse_with F printed body request_id model messages) ≡ (
          is_some model
          && not (is_empty (messages_or_empty messages))
          && not (outside F printed (decimal 0 0) (decimal 2 0) body.temperature)
          && not (outside F printed (decimal 0 0) (decimal 1 0) body.top_p)
          && not (above_one F printed body.n)
          && all well_formed (messages_or_empty messages))
  unfolding parse_with model_required invalid_request
  is_parsed-parse_with body request_id none messages = refl
  is_parsed-parse_with body request_id (some model) none = refl
  is_parsed-parse_with body request_id (some model) (some []) = refl
  is_parsed-parse_with body request_id (some model) (some (m ∷ ms)) =
      is_parsed-check_numbers body _
      ∙ ap
          (λ b.
            not (outside F printed (decimal 0 0) (decimal 2 0) body.temperature)
            && not (outside F printed (decimal 0 0) (decimal 1 0) body.top_p)
            && not (above_one F printed body.n)
            && b)
          (is_parsed-and_then true (parse_messages F printed 0 (m ∷ ms)) _ (λ us. refl)
            ∙ (and_true _ ∙ is_parsed-parse_messages 0 (m ∷ ms)))

  -- A chat request is accepted exactly when it names a model, has a message at least, its numbers are
  -- in their ranges (the temperature from 0 to 2, `top_p` from 0 to 1, `n` at most 1), and every
  -- message is well formed.
  pub parse_chat_completion_request-accepts :
      {J : Type 0} (body : OpenAiChatCompletionRequest Num J) (request_id : String)
      → is_parsed (parse_chat_completion_request F printed body request_id) ≡ acceptable body
  unfolding parse_chat_completion_request
  parse_chat_completion_request-accepts body request_id =
      is_parsed-parse_with body request_id (truthy body.model) body.messages

  parse_fault-OnlyBadRequests :
      (index : ℕ) (m : OpenAiMessage) (f : Fault)
      → OnlyBadRequests (parse_fault F printed index m f)
  unfolding parse_fault
  parse_fault-OnlyBadRequests index m no_fault = tt
  parse_fault-OnlyBadRequests index m no_object = invalid_request-OnlyBadRequests _ _ _
  parse_fault-OnlyBadRequests index m no_role = invalid_request-OnlyBadRequests _ _ _
  parse_fault-OnlyBadRequests index m no_content = invalid_request-OnlyBadRequests _ _ _
  parse_fault-OnlyBadRequests index m bad_content = invalid_request-OnlyBadRequests _ _ _

  parse_messages-OnlyBadRequests :
      (index : ℕ) (ms : List OpenAiMessage) → OnlyBadRequests (parse_messages F printed index ms)
  unfolding parse_messages
  parse_messages-OnlyBadRequests index [] = tt
  parse_messages-OnlyBadRequests index (m ∷ ms) =
      and_then-OnlyBadRequests (parse_fault F printed index m (fault_of m)) _
        (parse_fault-OnlyBadRequests index m (fault_of m))
        (λ u.
          and_then-OnlyBadRequests (parse_messages F printed (index + 1) ms) _
            (parse_messages-OnlyBadRequests (index + 1) ms) (λ us. tt))

  check_numbers-OnlyBadRequests :
      {A J : Type 0} (body : OpenAiChatCompletionRequest Num J) (rest : Parsed A)
      → OnlyBadRequests rest
      → OnlyBadRequests (check_numbers F printed body rest)
  unfolding check_numbers
  check_numbers-OnlyBadRequests {A} body rest h =
      elim (Bool-cases (outside F printed (decimal 0 0) (decimal 2 0) body.temperature)) [
        | inl bad ↦ rw bad (invalid_request-OnlyBadRequests A _ _)
        | inr fine ↦
            rw fine (elim (Bool-cases (outside F printed (decimal 0 0) (decimal 1 0) body.top_p)) [
              | inl bad ↦ rw bad (invalid_request-OnlyBadRequests A _ _)
              | inr fine ↦ rw fine (elim (Bool-cases (above_one F printed body.n)) [
                | inl bad ↦ rw bad (invalid_request-OnlyBadRequests A _ _)
                | inr fine ↦ rw fine h
              ])
            ])
      ]

  parse_with-OnlyBadRequests :
      {J : Type 0} (body : OpenAiChatCompletionRequest Num J) (request_id : String)
      (model : Option String) (messages : Option (List OpenAiMessage))
      → OnlyBadRequests (parse_with F printed body request_id model messages)
  unfolding parse_with model_required
  parse_with-OnlyBadRequests body request_id none messages = invalid_request-OnlyBadRequests _ _ _
  parse_with-OnlyBadRequests body request_id (some model) none =
      invalid_request-OnlyBadRequests _ _ _
  parse_with-OnlyBadRequests body request_id (some model) (some []) =
      invalid_request-OnlyBadRequests _ _ _
  parse_with-OnlyBadRequests body request_id (some model) (some (m ∷ ms)) =
      check_numbers-OnlyBadRequests body _ (
        and_then-OnlyBadRequests (parse_messages F printed 0 (m ∷ ms)) _
          (parse_messages-OnlyBadRequests 0 (m ∷ ms)) (λ us. tt))

  -- A chat request that is refused is refused with status 400 and the type `invalid_request_error`,
  -- whatever is wrong with it.
  pub parse_chat_completion_request-OnlyBadRequests :
      {J : Type 0} (body : OpenAiChatCompletionRequest Num J) (request_id : String)
      → OnlyBadRequests (parse_chat_completion_request F printed body request_id)
  unfolding parse_chat_completion_request
  parse_chat_completion_request-OnlyBadRequests body request_id =
      parse_with-OnlyBadRequests body request_id (truthy body.model) body.messages
