-- ===== src/Providers/AnthropicMapper/Calls.antt =====
-- libs/provider-anthropic/src/anthropic.mapper.ts: which requests are refused, and tool calls there
-- and back.
use mathlib.Core.Option
use mathlib.Core.Option.{get_or}
use sirius_gateway.Base.{
  String, Bool, true, false, List, [], ◌∷◌, ◌++◌, Option, some, none, if◌then◌else◌, ◌&&◌, all, map,
  is_blank, is_some, and_then, empty_of_is_blank, Bool-cases, inl, inr, ◌≡◌, refl, ap, ◌∙◌,
}
use sirius_gateway.Core.Json.{Json}
use sirius_gateway.Core.Messages.{
  UnifiedRole, UnifiedToolCall, UnifiedMessage, UnifiedAiRequest, UnifiedContent, Content, plain,
}
use sirius_gateway.Providers.AnthropicTypes.{
  AnthropicContentBlock, AnthropicContent, whole, blocks, AnthropicMessage,
}
use sirius_gateway.Providers.AnthropicMapper.{
  tool_blocks, assistant_content, content_of, to_anthropic_content, split_message, split_messages,
  to_anthropic_request, content_item, content_items, text_block,
}

module _ (json : Json) where
  open json use {Value, parse, stringify, parse-stringify}

  -- The arguments of a call are JSON, or absent.
  abbrev pub call_ok : UnifiedToolCall → Bool
  call_ok tc = is_some (parse (if is_blank tc.arguments then "{}" else tc.arguments))

  abbrev pub calls_ok : UnifiedRole → Option (List UnifiedToolCall) → Bool
  calls_ok UnifiedRole.assistant calls = all call_ok (get_or calls [])
  calls_ok role calls = true

  abbrev pub message_ok : UnifiedMessage → Bool
  message_ok m = calls_ok m.role m.tool_calls

  is_some-map : {A B : Type 0} (f : A → B) (o : Option A) → is_some (Option.map f o) ≡ is_some o
  is_some-map f none = refl
  is_some-map f (some a) = refl

  is_some-and_then-map :
      {A B C : Type 0} (o : Option A) (f : A → B → C) (r : Option B)
      → is_some (and_then o (λ a. Option.map (f a) r)) ≡ (is_some o && is_some r)
  is_some-and_then-map none f r = refl
  is_some-and_then-map (some a) f r = is_some-map (f a) r

  is_some-tool_blocks :
      (calls : List UnifiedToolCall) → is_some (tool_blocks json calls) ≡ all call_ok calls
  unfolding tool_blocks
  is_some-tool_blocks [] = refl
  is_some-tool_blocks (tc ∷ calls) =
      is_some-and_then-map _ _ (tool_blocks json calls)
      ∙ ap (λ b. call_ok tc && b) (is_some-tool_blocks calls)

  is_some-assistant :
      (content : Content) (calls : List UnifiedToolCall)
      → is_some (assistant_content json content calls) ≡ all call_ok calls
  unfolding assistant_content
  is_some-assistant content [] = refl
  is_some-assistant content (tc ∷ calls) =
      is_some-map _ (tool_blocks json (tc ∷ calls)) ∙ is_some-tool_blocks (tc ∷ calls)

  is_some-content_of :
      (role : UnifiedRole) (m : UnifiedMessage)
      → is_some (content_of json role m) ≡ calls_ok role m.tool_calls
  unfolding content_of
  is_some-content_of UnifiedRole.system m = refl
  is_some-content_of UnifiedRole.user m = refl
  is_some-content_of UnifiedRole.tool m = refl
  is_some-content_of UnifiedRole.assistant m = is_some-assistant m.content (get_or m.tool_calls [])

  is_some-split_message :
      (role : UnifiedRole) (m : UnifiedMessage)
      → m.role ≡ role
      → (rest : Option (List String × List (AnthropicMessage Value)))
      → is_some (split_message json role m rest) ≡ (calls_ok role m.tool_calls && is_some rest)
  unfolding split_message to_anthropic_content
  is_some-split_message UnifiedRole.system m e rest = is_some-map _ rest
  is_some-split_message UnifiedRole.user m e rest =
      is_some-and_then-map (to_anthropic_content json m) _ rest
      ∙ ap (λ b. b && is_some rest)
          (ap (λ r. is_some (content_of json r m)) e ∙ is_some-content_of UnifiedRole.user m)
  is_some-split_message UnifiedRole.assistant m e rest =
      is_some-and_then-map (to_anthropic_content json m) _ rest
      ∙ ap (λ b. b && is_some rest)
          (ap (λ r. is_some (content_of json r m)) e ∙ is_some-content_of UnifiedRole.assistant m)
  is_some-split_message UnifiedRole.tool m e rest =
      is_some-and_then-map (to_anthropic_content json m) _ rest
      ∙ ap (λ b. b && is_some rest)
          (ap (λ r. is_some (content_of json r m)) e ∙ is_some-content_of UnifiedRole.tool m)

  is_some-split_messages :
      (ms : List UnifiedMessage) → is_some (split_messages json ms) ≡ all message_ok ms
  unfolding split_messages
  is_some-split_messages [] = refl
  is_some-split_messages (m ∷ ms) =
      is_some-split_message m.role m refl (split_messages json ms)
      ∙ ap (λ b. message_ok m && b) (is_some-split_messages ms)

  -- A request goes out to Anthropic exactly if the arguments of every tool call of every assistant
  -- message are JSON, or absent; else the conversion throws.
  pub is_some-to_anthropic_request :
      {N : Type 0} (unified : UnifiedAiRequest N Value)
      → is_some (to_anthropic_request json unified) ≡ all message_ok unified.messages
  unfolding to_anthropic_request
  is_some-to_anthropic_request unified =
      is_some-map _ (split_messages json unified.messages) ∙ is_some-split_messages unified.messages

  -- The calls that a model makes: an id, a name, and the arguments as JSON.
  abbrev pub call_of : String × String × Value → UnifiedToolCall
  call_of (id, name, v) = record { id = id; name = name; arguments = stringify v }

  abbrev pub call_item : String × String × Value → UnifiedContent
  call_item c = UnifiedContent.tool_call (some (call_of c))

  abbrev pub use_block : String × String × Value → AnthropicContentBlock Value
  use_block (id, name, v) = AnthropicContentBlock.tool_use id name v

  not_blank : (v : Value) → is_blank (stringify v) ≡ false
  not_blank v = elim (Bool-cases (is_blank (stringify v))) [
    | inl e ↦ cc (parse-stringify v, ap parse (empty_of_is_blank (stringify v) e), json.parse-empty)
    | inr e ↦ e
  ]

  tool_blocks-call_of :
      (cs : List (String × String × Value))
      → tool_blocks json (map call_of cs) ≡ some (map use_block cs)
  unfolding tool_blocks
  tool_blocks-call_of [] = refl
  tool_blocks-call_of ((id, name, v) ∷ cs) =
      rw (not_blank v, parse-stringify v, tool_blocks-call_of cs) refl

  content_items-use_block :
      (cs : List (String × String × Value))
      → content_items json (map use_block cs) ≡ map call_item cs
  unfolding content_items content_item
  content_items-use_block [] = refl
  content_items-use_block (c ∷ cs) = ap (λ x. call_item c ∷ x) (content_items-use_block cs)

  -- The content items of what an Anthropic message holds.
  abbrev pub items_of : Option (AnthropicContent Value) → List UnifiedContent
  items_of none = []
  items_of (some (whole t)) = UnifiedContent.text (some t) ∷ []
  items_of (some (blocks bs)) = content_items json bs

  abbrev pub text_item : String → List UnifiedContent
  text_item t = if is_blank t then [] else UnifiedContent.text (some t) ∷ []

  text-items :
      (t : String) (bs : List (AnthropicContentBlock Value))
      → content_items json (text_block json t ++ bs) ≡ text_item t ++ content_items json bs
  unfolding text_block content_items content_item
  text-items t bs = elim (Bool-cases (is_blank t)) [ inl e ↦ rw e refl | inr e ↦ rw e refl ]

  -- An assistant's turn with tool calls, sent back to Anthropic in a later request, holds the text
  -- and the calls, with their ids, names and arguments, that the reader of Anthropic's responses
  -- finds in such a turn.
  pub to_anthropic_content-items :
      (t : String) (name : Option String) (c : String × String × Value)
      (cs : List (String × String × Value))
      → items_of (
          to_anthropic_content json (record {
            role = UnifiedRole.assistant;
            content = plain t;
            name = name;
            tool_call_id = none;
            tool_calls = some (map call_of (c ∷ cs));
          }))
        ≡ text_item t ++ map call_item (c ∷ cs)
  unfolding to_anthropic_content content_of assistant_content
  to_anthropic_content-items t name c cs = rw (tool_blocks-call_of (c ∷ cs)) (
      text-items t (map use_block (c ∷ cs))
      ∙ ap (λ x. text_item t ++ x) (content_items-use_block (c ∷ cs)))
