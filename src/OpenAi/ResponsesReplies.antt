-- ===== src/OpenAi/ResponsesReplies.antt =====
-- libs/sirius-compat-openai/src/openai-compat.service.ts: `formatResponsesResponse`. `uuids i` is the
-- id that the service draws as its number `i`.
pub mod Output
use sirius_gateway.Base.{
  ℕ, suc, ◌+◌, String, Bool, true, false, List, [], ◌∷◌, ◌++◌, Option, some, none, if◌then◌else◌,
  is_blank, ◌&◌,
}
use sirius_gateway.Core.Messages.{
  UnifiedAiResponse, UnifiedContent, UnifiedFinishReason, UsageMetrics,
}
use sirius_gateway.OpenAi.Types.{OpenAiUsage, OpenAiResponsesOutputItem, OpenAiResponsesResponse}
use sirius_gateway.OpenAi.Replies.{usage_of}

-- The texts and the calls so far, and how many ids are drawn.
pub record Collected : Type 0 where
  pub texts : List String
  pub output : List OpenAiResponsesOutputItem
  pub drawn : ℕ

-- One round of the loop over the content.
pub collect_item : (ℕ → String) → Collected → UnifiedContent → Collected
collect_item uuids c (UnifiedContent.text none) = c
collect_item uuids c (UnifiedContent.text (some t)) =
    if is_blank t then c else record c { texts = c.texts ++ t ∷ [] }
collect_item uuids c (UnifiedContent.tool_call none) = c
collect_item uuids c (UnifiedContent.tool_call (some call)) = record c {
  output =
      c.output
      ++ OpenAiResponsesOutputItem.function_call ("fc_" & uuids c.drawn) call.id call.name
          call.arguments "completed"
        ∷ [];
  drawn = suc c.drawn;
}

pub collect_items : (ℕ → String) → Collected → List UnifiedContent → Collected
unfolding collect_item
collect_items uuids c [] = c
collect_items uuids c (item ∷ items) = collect_items uuids (collect_item uuids c item) items

-- `output.unshift` of the message, if there is any text.
pub with_message : (ℕ → String) → Collected → List String → Collected
with_message uuids c [] = c
with_message uuids c (t ∷ ts) = record c {
  output =
      OpenAiResponsesOutputItem.message ("msg_" & uuids c.drawn) "completed" (t ∷ ts) ∷ c.output;
  drawn = suc c.drawn;
}

pub status_of : UnifiedFinishReason → String
status_of UnifiedFinishReason.error = "failed"
status_of UnifiedFinishReason.length = "incomplete"
status_of _ = "completed"

pub format_responses_response :
    {N : Type 0} → (ℕ → String) → (now : ℕ) → UnifiedAiResponse N → OpenAiResponsesResponse
unfolding collect_items with_message status_of
format_responses_response uuids now response =
    let c = collect_items uuids (record { texts = []; output = []; drawn = 0 }) response.content in
    let d = with_message uuids c c.texts in
    record {
      id = "resp_" & uuids d.drawn;
      created_at = now;
      model = response.model;
      output = d.output;
      status = status_of response.finish_reason;
      usage = some (usage_of response.usage);
    }
