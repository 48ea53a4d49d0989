-- ===== src/Providers/AnthropicStream.antt =====
-- libs/provider-anthropic/src/anthropic.stream-parser.ts: what becomes of one line, with the state
-- of a stream, and the whole parser. `parse` is `JSON.parse`, with nothing for a text that it
-- refuses.
pub mod Ordinals
use sirius_gateway.Base.{
  ℕ, ◌+◌, String, List, [], ◌∷◌, ◌++◌, Option, some, none, length, trim, after_prefix, truthy,
  or_else,
}
use mathlib.Core.Option.{get_or}
use sirius_gateway.Base.NatMap
use sirius_gateway.Base.NatMap.{NatMap}
use sirius_gateway.Core.Messages.{UnifiedStreamEvent}
use sirius_gateway.OpenAi.Replies.{finish_reason_name}
use sirius_gateway.Providers.Lines.{parse_stream}
use sirius_gateway.Providers.Lines.Events.{on_line}
use sirius_gateway.Providers.AnthropicTypes.{AnthropicUsage}
use sirius_gateway.Providers.AnthropicMapper.{map_stop_reason}

-- `content_block.type` is "tool_use", or another.
pub data StreamBlock : Type 0 where
  tool_use : (id name : String) → StreamBlock
  other : StreamBlock

pub data StreamDelta : Type 0 where
  text_delta : String → StreamDelta
  input_json_delta : String → StreamDelta
  other : StreamDelta

-- The counts of `message_delta`; those of the input may be absent.
pub record DeltaUsage : Type 0 where
  pub output_tokens : ℕ
  pub input_tokens : Option ℕ

-- What the parser reads of each event; `other` is an event of another type.
pub data AnthropicStreamEvent : Type 0 where
  message_start : Option AnthropicUsage → AnthropicStreamEvent
  content_block_start : (index : ℕ) → StreamBlock → AnthropicStreamEvent
  content_block_delta : (index : ℕ) → StreamDelta → AnthropicStreamEvent
  content_block_stop : (index : ℕ) → AnthropicStreamEvent
  message_delta : Option DeltaUsage → (stop_reason : Option String) → AnthropicStreamEvent
  message_stop other : AnthropicStreamEvent

-- `toolOrdinals` and `usageState`.
pub record StreamState : Type 0 where
  pub tool_ordinals : NatMap ℕ
  pub input_tokens : Option ℕ

abbrev pub init : StreamState
init = record { tool_ordinals = []; input_tokens = none }

abbrev usage_event : (input output : ℕ) → UnifiedStreamEvent
usage_event input output =
    UnifiedStreamEvent.usage
      (record { input_tokens = input; output_tokens = output; total_tokens = input + output })

start_usage : StreamState → Option AnthropicUsage → List UnifiedStreamEvent × StreamState
start_usage st none = ([], st)
start_usage st (some u) = (
  usage_event (get_or u.input_tokens 0) (get_or u.output_tokens 0) ∷ [],
  record st { input_tokens = u.input_tokens },
)

start_block : StreamState → ℕ → StreamBlock → List UnifiedStreamEvent × StreamState
start_block st index (tool_use id name) =
    let ordinal = length st.tool_ordinals in
    (
      UnifiedStreamEvent.tool_call_delta ordinal (some id) (some name) (some "") ∷ [],
      record st { tool_ordinals = NatMap.set index ordinal st.tool_ordinals },
    )
start_block st index StreamBlock.other = ([], st)

-- A fragment for a block that never started as `tool_use` has no tool call to attach to.
pub fragment : Option ℕ → String → List UnifiedStreamEvent
fragment none partial_json = []
fragment (some ordinal) partial_json =
    UnifiedStreamEvent.tool_call_delta ordinal none none (some partial_json) ∷ []

delta_events : StreamState → ℕ → StreamDelta → List UnifiedStreamEvent
unfolding fragment
delta_events st index (text_delta text) = UnifiedStreamEvent.content_delta text ∷ []
delta_events st index (input_json_delta partial_json) =
    fragment (NatMap.get index st.tool_ordinals) partial_json
delta_events st index StreamDelta.other = []

final_usage : StreamState → Option DeltaUsage → List UnifiedStreamEvent
final_usage st none = []
final_usage st (some u) =
    usage_event (get_or (or_else u.input_tokens st.input_tokens) 0) u.output_tokens ∷ []

stop_events : Option String → List UnifiedStreamEvent
stop_events none = []
stop_events (some reason) =
    UnifiedStreamEvent.done (finish_reason_name (map_stop_reason (some reason))) ∷ []

-- The `switch` of `processLine`.
pub process_event : StreamState → AnthropicStreamEvent → List UnifiedStreamEvent × StreamState
unfolding start_usage start_block delta_events final_usage stop_events
process_event st (message_start usage) = start_usage st usage
process_event st (content_block_start index block) = start_block st index block
process_event st (content_block_delta index delta) = (delta_events st index delta, st)
process_event st (content_block_stop index) = ([], st)
process_event st (message_delta usage stop_reason) =
    (final_usage st usage ++ stop_events (truthy stop_reason), st)
process_event st message_stop = ([], st)
process_event st AnthropicStreamEvent.other = ([], st)

module _ (parse : String → Option AnthropicStreamEvent) where
  parse_data : Option String → Option AnthropicStreamEvent
  parse_data none = none
  parse_data (some text) = parse text

  -- The payload of a line; lines that are empty or comments do not start with "data: " either.
  unfoldable pub event_of : String → Option AnthropicStreamEvent
  unfolding parse_data
  event_of line = parse_data (after_prefix "data: " (trim line))

  pub process_line : StreamState → String → List UnifiedStreamEvent × StreamState
  process_line st line = on_line process_event event_of st line

  -- `body` is nothing when the response has none, and else its decoded chunks.
  pub parse_anthropic_stream : (body : Option (List String)) → List UnifiedStreamEvent
  unfolding process_line
  parse_anthropic_stream none = UnifiedStreamEvent.error "Response body is null" none ∷ []
  parse_anthropic_stream (some chunks) = parse_stream process_line init chunks
