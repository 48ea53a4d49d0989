-- ===== src/Providers/AnthropicStream/Ordinals.antt =====
-- libs/provider-anthropic/src/anthropic.stream-parser.ts: the numbers of the tool calls.
use sirius_gateway.Base.{
  ℕ, suc, ◌+◌, String, Bool, true, false, List, [], ◌∷◌, ◌++◌, Option, some, none, length, filter,
  if◌then◌else◌, nat_eq, is_blank, empty_of_is_blank, trim, split_on, truthy, ◌≡◌, refl, ap, ◌∙◌,
  arith,
}
use sirius_gateway.Base.NatMap
use sirius_gateway.Base.NatMap.{NatMap}
use sirius_gateway.Core.Messages.{UnifiedStreamEvent}
use sirius_gateway.Providers.Lines.Chunking.{concat}
use sirius_gateway.Providers.Lines.Events.{run, payloads, parse_stream-payloads}
use sirius_gateway.Providers.AnthropicStream.{
  StreamBlock, tool_use, StreamDelta, text_delta, input_json_delta, DeltaUsage,
  AnthropicStreamEvent, message_start, content_block_start, content_block_delta, content_block_stop,
  message_delta, message_stop, StreamState, init, process_event, process_line,
  parse_anthropic_stream, event_of, start_usage, start_block, delta_events, final_usage,
  stop_events, fragment,
}

abbrev pub is_call : UnifiedStreamEvent → Bool
is_call (UnifiedStreamEvent.tool_call_delta index id name arguments_delta) = true
is_call e = false

-- Where a block stands among the tool blocks that have started.
abbrev position_from : ℕ → ℕ → List ℕ → Option ℕ
position_from n index [] = none
position_from n index (i ∷ started) =
    if nat_eq i index then some n else position_from (n + 1) index started

-- The specification: a tool call's number is its place among the tool blocks, in the order in
-- which they start; a fragment has the number of its block, and is dropped if that is no tool block.
abbrev pub calls_from : (started : List ℕ) → List AnthropicStreamEvent → List UnifiedStreamEvent
calls_from started [] = []
calls_from started (content_block_start index (tool_use id name) ∷ es) =
    UnifiedStreamEvent.tool_call_delta (length started) (some id) (some name) (some "")
    ∷ calls_from (started ++ index ∷ []) es
calls_from started (content_block_delta index (input_json_delta json) ∷ es) =
    fragment (position_from 0 index started) json ++ calls_from started es
calls_from started (e ∷ es) = calls_from started es

-- No two tool blocks start with one index.
abbrev pub StartsOnce : (started : List ℕ) → List AnthropicStreamEvent → Type 0
StartsOnce started [] = Unit
StartsOnce started (content_block_start index (tool_use id name) ∷ es) =
    (position_from 0 index started ≡ none) × StartsOnce (started ++ index ∷ []) es
StartsOnce started (e ∷ es) = StartsOnce started es

abbrev numbered : ℕ → List ℕ → NatMap ℕ
numbered n [] = []
numbered n (i ∷ started) = (i, n) ∷ numbered (n + 1) started

get-numbered :
    (n index : ℕ) (started : List ℕ)
    → NatMap.get index (numbered n started) ≡ position_from n index started
unfolding NatMap.get
get-numbered n index [] = refl
get-numbered n index (i ∷ started) = rw (get-numbered (n + 1) index started) refl

length-numbered : (n : ℕ) (started : List ℕ) → length (numbered n started) ≡ length started
length-numbered n [] = refl
length-numbered n (i ∷ started) = ap suc (length-numbered (n + 1) started)

numbered-append :
    (n index : ℕ) (started : List ℕ)
    → numbered n started ++ (index, n + length started) ∷ [] ≡ numbered n (started ++ index ∷ [])
numbered-append n index [] = ground arith
numbered-append n index (i ∷ started) = ground (arith, numbered-append (n + 1) index started)

filter-append :
    (p : UnifiedStreamEvent → Bool) (xs ys : List UnifiedStreamEvent)
    → filter p (xs ++ ys) ≡ filter p xs ++ filter p ys
filter-append p [] ys = refl
filter-append p (x ∷ xs) ys = ground (arith, filter-append p xs ys)

-- The map after a tool block has started.
set-numbered :
    (index : ℕ) (started : List ℕ) (m : NatMap ℕ)
    → m ≡ numbered 0 started
    → position_from 0 index started ≡ none
    → NatMap.set index (length m) m ≡ numbered 0 (started ++ index ∷ [])
set-numbered index started m e h =
    let zero_first : length started ≡ 0 + length started = omega arith in
    rw (e, length-numbered 0 started)
      (NatMap.set-new index (length started) (numbered 0 started) (get-numbered 0 index started ∙ h)
        ∙ (ap (λ n. numbered 0 started ++ (index, n) ∷ []) zero_first
            ∙ numbered-append 0 index started))

fragment-calls : (o : Option ℕ) (json : String) → filter is_call (fragment o json) ≡ fragment o json
unfolding fragment
fragment-calls none json = refl
fragment-calls (some n) json = refl

usage-calls : (st : StreamState) (u : Option DeltaUsage) → filter is_call (final_usage st u) ≡ []
unfolding final_usage
usage-calls st none = refl
usage-calls st (some u) = refl

stop-calls : (r : Option String) → filter is_call (stop_events r) ≡ []
unfolding stop_events
stop-calls none = refl
stop-calls (some r) = refl

-- The parser's map refines the list of the tool blocks that have started.
calls-run :
    (started : List ℕ) (st : StreamState) (es : List AnthropicStreamEvent)
    → st.tool_ordinals ≡ numbered 0 started
    → StartsOnce started es
    → filter is_call (run process_event st es).0 ≡ calls_from started es
unfolding process_event start_usage start_block delta_events
calls-run started st [] e h = refl
calls-run started st (message_start none ∷ es) e h = calls-run started st es e h
calls-run started st (message_start (some u) ∷ es) e h =
    calls-run started (record st { input_tokens = u.input_tokens }) es e h
calls-run started st (content_block_start index (tool_use id name) ∷ es) e (new, h) =
    let st' = record st {
      tool_ordinals = NatMap.set index (length st.tool_ordinals) st.tool_ordinals;
    } in
    rw
      (
        calls-run (started ++ index ∷ []) st' es (set-numbered index started st.tool_ordinals e new)
            h,
        e,
        length-numbered 0 started,
      )
      refl
calls-run started st (content_block_start index StreamBlock.other ∷ es) e h =
    calls-run started st es e h
calls-run started st (content_block_delta index (text_delta t) ∷ es) e h =
    calls-run started st es e h
calls-run started st (content_block_delta index (input_json_delta json) ∷ es) e h =
    filter-append is_call (fragment (NatMap.get index st.tool_ordinals) json) _
    ∙ rw
        (
          fragment-calls (NatMap.get index st.tool_ordinals) json,
          calls-run started st es e h,
          e,
          get-numbered 0 index started,
        )
        refl
calls-run started st (content_block_delta index StreamDelta.other ∷ es) e h =
    calls-run started st es e h
calls-run started st (content_block_stop index ∷ es) e h = calls-run started st es e h
calls-run started st (message_delta u r ∷ es) e h =
    filter-append is_call (final_usage st u ++ stop_events (truthy r)) _
    ∙ rw
        (
          filter-append is_call (final_usage st u) (stop_events (truthy r)),
          usage-calls st u,
          stop-calls (truthy r),
        )
        (calls-run started st es e h)
calls-run started st (message_stop ∷ es) e h = calls-run started st es e h
calls-run started st (AnthropicStreamEvent.other ∷ es) e h = calls-run started st es e h

module _ (parse : String → Option AnthropicStreamEvent) where
  blank-event_of : (line : String) → is_blank (trim line) ≡ true → event_of parse line ≡ none
  unfolding event_of
  blank-event_of line e = rw (empty_of_is_blank (trim line) e) refl

  -- The payloads of a body, line by line.
  abbrev pub events_of : List String → List AnthropicStreamEvent
  events_of chunks = payloads process_event (event_of parse) (split_on b'\n' (concat chunks))

  -- Whatever else a body holds and however it is cut, if no two of its tool blocks start with one
  -- index, its tool call events are: one with the id and the name for each tool block, numbered
  -- from 0 in the order of their starts, and for each argument fragment of a tool block that has
  -- started one with that block's number.
  pub parse_anthropic_stream-calls_from :
      (chunks : List String)
      → StartsOnce [] (events_of chunks)
      → filter is_call (parse_anthropic_stream parse (some chunks))
        ≡ calls_from [] (events_of chunks)
  unfolding parse_anthropic_stream process_line
  parse_anthropic_stream-calls_from chunks h =
      ap (filter is_call)
        (parse_stream-payloads process_event (event_of parse) blank-event_of init chunks)
      ∙ calls-run [] init (events_of chunks) refl h
