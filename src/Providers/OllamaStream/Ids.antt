-- ===== src/Providers/OllamaStream/Ids.antt =====
-- libs/provider-ollama/src/ollama.stream-parser.ts: the ids of tool calls that come in chunks of
-- their own.
use sirius_gateway.Base.{
  ℕ, String, true, false, List, [], ◌∷◌, some, none, is_blank, ◌≡◌, refl, ap, map,
}
use sirius_gateway.Base.NatMap
use sirius_gateway.Core.Json.{Json}
use sirius_gateway.Core.Messages.{UnifiedStreamEvent}
use sirius_gateway.Providers.Lines.Events.{run}
use sirius_gateway.Providers.OllamaMapper.{OllamaToolCall}
use sirius_gateway.Providers.OllamaStream.{
  OllamaChatChunk, StreamState, init, content_events, id_for, tool_call_events, done_events,
  process_chunk,
}

module _ (json : Json) (fresh : ℕ → String) (given : is_blank (fresh 0) ≡ false) where
  open json use {Value, stringify}

  -- A chunk that brings one call.
  abbrev pub call_chunk : OllamaToolCall Value → OllamaChatChunk Value
  call_chunk tc = record {
    content = none;
    tool_calls = some (tc ∷ []);
    done = false;
    done_reason = none;
    prompt_eval_count = none;
    eval_count = none;
  }

  abbrev pub call_event : OllamaToolCall Value → UnifiedStreamEvent
  call_event tc =
      UnifiedStreamEvent.tool_call_delta 0 (some (fresh 0)) (some tc.name)
        (some (stringify tc.arguments))

  -- The state once the first call has come.
  abbrev after_first : StreamState
  after_first = record { seen_tool_calls = true; tool_call_ids = (0, fresh 0) ∷ []; drawn = 1 }

  next_event :
      (tc : OllamaToolCall Value)
      → process_chunk json fresh after_first (call_chunk tc) ≡ (call_event tc ∷ [], after_first)
  unfolding process_chunk content_events tool_call_events id_for done_events NatMap.get
  next_event tc = rw given refl

  first_event :
      (tc : OllamaToolCall Value)
      → process_chunk json fresh init (call_chunk tc) ≡ (call_event tc ∷ [], after_first)
  unfolding process_chunk content_events tool_call_events id_for done_events NatMap.get NatMap.set
  first_event tc = refl

  next_events :
      (calls : List (OllamaToolCall Value))
      → (run (process_chunk json fresh) after_first (map call_chunk calls)).0 ≡ map call_event calls
  next_events [] = refl
  next_events (tc ∷ calls) = rw (next_event tc) (ap (λ es. call_event tc ∷ es) (next_events calls))

  -- Tool calls that come in chunks of their own, one in each, all get index 0 and the first id that
  -- is drawn, so that a client takes them for pieces of a single call.
  pub run-call_chunk :
      (calls : List (OllamaToolCall Value))
      → (run (process_chunk json fresh) init (map call_chunk calls)).0 ≡ map call_event calls
  run-call_chunk [] = refl
  run-call_chunk (tc ∷ calls) =
      rw (first_event tc) (ap (λ es. call_event tc ∷ es) (next_events calls))
