-- ===== src/Providers/OllamaStream/Calls.antt =====
-- libs/provider-ollama/src/ollama.stream-parser.ts: the tool calls of a stream, their ids, and the
-- finish reason.
use mathlib.Core.Option.{get_or}
use sirius_gateway.Base.{
  ℕ, suc, String, Bool, true, false, List, [], ◌∷◌, ◌++◌, Option, some, none, ◌||◌, not, is_blank,
  is_empty, trim, truthy, split_on, Bool-cases, inl, inr, ◌≡◌, ◌↔◌, refl, ◌∙◌, ◌==◌, eq_iff,
}
use sirius_gateway.Core.Json.{Json}
use sirius_gateway.Core.Messages.{UnifiedStreamEvent}
use sirius_gateway.OpenAi.Replies.{finish_reason_name}
use sirius_gateway.Providers.Lines.Chunking.{concat}
use sirius_gateway.Providers.Lines.Events.{run, payloads, parse_stream-payloads}
use sirius_gateway.Providers.OllamaMapper.{OllamaToolCall, map_ollama_finish_reason}
use sirius_gateway.Providers.OllamaStream.{
  OllamaChatChunk, StreamState, init, content_events, usage_events, tool_call_events, done_events,
  process_chunk, chunk_of, process_line, parse_ollama_stream,
}

-- A finish reason is "tool_calls" exactly if a tool call has come before; `seen` says whether one
-- had before these events.
abbrev pub ReasonsAgree : (seen : Bool) → List UnifiedStreamEvent → Type 0
ReasonsAgree seen [] = Unit
ReasonsAgree seen (UnifiedStreamEvent.tool_call_delta index id name arguments ∷ es) =
    ReasonsAgree true es
ReasonsAgree seen (UnifiedStreamEvent.done reason ∷ es) =
    ((reason ≡ "tool_calls") ↔ (seen ≡ true)) × ReasonsAgree seen es
ReasonsAgree seen (e ∷ es) = ReasonsAgree seen es

abbrev pub seen_after : Bool → List UnifiedStreamEvent → Bool
seen_after seen [] = seen
seen_after seen (UnifiedStreamEvent.tool_call_delta index id name arguments ∷ es) =
    seen_after true es
seen_after seen (e ∷ es) = seen_after seen es

ReasonsAgree-append :
    (seen : Bool) (xs ys : List UnifiedStreamEvent)
    → ReasonsAgree seen xs
    → ReasonsAgree (seen_after seen xs) ys
    → ReasonsAgree seen (xs ++ ys)
ReasonsAgree-append seen [] ys h k = k
ReasonsAgree-append seen (UnifiedStreamEvent.content_delta t ∷ xs) ys h k =
    ReasonsAgree-append seen xs ys h k
ReasonsAgree-append seen (UnifiedStreamEvent.tool_call_delta i id name a ∷ xs) ys h k =
    ReasonsAgree-append true xs ys h k
ReasonsAgree-append seen (UnifiedStreamEvent.usage u ∷ xs) ys h k =
    ReasonsAgree-append seen xs ys h k
ReasonsAgree-append seen (UnifiedStreamEvent.done r ∷ xs) ys (e, h) k =
    (e, ReasonsAgree-append seen xs ys h k)
ReasonsAgree-append seen (UnifiedStreamEvent.error m c ∷ xs) ys h k =
    ReasonsAgree-append seen xs ys h k

seen_after-append :
    (seen : Bool) (xs ys : List UnifiedStreamEvent)
    → seen_after seen (xs ++ ys) ≡ seen_after (seen_after seen xs) ys
seen_after-append seen [] ys = refl
seen_after-append seen (UnifiedStreamEvent.content_delta t ∷ xs) ys = seen_after-append seen xs ys
seen_after-append seen (UnifiedStreamEvent.tool_call_delta i id name a ∷ xs) ys =
    seen_after-append true xs ys
seen_after-append seen (UnifiedStreamEvent.usage u ∷ xs) ys = seen_after-append seen xs ys
seen_after-append seen (UnifiedStreamEvent.done r ∷ xs) ys = seen_after-append seen xs ys
seen_after-append seen (UnifiedStreamEvent.error m c ∷ xs) ys = seen_after-append seen xs ys

-- Some events keep the rule, and leave the flag as it should be.
abbrev Keeps : (seen after : Bool) → List UnifiedStreamEvent → Type 0
Keeps seen after es = ReasonsAgree seen es × (seen_after seen es ≡ after)

Keeps-append :
    (seen mid after : Bool) (xs ys : List UnifiedStreamEvent)
    → Keeps seen mid xs
    → Keeps mid after ys
    → Keeps seen after (xs ++ ys)
Keeps-append seen mid after xs ys (h, e) (k, f) =
    (ReasonsAgree-append seen xs ys h (rw e k), seen_after-append seen xs ys ∙ rw e f)

content-Keeps : (seen : Bool) (t : Option String) → Keeps seen seen (content_events t)
unfolding content_events
content-Keeps seen none = (tt, refl)
content-Keeps seen (some t) = (tt, refl)

usage-Keeps : (seen : Bool) (p e : Option ℕ) → Keeps seen seen (usage_events p e)
unfolding usage_events
usage-Keeps seen none none = (tt, refl)
usage-Keeps seen none (some n) = (tt, refl)
usage-Keeps seen (some m) e = (tt, refl)

text_of_finish-ne :
    (reason : Option String)
    → ¬ (finish_reason_name (map_ollama_finish_reason false reason) ≡ "tool_calls")
unfolding finish_reason_name map_ollama_finish_reason
text_of_finish-ne none h = cc ((eq_iff "stop" "tool_calls").1 h)
text_of_finish-ne (some r) h = elim (Bool-cases (r == "length")) [
  | inl e ↦ cc ((eq_iff "length" "tool_calls").1 (rw e at h))
  | inr e ↦ cc ((eq_iff "stop" "tool_calls").1 (rw e at h))
]

finish_reason_lem :
    (seen : Bool) (reason : Option String)
    → (finish_reason_name (map_ollama_finish_reason seen reason) ≡ "tool_calls") ↔ (seen ≡ true)
unfolding finish_reason_name map_ollama_finish_reason
finish_reason_lem true reason = (λ h. refl, λ h. refl)
finish_reason_lem false reason = (λ h. absurd (text_of_finish-ne reason h), λ h. cc)

module _ (json : Json) (fresh : ℕ → String) where
  open json use {Value, stringify}

  done-Keeps :
      (seen : Bool) (chunk : OllamaChatChunk Value)
      → Keeps seen seen (done_events json fresh seen chunk)
  unfolding done_events
  done-Keeps seen chunk = elim (Bool-cases chunk.done) [
    | inl e ↦ rw e (
        Keeps-append seen seen seen (usage_events chunk.prompt_eval_count chunk.eval_count) _
          (usage-Keeps seen chunk.prompt_eval_count chunk.eval_count)
          ((finish_reason_lem seen chunk.done_reason, tt), refl))
    | inr e ↦ rw e (tt, refl)
  ]

  calls-Keeps :
      (seen : Bool) (i : ℕ) (calls : List (OllamaToolCall Value)) (st : StreamState)
      → Keeps seen (seen || not (is_empty calls)) (tool_call_events json fresh i calls st).0
  unfolding tool_call_events
  calls-Keeps true i [] st = (tt, refl)
  calls-Keeps false i [] st = (tt, refl)
  calls-Keeps true i (tc ∷ calls) st = calls-Keeps true (suc i) calls _
  calls-Keeps false i (tc ∷ calls) st = calls-Keeps true (suc i) calls _

  chunk-Keeps :
      (st : StreamState) (chunk : OllamaChatChunk Value)
      → Keeps st.seen_tool_calls
          (process_chunk json fresh st chunk).1.seen_tool_calls
          (process_chunk json fresh st chunk).0
  unfolding process_chunk
  chunk-Keeps st chunk =
      let calls = get_or chunk.tool_calls [] in
      let seen = st.seen_tool_calls || not (is_empty calls) in
      Keeps-append st.seen_tool_calls st.seen_tool_calls seen
        (content_events (truthy chunk.content)) _
        (content-Keeps st.seen_tool_calls (truthy chunk.content))
        (Keeps-append st.seen_tool_calls seen seen (tool_call_events json fresh 0 calls st).0
          (done_events json fresh seen chunk) (calls-Keeps st.seen_tool_calls 0 calls st)
          (done-Keeps seen chunk))

  run-ReasonsAgree :
      (st : StreamState) (chunks : List (OllamaChatChunk Value))
      → ReasonsAgree st.seen_tool_calls (run (process_chunk json fresh) st chunks).0
  run-ReasonsAgree st [] = tt
  run-ReasonsAgree st (c ∷ chunks) =
      let (h, e) = chunk-Keeps st c in
      let x = process_chunk json fresh st c in
      ReasonsAgree-append st.seen_tool_calls x.0 _ h (rw e (run-ReasonsAgree x.1 chunks))

  module _ (parse_chunk : String → Option (OllamaChatChunk Value)) where
    blank-chunk_of :
        (line : String) → is_blank (trim line) ≡ true → chunk_of json fresh parse_chunk line ≡ none
    unfolding chunk_of
    blank-chunk_of line e = rw e refl

    -- In every stream, a finish reason is "tool_calls" exactly if a tool call has come before it.
    pub parse_ollama_stream-ReasonsAgree :
        (chunks : List String)
        → ReasonsAgree false (parse_ollama_stream json fresh parse_chunk (some chunks))
    unfolding parse_ollama_stream process_line
    parse_ollama_stream-ReasonsAgree chunks =
        let decode = chunk_of json fresh parse_chunk in
        rw (parse_stream-payloads (process_chunk json fresh) decode blank-chunk_of init chunks) (
          run-ReasonsAgree init
            (payloads (process_chunk json fresh) decode (split_on b'\n' (concat chunks))))
