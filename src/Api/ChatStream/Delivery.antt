-- ===== src/Api/ChatStream/Delivery.antt =====
-- apps/sirius-api/src/controllers/chat-completions.controller.ts: what a client that stays is sent.

use text.Mathlib.TextLemmas.{nil-append}
use mathlib.Core.List.{append-nil, map-append}
use sirius_gateway.Base.{
  ℕ, String, Bool, true, false, List, [], ◌∷◌, ◌++◌, Option, some, none, if◌then◌else◌, ◌||◌, ◌&&◌,
  not, any, map, Bool-cases, inl, inr, ◌≡◌, refl, sym, ap, ◌∙◌, All,
}
use sirius_gateway.Core.Messages.{UnifiedStreamEvent}
use sirius_gateway.OpenAi.Types.{OpenAiChatCompletionChunk}
use sirius_gateway.OpenAi.Errors.{format_error, error_type}
use sirius_gateway.OpenAi.Replies.{format_first_stream_chunk, format_stream_chunk}
use sirius_gateway.OpenAi.Replies.Fidelity.{
  chunk_text, chunk_list, event_text, chunk_text-chunks_of,
}
use sirius_gateway.Api.ChatStream.Texts.{chunk_text-append, event_text-cons}
use sirius_gateway.Api.ChatStream.Fragments.{
  chunk_fragments, event_fragments, chunk_fragments-append, event_fragments-cons, chunk-fragments,
}
use sirius_gateway.Api.ChatStream.{
  Frame, chunk_frame, error_frame, done_mark, Step, StreamEnd, exhausted, threw, LoopEnd,
  broke_error, ran_out, is_delta, is_error, frame_if, error_chunk, first_frames, chat_loop, closing,
  chat_frames,
}

-- The events up to the first error.
abbrev pub delivered : List Step → List UnifiedStreamEvent
delivered [] = []
delivered (s ∷ steps) = if is_error s.event then [] else s.event ∷ delivered steps

abbrev pub has_error : List Step → Bool
has_error steps = any (λ (s : Step). is_error s.event) steps

-- The frames at the end: an error that the stream throws, unless an error event came before, and
-- the mark.
abbrev pub last_frames : (failed : Bool) → StreamEnd → List Frame
last_frames true ending = done_mark ∷ []
last_frames false exhausted = done_mark ∷ []
last_frames false (threw message) =
    error_frame (record { message = message; type = "server_error"; code = none }) ∷ done_mark ∷ []

abbrev loop_end : List Step → LoopEnd
loop_end steps = if has_error steps then broke_error else ran_out

module _ (response_id model : String) where
  abbrev start_if : Bool → Step → List OpenAiChatCompletionChunk
  start_if started s =
      if not started && is_delta s.event
      then format_first_stream_chunk response_id s.now model ∷ []
      else []

  -- The chunks that the loop writes if the client stays.
  abbrev body_of : (started : Bool) → List Step → List OpenAiChatCompletionChunk
  body_of started [] = []
  body_of started (s ∷ steps) =
      let rest = body_of (started || is_delta s.event) steps in
      start_if started s
      ++ (if is_error s.event
          then error_chunk response_id model s.now ∷ []
          else chunk_list (format_stream_chunk s.event response_id s.now model) ++ rest)

  first-frames :
      (started : Bool) (s : Step)
      → first_frames response_id model started s ≡ map chunk_frame (start_if started s)
  unfolding first_frames
  first-frames started s = elim (Bool-cases (not started && is_delta s.event)) [
    | inl e ↦ rw e refl
    | inr e ↦ rw e refl
  ]

  frame-if : (o : Option OpenAiChatCompletionChunk) → frame_if o ≡ map chunk_frame (chunk_list o)
  frame-if none = refl
  frame-if (some c) = refl

  chat_loop-body :
      (started : Bool) (steps : List Step)
      → All (λ (s : Step). s.closed ≡ false) steps
      → chat_loop response_id model started steps
        ≡ (map chunk_frame (body_of started steps), loop_end steps)
  unfolding chat_loop
  chat_loop-body started [] h = refl
  chat_loop-body started (s ∷ steps) (open_still, h) =
      let ih = chat_loop-body (started || is_delta s.event) steps h in
      elim (Bool-cases (is_error s.event)) [
        | inl e ↦
            rw
              (
                open_still,
                e,
                first-frames started s,
                map-append chunk_frame (start_if started s)
                    (error_chunk response_id model s.now ∷ []),
              )
              refl
        | inr e ↦
            let c = chunk_list (format_stream_chunk s.event response_id s.now model) in
            let rest = body_of (started || is_delta s.event) steps in
            rw
              (
                open_still,
                e,
                ih,
                first-frames started s,
                frame-if (format_stream_chunk s.event response_id s.now model),
                map-append chunk_frame (start_if started s) (c ++ rest),
                map-append chunk_frame c rest,
              )
              refl
      ]

  start-text : (started : Bool) (s : Step) → chunk_text (start_if started s) ≡ ""
  unfolding format_first_stream_chunk
  start-text started s = elim (Bool-cases (not started && is_delta s.event)) [
    | inl e ↦ rw e refl
    | inr e ↦ rw e refl
  ]

  chunk-text :
      (e : UnifiedStreamEvent) (now : ℕ)
      → chunk_text (chunk_list (format_stream_chunk e response_id now model)) ≡ event_text (e ∷ [])
  chunk-text e now =
      ap chunk_text (sym (append-nil (chunk_list (format_stream_chunk e response_id now model))))
      ∙ chunk_text-chunks_of (e ∷ []) response_id now model

  error_text : (now : ℕ) → chunk_text (error_chunk response_id model now ∷ []) ≡ ""
  unfolding error_chunk
  error_text now = refl

  body-text :
      (started : Bool) (steps : List Step)
      → chunk_text (body_of started steps) ≡ event_text (delivered steps)
  body-text started [] = refl
  body-text started (s ∷ steps) =
      chunk_text-append (start_if started s) _
      ∙ rw (start-text started s) (
          nil-append _ ∙ elim (Bool-cases (is_error s.event)) [
            | inl e ↦ rw e (error_text s.now)
            | inr e ↦ rw e (
                chunk_text-append (chunk_list (format_stream_chunk s.event response_id s.now model))
                  _
                ∙ (rw (chunk-text s.event s.now, body-text (started || is_delta s.event) steps) refl
                    ∙ sym (event_text-cons s.event (delivered steps))))
          ])

  start-fragments : (started : Bool) (s : Step) → chunk_fragments (start_if started s) ≡ []
  unfolding format_first_stream_chunk
  start-fragments started s = elim (Bool-cases (not started && is_delta s.event)) [
    | inl e ↦ rw e refl
    | inr e ↦ rw e refl
  ]

  error_fragments : (now : ℕ) → chunk_fragments (error_chunk response_id model now ∷ []) ≡ []
  unfolding error_chunk
  error_fragments now = refl

  body-fragments :
      (started : Bool) (steps : List Step)
      → chunk_fragments (body_of started steps) ≡ event_fragments (delivered steps)
  body-fragments started [] = refl
  body-fragments started (s ∷ steps) =
      chunk_fragments-append (start_if started s) _
      ∙ rw (start-fragments started s) (elim (Bool-cases (is_error s.event)) [
        | inl e ↦ rw e (error_fragments s.now)
        | inr e ↦ rw e (
            chunk_fragments-append
              (chunk_list (format_stream_chunk s.event response_id s.now model)) _
            ∙ (rw
                  (
                    chunk-fragments s.event response_id s.now model,
                    body-fragments (started || is_delta s.event) steps,
                  )
                  refl
                ∙ sym (event_fragments-cons s.event (delivered steps))))
      ])

  closing_lem :
      (failed : Bool) (ending : StreamEnd)
      → closing response_id model (if failed then broke_error else ran_out) ending
        ≡ last_frames failed ending
  unfolding closing format_error error_type
  closing_lem true ending = refl
  closing_lem false exhausted = refl
  closing_lem false (threw message) = refl

  -- A client that stays to the end is sent chunks, whose text and whose fragments of tool calls are
  -- those of the events up to the first error, then, if the stream throws and no error event came before, that error, and last the mark.
  pub chat_frames-delivered :
      (steps : List Step) (ending : StreamEnd)
      → All (λ (s : Step). s.closed ≡ false) steps
      → (chunks : List OpenAiChatCompletionChunk) × (chat_frames response_id model steps ending
            false
          ≡ map chunk_frame chunks ++ last_frames (has_error steps) ending)
        × (chunk_text chunks ≡ event_text (delivered steps))
        × (chunk_fragments chunks ≡ event_fragments (delivered steps))
  unfolding chat_frames
  chat_frames-delivered steps ending h = (
    body_of false steps,
    rw (chat_loop-body false steps h, closing_lem (has_error steps) ending) refl,
    body-text false steps,
    body-fragments false steps,
  )
