-- ===== src/Api/ChatStream.antt =====
-- apps/sirius-api/src/controllers/chat-completions.controller.ts: the frames that `chatCompletions`
-- writes for a stream.
pub mod Frames
pub mod Texts
pub mod Fragments
pub mod Delivery
use sirius_gateway.Base.{
  ℕ, String, Bool, true, false, List, [], ◌∷◌, ◌++◌, Option, some, none, if◌then◌else◌, ◌||◌, ◌&&◌,
  not,
}
use sirius_gateway.Core.Messages.{UnifiedStreamEvent}
use sirius_gateway.OpenAi.Types.{OpenAiChatCompletionChunk, OpenAiChunkChoice, OpenAiChunkDelta}
use sirius_gateway.OpenAi.Errors.{OpenAiErrorResponse, format_error}
use sirius_gateway.OpenAi.Replies.{format_first_stream_chunk, format_stream_chunk, chunk}

-- `done_mark` is what `formatSSEDone` gives.
pub data Frame : Type 0 where
  chunk_frame : OpenAiChatCompletionChunk → Frame
  error_frame : OpenAiErrorResponse → Frame
  done_mark : Frame

-- An event of the stream, whether the client has closed its connection by then, and the time in
-- seconds.
pub record Step : Type 0 where
  pub event : UnifiedStreamEvent
  pub closed : Bool
  pub now : ℕ

-- How the stream ends that the loop takes events from.
pub data StreamEnd : Type 0 where
  exhausted : StreamEnd
  threw : (message : String) → StreamEnd

-- Why the loop ends.
pub data LoopEnd : Type 0 where
  broke_closed broke_error : LoopEnd
  ran_out : LoopEnd

abbrev pub is_delta : UnifiedStreamEvent → Bool
is_delta (UnifiedStreamEvent.content_delta t) = true
is_delta (UnifiedStreamEvent.tool_call_delta index id name arguments) = true
is_delta e = false

abbrev pub is_error : UnifiedStreamEvent → Bool
is_error (UnifiedStreamEvent.error message code) = true
is_error e = false

abbrev pub frame_if : Option OpenAiChatCompletionChunk → List Frame
frame_if none = []
frame_if (some c) = chunk_frame c ∷ []

module _ (response_id model : String) where
  -- The chunk that tells of an error.
  pub error_chunk : (now : ℕ) → OpenAiChatCompletionChunk
  error_chunk now =
      chunk response_id now model
        (record {
          index = 0;
          delta = record { role = none; content = none; tool_calls = none };
          finish_reason = some "error";
        }
          ∷ [])
        none

  first_frames : (first_emitted : Bool) → Step → List Frame
  first_frames first_emitted s =
      if not first_emitted && is_delta s.event
      then chunk_frame (format_first_stream_chunk response_id s.now model) ∷ []
      else []

  -- The loop over the stream.
  pub chat_loop : (first_emitted : Bool) → List Step → List Frame × LoopEnd
  unfolding error_chunk first_frames
  chat_loop first_emitted [] = ([], ran_out)
  chat_loop first_emitted (s ∷ steps) =
      let rest = chat_loop (first_emitted || is_delta s.event) steps in
      let here = first_frames first_emitted s in
      if s.closed
      then ([], broke_closed)
      else if is_error s.event
      then (here ++ chunk_frame (error_chunk s.now) ∷ [], broke_error)
      else (
        here ++ (frame_if (format_stream_chunk s.event response_id s.now model) ++ rest.0),
        rest.1,
      )

  -- What follows the loop, unless the client has gone by then; after an error of the stream itself it
  -- is the catch block.
  closing : LoopEnd → StreamEnd → List Frame
  closing ran_out (threw message) =
      error_frame (format_error 500 message none none) ∷ done_mark ∷ []
  closing broke_closed ending = []
  closing e ending = done_mark ∷ []

  -- All frames; `gone`: the client has closed its connection before the end.
  pub chat_frames : List Step → StreamEnd → (gone : Bool) → List Frame
  unfolding chat_loop closing
  chat_frames steps ending gone =
      let x = chat_loop false steps in if gone then x.0 else x.0 ++ closing x.1 ending
