-- ===== src/Api/ResponsesStream.antt =====
-- apps/sirius-api/src/controllers/responses.controller.ts: the frames that `responses` writes for a
-- stream.
use sirius_gateway.Base.{String, Bool, false, List, [], ◌∷◌, ◌++◌, if◌then◌else◌}
use sirius_gateway.Core.Messages.{UnifiedStreamEvent}
use sirius_gateway.Api.ChatStream.{
  Step, StreamEnd, threw, LoopEnd, broke_closed, broke_error, ran_out, is_error,
}

pub data ResponsesFrame : Type 0 where
  output_text_delta : String → ResponsesFrame
  completed : (response_id : String) → ResponsesFrame
  error_frame : (message : String) → ResponsesFrame

module _ (response_id : String) where
  -- What the loop writes for an event; tool calls and usage have no frame.
  frames_of : UnifiedStreamEvent → List ResponsesFrame
  frames_of (UnifiedStreamEvent.error message code) = error_frame message ∷ []
  frames_of (UnifiedStreamEvent.content_delta delta) = output_text_delta delta ∷ []
  frames_of (UnifiedStreamEvent.done reason) = completed response_id ∷ []
  frames_of (UnifiedStreamEvent.tool_call_delta index id name arguments_delta) = []
  frames_of (UnifiedStreamEvent.usage u) = []

  -- The loop over the stream.
  pub responses_loop : List Step → List ResponsesFrame × LoopEnd
  unfolding frames_of
  responses_loop [] = ([], ran_out)
  responses_loop (s ∷ steps) =
      let rest = responses_loop steps in
      if s.closed
      then ([], broke_closed)
      else if is_error s.event
      then (frames_of s.event, broke_error)
      else (frames_of s.event ++ rest.0, rest.1)

  -- After an error of the stream itself the catch block writes it, unless the client has gone.
  thrown_frames : LoopEnd → StreamEnd → (gone : Bool) → List ResponsesFrame
  thrown_frames ran_out (threw message) false = error_frame message ∷ []
  thrown_frames e ending gone = []

  pub responses_frames : List Step → StreamEnd → (gone : Bool) → List ResponsesFrame
  unfolding responses_loop thrown_frames
  responses_frames steps ending gone =
      let x = responses_loop steps in x.0 ++ thrown_frames x.1 ending gone
