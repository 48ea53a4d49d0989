-- ===== src/Api/ChatStream/Frames.antt =====
-- apps/sirius-api/src/controllers/chat-completions.controller.ts: what the frames of a stream hold.

use sirius_gateway.Base.{
  ℕ, String, Bool, true, false, List, [], ◌∷◌, ◌++◌, if◌then◌else◌, ◌||◌, not, Bool-cases, inl, inr,
  ◌≡◌, refl, sym, is_some,
}
use sirius_gateway.Core.Messages.{UnifiedStreamEvent}
use sirius_gateway.OpenAi.Types.{OpenAiChunkChoice}
use sirius_gateway.OpenAi.Replies.{format_first_stream_chunk, format_stream_chunk}
use sirius_gateway.Api.ChatStream.{
  Frame, chunk_frame, error_frame, done_mark, Step, StreamEnd, exhausted, threw, LoopEnd,
  broke_closed, broke_error, ran_out, is_delta, is_error, frame_if, error_chunk, first_frames,
  chat_loop, closing, chat_frames,
}

-- A chunk that starts the message, with the role of the assistant.
abbrev pub starts : List OpenAiChunkChoice → Bool
starts [] = false
starts (c ∷ cs) = is_some c.delta.role

-- A chunk that holds text or a fragment of a tool call.
abbrev pub delivers : List OpenAiChunkChoice → Bool
delivers [] = false
delivers (c ∷ cs) = is_some c.delta.content || is_some c.delta.tool_calls

-- The message starts once, before any of its text or calls; `started` says whether it had.
abbrev pub IsStarted : (started : Bool) → List Frame → Type 0
IsStarted started [] = Unit
IsStarted started (chunk_frame c ∷ fs) =
    if starts c.choices
    then (started ≡ false) × IsStarted true fs
    else ((started || not (delivers c.choices)) ≡ true) × IsStarted started fs
IsStarted started (f ∷ fs) = IsStarted started fs

module _ (response_id model : String) where
  deliver-IsStarted :
      (started : Bool) (e : UnifiedStreamEvent) (now : ℕ) (fs : List Frame)
      → (started || not (is_delta e)) ≡ true
      → IsStarted started fs
      → IsStarted started (frame_if (format_stream_chunk e response_id now model) ++ fs)
  unfolding format_stream_chunk
  deliver-IsStarted started (UnifiedStreamEvent.content_delta t) now fs h k = (h, k)
  deliver-IsStarted started (UnifiedStreamEvent.tool_call_delta index id name a) now fs h k = (h, k)
  deliver-IsStarted true (UnifiedStreamEvent.usage u) now fs h k = (h, k)
  deliver-IsStarted false (UnifiedStreamEvent.usage u) now fs h k = (h, k)
  deliver-IsStarted true (UnifiedStreamEvent.done reason) now fs h k = (h, k)
  deliver-IsStarted false (UnifiedStreamEvent.done reason) now fs h k = (h, k)
  deliver-IsStarted started (UnifiedStreamEvent.error message code) now fs h k = k

  -- The frames of one step, before those of the rest.
  step-IsStarted :
      (started : Bool) (s : Step) (fs : List Frame)
      → ((st : Bool) → st ≡ (started || is_delta s.event) → IsStarted st fs)
      → IsStarted started (first_frames response_id model started s ++ fs)
  unfolding first_frames format_first_stream_chunk
  step-IsStarted true s fs h = h true refl
  step-IsStarted false s fs h = elim (Bool-cases (is_delta s.event)) [
    | inl e ↦ rw e (refl, h true (sym e))
    | inr e ↦ rw e (h false (sym e))
  ]

  error-IsStarted :
      (started : Bool) (now : ℕ)
      → IsStarted started (chunk_frame (error_chunk response_id model now) ∷ [])
  unfolding error_chunk
  error-IsStarted true now = (refl, tt)
  error-IsStarted false now = (refl, tt)

  covered : (a d st : Bool) → st ≡ (a || d) → (st || not d) ≡ true
  covered true d st h = rw h refl
  covered false true st h = rw h refl
  covered false false st h = rw h refl

  chat_loop-IsStarted :
      (started : Bool) (steps : List Step)
      → IsStarted started (chat_loop response_id model started steps).0
  unfolding chat_loop
  chat_loop-IsStarted started [] = tt
  chat_loop-IsStarted started (s ∷ steps) = elim (Bool-cases s.closed) [
    | inl c ↦ rw c tt
    | inr c ↦ elim (Bool-cases (is_error s.event)) [
      | inl e ↦ rw (c, e) (step-IsStarted started s _ (λ st h. error-IsStarted st s.now))
      | inr e ↦
          rw (c, e)
            (step-IsStarted started s _ (λ st h.
              deliver-IsStarted st s.event s.now _ (covered started (is_delta s.event) st h)
                (rw h (chat_loop-IsStarted (started || is_delta s.event) steps))))
    ]
  ]

  IsStarted-append :
      (started : Bool) (fs gs : List Frame)
      → IsStarted started fs
      → ((st : Bool) → IsStarted st gs)
      → IsStarted started (fs ++ gs)
  IsStarted-append started [] gs h k = k started
  IsStarted-append started (chunk_frame c ∷ fs) gs h k = elim (Bool-cases (starts c.choices)) [
    | inl e ↦
        let (a, b) : (started ≡ false) × IsStarted true fs = rw e at h in
        rw e (a, IsStarted-append true fs gs b k)
    | inr e ↦
        let (a, b) : ((started || not (delivers c.choices)) ≡ true) × IsStarted started fs =
          rw e at h in
        rw e (a, IsStarted-append started fs gs b k)
  ]
  IsStarted-append started (error_frame b ∷ fs) gs h k = IsStarted-append started fs gs h k
  IsStarted-append started (done_mark ∷ fs) gs h k = IsStarted-append started fs gs h k

  closing-IsStarted :
      (e : LoopEnd) (ending : StreamEnd) (started : Bool)
      → IsStarted started (closing response_id model e ending)
  unfolding closing
  closing-IsStarted ran_out (threw message) started = tt
  closing-IsStarted ran_out exhausted started = tt
  closing-IsStarted broke_closed ending started = tt
  closing-IsStarted broke_error ending started = tt

  -- Whatever the stream does and whenever the client goes, the message is started at most once, and
  -- before the first of its text and tool calls.
  pub chat_frames-IsStarted :
      (steps : List Step) (ending : StreamEnd) (gone : Bool)
      → IsStarted false (chat_frames response_id model steps ending gone)
  unfolding chat_frames
  chat_frames-IsStarted steps ending true = chat_loop-IsStarted false steps
  chat_frames-IsStarted steps ending false =
      IsStarted-append false (chat_loop response_id model false steps).0 _
        (chat_loop-IsStarted false steps)
        (closing-IsStarted (chat_loop response_id model false steps).1 ending)
