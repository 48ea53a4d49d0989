-- ===== src/Policy/Stream.antt =====
-- libs/sirius-policy/src/policy.service.ts: `executeStreamWithPolicy`. The consumer reads to the
-- end; what the upstream stream yields in each attempt is the caller's.
pub mod Splicing
use sirius_gateway.Base.{
  ℕ, zero, suc, ◌+◌, String, Bool, true, false, List, [], ◌∷◌, ◌++◌, Option, some, none,
  if◌then◌else◌, is_empty, not,
}
use sirius_gateway.Base.Dict.{Dict}
use sirius_gateway.Policy.Breaker.{
  Settings, CircuitState, Error, Result, ok, err, check_circuit_breaker, record_success,
  record_failure,
}
use sirius_gateway.Policy.Retry.{Caller, running, gone, abort_error, backoff}

-- The events that an attempt yields, the error that it then throws if it does not end by itself,
-- whether the caller has aborted when that error is caught, and the time when it is recorded.
pub record StreamAttempt (E : Type 0) : Type 0 where
  pub events : List E
  pub failure : Option Error
  pub aborted : Bool
  pub now : ℕ

-- The events that the consumer receives and the error that is thrown to it in the end.
pub record Streaming (E : Type 0) : Type 0 where
  pub events : List E
  pub failure : Option Error
  pub circuits : Dict CircuitState
  pub calls : ℕ
  pub delays : List ℕ

module _ {E : Type 0} where
  -- One more attempt, with what it has yielded, and one more delay before a stream.
  abbrev pub before : List E → ℕ → Streaming E → Streaming E
  before events d x = record x {
    events = events ++ x.events;
    calls = suc x.calls;
    delays = d ∷ x.delays;
  }

  abbrev pub stop : List E → Option Error → Dict CircuitState → Streaming E
  stop events failure circuits = record {
    events = events;
    failure = failure;
    circuits = circuits;
    calls = 1;
    delays = [];
  }

  -- The body of the loop, given what is left of it after a recorded failure.
  round :
      Settings
      → String
      → StreamAttempt E
      → Dict CircuitState
      → (Error → Dict CircuitState → Streaming E)
      → Streaming E
  round s provider a circuits retry = elim a.failure [
    | none ↦ stop a.events none (record_success provider circuits)
    | some e ↦
        if a.aborted
        then stop a.events (some e) circuits
        else if not (is_empty a.events)
        then stop a.events (some e) (record_failure s provider a.now circuits)
        else retry e (record_failure s provider a.now circuits)
  ]

  -- The loop from attempt number `attempt`, with `left` more attempts allowed after it.
  stream_from :
      Settings
      → String
      → (ℕ → StreamAttempt E)
      → (left attempt : ℕ) → Dict CircuitState
      → Streaming E
  stream_from s provider attempts zero attempt circuits =
      round s provider (attempts attempt) circuits
        (λ e failed. stop (attempts attempt).events (some e) failed)
  stream_from s provider attempts (suc left) attempt circuits =
      round s provider (attempts attempt) circuits (λ e failed.
        before (attempts attempt).events (backoff s attempt)
          (stream_from s provider attempts left (attempt + 1) failed))

  refused : Error → Dict CircuitState → Streaming E
  refused e circuits = record {
    events = [];
    failure = some e;
    circuits = circuits;
    calls = 0;
    delays = [];
  }

  start_stream :
      Settings → String → (ℕ → StreamAttempt E) → Caller → Dict CircuitState → Streaming E
  unfolding stream_from refused
  start_stream s provider attempts running circuits =
      stream_from s provider attempts s.max_retries 0 circuits
  start_stream s provider attempts (gone reason) circuits = refused (abort_error reason) circuits

  pub execute_stream_with_policy :
      Settings
      → String
      → (ℕ → StreamAttempt E)
      → Caller
      → (now : ℕ) → Dict CircuitState
      → Streaming E
  unfolding start_stream
  execute_stream_with_policy s provider attempts caller now circuits =
      let checked = check_circuit_breaker s provider now circuits in
      elim checked.0 [
        | ok _ ↦ start_stream s provider attempts caller checked.1
        | err e ↦ refused e checked.1
      ]
