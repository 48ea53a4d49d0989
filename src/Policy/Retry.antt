-- ===== src/Policy/Retry.antt =====
-- libs/sirius-policy/src/policy.service.ts: `executeWithPolicy`. What the operation does in each
-- attempt, and what the clock and the caller's signal show then, are the caller's: an `Attempt`
-- for each attempt number.
pub mod Endings
pub mod Bounds
pub mod Recovery
use sirius_gateway.Base.{
  ℕ, zero, suc, ◌+◌, ◌*◌, ◌^◌, String, Bool, true, false, List, [], ◌∷◌, Option, some, none,
  if◌then◌else◌, ltb,
}
use sirius_gateway.Base.Dict.{Dict}
use sirius_gateway.Policy.Breaker.{
  Settings, CircuitState, Error, timed_out, operation_aborted, Result, ok, err,
  check_circuit_breaker, record_success, record_failure,
}

-- When the operation settles, in milliseconds after its start, how it settles, whether the caller
-- has aborted when a failure is caught, and the time when it is recorded.
pub record Attempt (T : Type 0) : Type 0 where
  pub settles_after : ℕ
  pub outcome : Result T
  pub aborted : Bool
  pub now : ℕ

-- What a call comes to: its result, the circuits, how often the operation was called, and the delays
-- between the attempts.
pub record Execution (T : Type 0) : Type 0 where
  pub result : Result T
  pub circuits : Dict CircuitState
  pub calls : ℕ
  pub delays : List ℕ

-- The caller's signal at the start of a call.
pub data Caller : Type 0 where
  running : Caller
  gone : (reason : Option Error) → Caller

abbrev pub abort_error : Option Error → Error
abort_error none = operation_aborted
abort_error (some e) = e

-- The delay after attempt number `attempt`.
abbrev pub backoff : Settings → ℕ → ℕ
backoff s attempt = s.base_delay * 2 ^ attempt

module _ {T : Type 0} where
  -- `withTimeout`: the race of the operation against the timer.
  unfoldable pub with_timeout : Settings → Attempt T → Result T
  with_timeout s a =
      if ltb a.settles_after s.timeout_ms then a.outcome else err (timed_out s.timeout_ms)

  -- One more call and one more delay before an execution.
  abbrev pub after_delay : ℕ → Execution T → Execution T
  after_delay d x = record x { calls = suc x.calls; delays = d ∷ x.delays }

  abbrev pub stop : Result T → Dict CircuitState → Execution T
  stop r circuits = record { result = r; circuits = circuits; calls = 1; delays = [] }

  -- The body of the loop, given what is left of it after a recorded failure.
  pub round :
      Settings
      → String
      → Attempt T
      → Dict CircuitState
      → (Error → Dict CircuitState → Execution T)
      → Execution T
  round s provider a circuits retry = elim (with_timeout s a) [
    | ok v ↦ stop (ok v) (record_success provider circuits)
    | err e ↦
        if a.aborted
        then stop (err e) circuits
        else retry e (record_failure s provider a.now circuits)
  ]

  -- The loop from attempt number `attempt`, with `left` more attempts allowed after it.
  attempts_from :
      Settings → String → (ℕ → Attempt T) → (left attempt : ℕ) → Dict CircuitState → Execution T
  attempts_from s provider attempts zero attempt circuits =
      round s provider (attempts attempt) circuits (λ e failed. stop (err e) failed)
  attempts_from s provider attempts (suc left) attempt circuits =
      round s provider (attempts attempt) circuits (λ e failed.
        after_delay (backoff s attempt)
          (attempts_from s provider attempts left (attempt + 1) failed))

  refused : Error → Dict CircuitState → Execution T
  refused e circuits = record { result = err e; circuits = circuits; calls = 0; delays = [] }

  start_attempts : Settings → String → (ℕ → Attempt T) → Caller → Dict CircuitState → Execution T
  unfolding attempts_from refused
  start_attempts s provider attempts running circuits =
      attempts_from s provider attempts s.max_retries 0 circuits
  start_attempts s provider attempts (gone reason) circuits = refused (abort_error reason) circuits

  pub execute_with_policy :
      Settings → String → (ℕ → Attempt T) → Caller → (now : ℕ) → Dict CircuitState → Execution T
  unfolding start_attempts
  execute_with_policy s provider attempts caller now circuits =
      let checked = check_circuit_breaker s provider now circuits in
      elim checked.0 [
        | ok _ ↦ start_attempts s provider attempts caller checked.1
        | err e ↦ refused e checked.1
      ]
