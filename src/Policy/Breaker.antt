-- ===== src/Policy/Breaker.antt =====
-- libs/sirius-policy/src/policy.service.ts: the settings and the circuit breaker. Times are
-- milliseconds, and `now` is what `Date.now()` returns in the call.
pub mod Opening
use sirius_gateway.Base.{
  ℕ, ◌+◌, ◌-◌, String, Bool, true, false, Option, some, none, if◌then◌else◌, leb, ltb, ◌&◌,
}
use sirius_gateway.Base.Dict
use sirius_gateway.Base.Dict.{Dict}

pub record Settings : Type 0 where
  pub max_retries : ℕ
  pub base_delay : ℕ
  pub timeout_ms : ℕ
  pub circuit_breaker_threshold : ℕ
  pub circuit_breaker_reset_ms : ℕ

-- The numbers of the configuration, each with its default.
pub record Config : Type 0 where
  pub retry_max_attempts : Option ℕ
  pub retry_base_delay_ms : Option ℕ
  pub timeout_ms : Option ℕ
  pub circuit_breaker_threshold : Option ℕ
  pub circuit_breaker_reset_ms : Option ℕ

abbrev setting : Option ℕ → ℕ → ℕ
setting none default = default
setting (some n) default = n

pub configure : Config → Settings
configure c = record {
  max_retries = setting c.retry_max_attempts 2;
  base_delay = setting c.retry_base_delay_ms 500;
  timeout_ms = setting c.timeout_ms 60_000;
  circuit_breaker_threshold = setting c.circuit_breaker_threshold 5;
  circuit_breaker_reset_ms = setting c.circuit_breaker_reset_ms 30_000;
}

pub record CircuitState : Type 0 where
  pub failures : ℕ
  pub last_failure : ℕ
  pub is_open : Bool

-- The errors that the policy throws, with what their messages name, and those it passes on.
pub data Error : Type 0 where
  circuit_open : (provider : String) (retry_after : ℕ) → Error
  operation_aborted : Error
  timed_out : (timeout_ms : ℕ) → Error
  thrown : (message : String) → Error

-- The text of an error, given how numbers are printed.
pub error_message : (ℕ → String) → Error → String
error_message show (circuit_open provider retry_after) =
    "Circuit breaker is open for provider \""
    & provider
    & "\". Retry after "
    & show retry_after
    & "ms."
error_message show operation_aborted = "Operation aborted"
error_message show (timed_out timeout_ms) = "Operation timed out after " & show timeout_ms & "ms"
error_message show (thrown message) = message

pub data Result {ℓ} (A : Type ℓ) : Type ℓ where
  ok : A → Result A
  err : Error → Result A

abbrev pub fresh : CircuitState
fresh = record { failures = 0; last_failure = 0; is_open = false }

abbrev pub state_or_fresh : Option CircuitState → CircuitState
state_or_fresh none = fresh
state_or_fresh (some c) = c

unfoldable pub get_circuit_breaker_state : String → Dict CircuitState → CircuitState
get_circuit_breaker_state provider circuits = state_or_fresh (Dict.get provider circuits)

-- An open circuit is closed once the reset time has passed since its last failure.
check_state :
    Settings
    → String
    → ℕ
    → Option CircuitState
    → Dict CircuitState
    → Result (Unit {0}) × Dict CircuitState
check_state s provider now none circuits = (ok tt, circuits)
check_state s provider now (some c) circuits =
    if c.is_open
    then if leb (c.last_failure + s.circuit_breaker_reset_ms) now
      then (ok tt, Dict.set provider (record c { is_open = false; failures = 0 }) circuits)
      else (
        err (circuit_open provider (s.circuit_breaker_reset_ms + c.last_failure - now)),
        circuits,
      )
    else (ok tt, circuits)

unfoldable pub check_circuit_breaker :
    Settings → String → ℕ → Dict CircuitState → Result (Unit {0}) × Dict CircuitState
unfolding check_state
check_circuit_breaker s provider now circuits =
    check_state s provider now (Dict.get provider circuits) circuits

success_state : String → Option CircuitState → Dict CircuitState → Dict CircuitState
success_state provider none circuits = circuits
success_state provider (some c) circuits =
    Dict.set provider (record c { failures = 0; is_open = false }) circuits

unfoldable pub record_success : String → Dict CircuitState → Dict CircuitState
unfolding success_state
record_success provider circuits = success_state provider (Dict.get provider circuits) circuits

-- The state after one more failure.
unfoldable pub failure_state : Settings → ℕ → CircuitState → CircuitState
failure_state s now c = record {
  failures = c.failures + 1;
  last_failure = now;
  is_open = if leb s.circuit_breaker_threshold (c.failures + 1) then true else c.is_open;
}

unfoldable pub record_failure : Settings → String → ℕ → Dict CircuitState → Dict CircuitState
unfolding failure_state
record_failure s provider now circuits =
    Dict.set provider (failure_state s now (state_or_fresh (Dict.get provider circuits))) circuits
