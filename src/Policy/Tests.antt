-- ===== src/Policy/Tests.antt =====
-- libs/sirius-policy/src/policy.service.ts at sample settings, and the uses of its theorems there.
use sirius_gateway.Base.{
  ◌+◌, ◌≤◌, ℕ, zero, suc, String, false, List, [], ◌∷◌, some, none, ◌≡◌, refl, inl, arith,
}
use sirius_gateway.Base.Dict
use sirius_gateway.Base.Dict.{Dict}
use sirius_gateway.Policy.Breaker.{
  Settings, thrown, ok, err, get_circuit_breaker_state, check_circuit_breaker, record_success,
}
use sirius_gateway.Policy.Breaker.Opening.{
  Event, fails, succeeds, apply_all, apply_all-IsJustified, IsJustified,
  check_circuit_breaker-passes,
}
use sirius_gateway.Policy.Retry.{Attempt, running, with_timeout, execute_with_policy}
use sirius_gateway.Policy.Retry.Endings.{Ending, execute_with_policy-Ending, finish, failed}
use sirius_gateway.Policy.Retry.Bounds.{total_delay, execute_with_policy-Within}
use sirius_gateway.Policy.Retry.Recovery.{execute_with_policy-recovers}
use sirius_gateway.Policy.Stream.{StreamAttempt, execute_stream_with_policy}
use sirius_gateway.Policy.Stream.Splicing.{FromOne, execute_stream_with_policy-FromOne}

abbrev settings : Settings
settings = record {
  max_retries = 2;
  base_delay = 500;
  timeout_ms = 60000;
  circuit_breaker_threshold = 5;
  circuit_breaker_reset_ms = 30000;
}

-- The first attempt fails, the later ones succeed.
abbrev flaky : ℕ → Attempt String
flaky zero = record {
  settles_after = 10;
  outcome = err (thrown "busy");
  aborted = false;
  now = 100;
}
flaky (suc n) = record { settles_after = 10; outcome = ok "done"; aborted = false; now = 900 }

-- The first attempt fails before its first event, the later ones yield two events.
abbrev flaky_stream : ℕ → StreamAttempt String
flaky_stream zero = record {
  events = [];
  failure = some (thrown "busy");
  aborted = false;
  now = 100;
}
flaky_stream (suc n) = record {
  events = "a" ∷ "b" ∷ [];
  failure = none;
  aborted = false;
  now = 900;
}

abbrev history : List (String × Event)
history = ("openai", fails 10) ∷ ("ollama", fails 20) ∷ ("openai", succeeds) ∷ []

closed : (check_circuit_breaker settings "openai" 0 []).0 ≡ ok tt
closed =
    check_circuit_breaker-passes settings "openai" 0 []
      (inl (unfold get_circuit_breaker_state Dict.get in refl))

execute_stream_with_policy-FromOne_example :
    FromOne settings "openai" flaky_stream 2 0
      (execute_stream_with_policy settings "openai" flaky_stream running 0 [])
execute_stream_with_policy-FromOne_example =
    execute_stream_with_policy-FromOne settings "openai" flaky_stream 0 [] closed

execute_with_policy-Ending_example :
    Ending settings "openai" flaky 2 0
      (check_circuit_breaker settings "openai" 0 []).1
      (execute_with_policy settings "openai" flaky running 0 [])
execute_with_policy-Ending_example = execute_with_policy-Ending settings "openai" flaky 0 [] closed

execute_with_policy-recovers_example :
    execute_with_policy settings "openai" flaky running 0 []
    ≡ finish settings "openai" flaky 1 0 (ok "done") (
        record_success "openai"
          (failed settings "openai" flaky 1 0 (check_circuit_breaker settings "openai" 0 []).1))
unfolding with_timeout
execute_with_policy-recovers_example =
    execute_with_policy-recovers settings "openai" flaky 1 0 "done" [] closed (omega arith)
      ((thrown "busy", refl, refl), tt) refl

apply_all-IsJustified_example :
    IsJustified settings (get_circuit_breaker_state "openai" (apply_all settings history []))
apply_all-IsJustified_example = apply_all-IsJustified settings "openai" history

execute_with_policy-Within_example :
    ((execute_with_policy settings "openai" flaky running 0 []).calls ≤ 3)
    × (total_delay (execute_with_policy settings "openai" flaky running 0 []).delays + 500 ≤ 2000)
execute_with_policy-Within_example = execute_with_policy-Within settings "openai" flaky running 0 []
