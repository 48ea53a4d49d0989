-- ===== src/Policy/Retry/Recovery.antt =====
-- libs/sirius-policy/src/policy.service.ts: `executeWithPolicy` after some failures.
use sirius_gateway.Base.{ℕ, zero, suc, ◌+◌, ◌≤◌, String, ◌≡◌, arith, ap, ◌∙◌, subst}
use sirius_gateway.Base.Dict.{Dict}
use sirius_gateway.Policy.Breaker.{
  Settings, CircuitState, ok, check_circuit_breaker, record_success,
}
use sirius_gateway.Policy.Retry.{
  Attempt, running, with_timeout, backoff, after_delay, attempts_from, start_attempts,
  execute_with_policy,
}
use sirius_gateway.Policy.Retry.Endings.{FailFrom, failed, finish, round-ok, round-retry}

module _ {T : Type 0} (s : Settings) (provider : String) (attempts : ℕ → Attempt T) where
  recovers_from :
      (k left n : ℕ) (v : T) (circuits : Dict CircuitState)
      → k ≤ left
      → FailFrom s provider attempts k n
      → with_timeout s (attempts (n + k)) ≡ ok v
      → attempts_from s provider attempts left n circuits
        ≡ finish s provider attempts k n
            (ok v)
            (record_success provider (failed s provider attempts k n circuits))
  unfolding attempts_from
  recovers_from zero zero n v circuits h g o =
      round-ok s provider attempts _ _ _ v
        (subst (λ i. with_timeout s (attempts i) ≡ ok v) (omega arith) o)
  recovers_from zero (suc left) n v circuits h g o =
      round-ok s provider attempts _ _ _ v
        (subst (λ i. with_timeout s (attempts i) ≡ ok v) (omega arith) o)
  recovers_from (suc k) zero n v circuits h g o = absurd (omega arith)
  recovers_from (suc k) (suc left) n v circuits h ((e, f, there), g) o =
      round-retry s provider attempts _ _ _ e f there
      ∙ ap (after_delay (backoff s n)) (
          recovers_from k left (n + 1) v _ (omega arith) g
            (subst (λ i. with_timeout s (attempts i) ≡ ok v) (omega arith) o))

  -- When the breaker lets a call through and the caller is there: if the first `k` attempts fail and the
  -- next succeeds, `k` not above `max_retries`, then the call succeeds with that attempt's value after
  -- `k + 1` calls and doubling delays, and the circuit records the failures and then the success.
  pub execute_with_policy-recovers :
      (k now : ℕ) (v : T) (circuits : Dict CircuitState)
      → (check_circuit_breaker s provider now circuits).0 ≡ ok tt
      → k ≤ s.max_retries
      → FailFrom s provider attempts k 0
      → with_timeout s (attempts k) ≡ ok v
      → execute_with_policy s provider attempts running now circuits
        ≡ finish s provider attempts k 0 (ok v) (
            record_success provider
              (failed s provider attempts k 0 (check_circuit_breaker s provider now circuits).1))
  unfolding execute_with_policy start_attempts
  execute_with_policy-recovers k now v circuits passes h g o =
      rw (execute_with_policy, passes)
        (recovers_from k s.max_retries 0 v _ h g
          (subst (λ i. with_timeout s (attempts i) ≡ ok v) (omega arith) o))
