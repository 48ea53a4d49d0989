-- ===== src/Policy/Retry/Bounds.antt =====
-- libs/sirius-policy/src/policy.service.ts: how often `executeWithPolicy` calls, and how long it waits.
use native.Mathlib.Nat.{two-pow-succ}
use sirius_gateway.Base.{
  ℕ, zero, suc, ◌+◌, ◌*◌, ◌^◌, ◌≤◌, String, List, [], ◌∷◌, ◌≡◌, arith, Bool-cases, inl, inr, ap,
  ◌∙◌,
}
use sirius_gateway.Base.Dict.{Dict}
use sirius_gateway.Policy.Breaker.{
  Settings, CircuitState, Error, Result, ok, err, check_circuit_breaker, record_success,
}
use sirius_gateway.Policy.Breaker.Opening.{Result-cases}
use sirius_gateway.Policy.Retry.{
  Attempt, Execution, Caller, running, gone, with_timeout, backoff, stop, round, attempts_from,
  start_attempts, refused, execute_with_policy, abort_error,
}

abbrev pub total_delay : List ℕ → ℕ
total_delay [] = 0
total_delay (n ∷ ns) = n + total_delay ns

module _ (s : Settings) where
  backoff-suc : (n : ℕ) → backoff s (n + 1) ≡ backoff s n + backoff s n
  backoff-suc n =
      let next : n + 1 ≡ suc n = omega arith in
      ap (backoff s) next ∙ (ap (λ p. s.base_delay * p) (two-pow-succ n) ∙ grind arith)

  backoff-le : (n k : ℕ) → backoff s n ≤ backoff s (n + k)
  backoff-le n zero = grind arith
  backoff-le n (suc k) =
      omega (arith, backoff-le n k, backoff-suc (n + k), ap (backoff s) (assoc n k))
    where
      assoc : (n k : ℕ) → n + suc k ≡ n + k + 1
      assoc n k = omega arith

  -- What is left of an execution from attempt `n` on, with `left` more attempts allowed.
  abbrev Within : {T : Type 0} → (left n : ℕ) → Execution T → Type 0
  Within left n x =
      (x.calls ≤ suc left) × (total_delay x.delays + backoff s n ≤ backoff s (n + left))

  module _ {T : Type 0} (provider : String) (attempts : ℕ → Attempt T) where
    stop-Within :
        (left n : ℕ) (r : Result T) (circuits : Dict CircuitState) → Within left n (stop r circuits)
    stop-Within left n r circuits = (omega arith, omega (arith, backoff-le n left))

    refused-Within :
        (e : Error) (circuits : Dict CircuitState)
        → Within {T = T} s.max_retries 0 (refused e circuits)
    unfolding refused
    refused-Within e circuits = (omega arith, omega (arith, backoff-le 0 s.max_retries))

    total :
        (x : Execution T)
        → Within s.max_retries 0 x
        → (x.calls ≤ s.max_retries + 1)
          × (total_delay x.delays + s.base_delay ≤ s.base_delay * 2 ^ s.max_retries)
    total x (c, d) =
        let once : backoff s 0 ≡ s.base_delay = omega arith in
        let all : backoff s (0 + s.max_retries) ≡ s.base_delay * 2 ^ s.max_retries =
          ap (backoff s) (zero_add s.max_retries) in
        (omega (arith, c), omega (arith, d, once, all))
      where
        zero_add : (n : ℕ) → 0 + n ≡ n
        zero_add n = omega arith

    round-Within :
        (left n : ℕ) (a : Attempt T) (circuits : Dict CircuitState)
        (retry : Error → Dict CircuitState → Execution T)
        → ((e : Error) (later : Dict CircuitState) → Within left n (retry e later))
        → Within left n (round s provider a circuits retry)
    unfolding round
    round-Within left n a circuits retry h = elim (Result-cases (with_timeout s a)) [
      | inl (v, good) ↦
          rw (round, good) (stop-Within left n (ok v) (record_success provider circuits))
      | inr (e, bad) ↦ elim (Bool-cases a.aborted) [
        | inl left_off ↦ rw (round, bad, left_off) (stop-Within left n (err e) circuits)
        | inr there ↦ rw (round, bad, there) (h e _)
      ]
    ]

    attempts_from-Within :
        (left n : ℕ) (circuits : Dict CircuitState)
        → Within left n (attempts_from s provider attempts left n circuits)
    unfolding attempts_from
    attempts_from-Within zero n circuits =
        round-Within zero n (attempts n) circuits _ (λ e later. stop-Within zero n (err e) later)
    attempts_from-Within (suc left) n circuits =
        round-Within (suc left) n (attempts n) circuits _ (λ e later.
          let (c, d) = attempts_from-Within left (n + 1) later in
          let same : n + 1 + left ≡ n + suc left = omega arith in
          (omega (arith, c), omega (arith, d, backoff-suc n, ap (backoff s) same)))

    started-Within :
        (caller : Caller) (circuits : Dict CircuitState)
        → Within s.max_retries 0 (start_attempts s provider attempts caller circuits)
    unfolding start_attempts
    started-Within running circuits = attempts_from-Within s.max_retries 0 circuits
    started-Within (gone reason) circuits = refused-Within (abort_error reason) circuits

    -- Whatever happens, the operation is called at most `max_retries + 1` times, and the delays
    -- between the calls, with one base delay more, sum up to `base_delay * 2 ^ max_retries` at most.
    pub execute_with_policy-Within :
        (caller : Caller) (now : ℕ) (circuits : Dict CircuitState)
        → ((execute_with_policy s provider attempts caller now circuits).calls ≤ s.max_retries + 1)
          × (total_delay (execute_with_policy s provider attempts caller now circuits).delays
                + s.base_delay
              ≤ s.base_delay * 2 ^ s.max_retries)
    unfolding execute_with_policy
    execute_with_policy-Within caller now circuits =
        elim (Result-cases (check_circuit_breaker s provider now circuits).0) [
          | inl (v, passes) ↦
              rw (execute_with_policy, passes)
                (total
                  (start_attempts s provider attempts caller
                    (check_circuit_breaker s provider now circuits).1)
                  (started-Within caller (check_circuit_breaker s provider now circuits).1))
          | inr (e, refuses) ↦
              rw (execute_with_policy, refuses)
                (total (refused e (check_circuit_breaker s provider now circuits).1)
                  (refused-Within e (check_circuit_breaker s provider now circuits).1))
        ]
