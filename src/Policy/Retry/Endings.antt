-- ===== src/Policy/Retry/Endings.antt =====
-- libs/sirius-policy/src/policy.service.ts: the ways in which `executeWithPolicy` ends.
use sirius_gateway.Base.{
  ℕ, zero, suc, ◌+◌, ◌-◌, ◌≤◌, ◌<◌, String, true, false, List, [], ◌∷◌, ◌≡◌, arith, Bool-cases, inl,
  inr, ap, sym, subst,
}
use sirius_gateway.Base.Dict.{Dict}
use sirius_gateway.Policy.Breaker.{
  Settings, CircuitState, Error, circuit_open, Result, ok, err, check_circuit_breaker,
  record_success, record_failure, get_circuit_breaker_state,
}
use sirius_gateway.Policy.Breaker.Opening.{Result-cases, check_circuit_breaker-refuses}
use sirius_gateway.Policy.Retry.{
  Attempt, Execution, Caller, running, with_timeout, backoff, after_delay, stop, round,
  attempts_from, start_attempts, refused, execute_with_policy,
}

module _ {T : Type 0} (s : Settings) (provider : String) (attempts : ℕ → Attempt T) where
  -- The attempt fails or times out, and the caller is still there.
  abbrev pub Fails : Attempt T → Type 0
  Fails a = (e : Error) × (with_timeout s a ≡ err e) × (a.aborted ≡ false)

  -- The `k` attempts from number `n` on fail.
  abbrev pub FailFrom : (k n : ℕ) → Type 0
  FailFrom zero n = Unit {0}
  FailFrom (suc k) n = Fails (attempts n) × FailFrom k (n + 1)

  -- The circuits after the failures of those attempts.
  abbrev pub failed : (k n : ℕ) → Dict CircuitState → Dict CircuitState
  failed zero n circuits = circuits
  failed (suc k) n circuits = failed k (n + 1) (record_failure s provider (attempts n).now circuits)

  -- The delays after those attempts.
  abbrev pub backoffs : (k n : ℕ) → List ℕ
  backoffs zero n = []
  backoffs (suc k) n = backoff s n ∷ backoffs k (n + 1)

  -- The execution that ends with its attempt number `n + k`, after `k` failures from number `n` on.
  abbrev pub finish : (k n : ℕ) → Result T → Dict CircuitState → Execution T
  finish k n r circuits = record {
    result = r;
    circuits = circuits;
    calls = suc k;
    delays = backoffs k n;
  }

  -- How an execution ends that starts at attempt `n` with `left` more attempts allowed.
  pub data Ending (left n : ℕ) (circuits : Dict CircuitState) (x : Execution T) : Type 0 where
    success :
        (k i : ℕ) (v : T)
        → k ≤ left
        → i ≡ n + k
        → FailFrom k n
        → with_timeout s (attempts i) ≡ ok v
        → x ≡ finish k n (ok v) (record_success provider (failed k n circuits))
        → Ending left n circuits x
    abort :
        (k i : ℕ) (e : Error)
        → k ≤ left
        → i ≡ n + k
        → FailFrom k n
        → with_timeout s (attempts i) ≡ err e
        → (attempts i).aborted ≡ true
        → x ≡ finish k n (err e) (failed k n circuits)
        → Ending left n circuits x
    exhausted :
        (i : ℕ) (e : Error)
        → i ≡ n + left
        → FailFrom (suc left) n
        → with_timeout s (attempts i) ≡ err e
        → x ≡ finish left n (err e) (failed (suc left) n circuits)
        → Ending left n circuits x

  after_failure :
      {left n : ℕ} {circuits : Dict CircuitState} {x : Execution T}
      → Fails (attempts n)
      → Ending left (n + 1) (record_failure s provider (attempts n).now circuits) x
      → Ending (suc left) n circuits (after_delay (backoff s n) x)
  after_failure f (success k i v h j g o q) =
      success (suc k) i v (omega arith) (omega arith) (f, g) o (ap (after_delay _) q)
  after_failure f (abort k i e h j g o a q) =
      abort (suc k) i e (omega arith) (omega arith) (f, g) o a (ap (after_delay _) q)
  after_failure f (exhausted i e j g o q) =
      exhausted i e (omega arith) (f, g) o (ap (after_delay _) q)

  module _ (a : Attempt T) (circuits : Dict CircuitState)
      (retry : Error → Dict CircuitState → Execution T) where
    pub round-ok :
        (v : T)
        → with_timeout s a ≡ ok v
        → round s provider a circuits retry ≡ stop (ok v) (record_success provider circuits)
    unfolding round
    round-ok v e = rw (round, e)

    pub round-abort :
        (f : Error)
        → with_timeout s a ≡ err f
        → a.aborted ≡ true
        → round s provider a circuits retry ≡ stop (err f) circuits
    unfolding round
    round-abort f e gone_now = rw (round, e, gone_now)

    pub round-retry :
        (f : Error)
        → with_timeout s a ≡ err f
        → a.aborted ≡ false
        → round s provider a circuits retry ≡ retry f (record_failure s provider a.now circuits)
    unfolding round
    round-retry f e there = rw (round, e, there)

  attempts_from-Ending :
      (left n : ℕ) (circuits : Dict CircuitState)
      → Ending left n circuits (attempts_from s provider attempts left n circuits)
  unfolding attempts_from
  attempts_from-Ending zero n circuits = elim (Result-cases (with_timeout s (attempts n))) [
    | inl (v, e) ↦ success zero n v (omega arith) (omega arith) tt e (round-ok _ _ _ v e)
    | inr (f, e) ↦ elim (Bool-cases (attempts n).aborted) [
      | inl gone_now ↦
          abort zero n f (omega arith) (omega arith) tt e gone_now (round-abort _ _ _ f e gone_now)
      | inr there ↦ exhausted n f (omega arith) ((f, e, there), tt) e (round-retry _ _ _ f e there)
    ]
  ]
  attempts_from-Ending (suc left) n circuits = elim (Result-cases (with_timeout s (attempts n))) [
    | inl (v, e) ↦ success zero n v (omega arith) (omega arith) tt e (round-ok _ _ _ v e)
    | inr (f, e) ↦ elim (Bool-cases (attempts n).aborted) [
      | inl gone_now ↦
          abort zero n f (omega arith) (omega arith) tt e gone_now (round-abort _ _ _ f e gone_now)
      | inr there ↦
          subst (Ending (suc left) n circuits) (sym (round-retry _ _ _ f e there))
            (after_failure (f, e, there) (attempts_from-Ending left (n + 1) _))
    ]
  ]

  -- When the breaker lets a call through and the caller is there, the operation is called until its
  -- first success, until a failure after which the caller has gone, or until `max_retries + 1`
  -- failures. The result is that of the last call; the delays double from the base delay on; each
  -- failure but one after the caller has gone is recorded, and a success closes the circuit.
  pub execute_with_policy-Ending :
      (now : ℕ) (circuits : Dict CircuitState)
      → (check_circuit_breaker s provider now circuits).0 ≡ ok tt
      → Ending s.max_retries 0
          (check_circuit_breaker s provider now circuits).1
          (execute_with_policy s provider attempts running now circuits)
  unfolding execute_with_policy start_attempts
  execute_with_policy-Ending now circuits passes =
      rw (execute_with_policy, passes) (attempts_from-Ending s.max_retries 0 _)

  -- While the circuit is open and its last failure is more recent than the reset time, the operation is
  -- not called, no circuit changes, and the error names the time left.
  pub execute_with_policy-refuses :
      (caller : Caller) (now : ℕ) (circuits : Dict CircuitState)
      → let c = get_circuit_breaker_state provider circuits in
        c.is_open ≡ true
        → now < c.last_failure + s.circuit_breaker_reset_ms
        → execute_with_policy s provider attempts caller now circuits ≡ record {
          result = err (circuit_open provider (s.circuit_breaker_reset_ms + c.last_failure - now));
          circuits = circuits;
          calls = 0;
          delays = [];
        }
  unfolding execute_with_policy refused
  execute_with_policy-refuses caller now circuits opened early =
      let r = check_circuit_breaker-refuses s provider now circuits opened early in
      rw (execute_with_policy, ap (λ (x : Result (Unit {0}) × Dict CircuitState). x.0) r)
        (ap (refused _) (ap (λ (x : Result (Unit {0}) × Dict CircuitState). x.1) r))
