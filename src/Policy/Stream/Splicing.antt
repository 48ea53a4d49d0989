-- ===== src/Policy/Stream/Splicing.antt =====
-- libs/sirius-policy/src/policy.service.ts: the attempts behind the events of a stream.
use sirius_gateway.Base.{
  ℕ, zero, suc, ◌+◌, ◌≤◌, String, true, List, [], ◌∷◌, ◌≡◌, refl, arith, Bool-cases, inl, inr, ◌⊎◌,
  ap, sym, ◌∙◌, subst, some, none, Option-cases, is_empty,
}
use sirius_gateway.Base.Dict.{Dict}
use sirius_gateway.Policy.Breaker.{
  Settings, CircuitState, Error, ok, check_circuit_breaker, record_failure, record_success,
}
use sirius_gateway.Policy.Breaker.Opening.{Result-cases}
use sirius_gateway.Policy.Retry.{Caller, running, gone, backoff}
use sirius_gateway.Policy.Stream.{
  StreamAttempt, Streaming, before, stop, round, stream_from, start_stream, refused,
  execute_stream_with_policy,
}

module _ {E : Type 0} (s : Settings) (provider : String) (attempts : ℕ → StreamAttempt E) where
  -- The attempts from number `n` on, `k` of them, yield nothing and fail.
  abbrev pub SilentFrom : (k n : ℕ) → Type 0
  SilentFrom zero n = Unit {0}
  SilentFrom (suc k) n =
      ((attempts n).events ≡ [])
      × ((e : Error) × ((attempts n).failure ≡ some e))
      × SilentFrom k (n + 1)

  -- What the consumer has received comes from one attempt, number `i`, whole: the `k` attempts before
  -- it yielded nothing, and its error, if it has one, is what the consumer is thrown.
  pub record FromOne (left n : ℕ) (x : Streaming E) : Type 0 where
    pub k : ℕ
    pub i : ℕ
    pub within : k ≤ left
    pub index : i ≡ n + k
    pub silent : SilentFrom k n
    pub events : x.events ≡ (attempts i).events
    pub failure : x.failure ≡ (attempts i).failure
    pub calls : x.calls ≡ suc k

  before-FromOne :
      {left n d : ℕ} {x : Streaming E} (e : Error)
      → (attempts n).failure ≡ some e
      → (attempts n).events ≡ []
      → FromOne left (n + 1) x
      → FromOne (suc left) n (before (attempts n).events d x)
  before-FromOne e f q o = record {
    k = suc o.k;
    i = o.i;
    within = omega (arith, o.within);
    index = omega (arith, o.index);
    silent = (q, (e, f), o.silent);
    events = rw q o.events;
    failure = o.failure;
    calls = ap suc o.calls;
  }

  now-FromOne :
      {left n : ℕ} {x : Streaming E}
      → x.events ≡ (attempts n).events
      → x.failure ≡ (attempts n).failure
      → x.calls ≡ 1
      → FromOne left n x
  now-FromOne {n} a b c = record {
    k = 0;
    i = n;
    within = omega arith;
    index = omega arith;
    silent = tt;
    events = a;
    failure = b;
    calls = c;
  }

  empty_of_is_empty : (xs : List E) → is_empty xs ≡ true → xs ≡ []
  empty_of_is_empty [] h = refl
  empty_of_is_empty (x ∷ xs) h = cc

  abbrev Ends : StreamAttempt E → Streaming E → Type 0
  Ends a x = (x.events ≡ a.events) × (x.failure ≡ a.failure) × (x.calls ≡ 1)

  -- A round ends with the attempt, or retries a silent failure.
  round-cases :
      (a : StreamAttempt E) (circuits : Dict CircuitState)
      (retry : Error → Dict CircuitState → Streaming E)
      → Ends a (round s provider a circuits retry)
        ⊎ ((e : Error) × (a.failure ≡ some e)
            × (a.events ≡ [])
            × (round s provider a circuits retry
                ≡ retry e (record_failure s provider a.now circuits)))
  unfolding round
  round-cases a circuits retry = elim (Option-cases a.failure) [
    | inl ended ↦ inl (ground arith, ground arith, ground arith)
    | inr (e, failed) ↦ elim (Bool-cases a.aborted) [
      | inl left_now ↦ inl (ground arith, ground arith, ground arith)
      | inr there ↦ elim (Bool-cases (is_empty a.events)) [
        | inl silent ↦
            inr (e, failed, empty_of_is_empty a.events silent, rw (round, failed, there, silent))
        | inr spoke ↦ inl (ground arith, ground arith, ground arith)
      ]
    ]
  ]

  stream_from-FromOne :
      (left n : ℕ) (circuits : Dict CircuitState)
      → FromOne left n (stream_from s provider attempts left n circuits)
  unfolding stream_from
  stream_from-FromOne zero n circuits =
      elim (round-cases (attempts n) circuits
        (λ e failed. stop (attempts n).events (some e) failed)) [
          | inl (a, b, c) ↦ now-FromOne a b c
          | inr (e, f, q, r) ↦
              now-FromOne (ap (λ x. x.events) r) (ap (λ x. x.failure) r ∙ sym f)
                (ap (λ x. x.calls) r)
        ]
  stream_from-FromOne (suc left) n circuits =
      elim (round-cases (attempts n) circuits (λ e failed.
        before (attempts n).events (backoff s n)
          (stream_from s provider attempts left (n + 1) failed))) [
            | inl (a, b, c) ↦ now-FromOne a b c
            | inr (e, f, q, r) ↦
                subst (FromOne (suc left) n) (sym r)
                  (before-FromOne e f q (stream_from-FromOne left (n + 1) _))
          ]

  -- When the breaker lets a call through and the caller is there, the consumer receives the events of
  -- exactly one attempt, whole and in order, and that attempt's error, if it has one. The attempts
  -- before it, at most `max_retries`, all failed and yielded nothing.
  pub execute_stream_with_policy-FromOne :
      (now : ℕ) (circuits : Dict CircuitState)
      → (check_circuit_breaker s provider now circuits).0 ≡ ok tt
      → FromOne s.max_retries 0
          (execute_stream_with_policy s provider attempts running now circuits)
  unfolding execute_stream_with_policy start_stream
  execute_stream_with_policy-FromOne now circuits passes =
      rw (execute_stream_with_policy, passes) (stream_from-FromOne s.max_retries 0 _)

  -- Whatever the breaker and the caller do, what the consumer receives is nothing or the events of one
  -- attempt.
  pub execute_stream_with_policy-origin :
      (caller : Caller) (now : ℕ) (circuits : Dict CircuitState)
      → let x = execute_stream_with_policy s provider attempts caller now circuits in
        (x.events ≡ []) ⊎ ((i : ℕ) × (x.events ≡ (attempts i).events))
  unfolding execute_stream_with_policy start_stream refused
  execute_stream_with_policy-origin caller now circuits =
      elim (Result-cases (check_circuit_breaker s provider now circuits).0) [
        | inl (v, passes) ↦ rw (execute_stream_with_policy, passes) (started caller _)
        | inr (e, refuses) ↦ rw (execute_stream_with_policy, refuses) (inl refl)
      ]
    where
      started :
          (c : Caller) (d : Dict CircuitState)
          → let x = start_stream s provider attempts c d in
            (x.events ≡ []) ⊎ ((i : ℕ) × (x.events ≡ (attempts i).events))
      started running d = let o = stream_from-FromOne s.max_retries 0 d in inr (o.i, o.events)
      started (gone reason) d = inl refl

first_lem :
    {E : Type 0} (s : Settings) (provider : String) (attempts : ℕ → StreamAttempt E) (left : ℕ)
    (circuits : Dict CircuitState)
    → (attempts 0).failure ≡ none
    → stream_from s provider attempts left 0 circuits
      ≡ stop (attempts 0).events none (record_success provider circuits)
unfolding stream_from round
first_lem s provider attempts zero circuits ends = rw ends refl
first_lem s provider attempts (suc left) circuits ends = rw ends refl

-- A first attempt that ends by itself is all that there is, and a success.
pub execute_stream_with_policy-first :
    {E : Type 0} (s : Settings) (provider : String) (attempts : ℕ → StreamAttempt E) (now : ℕ)
    (circuits : Dict CircuitState)
    → (check_circuit_breaker s provider now circuits).0 ≡ ok tt
    → (attempts 0).failure ≡ none
    → execute_stream_with_policy s provider attempts running now circuits
      ≡ stop
          (attempts 0).events
          none
          (record_success provider (check_circuit_breaker s provider now circuits).1)
unfolding execute_stream_with_policy start_stream
execute_stream_with_policy-first s provider attempts now circuits let_through ends =
    rw (execute_stream_with_policy, let_through)
      (first_lem s provider attempts s.max_retries (check_circuit_breaker s provider now circuits).1
        ends)
