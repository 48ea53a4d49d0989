-- ===== src/Policy/Breaker/Opening.antt =====
-- libs/sirius-policy/src/policy.service.ts: the circuits over a history of calls.
use sirius_gateway.Base.{
  ℕ, ◌+◌, ◌-◌, ◌≤◌, ◌<◌, String, true, false, List, [], ◌∷◌, if◌then◌else◌, leb, ◌≡◌, ◌==◌, refl,
  arith, eq_iff, eq_refl, Option-cases, Bool-cases, inl, inr, length, ◌∙◌, map, ◌⊎◌,
}
use sirius_gateway.Base.Dict
use sirius_gateway.Base.Dict.{Dict}
use sirius_gateway.Policy.Breaker.{
  Settings, CircuitState, Error, circuit_open, Result, ok, err, state_or_fresh,
  get_circuit_breaker_state, check_state, check_circuit_breaker, success_state, record_success,
  failure_state, record_failure,
}

state_or_fresh-set :
    (p q : String) (c : CircuitState) (circuits : Dict CircuitState)
    → get_circuit_breaker_state q (Dict.set p c circuits)
      ≡ (if p == q then c else get_circuit_breaker_state q circuits)
unfolding get_circuit_breaker_state
state_or_fresh-set p q c circuits =
    rw (Dict.get-set p q c circuits)
      (elim (Bool-cases (p == q)) [ inl same ↦ rw same | inr other ↦ rw other ])

-- What befalls one provider's circuit: a check before a call, a success, or a failure.
pub data Event : Type 0 where
  checks : (now : ℕ) → Event
  succeeds : Event
  fails : (now : ℕ) → Event

apply_event : Settings → String → Event → Dict CircuitState → Dict CircuitState
apply_event s p (checks now) circuits = (check_circuit_breaker s p now circuits).1
apply_event s p succeeds circuits = record_success p circuits
apply_event s p (fails now) circuits = record_failure s p now circuits

pub apply_all : Settings → List (String × Event) → Dict CircuitState → Dict CircuitState
unfolding apply_event
apply_all s [] circuits = circuits
apply_all s ((p, e) ∷ events) circuits = apply_all s events (apply_event s p e circuits)

-- One circuit by itself.
one_event : Settings → Event → CircuitState → CircuitState
one_event s (checks now) c =
    if c.is_open
    then if leb (c.last_failure + s.circuit_breaker_reset_ms) now
      then record c { is_open = false; failures = 0 }
      else c
    else c
one_event s succeeds c = record c { failures = 0; is_open = false }
one_event s (fails now) c = failure_state s now c

pub one_all : Settings → List Event → CircuitState → CircuitState
unfolding one_event failure_state
one_all s [] c = c
one_all s (e ∷ events) c = one_all s events (one_event s e c)

abbrev pub events_of : String → List (String × Event) → List Event
events_of q [] = []
events_of q ((p, e) ∷ events) = if p == q then e ∷ events_of q events else events_of q events

apply_event-state :
    (s : Settings) (p q : String) (e : Event) (circuits : Dict CircuitState)
    → get_circuit_breaker_state q (apply_event s p e circuits) ≡ (
        if p == q
        then one_event s e (get_circuit_breaker_state q circuits)
        else get_circuit_breaker_state q circuits)
unfolding apply_event one_event record_success record_failure check_circuit_breaker
    get_circuit_breaker_state check_state success_state
apply_event-state s p q (fails now) circuits =
    let c = failure_state s now (state_or_fresh (Dict.get p circuits)) in
    ground (arith, eq_iff p q, Dict.get-set p q c circuits)
apply_event-state s p q succeeds circuits = elim (Option-cases (Dict.get p circuits)) [
  | inl missing ↦ ground (arith, eq_iff p q)
  | inr (c, found) ↦
      ground
        (arith, eq_iff p q, Dict.get-set p q (record c { failures = 0; is_open = false }) circuits)
]
apply_event-state s p q (checks now) circuits = elim (Option-cases (Dict.get p circuits)) [
  | inl missing ↦ ground (arith, eq_iff p q)
  | inr (c, found) ↦
      ground
        (arith, eq_iff p q, Dict.get-set p q (record c { is_open = false; failures = 0 }) circuits)
]

-- Each provider has a circuit of its own: after any history its state is what its own events make of
-- its state before.
pub apply_all-local :
    (s : Settings) (q : String) (events : List (String × Event)) (circuits : Dict CircuitState)
    → get_circuit_breaker_state q (apply_all s events circuits)
      ≡ one_all s (events_of q events) (get_circuit_breaker_state q circuits)
unfolding apply_all one_all
apply_all-local s q [] circuits = refl
apply_all-local s q ((p, e) ∷ events) circuits =
    apply_all-local s q events (apply_event s p e circuits)
    ∙ rw (apply_event-state s p q e circuits)
        (elim (Bool-cases (p == q)) [ inl same ↦ rw same | inr other ↦ rw other ])

-- An open circuit has reached the threshold.
abbrev pub IsJustified : Settings → CircuitState → Type 0
IsJustified s c = c.is_open ≡ true → s.circuit_breaker_threshold ≤ c.failures

one_event-IsJustified :
    (s : Settings) (e : Event) (c : CircuitState)
    → IsJustified s c
    → IsJustified s (one_event s e c)
unfolding one_event failure_state
one_event-IsJustified s (checks now) c h = ground arith
one_event-IsJustified s succeeds c h = ground arith
one_event-IsJustified s (fails now) c h = ground arith

one_all-IsJustified :
    (s : Settings) (events : List Event) (c : CircuitState)
    → IsJustified s c
    → IsJustified s (one_all s events c)
unfolding one_all
one_all-IsJustified s [] c h = h
one_all-IsJustified s (e ∷ events) c h =
    one_all-IsJustified s events (one_event s e c) (one_event-IsJustified s e c h)

-- After any history a circuit is open only if its failures have reached the threshold.
pub apply_all-IsJustified :
    (s : Settings) (q : String) (events : List (String × Event))
    → IsJustified s (get_circuit_breaker_state q (apply_all s events []))
apply_all-IsJustified s q events = rw (apply_all-local s q events []) (
    one_all-IsJustified s (events_of q events) (get_circuit_breaker_state q [])
      (unfold get_circuit_breaker_state Dict.get in λ e. cc))

abbrev pub failures_at : List ℕ → List Event
failures_at times = map (λ t. fails t) times

abbrev Counted : Settings → ℕ → CircuitState → Type 0
Counted s n c = (c.failures ≡ n) × (c.is_open ≡ leb s.circuit_breaker_threshold n)

one_all-Counted :
    (s : Settings) (times : List ℕ) (n : ℕ) (c : CircuitState)
    → Counted s n c
    → Counted s (n + length times) (one_all s (failures_at times) c)
unfolding one_all one_event failure_state
one_all-Counted s [] n c h = let e : n + 0 ≡ n = omega arith in rw e h
one_all-Counted s (t ∷ times) n c h =
    let e : n + length (t ∷ times) ≡ (n + 1) + length times = omega arith in
    rw e (one_all-Counted s times (n + 1) (failure_state s t c) (ground arith))

-- Failures in a row, at least one, on a closed circuit: each is counted, and the circuit is open
-- exactly when the count has reached the threshold.
pub breaker_opens :
    (s : Settings) (t : ℕ) (times : List ℕ) (c : CircuitState)
    → c.is_open ≡ false
    → ((one_all s (failures_at (t ∷ times)) c).failures ≡ c.failures + length (t ∷ times))
      × ((one_all s (failures_at (t ∷ times)) c).is_open
          ≡ leb s.circuit_breaker_threshold (c.failures + length (t ∷ times)))
unfolding one_all one_event failure_state
breaker_opens s t times c closed =
    let e : c.failures + length (t ∷ times) ≡ (c.failures + 1) + length times = omega arith in
    rw e (one_all-Counted s times (c.failures + 1) (failure_state s t c) (ground arith))

-- The breaker refuses a call exactly while the circuit is open and its last failure is more recent
-- than the reset time; the error names the time left. A refusal changes nothing.
pub check_circuit_breaker-refuses :
    (s : Settings) (p : String) (now : ℕ) (circuits : Dict CircuitState)
    → let c = get_circuit_breaker_state p circuits in
      c.is_open ≡ true
      → now < c.last_failure + s.circuit_breaker_reset_ms
      → check_circuit_breaker s p now circuits
        ≡ (err (circuit_open p (s.circuit_breaker_reset_ms + c.last_failure - now)), circuits)
unfolding check_circuit_breaker check_state get_circuit_breaker_state
check_circuit_breaker-refuses s p now circuits open_now early =
    elim (Option-cases (Dict.get p circuits)) [ inl missing ↦ cc | inr (c, found) ↦ ground arith ]

pub check_circuit_breaker-passes :
    (s : Settings) (p : String) (now : ℕ) (circuits : Dict CircuitState)
    → let c = get_circuit_breaker_state p circuits in
      (c.is_open ≡ false) ⊎ (c.last_failure + s.circuit_breaker_reset_ms ≤ now)
      → (check_circuit_breaker s p now circuits).0 ≡ ok tt
unfolding check_circuit_breaker check_state get_circuit_breaker_state
check_circuit_breaker-passes s p now circuits h = elim (Option-cases (Dict.get p circuits)) [
  | inl missing ↦ ground arith
  | inr (c, found) ↦ ground arith
]

pub Result-cases :
    {A : Type 0} (r : Result A) → ((v : A) × (r ≡ ok v)) ⊎ ((e : Error) × (r ≡ err e))
Result-cases (ok v) = inl (v, refl)
Result-cases (err e) = inr (e, refl)

-- After a success no failure is counted.
pub failures-record_success :
    (p : String) (circuits : Dict CircuitState)
    → (get_circuit_breaker_state p (record_success p circuits)).failures ≡ 0
unfolding get_circuit_breaker_state record_success success_state
failures-record_success p circuits = elim (Option-cases (Dict.get p circuits)) [
  | inl missing ↦ rw (missing, missing) refl
  | inr (c, there) ↦
      rw (there, Dict.get-set p p (record c { failures = 0; is_open = false }) circuits, eq_refl p)
        refl
]
