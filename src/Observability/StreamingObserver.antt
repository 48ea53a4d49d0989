-- ===== src/Observability/StreamingObserver.antt =====
-- libs/sirius-observability/src/streaming-observer.ts: what the observer passes on and what it logs.
use Prim.Native.String.{len}
use sirius_gateway.Base.{ℕ, ◌+◌, List, [], ◌∷◌, Option, some, none, arith, ◌≡◌, refl, length}
use sirius_gateway.Core.Messages.{UnifiedStreamEvent, UsageMetrics}

pub record Counters : Type 0 where
  pub chunk_count : ℕ
  pub total_bytes : ℕ
  pub token_usage : Option UsageMetrics

abbrev pub start : Counters
start = record { chunk_count = 0; total_bytes = 0; token_usage = none }

-- The counters after one event.
count_event : Counters → UnifiedStreamEvent → Counters
count_event c (UnifiedStreamEvent.content_delta delta) = record c {
  chunk_count = c.chunk_count + 1;
  total_bytes = c.total_bytes + len delta;
}
count_event c (UnifiedStreamEvent.usage u) = record c {
  chunk_count = c.chunk_count + 1;
  token_usage = some u;
}
count_event c _ = record c { chunk_count = c.chunk_count + 1 }

-- What the consumer receives, and the counters that are logged at the end.
observe_from : Counters → List UnifiedStreamEvent → List UnifiedStreamEvent × Counters
observe_from c [] = ([], c)
observe_from c (event ∷ events) =
    let rest = observe_from (count_event c event) events in (event ∷ rest.0, rest.1)

pub observe : List UnifiedStreamEvent → List UnifiedStreamEvent × Counters
unfolding observe_from count_event
observe events = observe_from start events

-- The bytes of the content deltas.
abbrev pub delta_bytes : List UnifiedStreamEvent → ℕ
delta_bytes [] = 0
delta_bytes (UnifiedStreamEvent.content_delta delta ∷ events) = len delta + delta_bytes events
delta_bytes (_ ∷ events) = delta_bytes events

-- The last usage event, or `u`.
abbrev pub last_usage : Option UsageMetrics → List UnifiedStreamEvent → Option UsageMetrics
last_usage u [] = u
last_usage u (UnifiedStreamEvent.usage v ∷ events) = last_usage (some v) events
last_usage u (_ ∷ events) = last_usage u events

observe_from_lem :
    (c : Counters) (events : List UnifiedStreamEvent)
    → ((observe_from c events).0 ≡ events)
      × ((observe_from c events).1.chunk_count ≡ c.chunk_count + length events)
      × ((observe_from c events).1.total_bytes ≡ c.total_bytes + delta_bytes events)
      × ((observe_from c events).1.token_usage ≡ last_usage c.token_usage events)
unfolding observe_from count_event
observe_from_lem c [] = (refl, omega arith, omega arith, refl)
observe_from_lem c (UnifiedStreamEvent.content_delta delta ∷ events) =
    ground (arith, observe_from_lem (count_event c (UnifiedStreamEvent.content_delta delta)) events)
observe_from_lem c (event ∷ events) = ground (arith, observe_from_lem (count_event c event) events)

-- Observation changes no event; the log holds the number of events, the bytes of all content deltas
-- and the last usage event.
pub observe_lem :
    (events : List UnifiedStreamEvent)
    → ((observe events).0 ≡ events)
      × ((observe events).1.chunk_count ≡ length events)
      × ((observe events).1.total_bytes ≡ delta_bytes events)
      × ((observe events).1.token_usage ≡ last_usage none events)
unfolding observe
observe_lem events = ground (arith, observe_from_lem start events)
