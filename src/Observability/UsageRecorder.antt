-- ===== src/Observability/UsageRecorder.antt =====
-- libs/sirius-observability/src/usage-recorder.service.ts: what `record` hands to the writer. The
-- schemas of @nova/contracts are arguments, as is the time; each gives nothing for what it refuses.
use sirius_gateway.Base.{ℕ, String, Option, some, none}

-- The input without the observation.
pub record UsageRecorderInput (N : Type 0) : Type 0 where
  pub provider : String
  pub model : String
  pub kind : String
  pub prompt_tokens : ℕ
  pub completion_tokens : ℕ
  pub total_tokens : ℕ
  pub latency_ms : N
  pub request_id : String
  pub route : Option String

-- The record before validation; the routes set no user.
pub record Candidate (N : Type 0) : Type 0 where
  pub ts : String
  pub provider : String
  pub model : String
  pub kind : String
  pub prompt_tokens : ℕ
  pub completion_tokens : ℕ
  pub total_tokens : ℕ
  pub latency_ms : N
  pub request_id : String
  pub route : Option String

-- The same with an observation in place of the counts.
pub record ObservedCandidate (N O : Type 0) : Type 0 where
  pub ts : String
  pub provider : String
  pub model : String
  pub kind : String
  pub latency_ms : N
  pub observation : O
  pub request_id : String
  pub route : Option String

module _ {N V O UsageRecord UsageRecordV2 : Type 0} (ts : String)
    (usage_record : Candidate N → Option UsageRecord) (usage_observation : V → Option O)
    (usage_record_v2 : ObservedCandidate N O → Option UsageRecordV2)
    (project_v2_to_v1 : UsageRecordV2 → Option UsageRecord) where
  candidate : UsageRecorderInput N → Candidate N
  candidate input = record {
    ts = ts;
    provider = input.provider;
    model = input.model;
    kind = input.kind;
    prompt_tokens = input.prompt_tokens;
    completion_tokens = input.completion_tokens;
    total_tokens = input.total_tokens;
    latency_ms = input.latency_ms;
    request_id = input.request_id;
    route = input.route;
  }

  observed_candidate : UsageRecorderInput N → O → ObservedCandidate N O
  observed_candidate input observation = record {
    ts = ts;
    provider = input.provider;
    model = input.model;
    kind = input.kind;
    latency_ms = input.latency_ms;
    observation = observation;
    request_id = input.request_id;
    route = input.route;
  }

  projected : Option UsageRecordV2 → Option UsageRecord
  projected none = none
  projected (some v2) = project_v2_to_v1 v2

  record_observed : UsageRecorderInput N → Option O → Option UsageRecord
  unfolding observed_candidate projected
  record_observed input none = none
  record_observed input (some observation) =
      projected (usage_record_v2 (observed_candidate input observation))

  -- What is written, if anything is.
  pub record_usage : UsageRecorderInput N → (observation : Option V) → Option UsageRecord
  unfolding candidate record_observed
  record_usage input none = usage_record (candidate input)
  record_usage input (some observation) = record_observed input (usage_observation observation)
