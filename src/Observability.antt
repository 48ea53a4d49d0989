-- ===== src/Observability.antt =====
-- libs/sirius-observability/src: the latency window, the stream observer and the usage recorder.
mod Tests
pub mod LatencyTracker
pub mod StreamingObserver
pub mod UsageRecorder
