-- ===== src/Metrics.antt =====
-- The counters of metrics/Metrics.h, and its gauge of the queue length.
mod Tests
pub mod Names
pub mod Stats
pub mod Members
use jaeger_client_cpp.Base.{ℕ, ℤ, pos}

pub record Metrics : Type 0 where
  pub traces_started_sampled : ℕ
  pub traces_started_not_sampled : ℕ
  pub traces_joined_sampled : ℕ
  pub traces_joined_not_sampled : ℕ
  pub spans_started : ℕ
  pub spans_finished : ℕ
  pub spans_sampled : ℕ
  pub spans_not_sampled : ℕ
  pub decoding_errors : ℕ
  pub reporter_success : ℕ
  pub reporter_failure : ℕ
  pub reporter_dropped : ℕ
  pub reporter_queue_length : ℤ
  pub sampler_retrieved : ℕ
  pub sampler_updated : ℕ
  pub sampler_update_failure : ℕ
  pub sampler_query_failure : ℕ
  pub sampler_parsing_failure : ℕ
  pub baggage_update_success : ℕ
  pub baggage_update_failure : ℕ
  pub baggage_truncate : ℕ
  pub baggage_restrictions_update_success : ℕ
  pub baggage_restrictions_update_failure : ℕ

abbrev pub null_metrics : Metrics
null_metrics = record {
  traces_started_sampled = 0;
  traces_started_not_sampled = 0;
  traces_joined_sampled = 0;
  traces_joined_not_sampled = 0;
  spans_started = 0;
  spans_finished = 0;
  spans_sampled = 0;
  spans_not_sampled = 0;
  decoding_errors = 0;
  reporter_success = 0;
  reporter_failure = 0;
  reporter_dropped = 0;
  reporter_queue_length = pos 0;
  sampler_retrieved = 0;
  sampler_updated = 0;
  sampler_update_failure = 0;
  sampler_query_failure = 0;
  sampler_parsing_failure = 0;
  baggage_update_success = 0;
  baggage_update_failure = 0;
  baggage_truncate = 0;
  baggage_restrictions_update_success = 0;
  baggage_restrictions_update_failure = 0;
}
