-- ===== src/Metrics/Members.antt =====
-- The metrics that the constructor of metrics/Metrics.h makes: their names and tags.
pub mod Different
use jaeger_client_cpp.Base.{List, [], ◌∷◌, codes}
use jaeger_client_cpp.Metrics.Stats.{Metric}

-- The data members that the constructor sets.
pub data Member : Type 0 where
  traces_started_sampled traces_started_not_sampled spans_started spans_finished : Member
  spans_sampled spans_not_sampled decoding_errors reporter_success reporter_failure : Member
  reporter_dropped reporter_queue_length sampler_retrieved sampler_updated : Member
  sampler_update_failure sampler_query_failure sampler_parsing_failure : Member
  baggage_update_success baggage_update_failure baggage_truncate : Member
  baggage_restrictions_update_success baggage_restrictions_update_failure : Member

unfoldable pub metric_of : Member → Metric
metric_of traces_started_sampled = record {
  name = codes "jaeger.traces";
  tags = (codes "state", codes "started") ∷ (codes "sampled", codes "y") ∷ [];
}
metric_of traces_started_not_sampled = record {
  name = codes "jaeger.traces";
  tags = (codes "state", codes "started") ∷ (codes "sampled", codes "n") ∷ [];
}
metric_of spans_started = record {
  name = codes "jaeger.spans";
  tags = (codes "state", codes "started") ∷ (codes "group", codes "lifecycle") ∷ [];
}
metric_of spans_finished = record {
  name = codes "jaeger.spans";
  tags = (codes "state", codes "finished") ∷ (codes "group", codes "lifecycle") ∷ [];
}
metric_of spans_sampled = record {
  name = codes "jaeger.spans";
  tags = (codes "group", codes "sampling") ∷ (codes "sampled", codes "y") ∷ [];
}
metric_of spans_not_sampled = record {
  name = codes "jaeger.spans";
  tags = (codes "group", codes "sampling") ∷ (codes "sampled", codes "n") ∷ [];
}
metric_of decoding_errors = record { name = codes "jaeger.decoding-errors"; tags = [] }
metric_of reporter_success = record {
  name = codes "jaeger.reporter-spans";
  tags = (codes "state", codes "success") ∷ [];
}
metric_of reporter_failure = record {
  name = codes "jaeger.reporter-spans";
  tags = (codes "state", codes "failure") ∷ [];
}
metric_of reporter_dropped = record {
  name = codes "jaeger.reporter-spans";
  tags = (codes "state", codes "dropped") ∷ [];
}
metric_of reporter_queue_length = record { name = codes "jaeger.reporter-queue"; tags = [] }
metric_of sampler_retrieved = record {
  name = codes "jaeger.sampler";
  tags = (codes "state", codes "retrieved") ∷ [];
}
metric_of sampler_updated = record {
  name = codes "jaeger.sampler";
  tags = (codes "state", codes "updated") ∷ [];
}
metric_of sampler_update_failure = record {
  name = codes "jaeger.sampler";
  tags = (codes "state", codes "failure") ∷ (codes "phase", codes "updating") ∷ [];
}
metric_of sampler_query_failure = record {
  name = codes "jaeger.sampler";
  tags = (codes "state", codes "failure") ∷ (codes "phase", codes "query") ∷ [];
}
metric_of sampler_parsing_failure = record {
  name = codes "jaeger.sampler";
  tags = (codes "state", codes "failure") ∷ (codes "phase", codes "parsing") ∷ [];
}
metric_of baggage_update_success = record {
  name = codes "jaeger.baggage-update";
  tags = (codes "result", codes "ok") ∷ [];
}
metric_of baggage_update_failure = record {
  name = codes "jaeger.baggage-update";
  tags = (codes "result", codes "err") ∷ [];
}
metric_of baggage_truncate = record { name = codes "jaeger.baggage-truncate"; tags = [] }
metric_of baggage_restrictions_update_success = record {
  name = codes "jaeger.baggage-restrictions-update";
  tags = (codes "result", codes "ok") ∷ [];
}
metric_of baggage_restrictions_update_failure = record {
  name = codes "jaeger.baggage-restrictions-update";
  tags = (codes "result", codes "err") ∷ [];
}
