-- ===== src/Metrics/Members/Different.antt =====
-- No two metrics share a name.
use jaeger_client_cpp.Base.{
  ◌≡◌, ◌≢◌, refl, true, false, ℤ, inl, inr, Bool-cases, bytes_eq_iff, sym, ap, ◌∙◌, Option, none,
  some, some-injective, List, [], ◌∷◌, Bytes, bytes_eq, if◌then◌else◌,
}
use jaeger_client_cpp.Metrics.Names.{
  bytes_lt, insert_ordered, order_tags, write_tags, add_tags_to_metric_name,
}
use jaeger_client_cpp.Metrics.Stats.{InMemory, value_at, add_int64, inc_counter}
use jaeger_client_cpp.Metrics.Stats.Sums.{value_at-update_map}
use jaeger_client_cpp.Metrics.Members.{
  Member, traces_started_sampled, traces_started_not_sampled, spans_started, spans_finished,
  spans_sampled, spans_not_sampled, decoding_errors, reporter_success, reporter_failure,
  reporter_dropped, reporter_queue_length, sampler_retrieved, sampler_updated,
  sampler_update_failure, sampler_query_failure, sampler_parsing_failure, baggage_update_success,
  baggage_update_failure, baggage_truncate, baggage_restrictions_update_success,
  baggage_restrictions_update_failure, metric_of,
}

-- The name that a reporter sees.
abbrev pub reported_name : Member → Bytes
reported_name made = add_tags_to_metric_name (metric_of made).name (metric_of made).tags

abbrev all_members : List Member
all_members =
    traces_started_sampled ∷ traces_started_not_sampled ∷ spans_started ∷ spans_finished
    ∷ spans_sampled ∷ spans_not_sampled ∷ decoding_errors ∷ reporter_success ∷ reporter_failure
    ∷ reporter_dropped ∷ reporter_queue_length ∷ sampler_retrieved ∷ sampler_updated
    ∷ sampler_update_failure ∷ sampler_query_failure ∷ sampler_parsing_failure
    ∷ baggage_update_success ∷ baggage_update_failure ∷ baggage_truncate
    ∷ baggage_restrictions_update_success ∷ baggage_restrictions_update_failure ∷ []

-- The first metric with a name.
search : Bytes → List Member → Option Member
search name [] = none
search name (made ∷ rest) =
    if bytes_eq (reported_name made) name then some made else search name rest

search-reported_name : (made : Member) → search (reported_name made) all_members ≡ some made
unfolding search bytes_eq metric_of add_tags_to_metric_name order_tags insert_ordered bytes_lt
    write_tags
search-reported_name traces_started_sampled = refl
search-reported_name traces_started_not_sampled = refl
search-reported_name spans_started = refl
search-reported_name spans_finished = refl
search-reported_name spans_sampled = refl
search-reported_name spans_not_sampled = refl
search-reported_name decoding_errors = refl
search-reported_name reporter_success = refl
search-reported_name reporter_failure = refl
search-reported_name reporter_dropped = refl
search-reported_name reporter_queue_length = refl
search-reported_name sampler_retrieved = refl
search-reported_name sampler_updated = refl
search-reported_name sampler_update_failure = refl
search-reported_name sampler_query_failure = refl
search-reported_name sampler_parsing_failure = refl
search-reported_name baggage_update_success = refl
search-reported_name baggage_update_failure = refl
search-reported_name baggage_truncate = refl
search-reported_name baggage_restrictions_update_success = refl
search-reported_name baggage_restrictions_update_failure = refl

-- The metrics that the constructor makes have names of their own, tags included, so that none is counted
-- under the name of another.
pub reported_name-injective :
    (made other : Member) → reported_name made ≡ reported_name other → made ≡ other
reported_name-injective made other same = some-injective made other (
    sym (search-reported_name made)
    ∙ ap (λ name. search name all_members) same
    ∙ search-reported_name other)

reported_name_refl : (made : Member) → bytes_eq (reported_name made) (reported_name made) ≡ true
reported_name_refl made = (bytes_eq_iff (reported_name made) (reported_name made)).1 refl

reported_name-differs :
    (made other : Member)
    → made ≢ other
    → bytes_eq (reported_name made) (reported_name other) ≡ false
reported_name-differs made other different =
    elim (Bool-cases (bytes_eq (reported_name made) (reported_name other))) [
      | inl e ↦ absurd (
          different (
            reported_name-injective made other
              ((bytes_eq_iff (reported_name made) (reported_name other)).0 e)))
      | inr e ↦ e
    ]

-- To add to a counter changes the value under its own name, and that of no other metric.
pub inc_counter-member :
    (made other : Member) (delta : ℤ) (s : InMemory)
    → (value_at (reported_name made) (inc_counter (metric_of made) delta s).counters
        ≡ add_int64 (value_at (reported_name made) s.counters) delta)
      × (made ≢ other
          → value_at (reported_name other) (inc_counter (metric_of made) delta s).counters
            ≡ value_at (reported_name other) s.counters)
unfolding inc_counter
inc_counter-member made other delta s = (
  value_at-update_map (reported_name made) s.counters (metric_of made) delta add_int64
      ∙ rw (reported_name_refl made) refl,
  λ different.
      value_at-update_map (reported_name other) s.counters (metric_of made) delta add_int64
      ∙ rw (reported_name-differs made other different) refl,
)
