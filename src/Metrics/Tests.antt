-- ===== src/Metrics/Tests.antt =====
-- Runs of the theorems on metrics.
use jaeger_client_cpp.Base.{
  ◌≡◌, refl, [], ◌∷◌, List, Bytes, bytes_eq_iff, codes, lookup, pos, negsuc, to_signed, arith,
}
use jaeger_client_cpp.Metrics.Names.{
  TagMap, bytes_lt, insert_ordered, order_tags, write_tags, add_tags_to_metric_name,
}
use jaeger_client_cpp.Metrics.Names.Order.{add_tags-same_map}
use jaeger_client_cpp.Metrics.Stats.{
  Metric, StatsCall, inc, record_time, update, reset_all, new_in_memory, value_at, run_calls,
}
use jaeger_client_cpp.Metrics.Stats.Sums.{since_reset, counted, timed, shown, run_calls-sums}

abbrev lifecycle : TagMap
lifecycle = (codes "state", codes "started") ∷ (codes "group", codes "lifecycle") ∷ []

abbrev other_way : TagMap
other_way = (codes "group", codes "lifecycle") ∷ (codes "state", codes "started") ∷ []

lookup-other_way : (key : Bytes) → lookup key lifecycle ≡ lookup key other_way
unfolding lookup
lookup-other_way key =
    ground (arith, bytes_eq_iff (codes "state") key, bytes_eq_iff (codes "group") key)

add_tags-same_map_example :
    add_tags_to_metric_name (codes "jaeger.spans") lifecycle
    ≡ add_tags_to_metric_name (codes "jaeger.spans") other_way
add_tags-same_map_example =
    add_tags-same_map (codes "jaeger.spans") lifecycle other_way lookup-other_way

ordered_name :
    add_tags_to_metric_name (codes "jaeger.spans") lifecycle
    ≡ codes "jaeger.spans.group=lifecycle.state=started"
unfolding add_tags_to_metric_name order_tags insert_ordered bytes_lt write_tags
ordered_name = refl

abbrev spans : Metric
spans = record { name = codes "spans"; tags = lifecycle }

abbrev stats_calls : List StatsCall
stats_calls =
    inc spans (pos 7)
    ∷ reset_all
    ∷ inc spans (pos 3)
    ∷ update spans (pos 9)
    ∷ inc spans (negsuc 0)
    ∷ record_time spans (pos 4)
    ∷ []

abbrev spans_name : Bytes
spans_name = codes "spans.group=lifecycle.state=started"

run_calls-sums_example :
    let s = run_calls stats_calls new_in_memory in
    let seen = since_reset stats_calls [] in
    (value_at spans_name s.counters ≡ to_signed 64 (counted spans_name seen))
    × (value_at spans_name s.timers ≡ to_signed 64 (timed spans_name seen))
    × (value_at spans_name s.gauges ≡ shown spans_name seen)
run_calls-sums_example = run_calls-sums stats_calls spans_name
