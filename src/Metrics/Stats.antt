-- ===== src/Metrics/Stats.antt =====
-- metrics/InMemoryStatsReporter.h and .cpp, with the calls that the counters, gauges and timers of
-- metrics/StatsFactoryImpl.cpp make. The sum of two `int64_t`s wraps around.
pub mod Sums
use jaeger_client_cpp.Base.{
  ℕ, ◌+◌, Option, none, some, List, [], ◌∷◌, Bytes, lookup, insert, ℤ, pos, to_signed, to_unsigned,
}
use jaeger_client_cpp.Metrics.Names.{TagMap, add_tags_to_metric_name}

abbrev pub ValueMap : Type 0
ValueMap = List (Bytes × ℤ)

pub record InMemory : Type 0 where
  pub counters : ValueMap
  pub gauges : ValueMap
  pub timers : ValueMap

abbrev pub new_in_memory : InMemory
new_in_memory = record { counters = []; gauges = []; timers = [] }

-- What `map[name]` gives, which is 0 for a new name.
unfoldable pub value_at : Bytes → ValueMap → ℤ
value_at name m = elim (lookup name m) [ none ↦ pos 0 | some value ↦ value ]

unfoldable pub add_int64 : ℤ → ℤ → ℤ
add_int64 a b = to_signed 64 (to_unsigned 64 a + to_unsigned 64 b)

unfoldable pub update_map : ValueMap → Bytes → ℤ → TagMap → (ℤ → ℤ → ℤ) → ValueMap
unfolding add_tags_to_metric_name value_at
update_map m name new_value tags f =
    let metric_name = add_tags_to_metric_name name tags in
    insert metric_name (f (value_at metric_name m) new_value) m

-- A metric of `StatsFactoryImpl`, and a call of the reporter.
pub record Metric : Type 0 where
  pub name : Bytes
  pub tags : TagMap

unfoldable pub inc_counter : Metric → ℤ → InMemory → InMemory
unfolding update_map add_int64
inc_counter metric delta s = record s {
  counters = update_map s.counters metric.name delta metric.tags add_int64;
}

unfoldable pub record_timer : Metric → ℤ → InMemory → InMemory
unfolding update_map add_int64
record_timer metric time s = record s {
  timers = update_map s.timers metric.name time metric.tags add_int64;
}

unfoldable pub update_gauge : Metric → ℤ → InMemory → InMemory
unfolding update_map
update_gauge metric amount s = record s {
  gauges =
      update_map s.gauges metric.name amount metric.tags (λ initial_value new_value. new_value);
}

unfoldable pub reset_stats : InMemory → InMemory
reset_stats s = record { counters = []; gauges = []; timers = [] }

-- `Counter::inc`, `Timer::record`, `Gauge::update` and `reset`.
pub data StatsCall : Type 0 where
  inc : Metric → ℤ → StatsCall
  record_time : Metric → ℤ → StatsCall
  update : Metric → ℤ → StatsCall
  reset_all : StatsCall

unfoldable pub run_call : StatsCall → InMemory → InMemory
unfolding inc_counter record_timer update_gauge reset_stats
run_call (inc metric delta) s = inc_counter metric delta s
run_call (record_time metric time) s = record_timer metric time s
run_call (update metric amount) s = update_gauge metric amount s
run_call reset_all s = reset_stats s

unfoldable pub run_calls : List StatsCall → InMemory → InMemory
unfolding run_call
run_calls [] s = s
run_calls (call ∷ calls) s = run_calls calls (run_call call s)
