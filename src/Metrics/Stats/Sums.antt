-- ===== src/Metrics/Stats/Sums.antt =====
-- What the reporter in memory has counted.
use jaeger_client_cpp.Base.{
  ℕ, ◌+◌, ◌%◌, ◌^◌, ◌≡◌, refl, sym, ap, ◌∙◌, List, [], ◌∷◌, Bytes, bytes_eq, bytes_eq_iff,
  if◌then◌else◌, lookup, lookup-insert, ℤ, pos, to_signed, to_unsigned, arith, Bool-cases, inl, inr,
}
use jaeger_client_cpp.Metrics.Names.{add_tags_to_metric_name}
use jaeger_client_cpp.Metrics.Stats.{
  ValueMap, InMemory, new_in_memory, value_at, add_int64, update_map, Metric, inc_counter,
  record_timer, update_gauge, reset_stats, StatsCall, inc, record_time, update, reset_all, run_call,
  run_calls,
}

abbrev pub name_of : Metric → Bytes
name_of metric = add_tags_to_metric_name metric.name metric.tags

-- The calls since the last reset, the latest one first.
pub remember : StatsCall → List StatsCall → List StatsCall
remember (inc metric delta) seen = inc metric delta ∷ seen
remember (record_time metric time) seen = record_time metric time ∷ seen
remember (update metric amount) seen = update metric amount ∷ seen
remember reset_all seen = []

pub since_reset : List StatsCall → List StatsCall → List StatsCall
since_reset [] seen = seen
since_reset (call ∷ calls) seen = since_reset calls (remember call seen)

-- The sum of what was added to a counter, as a sum of words.
pub counted : Bytes → List StatsCall → ℕ
counted name [] = 0
counted name (inc metric delta ∷ calls) =
    (if bytes_eq (name_of metric) name then to_unsigned 64 delta else 0) + counted name calls
counted name (record_time metric time ∷ calls) = counted name calls
counted name (update metric amount ∷ calls) = counted name calls
counted name (reset_all ∷ calls) = counted name calls

-- The sum of the times of a timer.
pub timed : Bytes → List StatsCall → ℕ
timed name [] = 0
timed name (inc metric delta ∷ calls) = timed name calls
timed name (record_time metric time ∷ calls) =
    (if bytes_eq (name_of metric) name then to_unsigned 64 time else 0) + timed name calls
timed name (update metric amount ∷ calls) = timed name calls
timed name (reset_all ∷ calls) = timed name calls

-- The latest amount of a gauge.
pub shown : Bytes → List StatsCall → ℤ
shown name [] = pos 0
shown name (inc metric delta ∷ calls) = shown name calls
shown name (record_time metric time ∷ calls) = shown name calls
shown name (update metric amount ∷ calls) =
    if bytes_eq (name_of metric) name then amount else shown name calls
shown name (reset_all ∷ calls) = shown name calls

pub value_at-update_map :
    (name : Bytes) (m : ValueMap) (metric : Metric) (new : ℤ) (f : ℤ → ℤ → ℤ)
    → value_at name (update_map m metric.name new metric.tags f) ≡ (
        if bytes_eq (name_of metric) name
        then f (value_at (name_of metric) m) new
        else value_at name m)
unfolding value_at update_map
value_at-update_map name m metric new f =
    ground (arith, lookup-insert (name_of metric) name (f (value_at (name_of metric) m) new) m)

to_unsigned-to_signed : (n : ℕ) → to_unsigned 64 (to_signed 64 n) ≡ n % 2 ^ 64
unfolding to_unsigned to_signed
to_unsigned-to_signed n = ground arith

add_int64-sum :
    (sum : ℕ) (new : ℤ) → add_int64 (to_signed 64 sum) new ≡ to_signed 64 (to_unsigned 64 new + sum)
unfolding add_int64
add_int64-sum sum new =
    ap (λ n. to_signed 64 (n + to_unsigned 64 new)) (to_unsigned-to_signed sum)
    ∙ (unfold to_signed in ground arith)

-- The reporter agrees with the calls since the last reset.
Agrees : InMemory → List StatsCall → Type 0
Agrees s seen =
    (name : Bytes)
    → (value_at name s.counters ≡ to_signed 64 (counted name seen))
      × (value_at name s.timers ≡ to_signed 64 (timed name seen))
      × (value_at name s.gauges ≡ shown name seen)

value_at-sum :
    (name : Bytes) (m : ValueMap) (metric : Metric) (new : ℤ) (sum : Bytes → ℕ)
    → ((other : Bytes) → value_at other m ≡ to_signed 64 (sum other))
    → value_at name (update_map m metric.name new metric.tags add_int64)
      ≡ to_signed 64 ((if bytes_eq (name_of metric) name then to_unsigned 64 new else 0) + sum name)
value_at-sum name m metric new sum h =
    let updated = value_at-update_map name m metric new add_int64 in
    elim (Bool-cases (bytes_eq (name_of metric) name)) [
      | inl e ↦
          let same = (bytes_eq_iff (name_of metric) name).0 e in
          updated ∙ rw (e, same, h name) (add_int64-sum (sum name) new)
      | inr e ↦
          let none_added : 0 + sum name ≡ sum name = omega arith in
          updated ∙ rw e (h name ∙ ap (to_signed 64) (sym none_added))
    ]

run_call-Agrees :
    (call : StatsCall) (s : InMemory) (seen : List StatsCall)
    → Agrees s seen
    → Agrees (run_call call s) (remember call seen)
unfolding Agrees run_call inc_counter record_timer update_gauge reset_stats remember counted timed
    shown
run_call-Agrees (inc metric delta) s seen h name = (
  value_at-sum name s.counters metric delta (λ n. counted n seen) (λ n. (h n).0),
  (h name).1,
  (h name).2,
)
run_call-Agrees (record_time metric time) s seen h name = (
  (h name).0,
  value_at-sum name s.timers metric time (λ n. timed n seen) (λ n. (h n).1),
  (h name).2,
)
run_call-Agrees (update metric amount) s seen h name = (
  (h name).0,
  (h name).1,
  value_at-update_map name s.gauges metric amount (λ initial_value new_value. new_value)
      ∙ ap (λ v. if bytes_eq (name_of metric) name then amount else v) (h name).2,
)
run_call-Agrees reset_all s seen h name = unfold value_at lookup to_signed in (refl, refl, refl)

run_calls-Agrees :
    (calls : List StatsCall) (s : InMemory) (seen : List StatsCall)
    → Agrees s seen
    → Agrees (run_calls calls s) (since_reset calls seen)
unfolding run_calls since_reset
run_calls-Agrees [] s seen h = h
run_calls-Agrees (call ∷ calls) s seen h =
    run_calls-Agrees calls (run_call call s) (remember call seen) (run_call-Agrees call s seen h)

-- After any sequence of calls on a new reporter, each counter and each timer is the sum, as a 64-bit
-- number, of what was added under its name with its tags since the last reset, and each gauge is the
-- latest of its amounts; a name that was not used has 0.
pub run_calls-sums :
    (calls : List StatsCall) (name : Bytes)
    → let s = run_calls calls new_in_memory in
      let seen = since_reset calls [] in
      (value_at name s.counters ≡ to_signed 64 (counted name seen))
      × (value_at name s.timers ≡ to_signed 64 (timed name seen))
      × (value_at name s.gauges ≡ shown name seen)
unfolding Agrees counted timed shown
run_calls-sums calls name =
    run_calls-Agrees calls new_in_memory []
      (λ n. unfold value_at lookup to_signed in (refl, refl, refl)) name
