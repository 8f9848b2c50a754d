-- ===== src/Span.antt =====
-- Span.h and Span.cpp, and `Tracer::reportSpan` of Tracer.h. Every operation holds the span's mutex,
-- so a call is one function. The tracer's shared state, its metrics and its reporter, is passed on as
-- `World`; points of time are in nanoseconds.
mod Tests
pub mod Priority
pub mod Thrift
pub mod Calls
pub mod Lifecycle
pub mod Copies
pub mod Sampling
use jaeger_client_cpp.Base.{
  ℕ, ◌+◌, ◌-◌, ◌/◌, max, Bool, true, false, not, ◌&&◌, ◌||◌, Option, none, some, List, [], ◌∷◌,
  ◌++◌, map, Bytes, codes, ◌==◌, bytes_eq, if◌then◌else◌, lookup, bit_and, bit_or,
}
use jaeger_client_cpp.SpanContext.{SpanContext, is_sampled, with_baggage}
use jaeger_client_cpp.Tag.{
  Value, Tag, LogRecord, Reference, ReferenceType, child_of, follows_from, ThriftTag,
  ThriftReference, thrift_tag, thrift_log,
}
use jaeger_client_cpp.Metrics.{Metrics}
use jaeger_client_cpp.Baggage.{RestrictionManager, Update, set_baggage, or_blank}
use jaeger_client_cpp.Span.Priority.{priority_of}

-- What a span reads of its tracer.
pub record Handle : Type 0 where
  pub service_name : Bytes
  pub get_restriction : RestrictionManager

pub record Span : Type 0 where
  pub tracer : Option Handle
  pub ctx : SpanContext
  pub operation_name : Bytes
  pub start_time_system : ℕ
  pub start_time_steady : ℕ
  pub duration : ℕ
  pub tags : List Tag
  pub logs : List LogRecord
  pub references : List Reference

pub record World : Type 0 where
  pub metrics : Metrics
  pub reported : List Span

pub record FinishOptions : Type 0 where
  pub finish_steady_timestamp : ℕ
  pub log_records : List LogRecord

unfoldable pub is_finished : Span → Bool
is_finished s = not (s.duration == 0)

-- `Tracer::reportSpan`
unfoldable pub report_span : Span → World → World
report_span s w =
    let counted = record w {
      metrics = record w.metrics { spans_finished = w.metrics.spans_finished + 1 };
    } in
    if is_sampled s.ctx then record counted { reported = w.reported ++ s ∷ [] } else counted

-- `FinishWithOptions`, at the time `now` of the steady clock. A duration that is not positive
-- becomes one tick, as does a negative one, which `-` makes zero.
unfoldable pub finish : FinishOptions → ℕ → Span → World → Span × World
unfolding is_finished report_span
finish options now s w =
    let end_time =
      if options.finish_steady_timestamp == 0 then now else options.finish_steady_timestamp in
    if is_finished s
    then (s, w)
    else let s' = record s {
      duration = max 1 (end_time - s.start_time_steady);
      logs = s.logs ++ options.log_records;
    } in
      (s', elim s.tracer [ none ↦ w | some handle ↦ report_span s' w ])

unfoldable pub set_operation_name : Bytes → Span → Span
unfolding is_finished
set_operation_name name s = if is_finished s then s else record s { operation_name = name }

-- The flags after a sampling priority: `kSampled | kDebug` set, or `kSampled` cleared.
unfoldable pub priority_flags : Bool → ℕ → ℕ
priority_flags priority flags = if priority then bit_or flags 3 else bit_and flags 254

-- `setSamplingPriority`; the context is made anew without the trace state.
unfoldable pub set_sampling_priority : Value → Span → Span
unfolding priority_flags
set_sampling_priority value s = record s {
  ctx = record s.ctx { flags = priority_flags (priority_of value) s.ctx.flags; trace_state = [] };
}

unfoldable pub set_tag : Bytes → Value → Span → Span
unfolding is_finished set_sampling_priority
set_tag key value s =
    if bytes_eq key (codes "sampling.priority")
    then set_sampling_priority value s
    else if is_finished s || not (is_sampled s.ctx)
    then s
    else record s { tags = s.tags ++ record { key = key; value = value } ∷ [] }

-- `logFieldsNoLocking`
unfoldable pub log_fields_no_locking : ℕ → List Tag → Span → Span
log_fields_no_locking timestamp fields s = record s {
  logs = s.logs ++ record { timestamp = timestamp; fields = fields } ∷ [];
}

-- What `SetBaggageItem` does with the baggage and the fields that the setter gives back.
unfoldable pub apply_update : Update → ℕ → Span → World → Span × World
unfolding log_fields_no_locking with_baggage
apply_update update now s w =
    let s' : Span = elim update.logged [
      | none ↦ s
      | some fields ↦ log_fields_no_locking now fields s
    ] in
    (record s' { ctx = with_baggage s'.ctx update.baggage }, record w { metrics = update.metrics })

-- `SetBaggageItem`, at the time `now` of the system clock. The tracer is read without a test: with
-- none the behaviour is not defined, which is the result `none`.
unfoldable pub set_baggage_item : Bytes → Bytes → ℕ → Span → World → Option (Span × World)
unfolding apply_update
set_baggage_item key value now s w = elim s.tracer [
  | none ↦ none
  | some handle ↦
      let update =
        set_baggage handle.get_restriction handle.service_name (is_sampled s.ctx) s.ctx.baggage key
          value w.metrics in
      some (apply_update update now s w)
]

unfoldable pub baggage_item : Bytes → Span → Bytes
baggage_item key s = or_blank (lookup key s.ctx.baggage)

-- `doLog`
unfoldable pub do_log : ℕ → List Tag → Span → Span
unfolding log_fields_no_locking
do_log timestamp fields s =
    if not (is_sampled s.ctx) then s else log_fields_no_locking timestamp fields s

-- The calls that change a span.
pub data Op : Type 0 where
  finish_op : FinishOptions → ℕ → Op
  name_op : Bytes → Op
  tag_op : Bytes → Value → Op
  baggage_op : Bytes → Bytes → ℕ → Op
  log_op : ℕ → List Tag → Op

unfoldable pub perform : Op → Span → World → Option (Span × World)
perform (finish_op options now) s w = some (finish options now s w)
perform (name_op name) s w = some (set_operation_name name s, w)
perform (tag_op key value) s w = some (set_tag key value s, w)
perform (baggage_op key value now) s w = set_baggage_item key value now s w
perform (log_op timestamp fields) s w = some (do_log timestamp fields s, w)

unfoldable pub run : List Op → Span → World → Option (Span × World)
unfolding perform
run [] s w = some (s, w)
run (op ∷ ops) s w = elim (perform op s w) [ none ↦ none | some (s', w') ↦ run ops s' w' ]
