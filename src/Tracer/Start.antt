-- ===== src/Tracer/Start.antt =====
-- `Tracer::StartSpanWithOptions` and `startSpanInternal` of Tracer.cpp.
use jaeger_client_cpp.Base.{
  ℕ, ◌+◌, Bool, true, false, not, ◌&&◌, ◌||◌, Option, none, some, List, [], ◌∷◌, ◌++◌, map, Bytes,
  codes, ◌==◌, if◌then◌else◌, is_empty, pos,
}
use jaeger_client_cpp.TraceId.{TraceId}
use jaeger_client_cpp.SpanContext
use jaeger_client_cpp.SpanContext.{
  SpanContext, empty, is_sampled, is_debug_id_container_only, with_baggage,
}
use jaeger_client_cpp.Tag.{Value, text, Tag, Reference}
use jaeger_client_cpp.Metrics.{Metrics}
use jaeger_client_cpp.Baggage.{default_manager}
use jaeger_client_cpp.Span.{Span}
use jaeger_client_cpp.Tracer.{Sampler, Tracer, OpenTracingRef, analyze_references, random_id}

-- The context of a new span, whether it starts a trace, the tags of the sampler, and the tracer.
pub record Made (S : Type 0) : Type 0 where
  pub ctx : SpanContext
  pub new_trace : Bool
  pub sampler_tags : List Tag
  pub tracer : Tracer S

-- The trace ID and the span ID of a root span, and the numbers that are left.
unfoldable pub root_ids : Bool → Option SpanContext → List ℕ → Option ((TraceId × ℕ) × List ℕ)
root_ids gen_128_bit (some self) draws = some ((self.trace_id, self.span_id), draws)
root_ids false none draws = elim (random_id draws) [
  | none ↦ none
  | some (low, rest) ↦ some ((record { high = 0; low = low }, low), rest)
]
root_ids true none draws = elim (random_id draws) [
  | none ↦ none
  | some (high, rest) ↦ elim (random_id rest) [
    | none ↦ none
    | some (low, rest') ↦ some ((record { high = high; low = low }, low), rest')
  ]
]

-- The debug ID of a parent that holds nothing else.
unfoldable pub debug_parent : Option SpanContext → Option Bytes
debug_parent none = none
debug_parent (some ctx) = if is_debug_id_container_only ctx then some ctx.debug_id else none

-- The parent's baggage, if there is some.
unfoldable pub inherit_baggage : Option SpanContext → SpanContext → SpanContext
unfolding with_baggage
inherit_baggage none ctx = ctx
inherit_baggage (some parent) ctx =
    if is_empty parent.baggage then ctx else with_baggage ctx parent.baggage

pub record StartOptions : Type 0 where
  pub references : List OpenTracingRef
  pub start_system_timestamp : ℕ
  pub start_steady_timestamp : ℕ
  pub tags : List (Bytes × Value)

-- The counters of `startSpanInternal`.
unfoldable pub count_started : Bool → Bool → Metrics → Metrics
count_started sampled new_trace m =
    let started = record m { spans_started = m.spans_started + 1 } in
    if sampled
    then record started {
      spans_sampled = m.spans_sampled + 1;
      traces_started_sampled =
          if new_trace then m.traces_started_sampled + 1 else m.traces_started_sampled;
    }
    else record started {
      spans_not_sampled = m.spans_not_sampled + 1;
      traces_started_not_sampled =
          if new_trace then m.traces_started_not_sampled + 1 else m.traces_started_not_sampled;
    }

unfoldable pub start_span_internal :
    {S : Type 0}
    → SpanContext
    → Bytes
    → ℕ × ℕ
    → List (Bytes × Value)
    → List Reference
    → Made S
    → Span × Tracer S
unfolding count_started
start_span_internal ctx name times tags references made =
    let t = made.tracer in
    (
      record {
        tracer =
            some
              (record { service_name = t.service_name; get_restriction = default_manager (pos 0) });
        ctx = ctx;
        operation_name = name;
        start_time_system = times.0;
        start_time_steady = times.1;
        duration = 0;
        tags =
            map (λ (tag : Bytes × Value). record { key = tag.0; value = tag.1 }) tags
            ++ made.sampler_tags;
        logs = [];
        references = references;
      },
      record t { metrics = count_started (is_sampled ctx) made.new_trace t.metrics },
    )

abbrev pub is_some {ℓ} : {A : Type ℓ} → Option A → Bool
is_some none = false
is_some (some x) = true

module _ {S : Type 0} (decide : Sampler S) where
  -- The flags and tags of a root span.
  unfoldable pub root_decision :
      Option SpanContext → TraceId → Bytes → Tracer S → (ℕ × List Tag) × Tracer S
  unfolding debug_parent
  root_decision parent trace_id name t = elim (debug_parent parent) [
    | some debug_id ↦ ((3, record { key = codes "jaeger-debug-id"; value = text debug_id } ∷ []), t)
    | none ↦
        let (status, sampler) = decide t.sampler trace_id name in
        (if status.is_sampled then (1, status.tags) else (0, []), record t { sampler = sampler })
  ]

  unfoldable pub make_root :
      Option SpanContext → Option SpanContext → Bytes → Tracer S → Option (Made S)
  unfolding root_ids root_decision
  make_root parent self name t = elim (root_ids t.gen_128_bit self t.draws) [
    | none ↦ none
    | some (ids, draws) ↦
        let (decision, t') = root_decision parent ids.0 name (record t { draws = draws }) in
        some (record {
          ctx = record empty { trace_id = ids.0; span_id = ids.1; flags = decision.0 };
          new_trace = true;
          sampler_tags = decision.1;
          tracer = t';
        })
  ]

  -- A child gets the parent's trace ID and flags, and neither its debug ID nor its trace state.
  unfoldable pub make_child : SpanContext → Tracer S → Option (Made S)
  make_child parent t = elim (random_id t.draws) [
    | none ↦ none
    | some (span_id, draws) ↦ some (record {
      ctx = record empty {
        trace_id = parent.trace_id;
        span_id = span_id;
        parent_id = parent.span_id;
        flags = parent.flags;
      };
      new_trace = false;
      sampler_tags = [];
      tracer = record t { draws = draws };
    })
  ]

  unfoldable pub make_context :
      Option SpanContext → Option SpanContext → Bytes → Tracer S → Option (Made S)
  unfolding make_root make_child
  make_context none self name t = make_root none self name t
  make_context (some parent) self name t =
      if SpanContext.is_valid parent
      then make_child parent t
      else make_root (some parent) self name t

module _ (to_system to_steady : ℕ → ℕ) where
  -- `determineStartTimes`, where zero is a time that was not given.
  unfoldable pub determine_start_times : ℕ → ℕ → StartOptions → ℕ × ℕ
  determine_start_times now_system now_steady options =
      let no_system = options.start_system_timestamp == 0 in
      let no_steady = options.start_steady_timestamp == 0 in
      if no_system && no_steady
      then (now_system, now_steady)
      else if no_system
      then (to_system options.start_steady_timestamp, options.start_steady_timestamp)
      else if no_steady
      then (options.start_system_timestamp, to_steady options.start_system_timestamp)
      else (options.start_system_timestamp, options.start_steady_timestamp)

module _ {S : Type 0} (decide : Sampler S) (to_system to_steady : ℕ → ℕ) where
  -- `StartSpanWithOptions`: no result if the random numbers run out, and a null span where the code
  -- throws and catches, which is when a reference to itself is not the only one.
  unfoldable pub start_span :
      Bytes → StartOptions → ℕ → ℕ → Tracer S → Option (Option Span × Tracer S)
  unfolding make_context inherit_baggage determine_start_times start_span_internal
  start_span name options now_system now_steady t =
      let result = analyze_references options.references in
      if is_some result.self && (is_some result.parent || not (is_empty result.references))
      then some (none, t)
      else elim (make_context decide result.parent result.self name t) [
        | none ↦ none
        | some made ↦
            let (span, t') =
              start_span_internal (inherit_baggage result.parent made.ctx) name
                (determine_start_times to_system to_steady now_system now_steady options)
                options.tags result.references made in
            some (some span, t')
      ]
