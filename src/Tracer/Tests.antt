-- ===== src/Tracer/Tests.antt =====
-- Runs of the theorems on starting spans.
use jaeger_client_cpp.Base.{
  if◌then◌else◌, ℕ, suc, ◌≡◌, ◌≢◌, refl, true, false, none, some, List, [], ◌∷◌, arith, codes, Any,
  inl, inr,
}
use jaeger_client_cpp.SpanContext
use jaeger_client_cpp.SpanContext.{SpanContext, empty, is_sampled, is_debug_id_container_only}
use jaeger_client_cpp.SpanContext.Samples.{sampled_ctx}
use jaeger_client_cpp.Tag.{child_of, follows_from}
use jaeger_client_cpp.Metrics.{null_metrics}
use jaeger_client_cpp.Span.{Span}
use jaeger_client_cpp.Tracer.{
  Sampler, Tracer, OpenTracingRef, analyze_references, add_reference, is_useful, random_id,
}
use jaeger_client_cpp.Tracer.Start.{StartOptions, start_span}
use jaeger_client_cpp.Tracer.Started.{start_span-child, start_span-root}

-- A sampler that counts how often it is asked, and samples.
abbrev always : Sampler ℕ
always n trace_id name = (record { is_sampled = true; tags = [] }, suc n)

abbrev same_time : ℕ → ℕ
same_time n = n

abbrev shop_tracer : Tracer ℕ
shop_tracer = record {
  service_name = codes "shop";
  gen_128_bit = false;
  sampler = 0;
  draws = 0 ∷ 42 ∷ 43 ∷ [];
  metrics = null_metrics;
}

abbrev one_parent : List OpenTracingRef
one_parent = (follows_from, none) ∷ (follows_from, some empty) ∷ (child_of, some sampled_ctx) ∷ []

abbrev child_options : StartOptions
child_options = record {
  references = one_parent;
  start_system_timestamp = 0;
  start_steady_timestamp = 0;
  tags = [];
}

parent_found : (analyze_references one_parent).parent ≡ some sampled_ctx
unfolding analyze_references is_useful SpanContext.is_valid add_reference is_debug_id_container_only
parent_found = refl

no_self : (analyze_references one_parent).self ≡ none
unfolding analyze_references is_useful SpanContext.is_valid add_reference is_debug_id_container_only
no_self = refl

parent_valid : SpanContext.is_valid sampled_ctx ≡ true
unfolding SpanContext.is_valid
parent_valid = refl

drawn : random_id (0 ∷ 42 ∷ 43 ∷ []) ≡ some (42, 43 ∷ [])
unfolding random_id
drawn = refl

start_span-child_example :
    (r : Span × Tracer ℕ) × (start_span always same_time same_time
        (codes "get")
        child_options
        1
        2
        shop_tracer
      ≡ some (some r.0, r.1))
    × (r.0.ctx ≡ record {
      trace_id = sampled_ctx.trace_id;
      span_id = 42;
      parent_id = 17;
      flags = 1;
      baggage = sampled_ctx.baggage;
      debug_id = [];
      trace_state = [];
    })
    × (r.1.metrics ≡ record null_metrics {
      spans_started = 1;
      spans_sampled = if is_sampled sampled_ctx then 1 else 0;
      spans_not_sampled = if is_sampled sampled_ctx then 0 else 1;
    })
    × (r.1.sampler ≡ 0)
    × (r.1.draws ≡ 43 ∷ [])
start_span-child_example =
    start_span-child always same_time same_time (codes "get") child_options 1 2 shop_tracer
      sampled_ctx parent_found no_self parent_valid 42 (43 ∷ []) drawn

abbrev root_options : StartOptions
root_options = record {
  references = [];
  start_system_timestamp = 0;
  start_steady_timestamp = 0;
  tags = [];
}

nothing_found : (analyze_references []).parent ≡ none
unfolding analyze_references
nothing_found = refl

nothing_of_self : (analyze_references []).self ≡ none
unfolding analyze_references
nothing_of_self = refl

start_span-root_example :
    (r : Span × Tracer ℕ) × (start_span always same_time same_time
        (codes "get")
        root_options
        1
        2
        shop_tracer
      ≡ some (some r.0, r.1))
    × (r.0.ctx ≡ record empty { trace_id = record { high = 0; low = 42 }; span_id = 42; flags = 1 })
    × (r.1.metrics
        ≡ record null_metrics { spans_started = 1; spans_sampled = 1; traces_started_sampled = 1 })
    × (r.1.sampler ≡ 1)
    × (r.1.draws ≡ 43 ∷ [])
start_span-root_example =
    start_span-root always same_time same_time (codes "get") root_options 1 2 shop_tracer
      nothing_found nothing_of_self refl 42 (43 ∷ []) drawn

some_nonzero : Any (λ (d : ℕ). d ≢ 0) (0 ∷ 42 ∷ [])
some_nonzero = inr (inl (λ e. omega arith))
