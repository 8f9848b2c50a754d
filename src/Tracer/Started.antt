-- ===== src/Tracer/Started.antt =====
-- The spans that `StartSpanWithOptions` starts.
use jaeger_client_cpp.Base.{
  ℕ, ◌+◌, ◌≡◌, ◌≢◌, refl, ap, ◌∙◌, Bool, true, false, Option, none, some, List, [], ◌∷◌, arith,
  Bytes, ◌==◌, if◌then◌else◌, is_empty, Any, Bool-cases, inl, inr,
}
use jaeger_client_cpp.TraceId.{TraceId}
use jaeger_client_cpp.SpanContext
use jaeger_client_cpp.SpanContext.{SpanContext, StrMap, empty, is_sampled, with_baggage}
use jaeger_client_cpp.Tag.{Tag}
use jaeger_client_cpp.Metrics.{Metrics}
use jaeger_client_cpp.Span.{Span}
use jaeger_client_cpp.Tracer.{Sampler, Tracer, analyze_references, random_id}
use jaeger_client_cpp.Tracer.Start.{
  Made, root_ids, debug_parent, root_decision, make_root, make_child, make_context, inherit_baggage,
  StartOptions, determine_start_times, count_started, start_span_internal, start_span,
}

-- A random ID is not zero, and one is found if some number still to come is not zero.
pub random_id-ne-zero :
    (draws : List ℕ)
    → Any (λ d. d ≢ 0) draws
    → (r : ℕ × List ℕ) × (random_id draws ≡ some r) × (r.0 ≢ 0)
unfolding random_id
random_id-ne-zero [] h = absurd h
random_id-ne-zero (d ∷ draws) (inl k) = ((d, draws), ground arith, k)
random_id-ne-zero (d ∷ draws) (inr h) = elim (Bool-cases (d == 0)) [
  | inl e ↦ rw (e, random_id) (random_id-ne-zero draws h)
  | inr e ↦ rw (e, random_id) ((d, draws), refl, λ z. ground arith)
]

inherit-baggage :
    (parent ctx : SpanContext)
    → ctx.baggage ≡ []
    → inherit_baggage (some parent) ctx ≡ record ctx { baggage = parent.baggage }
unfolding inherit_baggage with_baggage
inherit-baggage parent ctx e = pick parent.baggage
  where
    pick :
        (baggage : StrMap)
        → (if is_empty baggage then ctx else record ctx { baggage = baggage })
          ≡ record ctx { baggage = baggage }
    pick [] = ap (λ b. record ctx { baggage = b }) e
    pick (x ∷ baggage) = refl

abbrev root_made : {S : Type 0} → TraceId → ℕ → List Tag → Tracer S → Made S
root_made trace_id flags tags t = record {
  ctx = record empty { trace_id = trace_id; span_id = trace_id.low; flags = flags };
  new_trace = true;
  sampler_tags = tags;
  tracer = t;
}

count_child :
    (sampled : Bool) (m : Metrics)
    → count_started sampled false m ≡ record m {
      spans_started = m.spans_started + 1;
      spans_sampled = if sampled then m.spans_sampled + 1 else m.spans_sampled;
      spans_not_sampled = if sampled then m.spans_not_sampled else m.spans_not_sampled + 1;
    }
unfolding count_started
count_child true m = refl
count_child false m = refl

count_root :
    (sampled : Bool) (m : Metrics)
    → count_started sampled true m ≡ record m {
      spans_started = m.spans_started + 1;
      spans_sampled = if sampled then m.spans_sampled + 1 else m.spans_sampled;
      spans_not_sampled = if sampled then m.spans_not_sampled else m.spans_not_sampled + 1;
      traces_started_sampled =
          if sampled then m.traces_started_sampled + 1 else m.traces_started_sampled;
      traces_started_not_sampled =
          if sampled then m.traces_started_not_sampled else m.traces_started_not_sampled + 1;
    }
unfolding count_started
count_root true m = refl
count_root false m = refl

module _ {S : Type 0} (decide : Sampler S) (to_system to_steady : ℕ → ℕ) where
  start_span-made :
      (name : Bytes) (options : StartOptions) (now_system now_steady : ℕ) (t : Tracer S)
      (parent : Option SpanContext) (made : Made S)
      → (analyze_references options.references).parent ≡ parent
      → (analyze_references options.references).self ≡ none
      → make_context decide parent none name t ≡ some made
      → (r : Span × Tracer S) × (start_span decide to_system to_steady name options now_system
            now_steady t
          ≡ some (some r.0, r.1))
        × (r.0.ctx ≡ inherit_baggage parent made.ctx)
        × (r.1.metrics
            ≡ count_started
                (is_sampled (inherit_baggage parent made.ctx))
                made.new_trace
                made.tracer.metrics)
        × (r.1.sampler ≡ made.tracer.sampler)
        × (r.1.draws ≡ made.tracer.draws)
  unfolding start_span start_span_internal
  start_span-made name options now_system now_steady t parent made p s m =
      let found = analyze_references options.references in
      (
        start_span_internal (inherit_baggage parent made.ctx) name
            (determine_start_times to_system to_steady now_system now_steady options) options.tags
            found.references made,
        rw (p, s, m, start_span, p) refl,
        refl,
        refl,
        refl,
        refl,
      )

  -- If the references give a valid parent and no reference to the span itself, the new span
  -- belongs to the trace of the parent: it has the trace ID, the flags and the baggage of the
  -- parent, its span ID as the parent ID, and the next random ID as its own. The sampler is not
  -- asked. The metrics count one span as started and, by the flags of the parent, as sampled or not
  -- sampled; they count no trace, and nothing else changes in them.
  pub start_span-child :
      (name : Bytes) (options : StartOptions) (now_system now_steady : ℕ) (t : Tracer S)
      (parent : SpanContext)
      → (analyze_references options.references).parent ≡ some parent
      → (analyze_references options.references).self ≡ none
      → SpanContext.is_valid parent ≡ true
      → (id : ℕ) (draws : List ℕ) → random_id t.draws ≡ some (id, draws)
      → (r : Span × Tracer S) × (start_span decide to_system to_steady name options now_system
            now_steady t
          ≡ some (some r.0, r.1))
        × (r.0.ctx ≡ record {
          trace_id = parent.trace_id;
          span_id = id;
          parent_id = parent.span_id;
          flags = parent.flags;
          baggage = parent.baggage;
          debug_id = [];
          trace_state = [];
        })
        × (r.1.metrics ≡ record t.metrics {
          spans_started = t.metrics.spans_started + 1;
          spans_sampled =
              if is_sampled parent then t.metrics.spans_sampled + 1 else t.metrics.spans_sampled;
          spans_not_sampled =
              if is_sampled parent
              then t.metrics.spans_not_sampled
              else t.metrics.spans_not_sampled + 1;
        })
        × (r.1.sampler ≡ t.sampler)
        × (r.1.draws ≡ draws)
  unfolding make_context make_child is_sampled
  start_span-child name options now_system now_steady t parent p s v id draws e =
      let ctx : SpanContext = record empty {
        trace_id = parent.trace_id;
        span_id = id;
        parent_id = parent.span_id;
        flags = parent.flags;
      } in
      let made : Made S = record {
        ctx = ctx;
        new_trace = false;
        sampler_tags = [];
        tracer = record t { draws = draws };
      } in
      let child : make_context decide (some parent) none name t ≡ some made =
        rw (v, e, make_context, make_child) refl in
      let (r, started, c, m, k, d) =
        start_span-made name options now_system now_steady t (some parent) made p s child in
      let inherited = inherit-baggage parent ctx refl in
      (
        r,
        started,
        c ∙ inherited,
        m
            ∙ ap (λ (x : SpanContext). count_started (is_sampled x) false t.metrics) inherited
            ∙ count_child (is_sampled parent) t.metrics,
        k,
        d,
      )

  -- If the references give neither a parent nor a reference to the span itself, and trace IDs have
  -- 64 bits, the new span is the root of a new trace: its span ID is its trace ID, the next random
  -- ID, and it has no parent. The sampler is asked once and decides the flags. The metrics count one
  -- span as started, and by the decision one span as sampled or not sampled and one trace as started
  -- sampled or not sampled; nothing else changes in them.
  pub start_span-root :
      (name : Bytes) (options : StartOptions) (now_system now_steady : ℕ) (t : Tracer S)
      → (analyze_references options.references).parent ≡ none
      → (analyze_references options.references).self ≡ none
      → t.gen_128_bit ≡ false
      → (id : ℕ) (draws : List ℕ) → random_id t.draws ≡ some (id, draws)
      → let trace_id : TraceId = record { high = 0; low = id } in
        let asked = decide t.sampler trace_id name in
        (r : Span × Tracer S) × (start_span decide to_system to_steady name options now_system
            now_steady t
          ≡ some (some r.0, r.1))
        × (r.0.ctx ≡ record empty {
          trace_id = trace_id;
          span_id = id;
          flags = if asked.0.is_sampled then 1 else 0;
        })
        × (r.1.metrics ≡ record t.metrics {
          spans_started = t.metrics.spans_started + 1;
          spans_sampled =
              if asked.0.is_sampled then t.metrics.spans_sampled + 1 else t.metrics.spans_sampled;
          spans_not_sampled =
              if asked.0.is_sampled
              then t.metrics.spans_not_sampled
              else t.metrics.spans_not_sampled + 1;
          traces_started_sampled =
              if asked.0.is_sampled
              then t.metrics.traces_started_sampled + 1
              else t.metrics.traces_started_sampled;
          traces_started_not_sampled =
              if asked.0.is_sampled
              then t.metrics.traces_started_not_sampled
              else t.metrics.traces_started_not_sampled + 1;
        })
        × (r.1.sampler ≡ asked.1)
        × (r.1.draws ≡ draws)
  unfolding make_context make_root root_ids root_decision debug_parent inherit_baggage is_sampled
  start_span-root name options now_system now_steady t p s g id draws e =
      let trace_id : TraceId = record { high = 0; low = id } in
      let asked = decide t.sampler trace_id name in
      elim (Bool-cases asked.0.is_sampled) [
        | inl y ↦
            let made : Made S =
              root_made trace_id 1 asked.0.tags (record t { sampler = asked.1; draws = draws }) in
            let root : make_context decide none none name t ≡ some made =
              rw (g, e, make_context, make_root, root_ids, root_decision, y, g) refl in
            let (r, started, c, m, k, d) =
              start_span-made name options now_system now_steady t none made p s root in
            rw y (r, started, c, m ∙ count_root true t.metrics, k, d)
        | inr y ↦
            let made : Made S =
              root_made trace_id 0 [] (record t { sampler = asked.1; draws = draws }) in
            let root : make_context decide none none name t ≡ some made =
              rw (g, e, make_context, make_root, root_ids, root_decision, y, g) refl in
            let (r, started, c, m, k, d) =
              start_span-made name options now_system now_steady t none made p s root in
            rw y (r, started, c, m ∙ count_root false t.metrics, k, d)
      ]
