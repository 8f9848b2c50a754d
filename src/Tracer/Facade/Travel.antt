-- ===== src/Tracer/Facade/Travel.antt =====
-- A context that travels from one tracer to another, and when a tracer is made.
use jaeger_client_cpp.Base.{
  ℕ, ◌≡◌, refl, ap, ◌∙◌, Bool, true, false, not, ◌&&◌, Option, some, [], Bytes, is_empty,
  HasUniqueKeys, Bool-cases, inl, inr,
}
use jaeger_client_cpp.TraceId
use jaeger_client_cpp.SpanContext.{SpanContext, IsBounded}
use jaeger_client_cpp.SpanContext.Equality.{context_ne_empty}
use jaeger_client_cpp.Propagation.Carrier.{text_map}
use jaeger_client_cpp.Propagation.Jaeger.Formats.{default_headers, jaeger_text_map_round_trip}
use jaeger_client_cpp.Propagation.W3c.Formats.{w3c_text_map_round_trip}
use jaeger_client_cpp.Samplers.{Arithmetic}
use jaeger_client_cpp.Config.{Config, Format, jaeger, w3c}
use jaeger_client_cpp.Config.Reporter.{ReporterConfig}
use jaeger_client_cpp.Config.Sampler.{
  MadeSampler, made, made_remote, no_sampler, invalid_argument, in_unit, make_sampler,
}
use jaeger_client_cpp.Config.Sources.{lower_case}
use jaeger_client_cpp.Config.Making.{is_invalid, is_probable, make_sampler-errors}
use jaeger_client_cpp.Tracer.Facade.{
  MakeResult, no_service_name, noop_tracer, sampler_failed, reporter_failed, tracer_made, Host,
  with_sampler, make_tracer, text_inject, text_extract, inject, found, extract,
}

-- What a format carries of a context.
abbrev pub carried : Format → SpanContext → SpanContext
carried jaeger ctx = record ctx { debug_id = []; trace_state = [] }
carried w3c ctx = record ctx { parent_id = 0; baggage = []; debug_id = [] }

found-valid :
    (ctx : SpanContext) (errors : ℕ)
    → TraceId.is_valid ctx.trace_id ≡ true
    → found (ctx, errors) ≡ (some ctx, errors)
unfolding found
found-valid ctx errors v = rw (context_ne_empty ctx v, found) refl

text_extract-text_inject :
    (format : Format) (ctx : SpanContext)
    → IsBounded ctx
    → TraceId.is_valid ctx.trace_id ≡ true
    → HasUniqueKeys ctx.baggage
    → text_extract format text_map default_headers (text_inject format text_map default_headers ctx)
      ≡ (carried format ctx, 0)
unfolding text_extract text_inject
text_extract-text_inject jaeger ctx b v u = jaeger_text_map_round_trip ctx b v u
text_extract-text_inject w3c ctx b v u = w3c_text_map_round_trip ctx b v

carried_valid :
    (format : Format) (ctx : SpanContext)
    → TraceId.is_valid ctx.trace_id ≡ true
    → TraceId.is_valid (carried format ctx).trace_id ≡ true
carried_valid jaeger ctx v = v
carried_valid w3c ctx v = v

-- What a tracer injects in a text map, a tracer of the same format with the default header names
-- extracts: the context that the format carries, and never a null pointer or a decoding error. The
-- fields have the widths of their types, the trace ID is valid and the keys of the baggage differ.
pub extract-inject_text :
    (format : Format) (ctx : SpanContext)
    → IsBounded ctx
    → TraceId.is_valid ctx.trace_id ≡ true
    → HasUniqueKeys ctx.baggage
    → (carrier : _) × (inject format text_map default_headers (some ctx) ≡ some carrier)
      × (extract format text_map default_headers carrier ≡ (some (carried format ctx), 0))
unfolding inject extract
extract-inject_text format ctx b v u = (
  text_inject format text_map default_headers ctx,
  refl,
  ap found (text_extract-text_inject format ctx b v u)
      ∙ found-valid (carried format ctx) 0 (carried_valid format ctx v),
)

abbrev pub is_made : {D R : Type 0} → MakeResult D R → Bool
is_made no_service_name = false
is_made noop_tracer = false
is_made sampler_failed = false
is_made reporter_failed = false
is_made (tracer_made client) = true

is_made-with_sampler :
    {D R : Type 0} (reporter : R) (host : Host) (service_name : Bytes) (gen_128_bit : Bool)
    (c : Config D) (m : MadeSampler D)
    → is_made (with_sampler (some reporter) host service_name gen_128_bit c m) ≡ not (is_invalid m)
unfolding with_sampler
is_made-with_sampler reporter host service_name gen_128_bit c (made sampler) = refl
is_made-with_sampler reporter host service_name gen_128_bit c (made_remote r manager interval) =
    refl
is_made-with_sampler reporter host service_name gen_128_bit c no_sampler = refl
is_made-with_sampler reporter host service_name gen_128_bit c invalid_argument = refl

-- If the reporter can be made, `make` makes a tracer exactly when there is a service name, the tracer is
-- not disabled, and no probability outside 0 to 1 stands beside a probabilistic, remote or empty
-- sampler type; an unknown type does not stop it.
pub is_made-make_tracer :
    {D R : Type 0} (a : Arithmetic D) (default_probability : D) (connect : Bytes → Bool)
    (make_reporter : ReporterConfig → Option R) (host : Host) (now : ℕ) (service_name : Bytes)
    (gen_128_bit : Bool) (c : Config D) (reporter : R)
    → make_reporter c.reporter ≡ some reporter
    → is_made (
        make_tracer a default_probability connect make_reporter host now service_name gen_128_bit c)
      ≡ (not (is_empty service_name)
          && (not c.disabled
              && not (
                  is_probable (lower_case c.sampler.type_name)
                  && not (in_unit a default_probability c.sampler.param))))
unfolding make_tracer
is_made-make_tracer a p connect make_reporter host now service_name gen_128_bit c reporter e =
    let m = make_sampler a p connect now c.sampler in
    elim (Bool-cases (is_empty service_name)) [
      | inl n ↦ rw (n, make_tracer) refl
      | inr n ↦ elim (Bool-cases c.disabled) [
        | inl d ↦ rw (n, d, make_tracer) refl
        | inr d ↦
            rw (n, d, make_tracer, e)
              (is_made-with_sampler reporter host service_name gen_128_bit c m
                ∙ ap not (make_sampler-errors a p connect now c.sampler).0)
      ]
    ]
