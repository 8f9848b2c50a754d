-- ===== src/Tracer.antt =====
-- Tracer.h and Tracer.cpp: the tracer, the analysis of references, and random IDs.
mod Tests
pub mod Start
pub mod References
pub mod Started
pub mod Facade
pub mod Factory
pub mod Closing
use jaeger_client_cpp.Base.{
  ℕ, ◌+◌, Bool, true, false, not, ◌&&◌, ◌||◌, Option, none, some, List, [], ◌∷◌, ◌++◌, map, Bytes,
  codes, ◌==◌, if◌then◌else◌, is_empty, bit_or, pos,
}
use jaeger_client_cpp.TraceId.{TraceId}
use jaeger_client_cpp.SpanContext
use jaeger_client_cpp.SpanContext.{
  SpanContext, empty, is_sampled, is_debug_id_container_only, with_baggage,
}
use jaeger_client_cpp.Tag.{
  Value, text, Tag, Reference, ReferenceType, child_of, follows_from, self_ref, invalid_ref,
}
use jaeger_client_cpp.Metrics.{Metrics}
use jaeger_client_cpp.Baggage.{default_manager}
use jaeger_client_cpp.Span.{Handle, Span}

-- `samplers::SamplingStatus`
pub record SamplingStatus : Type 0 where
  pub is_sampled : Bool
  pub tags : List Tag

-- The state of a sampler, threaded by its `isSampled`.
abbrev pub Sampler : Type 0 → Type 0
Sampler S = S → TraceId → Bytes → SamplingStatus × S

-- What a started span needs of the tracer: its constants, the state of its sampler, the numbers that
-- the random generator has still to give, and the metrics.
pub record Tracer (S : Type 0) : Type 0 where
  pub service_name : Bytes
  pub gen_128_bit : Bool
  pub sampler : S
  pub draws : List ℕ
  pub metrics : Metrics

-- `SpanReference`: a context of another tracer is `none`.
abbrev pub OpenTracingRef : Type 0
OpenTracingRef = ReferenceType × Option SpanContext

pub record AnalyzedReferences : Type 0 where
  pub parent : Option SpanContext
  pub self : Option SpanContext
  pub references : List Reference

-- A context that a reference is not ignored for.
unfoldable pub is_useful : SpanContext → Bool
is_useful ctx =
    SpanContext.is_valid ctx || is_debug_id_container_only ctx || not (is_empty ctx.baggage)

-- The variables of the loop of `analyzeReferences`.
pub record Analysis : Type 0 where
  pub has_parent : Bool
  pub parent : Option SpanContext
  pub self : Option SpanContext
  pub references : List Reference

abbrev pub is_child_of : ReferenceType → Bool
is_child_of child_of = true
is_child_of follows_from = false
is_child_of self_ref = false
is_child_of invalid_ref = false

-- A reference that is not to the span itself.
unfoldable pub add_reference : ReferenceType → SpanContext → Analysis → Analysis
add_reference kind ctx a =
    let added = record a { references = a.references ++ record { ctx = ctx; kind = kind } ∷ [] } in
    if a.has_parent
    then added
    else record added { parent = some ctx; has_parent = is_child_of kind }

unfoldable pub analyze_reference : OpenTracingRef → Analysis → Analysis
analyze_reference (kind, none) a = a
analyze_reference (kind, some ctx) a = if not (is_useful ctx) then a else elim kind [
  | self_ref ↦ record a { self = some ctx }
  | child_of ↦ add_reference child_of ctx a
  | follows_from ↦ add_reference follows_from ctx a
  | invalid_ref ↦ add_reference invalid_ref ctx a
]

unfoldable pub analyze_loop : List OpenTracingRef → Analysis → Analysis
unfolding analyze_reference
analyze_loop [] a = a
analyze_loop (ref ∷ refs) a = analyze_loop refs (analyze_reference ref a)

-- The parent that is left at the end: one that follows from another counts if it is valid.
unfoldable pub settle_parent : Bool → Option SpanContext → Option SpanContext
settle_parent has_parent none = none
settle_parent has_parent (some ctx) =
    if has_parent || SpanContext.is_valid ctx then some ctx else none

unfoldable pub analyze_references : List OpenTracingRef → AnalyzedReferences
unfolding analyze_loop settle_parent
analyze_references refs =
    let a =
      analyze_loop refs
        (record { has_parent = false; parent = none; self = none; references = [] }) in
    record {
      parent = settle_parent a.has_parent a.parent;
      self = a.self;
      references = a.references;
    }

-- `randomID`: the next number that is not zero, `none` if the numbers run out.
unfoldable pub random_id : List ℕ → Option (ℕ × List ℕ)
random_id [] = none
random_id (value ∷ draws) =
    let more = random_id draws in if value == 0 then more else some (value, draws)
