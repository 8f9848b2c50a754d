-- ===== src/SpanContext/Bounds.antt =====
-- What `SpanContext::fromStream` may return, for every stream.
use jaeger_client_cpp.Base.{
  ◌≡◌, refl, ◌⊎◌, inl, inr, true, Option, none, some, arith, All, Bool-cases, if◌then◌else◌,
}
use jaeger_client_cpp.Hex.{Stream}
use jaeger_client_cpp.Hex.Segment.{IsHex, decode_hex-lt}
use jaeger_client_cpp.Hex.Parser.{
  Yields, go_on-Yields, segment-Yields, any-Yields, expect, segment, clear_stream,
}
use jaeger_client_cpp.TraceId
use jaeger_client_cpp.TraceId.{TraceId}
use jaeger_client_cpp.TraceId.RoundTrip.{from_stream-IsWord}
use jaeger_client_cpp.SpanContext.{
  SpanContext, empty, read_trace, read_fields, or_empty, from_stream, IsBounded,
}

abbrev IsUsable : TraceId → Type 0
IsUsable t = TraceId.IsWord t × (TraceId.is_valid t ≡ true)

abbrev IsRead : SpanContext → Type 0
IsRead ctx = IsBounded ctx × (TraceId.is_valid ctx.trace_id ≡ true)

read_trace-Yields : (s : Stream) → Yields IsUsable (read_trace s)
unfolding read_trace
read_trace-Yields s = pick (TraceId.from_stream s).0 _ (from_stream-IsWord s)
  where
    pick :
        (t : TraceId) (rest : Stream)
        → TraceId.IsWord t
        → Yields IsUsable (
            if◌then◌else◌ {A = Option TraceId × Stream}
              (TraceId.is_valid t)
              (some t, rest)
              (none, rest))
    pick t rest w = elim (Bool-cases (TraceId.is_valid t)) [ inl e ↦ rw e (w, e) | inr e ↦ rw e tt ]

read_fields-Yields : (s : Stream) → Yields IsRead (read_fields s)
unfolding read_fields
read_fields-Yields s =
    go_on-Yields IsUsable IsRead (read_trace s) _ (read_trace-Yields s) λ t s1 ht.
      go_on-Yields (λ _. Unit {0}) IsRead (expect b':' s1) _ (any-Yields _)
        λ _ s2 _.
          go_on-Yields (All IsHex) IsRead (segment 16 b':' s2) _ (segment-Yields 16 b':' s2)
            λ span s3 hs.
              go_on-Yields (λ _. Unit {0}) IsRead (expect b':' s3) _ (any-Yields _)
                λ _ s4 _.
                  go_on-Yields (All IsHex) IsRead (segment 16 b':' s4) _ (segment-Yields 16 b':' s4)
                    λ parent s5 hp.
                      go_on-Yields (λ _. Unit {0}) IsRead (expect b':' s5) _ (any-Yields _)
                        λ _ s6 _.
                          go_on-Yields (All IsHex) IsRead (segment 2 b':' s6) _
                            (segment-Yields 2 b':' s6)
                            λ flags s7 hf.
                              go_on-Yields (λ _. Unit {0}) IsRead (clear_stream s7) _ (any-Yields _)
                                λ _ s8 _. (
                                  record {
                                    high_word = ht.0.0;
                                    low_word = ht.0.1;
                                    span_word = decode_hex-lt 64 span hs;
                                    parent_word = decode_hex-lt 64 parent hp;
                                    flags_byte = decode_hex-lt 8 flags hf;
                                  },
                                  ht.1,
                                )

-- Whatever the stream holds, the result is the empty context or has a valid trace ID, and in both
-- cases every field fits its machine type.
pub from_stream-IsBounded :
    (s : Stream)
    → IsBounded (from_stream s).0
      × (((from_stream s).0 ≡ empty) ⊎ (TraceId.is_valid (from_stream s).0.trace_id ≡ true))
unfolding from_stream or_empty
from_stream-IsBounded s = pick (read_fields s).0 (read_fields s).1 (read_fields-Yields s)
  where
    pick :
        (r : Option SpanContext) (rest : Stream)
        → Yields IsRead (r, rest)
        → IsBounded (or_empty r)
          × ((or_empty r ≡ empty) ⊎ (TraceId.is_valid (or_empty r).trace_id ≡ true))
    pick none rest h = (
      record {
        high_word = omega arith;
        low_word = omega arith;
        span_word = omega arith;
        parent_word = omega arith;
        flags_byte = omega arith;
      },
      inl refl,
    )
    pick (some ctx) rest h = (h.0, inr h.1)
