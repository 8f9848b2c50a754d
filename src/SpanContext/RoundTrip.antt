-- ===== src/SpanContext/RoundTrip.antt =====
-- What `operator<<` writes of a span context is read back by `SpanContext::fromStream`.
use jaeger_client_cpp.Base.{
  ℕ, ◌<◌, ◌^◌, ◌≡◌, ◌≢◌, refl, ap, ◌∙◌, true, Option, some, [], ◌∷◌, ◌++◌, arith, Bytes, length,
}
use jaeger_client_cpp.Hex.{Stream, good, decode_hex, print_hex, is_hex, set_width}
use jaeger_client_cpp.Hex.RoundTrip.{
  fixed, length-fixed, fixed-IsHex, set_width-print_hex, decode_hex-fixed,
}
use jaeger_client_cpp.Hex.Unpadded.{
  print_hex-IsHex, print_hex-ne-nil, length-print_hex, decode_hex-print_hex,
}
use jaeger_client_cpp.Hex.Parser.{
  go_on, ◌>>=◌, ◌>>◌, segment, expect_hit, segment-delim, segment-end_done,
}
use jaeger_client_cpp.TraceId
use jaeger_client_cpp.TraceId.{TraceId}
use jaeger_client_cpp.TraceId.RoundTrip
use jaeger_client_cpp.SpanContext.{
  SpanContext, empty, print, read_trace, read_fields, or_empty, from_stream, IsBounded,
}

fixed-ne-nil : (n : ℕ) → fixed 16 n ≢ []
fixed-ne-nil n h = omega (arith, ap length h, length-fixed 16 n)

-- A padded 64-bit field before the next colon.
segment-field :
    (n : ℕ) (rest : Bytes)
    → n < 2 ^ 64
    → segment 16 b':' (good (set_width 16 (print_hex n) ++ b':' ∷ rest))
      ≡ (some (fixed 16 n), good (b':' ∷ rest))
unfolding is_hex
segment-field n rest h = rw (set_width-print_hex 15 n (omega arith) (omega arith)) (
    segment-delim (fixed 16 n) rest 16 b':' (fixed-ne-nil n) (fixed-IsHex 16 n)
      (omega (arith, length-fixed 16 n)) refl)

read_trace-print :
    (t : TraceId) (rest : Bytes)
    → TraceId.IsWord t
    → TraceId.is_valid t ≡ true
    → read_trace (good (TraceId.print t ++ b':' ∷ rest)) ≡ (some t, good (b':' ∷ rest))
unfolding read_trace
read_trace-print t rest w v = rw (RoundTrip.from_stream-print_colon t rest w, v)

-- What the reader makes of the last segment.
made : SpanContext → Bytes → SpanContext
made ctx flags = record empty {
  trace_id = ctx.trace_id;
  span_id = decode_hex 64 (fixed 16 ctx.span_id);
  parent_id = decode_hex 64 (fixed 16 ctx.parent_id);
  flags = decode_hex 8 flags;
}

made-flags :
    (ctx : SpanContext)
    → IsBounded ctx
    → or_empty (some (made ctx (print_hex ctx.flags)))
      ≡ record ctx { baggage = []; debug_id = []; trace_state = [] }
unfolding or_empty made
made-flags ctx b = rw (
  decode_hex-fixed 64 16 ctx.span_id (omega (arith, b.span_word)) b.span_word,
  decode_hex-fixed 64 16 ctx.parent_id (omega (arith, b.parent_word)) b.parent_word,
  decode_hex-print_hex 8 ctx.flags (omega (arith, b.flags_byte)) b.flags_byte,
)

read_fields-print :
    (ctx : SpanContext)
    → IsBounded ctx
    → TraceId.is_valid ctx.trace_id ≡ true
    → read_fields (good (print ctx)) ≡ (some (made ctx (print_hex ctx.flags)), good [])
unfolding print read_fields made
read_fields-print ctx b v =
    rw
      (
        read_trace-print ctx.trace_id _ (b.high_word, b.low_word) v,
        expect_hit b':' _,
        segment-field ctx.span_id _ b.span_word,
        expect_hit b':' _,
        segment-field ctx.parent_id _ b.parent_word,
        expect_hit b':' _,
        read_fields,
        print,
        ◌>>=◌,
        ◌>>◌,
        go_on,
      )
      (segment-end_done (print_hex ctx.flags) 2 b':' (made ctx) (print_hex-ne-nil ctx.flags)
        (print_hex-IsHex ctx.flags) (length-print_hex 1 ctx.flags (omega (arith, b.flags_byte))))

-- Reading the text that a span context is printed as gives back all that is printed: everything
-- but the baggage, the debug ID and the trace state. The stream is left clear and at its end. The
-- fields have the widths of their types, and the trace ID is valid.
pub from_stream-print :
    (ctx : SpanContext)
    → IsBounded ctx
    → TraceId.is_valid ctx.trace_id ≡ true
    → from_stream (good (print ctx))
      ≡ (record ctx { baggage = []; debug_id = []; trace_state = [] }, good [])
unfolding from_stream
from_stream-print ctx b v =
    ap (λ (r : Option SpanContext × Stream). (or_empty r.0, r.1)) (read_fields-print ctx b v)
    ∙ ap (λ c. (c, good [])) (made-flags ctx b)
