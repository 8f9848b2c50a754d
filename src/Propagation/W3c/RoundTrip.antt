-- ===== src/Propagation/W3c/RoundTrip.antt =====
-- `traceparent` and `tracestate`, written and read back.
use jaeger_client_cpp.Base.{
  ℕ, suc, ◌-◌, ◌<◌, ◌^◌, ◌≡◌, ◌≢◌, refl, ap, true, some, [], ◌∷◌, ◌++◌, append_assoc, arith, Bytes,
  length, length-append, take, drop, take-append, drop-append, All, All-append,
}
use jaeger_client_cpp.Hex.{good, decode_hex, print_hex, is_hex, set_width}
use jaeger_client_cpp.Hex.Segment.{IsHex}
use jaeger_client_cpp.Hex.RoundTrip.{
  fixed, length-fixed, fixed-IsHex, set_width-print_hex, decode_hex-fixed,
}
use jaeger_client_cpp.Hex.Parser.{
  go_on, ◌>>=◌, ◌>>◌, done, segment, clear_stream, expect_hit, segment-delim, segment-end,
  clear-done,
}
use jaeger_client_cpp.TraceId
use jaeger_client_cpp.TraceId.{TraceId}
use jaeger_client_cpp.SpanContext.{SpanContext, empty, IsBounded}
use jaeger_client_cpp.Propagation.W3c.{
  full_segment, read_trace_id, read_parent_fields, write_trace_parent,
}

fixed-ne-nil : (w n : ℕ) → fixed (suc w) n ≢ []
fixed-ne-nil w n h = omega (arith, ap length h, length-fixed (suc w) n)

segment-field :
    (n : ℕ) (rest : Bytes)
    → n < 2 ^ 64
    → segment 16 b'-' (good (set_width 16 (print_hex n) ++ b'-' ∷ rest))
      ≡ (some (fixed 16 n), good (b'-' ∷ rest))
unfolding is_hex
segment-field n rest h = rw (set_width-print_hex 15 n (omega arith) (omega arith)) (
    segment-delim (fixed 16 n) rest 16 b'-' (fixed-ne-nil 15 n) (fixed-IsHex 16 n)
      (omega (arith, length-fixed 16 n)) refl)

full_segment-delim :
    (s rest : Bytes) (chars : ℕ)
    → s ≢ []
    → All IsHex s
    → length s ≡ chars
    → full_segment chars (good (s ++ b'-' ∷ rest)) ≡ (some s, good (b'-' ∷ rest))
unfolding full_segment is_hex
full_segment-delim s rest chars ne h k =
    rw (segment-delim s rest chars b'-' ne h (omega arith) refl, go_on) (ground arith)

full_segment-end :
    {A : Type 0} (s : Bytes) (chars : ℕ) (f : Bytes → A)
    → s ≢ []
    → All IsHex s
    → length s ≡ chars
    → (do buffer ← full_segment chars; clear_stream; done (f buffer)) (good s)
      ≡ (some (f s), good [])
unfolding full_segment
full_segment-end s chars f ne h k =
    let (t, e, c) = segment-end s chars b'-' ne h (omega arith) in
    let full : full_segment chars (good s) ≡ (some s, t) =
      rw (e, full_segment, go_on) (ground arith) in
    rw (full, ◌>>=◌, go_on) (clear-done (f s) t c)

both : TraceId → Bytes
both t = fixed 16 t.high ++ fixed 16 t.low

length-both : (t : TraceId) → length (both t) ≡ 32
unfolding both
length-both t = omega (
  arith,
  length-append (fixed 16 t.high) (fixed 16 t.low),
  length-fixed 16 t.high,
  length-fixed 16 t.low,
)

both-ne-nil : (t : TraceId) → both t ≢ []
both-ne-nil t e = omega (arith, ap length e, length-both t)

both-IsHex : (t : TraceId) → All IsHex (both t)
unfolding both
both-IsHex t = All-append IsHex (fixed 16 t.high) _ (fixed-IsHex 16 t.high) (fixed-IsHex 16 t.low)

halves :
    (t : TraceId)
    → TraceId.IsWord t
    → record {
      high = decode_hex 64 (take (length (both t) - 16) (both t));
      low = decode_hex 64 (drop (length (both t) - 16) (both t));
    }
      ≡ t
unfolding both
halves t (h, l) =
    let cut : length (fixed 16 t.high ++ fixed 16 t.low) - 16 ≡ length (fixed 16 t.high) =
      omega (arith, length-fixed 16 t.high, length-both t) in
    rw (
      cut,
      take-append (fixed 16 t.high) (fixed 16 t.low) (length (fixed 16 t.high)) refl,
      drop-append (fixed 16 t.high) (fixed 16 t.low) (length (fixed 16 t.high)) refl,
      decode_hex-fixed 64 16 t.high (omega arith) h,
      decode_hex-fixed 64 16 t.low (omega arith) l,
    )

-- The 32 digits of a trace ID before a dash.
read_trace_id-both :
    (t : TraceId) (rest : Bytes)
    → TraceId.IsWord t
    → TraceId.is_valid t ≡ true
    → read_trace_id (good (both t ++ b'-' ∷ rest)) ≡ (some t, good (b'-' ∷ rest))
unfolding read_trace_id
read_trace_id-both t rest w v = rw (
  full_segment-delim (both t) rest 32 (both-ne-nil t) (both-IsHex t) (length-both t),
  go_on,
  halves t w,
  v,
)

-- What the reader makes of the last segment.
unfoldable pub made : SpanContext → Bytes → SpanContext
made ctx flags = record empty {
  trace_id = ctx.trace_id;
  span_id = decode_hex 64 (fixed 16 ctx.span_id);
  flags = decode_hex 8 flags;
}

-- The text with its trace ID as one segment.
write-both :
    (ctx : SpanContext)
    → IsBounded ctx
    → write_trace_parent ctx
      ≡ b'0'
        ∷ b'0'
        ∷ b'-'
        ∷ (both ctx.trace_id
            ++ (b'-' ∷ (set_width 16 (print_hex ctx.span_id) ++ (b'-' ∷ fixed 2 ctx.flags))))
unfolding write_trace_parent both
write-both ctx b = rw (
  set_width-print_hex 15 ctx.trace_id.high (omega (arith, b.high_word)) (omega arith),
  set_width-print_hex 15 ctx.trace_id.low (omega (arith, b.low_word)) (omega arith),
  set_width-print_hex 1 ctx.flags (omega (arith, b.flags_byte)) (omega arith),
  append_assoc (fixed 16 ctx.trace_id.high) (fixed 16 ctx.trace_id.low),
)

pub read_parent_fields-write :
    (ctx : SpanContext)
    → IsBounded ctx
    → TraceId.is_valid ctx.trace_id ≡ true
    → read_parent_fields (good (write_trace_parent ctx))
      ≡ (some (made ctx (fixed 2 ctx.flags)), good [])
unfolding read_parent_fields made
read_parent_fields-write ctx b v =
    rw
      (
        write-both ctx b,
        read_parent_fields,
        ◌>>=◌,
        ◌>>◌,
        expect_hit b'0' _,
        go_on,
        expect_hit b'0' _,
        expect_hit b'-' _,
        read_trace_id-both ctx.trace_id _ (b.high_word, b.low_word) v,
        expect_hit b'-' _,
        segment-field ctx.span_id _ b.span_word,
        expect_hit b'-' _,
      )
      (full_segment-end (fixed 2 ctx.flags) 2 (made ctx) (fixed-ne-nil 1 ctx.flags)
        (fixed-IsHex 2 ctx.flags) (length-fixed 2 ctx.flags))
