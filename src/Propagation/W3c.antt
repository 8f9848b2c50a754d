-- ===== src/Propagation/W3c.antt =====
-- propagation/W3CPropagator.h.
pub mod RoundTrip
pub mod Formats
use jaeger_client_cpp.Base.{
  ℕ, ◌-◌, Bool, true, false, not, ◌&&◌, ◌||◌, Option, none, some, List, [], ◌∷◌, ◌++◌, Bytes, ◌==◌,
  bytes_eq, codes, if◌then◌else◌, length, take, drop, is_empty,
}
use jaeger_client_cpp.Hex.{Stream, good, has_failed, decode_hex, print_hex, set_width}
use jaeger_client_cpp.Hex.Parser.{Reader, go_on, ◌>>=◌, ◌>>◌, done, expect, segment, clear_stream}
use jaeger_client_cpp.TraceId
use jaeger_client_cpp.TraceId.{TraceId}
use jaeger_client_cpp.SpanContext.{SpanContext, empty, context_eq, or_empty}
use jaeger_client_cpp.Propagation.Carrier.{HeadersConfig, Carrier, Codec, for_each_key, extract}

abbrev pub trace_parent_header : Bytes
trace_parent_header = codes "traceparent"

abbrev pub trace_state_header : Bytes
trace_state_header = codes "tracestate"

-- A segment of exactly so many characters.
unfoldable pub full_segment : ℕ → Reader Bytes
full_segment chars s =
    go_on (segment chars b'-' s)
      λ buffer s'. if length buffer == chars then (some buffer, s') else (none, s')

-- `readTraceID`, and the test of it.
unfoldable pub read_trace_id : Reader TraceId
unfolding full_segment
read_trace_id s = go_on (full_segment 32 s) λ buffer s'.
    let t : TraceId = record {
      high = decode_hex 64 (take (length buffer - 16) buffer);
      low = decode_hex 64 (drop (length buffer - 16) buffer);
    } in
    if TraceId.is_valid t then (some t, s') else (none, s')

unfoldable pub read_parent_fields : Reader SpanContext
read_parent_fields = do
  expect b'0'
  expect b'0'
  expect b'-'
  trace_id ← read_trace_id
  expect b'-'
  span ← segment 16 b'-'
  expect b'-'
  flags ← full_segment 2
  clear_stream
  done (record empty {
    trace_id = trace_id;
    span_id = decode_hex 64 span;
    flags = decode_hex 8 flags;
  })

unfoldable pub read_trace_parent : Stream → SpanContext × Stream
unfolding read_parent_fields
read_trace_parent s = let (r, s') = read_parent_fields s in (or_empty r, s')

-- What `writeTraceParent` writes.
unfoldable pub write_trace_parent : SpanContext → Bytes
write_trace_parent ctx =
    b'0'
    ∷ b'0'
    ∷ b'-'
    ∷ (set_width 16 (print_hex ctx.trace_id.high)
        ++ (set_width 16 (print_hex ctx.trace_id.low)
            ++ (b'-'
                ∷ (set_width 16 (print_hex ctx.span_id)
                    ++ (b'-' ∷ set_width 2 (print_hex ctx.flags))))))

pub record Found : Type 0 where
  pub ctx : SpanContext
  pub trace_state : Bytes

unfoldable pub read_parent_value : Bytes → Option SpanContext
read_parent_value value =
    let (ctx, rest) = read_trace_parent (good value) in
    if has_failed rest || context_eq ctx empty then none else some ctx

-- The callback of `doExtract`.
unfoldable pub visit : Codec → Bytes → Bytes → Found → Option Found
visit c raw_key value found =
    let key = c.normalize_key raw_key in
    if bytes_eq key trace_parent_header
    then elim (read_parent_value (c.decode_value value)) [
      | none ↦ none
      | some ctx ↦ some (record found { ctx = ctx })
    ]
    else if bytes_eq key trace_state_header
    then some (record found { trace_state = c.decode_value value })
    else some found

unfoldable pub do_extract : Codec → Carrier → SpanContext × ℕ
do_extract c reader =
    elim (for_each_key (visit c) reader (record { ctx = empty; trace_state = [] })) [
      | none ↦ (empty, 1)
      | some found ↦
          (record found.ctx { baggage = []; debug_id = []; trace_state = found.trace_state }, 0)
    ]

unfoldable pub do_inject : SpanContext → Carrier
do_inject ctx =
    (trace_parent_header, write_trace_parent ctx)
    ∷ (if is_empty ctx.trace_state then [] else (trace_state_header, ctx.trace_state) ∷ [])

unfoldable pub w3c_extract : Codec → HeadersConfig → Carrier → SpanContext × ℕ
w3c_extract c hc = extract c hc (do_extract c)
