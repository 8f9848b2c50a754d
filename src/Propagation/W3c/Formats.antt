-- ===== src/Propagation/W3c/Formats.antt =====
-- The W3C propagators of the tracer: what `inject` writes is what `extract` reads.
use jaeger_client_cpp.Base.{
  ◌≡◌, ◌≢◌, refl, ap, ◌∙◌, true, false, Option, some, [], ◌∷◌, ◌++◌, arith, Bytes, bytes_eq,
  bytes_eq_self, All-append, is_empty, if◌then◌else◌,
}
use jaeger_client_cpp.Hex.{print_hex, set_width, Stream, good, has_failed}
use jaeger_client_cpp.Hex.RoundTrip.{fixed, decode_hex-fixed, fixed-IsHex, set_width-print_hex}
use jaeger_client_cpp.TraceId
use jaeger_client_cpp.SpanContext.{SpanContext, empty, or_empty, IsBounded}
use jaeger_client_cpp.SpanContext.Equality.{context_ne_empty}
use jaeger_client_cpp.Propagation.Carrier.{
  HeadersConfig, headers_config, Carrier, Codec, text_map, http_headers, to_lower, for_each_key,
  for_each_key_step, find_debug_id, or_none, combine, extract,
}
use jaeger_client_cpp.Propagation.Jaeger.Formats.{
  IsPlain, unescape_plain, hex-IsPlain, word-IsPlain, default_headers,
}
use jaeger_client_cpp.Propagation.W3c.{
  Found, read_trace_parent, read_parent_value, write_trace_parent, visit, do_extract, do_inject,
  w3c_extract, trace_parent_header, trace_state_header,
}
use jaeger_client_cpp.Propagation.W3c.RoundTrip.{made, read_parent_fields-write}

-- What the `traceparent` header carries.
abbrev carried : SpanContext → SpanContext
carried ctx = record ctx { parent_id = 0; baggage = []; debug_id = []; trace_state = [] }

made-carried :
    (ctx : SpanContext)
    → IsBounded ctx
    → or_empty (some (made ctx (fixed 2 ctx.flags))) ≡ carried ctx
unfolding or_empty made
made-carried ctx b = rw (
  decode_hex-fixed 64 16 ctx.span_id (omega (arith, b.span_word)) b.span_word,
  decode_hex-fixed 8 2 ctx.flags (omega (arith, b.flags_byte)) b.flags_byte,
)

read_trace_parent-write :
    (ctx : SpanContext)
    → IsBounded ctx
    → TraceId.is_valid ctx.trace_id ≡ true
    → read_trace_parent (good (write_trace_parent ctx)) ≡ (carried ctx, good [])
unfolding read_trace_parent
read_trace_parent-write ctx b v =
    ap (λ (r : Option SpanContext × Stream). (or_empty r.0, r.1)) (read_parent_fields-write ctx b v)
    ∙ ap (λ c. (c, good [])) (made-carried ctx b)

read_parent_value-write :
    (ctx : SpanContext)
    → IsBounded ctx
    → TraceId.is_valid ctx.trace_id ≡ true
    → read_parent_value (write_trace_parent ctx) ≡ some (carried ctx)
unfolding read_parent_value has_failed
read_parent_value-write ctx b v =
    rw (read_trace_parent-write ctx b v, context_ne_empty (carried ctx) v)

-- A codec that keeps the two headers apart from the debug header and keeps their texts.
pub record Carries (c : Codec) (hc : HeadersConfig) (ctx : SpanContext) : Type 0 where
  pub parent_key : c.normalize_key trace_parent_header ≡ trace_parent_header
  pub state_key : c.normalize_key trace_state_header ≡ trace_state_header
  pub parent_value : c.decode_value (write_trace_parent ctx) ≡ write_trace_parent ctx
  pub state_value : c.decode_value ctx.trace_state ≡ ctx.trace_state
  pub parent_not_debug : bytes_eq trace_parent_header hc.jaeger_debug_header ≡ false
  pub state_not_debug : bytes_eq trace_state_header hc.jaeger_debug_header ≡ false

module _ (c : Codec) (hc : HeadersConfig) (ctx : SpanContext) (s : Carries c hc ctx) where
  find-parent : (value : Bytes) → find_debug_id c hc trace_parent_header value [] ≡ some []
  unfolding find_debug_id
  find-parent value = rw (s.parent_key, s.parent_not_debug)

  find-state : (value : Bytes) → find_debug_id c hc trace_state_header value [] ≡ some []
  unfolding find_debug_id
  find-state value = rw (s.state_key, s.state_not_debug)

  abbrev state_pairs : Bytes → Carrier
  state_pairs state = if is_empty state then [] else (trace_state_header, state) ∷ []

  find-state_pairs :
      (state : Bytes) → for_each_key (find_debug_id c hc) (state_pairs state) [] ≡ some []
  unfolding for_each_key
  find-state_pairs [] = refl
  find-state_pairs (x ∷ state) = rw (find-state (x ∷ state), for_each_key)

  visit-parent :
      (found : Found)
      → IsBounded ctx
      → TraceId.is_valid ctx.trace_id ≡ true
      → visit c trace_parent_header (write_trace_parent ctx) found
        ≡ some (record found { ctx = carried ctx })
  unfolding visit
  visit-parent found b v = rw (
    s.parent_key,
    bytes_eq_self trace_parent_header,
    s.parent_value,
    read_parent_value-write ctx b v,
  )

  visit-state :
      (state : Bytes) (found : Found)
      → c.decode_value state ≡ state
      → visit c trace_state_header state found ≡ some (record found { trace_state = state })
  unfolding visit bytes_eq
  visit-state state found e = rw (s.state_key, e)

  visit-state_pairs :
      (state : Bytes) (found : Found)
      → found.trace_state ≡ []
      → c.decode_value state ≡ state
      → for_each_key (visit c) (state_pairs state) found
        ≡ some (record found { trace_state = state })
  unfolding for_each_key
  visit-state_pairs [] found e d = ap (λ t. some (record found { trace_state = t })) e
  visit-state_pairs (x ∷ state) found e d = rw (visit-state (x ∷ state) found d, for_each_key)

  debug_written : or_none (for_each_key (find_debug_id c hc) (do_inject ctx) []) ≡ []
  unfolding do_inject
  debug_written = ap or_none (
      for_each_key_step (find_debug_id c hc) _ _ _ [] [] (find-parent (write_trace_parent ctx))
      ∙ find-state_pairs ctx.trace_state)

  visit_written :
      IsBounded ctx
      → TraceId.is_valid ctx.trace_id ≡ true
      → for_each_key (visit c) (do_inject ctx) (record { ctx = empty; trace_state = [] })
        ≡ some (record { ctx = carried ctx; trace_state = ctx.trace_state })
  unfolding do_inject
  visit_written b v =
      for_each_key_step (visit c) _ _ _ _ _
        (visit-parent (record { ctx = empty; trace_state = [] }) b v)
      ∙ visit-state_pairs ctx.trace_state (record { ctx = carried ctx; trace_state = [] }) refl
          s.state_value

  do_extract_written :
      IsBounded ctx
      → TraceId.is_valid ctx.trace_id ≡ true
      → do_extract c (do_inject ctx)
        ≡ (record ctx { parent_id = 0; baggage = []; debug_id = [] }, 0)
  unfolding do_extract
  do_extract_written b v = rw (visit_written b v, do_extract)

  pub w3c_extract-do_inject :
      IsBounded ctx
      → TraceId.is_valid ctx.trace_id ≡ true
      → w3c_extract c hc (do_inject ctx)
        ≡ (record ctx { parent_id = 0; baggage = []; debug_id = [] }, 0)
  unfolding w3c_extract extract combine
  w3c_extract-do_inject b v = rw (debug_written, do_extract_written b v, v)

-- Extraction from the text map that injection wrote gives the trace ID, the span ID, the flags and
-- any trace state back, with no parent ID, baggage or debug ID and no decoding error. The fields
-- have the widths of their types, and the trace ID is valid.
pub w3c_text_map_round_trip :
    (ctx : SpanContext)
    → IsBounded ctx
    → TraceId.is_valid ctx.trace_id ≡ true
    → w3c_extract text_map default_headers (do_inject ctx)
      ≡ (record ctx { parent_id = 0; baggage = []; debug_id = [] }, 0)
unfolding headers_config bytes_eq
w3c_text_map_round_trip ctx b v =
    w3c_extract-do_inject text_map default_headers ctx
      (record {
        parent_key = refl;
        state_key = refl;
        parent_value = refl;
        state_value = refl;
        parent_not_debug = refl;
        state_not_debug = refl;
      })
      b v

IsPlain-append : (s t : Bytes) → IsPlain s → IsPlain t → IsPlain (s ++ t)
IsPlain-append s t hs ht = All-append (λ c. c ≢ b'%') s t hs ht

dash-IsPlain : (s : Bytes) → IsPlain s → IsPlain (b'-' ∷ s)
dash-IsPlain s h = (λ e. omega arith, h)

write-IsPlain : (ctx : SpanContext) → IsBounded ctx → IsPlain (write_trace_parent ctx)
unfolding write_trace_parent
write-IsPlain ctx b =
    let flags : IsPlain (set_width 2 (print_hex ctx.flags)) =
      rw (set_width-print_hex 1 ctx.flags (omega (arith, b.flags_byte)) (omega arith))
        (hex-IsPlain _ (fixed-IsHex 2 ctx.flags)) in
    let tail =
      IsPlain-append (set_width 16 (print_hex ctx.span_id)) _ (word-IsPlain ctx.span_id b.span_word)
        (dash-IsPlain _ flags) in
    let ids =
      IsPlain-append _ _ (word-IsPlain ctx.trace_id.high b.high_word)
        (IsPlain-append _ _ (word-IsPlain ctx.trace_id.low b.low_word) (dash-IsPlain _ tail)) in
    ((λ e. omega arith), ((λ e. omega arith), dash-IsPlain _ ids))

-- Extraction from the HTTP headers that injection wrote gives the trace ID, the span ID, the flags
-- and the trace state back, with no parent ID, baggage or debug ID and no decoding error. The
-- fields have the widths of their types, the trace ID is valid, and the trace state holds no
-- percent sign, since it is written as it stands but unescaped when it is read.
pub w3c_http_headers_round_trip :
    (ctx : SpanContext)
    → IsBounded ctx
    → TraceId.is_valid ctx.trace_id ≡ true
    → IsPlain ctx.trace_state
    → w3c_extract http_headers default_headers (do_inject ctx)
      ≡ (record ctx { parent_id = 0; baggage = []; debug_id = [] }, 0)
unfolding headers_config bytes_eq to_lower
w3c_http_headers_round_trip ctx b v p =
    w3c_extract-do_inject http_headers default_headers ctx
      (record {
        parent_key = refl;
        state_key = refl;
        parent_value = unescape_plain _ (write-IsPlain ctx b);
        state_value = unescape_plain ctx.trace_state p;
        parent_not_debug = refl;
        state_not_debug = refl;
      })
      b v
