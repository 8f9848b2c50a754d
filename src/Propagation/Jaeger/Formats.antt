-- ===== src/Propagation/Jaeger/Formats.antt =====
-- The two Jaeger propagators of the tracer, with the default header names.
use jaeger_client_cpp.Base.{
  ℕ, ◌<◌, ◌^◌, ◌≡◌, ◌≢◌, refl, ap, true, [], ◌∷◌, ◌++◌, map, arith, Bytes, All, All-append,
  HasUniqueKeys, bytes_eq,
}
use jaeger_client_cpp.Hex.{is_hex, print_hex, set_width}
use jaeger_client_cpp.Hex.Segment.{IsHex}
use jaeger_client_cpp.Hex.RoundTrip.{fixed-IsHex, set_width-print_hex}
use jaeger_client_cpp.Hex.Unpadded.{print_hex-IsHex}
use jaeger_client_cpp.TraceId
use jaeger_client_cpp.TraceId.RoundTrip.{print-digits, digits-IsHex}
use jaeger_client_cpp.Uri.{query_unescape, unescape_loop}
use jaeger_client_cpp.Uri.Escape.{IsKept, query_unescape-query_escape}
use jaeger_client_cpp.SpanContext
use jaeger_client_cpp.SpanContext.{SpanContext, StrMap, IsBounded}
use jaeger_client_cpp.Propagation.Carrier.{
  HeadersConfig, headers_config, text_map, http_headers, to_lower,
}
use jaeger_client_cpp.Propagation.Jaeger.{do_inject, jaeger_extract}
use jaeger_client_cpp.Propagation.Jaeger.RoundTrip.{Survives, jaeger_extract-do_inject}

-- `HeadersConfig()`
abbrev pub default_headers : HeadersConfig
default_headers = headers_config [] [] [] []

text_map-Survives : (item : Bytes × Bytes) → Survives text_map default_headers item
unfolding headers_config bytes_eq
text_map-Survives item = record {
  same_key = refl;
  same_value = refl;
  not_context = refl;
  not_baggage = refl;
  not_debug = refl;
}

text_map-items : (m : StrMap) → All (Survives text_map default_headers) m
text_map-items [] = tt
text_map-items (item ∷ m) = (text_map-Survives item, text_map-items m)

-- With the default header names, extraction from the text map that injection wrote gives the
-- context back, but for its debug ID and trace state, and counts no decoding error. The fields
-- have the widths of their types, the trace ID is valid and the keys of the baggage differ; its
-- texts may have any bytes.
pub jaeger_text_map_round_trip :
    (ctx : SpanContext)
    → IsBounded ctx
    → TraceId.is_valid ctx.trace_id ≡ true
    → HasUniqueKeys ctx.baggage
    → jaeger_extract text_map default_headers (do_inject text_map default_headers ctx)
      ≡ (record ctx { debug_id = []; trace_state = [] }, 0)
unfolding headers_config bytes_eq
jaeger_text_map_round_trip ctx b v u =
    jaeger_extract-do_inject text_map default_headers ctx b v u (record {
      context_key = refl;
      context_value = refl;
      context_not_debug = refl;
      items = text_map-items ctx.baggage;
    })

-- Text without `%` is left alone.
pub unescape_plain : (s : Bytes) → All (λ c. c ≢ b'%') s → query_unescape s ≡ s
unfolding query_unescape unescape_loop
unescape_plain [] h = refl
unescape_plain (c ∷ s) (hc, hs) = ground (arith, unescape_plain s hs)

abbrev pub IsPlain : Bytes → Type 0
IsPlain = All (λ c. c ≢ b'%')

pub hex-IsPlain : (s : Bytes) → All IsHex s → IsPlain s
unfolding is_hex
hex-IsPlain [] h = tt
hex-IsPlain (c ∷ s) (hc, hs) = (ground arith, hex-IsPlain s hs)

join-IsPlain : (s t : Bytes) → IsPlain s → IsPlain t → IsPlain (s ++ (b':' ∷ t))
join-IsPlain s t hs ht = All-append (λ c. c ≢ b'%') s _ hs (λ e. omega arith, ht)

pub word-IsPlain : (n : ℕ) → n < 2 ^ 64 → IsPlain (set_width 16 (print_hex n))
word-IsPlain n h =
    rw (set_width-print_hex 15 n (omega arith) (omega arith)) (hex-IsPlain _ (fixed-IsHex 16 n))

print-IsPlain : (ctx : SpanContext) → IsBounded ctx → IsPlain (SpanContext.print ctx)
unfolding SpanContext.print
print-IsPlain ctx b =
    join-IsPlain (TraceId.print ctx.trace_id) _
      (rw (print-digits ctx.trace_id (b.high_word, b.low_word))
        (hex-IsPlain _ (digits-IsHex ctx.trace_id)))
      (join-IsPlain (set_width 16 (print_hex ctx.span_id)) _ (word-IsPlain ctx.span_id b.span_word)
        (join-IsPlain (set_width 16 (print_hex ctx.parent_id)) _
          (word-IsPlain ctx.parent_id b.parent_word) (hex-IsPlain _ (print_hex-IsHex ctx.flags))))

-- A baggage item that HTTP headers keep: no upper case in the key, and bytes that escape to two
-- digits in the value.
abbrev pub IsPortable : Bytes × Bytes → Type 0
IsPortable item = All (λ c. to_lower c ≡ c) item.0 × All IsKept item.1

map-to_lower : (s : Bytes) → All (λ c. to_lower c ≡ c) s → map to_lower s ≡ s
map-to_lower [] h = refl
map-to_lower (c ∷ s) (hc, hs) = rw (hc, map-to_lower s hs)

http-Survives :
    (item : Bytes × Bytes) → IsPortable item → Survives http_headers default_headers item
unfolding headers_config bytes_eq to_lower
http-Survives item (hk, hv) = record {
  same_key = ap (λ s. default_headers.trace_baggage_header_prefix ++ s) (map-to_lower item.0 hk);
  same_value = query_unescape-query_escape item.1 hv;
  not_context = refl;
  not_baggage = refl;
  not_debug = refl;
}

http-items : (m : StrMap) → All IsPortable m → All (Survives http_headers default_headers) m
http-items [] h = tt
http-items (item ∷ m) (hi, hm) = (http-Survives item hi, http-items m hm)

-- With the default header names, extraction from the HTTP headers that injection wrote gives the
-- context back, but for its debug ID and trace state, and counts no decoding error. The fields
-- have the widths of their types, the trace ID is valid, the keys of the baggage differ and have
-- no upper case, and its values have bytes from 16 to 127.
pub jaeger_http_headers_round_trip :
    (ctx : SpanContext)
    → IsBounded ctx
    → TraceId.is_valid ctx.trace_id ≡ true
    → HasUniqueKeys ctx.baggage
    → All IsPortable ctx.baggage
    → jaeger_extract http_headers default_headers (do_inject http_headers default_headers ctx)
      ≡ (record ctx { debug_id = []; trace_state = [] }, 0)
unfolding headers_config bytes_eq to_lower
jaeger_http_headers_round_trip ctx b v u p =
    jaeger_extract-do_inject http_headers default_headers ctx b v u (record {
      context_key = refl;
      context_value = unescape_plain _ (print-IsPlain ctx b);
      context_not_debug = refl;
      items = http-items ctx.baggage p;
    })
