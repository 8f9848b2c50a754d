-- ===== src/Propagation/Tests.antt =====
-- Runs of the theorems on the propagators.
use jaeger_client_cpp.Base.{
  ◌<◌, ◌≤◌, ◌^◌, ◌≡◌, ◌≢◌, refl, ap, bit_or, true, false≢true, inl, inr, [], ◌∷◌, ◌++◌, arith, All,
  Any, codes, bytes_eq, length,
}
use mathlib.Core.List.{reverse}
use jaeger_client_cpp.Hex.{good}
use jaeger_client_cpp.SpanContext.{empty, is_sampled, is_debug}
use jaeger_client_cpp.SpanContext.Colons.{colons}
use jaeger_client_cpp.SpanContext.Samples.{
  two_items, two_items-HasUniqueKeys, sampled_ctx, sampled_ctx-IsBounded, sampled_ctx_valid,
}
use jaeger_client_cpp.Propagation.Carrier.{
  Carrier, for_each_key, headers_config, extract, text_map, http_headers, to_lower,
}
use jaeger_client_cpp.Propagation.DebugId.{extract-debug}
use jaeger_client_cpp.Propagation.Jaeger
use jaeger_client_cpp.Propagation.Jaeger.Failure.{
  IsIncomplete, IsDebugHeader, jaeger_extract-IsIncomplete,
}
use jaeger_client_cpp.Propagation.Jaeger.Formats.{
  default_headers, IsPlain, IsPortable, jaeger_text_map_round_trip, jaeger_http_headers_round_trip,
}
use jaeger_client_cpp.Propagation.W3c
use jaeger_client_cpp.Propagation.W3c.Formats.{w3c_text_map_round_trip, w3c_http_headers_round_trip}
use jaeger_client_cpp.Propagation.Binary.{
  Endian, little, big, write_loop, of_bytes, write_binary, read_binary,
}
use jaeger_client_cpp.Propagation.Binary
use jaeger_client_cpp.Propagation.Binary.Numbers.{read_binary-other_host}
use jaeger_client_cpp.Propagation.Binary.Truncated.{extract-truncated}
use jaeger_client_cpp.Propagation.Binary.RoundTrip.{IsShort, extract-inject}

jaeger_text_map_round_trip_example :
    Jaeger.jaeger_extract text_map default_headers
      (Jaeger.do_inject text_map default_headers sampled_ctx)
    ≡ (record sampled_ctx { debug_id = []; trace_state = [] }, 0)
jaeger_text_map_round_trip_example =
    jaeger_text_map_round_trip sampled_ctx sampled_ctx-IsBounded sampled_ctx_valid
      two_items-HasUniqueKeys

two_items-IsPortable : All IsPortable two_items
unfolding to_lower
two_items-IsPortable = ground arith

jaeger_http_headers_round_trip_example :
    Jaeger.jaeger_extract http_headers default_headers
      (Jaeger.do_inject http_headers default_headers sampled_ctx)
    ≡ (record sampled_ctx { debug_id = []; trace_state = [] }, 0)
jaeger_http_headers_round_trip_example =
    jaeger_http_headers_round_trip sampled_ctx sampled_ctx-IsBounded sampled_ctx_valid
      two_items-HasUniqueKeys two_items-IsPortable

abbrev corrupt_headers : Carrier
corrupt_headers = (codes "uberctx-a", codes "b") ∷ (codes "uber-trace-id", codes "1:2") ∷ []

corrupt_headers-IsIncomplete : Any (IsIncomplete text_map default_headers) corrupt_headers
unfolding colons bytes_eq headers_config
corrupt_headers-IsIncomplete = inr (inl (refl, omega arith))

corrupt_headers_not_debug : ¬ Any (IsDebugHeader text_map default_headers) corrupt_headers
unfolding bytes_eq headers_config
corrupt_headers_not_debug (inl e) = absurd (false≢true e)
corrupt_headers_not_debug (inr (inl e)) = absurd (false≢true e)
corrupt_headers_not_debug (inr (inr h)) = absurd h

jaeger_extract-IsIncomplete_example :
    Jaeger.jaeger_extract text_map default_headers corrupt_headers ≡ (empty, 1)
jaeger_extract-IsIncomplete_example =
    jaeger_extract-IsIncomplete text_map default_headers corrupt_headers
      corrupt_headers-IsIncomplete corrupt_headers_not_debug

w3c_text_map_round_trip_example :
    W3c.w3c_extract text_map default_headers (W3c.do_inject sampled_ctx)
    ≡ (record sampled_ctx { parent_id = 0; baggage = []; debug_id = [] }, 0)
w3c_text_map_round_trip_example =
    w3c_text_map_round_trip sampled_ctx sampled_ctx-IsBounded sampled_ctx_valid

state-IsPlain : IsPlain sampled_ctx.trace_state
state-IsPlain = ground arith

w3c_http_headers_round_trip_example :
    W3c.w3c_extract http_headers default_headers (W3c.do_inject sampled_ctx)
    ≡ (record sampled_ctx { parent_id = 0; baggage = []; debug_id = [] }, 0)
w3c_http_headers_round_trip_example =
    w3c_http_headers_round_trip sampled_ctx sampled_ctx-IsBounded sampled_ctx_valid state-IsPlain

two_items_few : length two_items < 2 ^ 32
two_items_few = omega arith

two_items-IsShort : All IsShort two_items
two_items-IsShort = ((omega arith, omega arith), ((omega arith, omega arith), tt))

extract-inject_example :
    Binary.extract little (good (Binary.inject little sampled_ctx))
    ≡ (record sampled_ctx { debug_id = []; trace_state = [] }, 0)
extract-inject_example =
    extract-inject little sampled_ctx sampled_ctx-IsBounded two_items-HasUniqueKeys two_items_few
      two_items-IsShort

one_small : 1 < 256 ^ 4
one_small = omega arith

read_binary-other_host_example :
    read_binary big 4 (good (write_binary little 4 1 ++ []))
    ≡ (of_bytes 0 (reverse (write_loop 4 1)), good [])
read_binary-other_host_example = read_binary-other_host 4 1 [] one_small

-- What the other host reads in place of 1.
reversed_one : of_bytes 0 (reverse (write_loop 4 1)) ≡ 2 ^ 24
unfolding of_bytes write_loop
reversed_one = refl

abbrev debug_headers : Carrier
debug_headers = (codes "jaeger-debug-id", codes "d1") ∷ []

not_blank : codes "d1" ≢ []
not_blank e = ground (arith, ap length e)

few_flags : (Jaeger.do_extract text_map default_headers debug_headers).0.flags < 256
unfolding Jaeger.do_extract for_each_key Jaeger.visit headers_config bytes_eq Jaeger.has_prefix
few_flags = omega arith

is_debug_key :
    bytes_eq (text_map.normalize_key (codes "jaeger-debug-id")) default_headers.jaeger_debug_header
    ≡ true
unfolding headers_config bytes_eq
is_debug_key = refl

extract-debug_example :
    let found = Jaeger.do_extract text_map default_headers debug_headers in
    let (ctx, errors) =
      extract text_map default_headers (Jaeger.do_extract text_map default_headers) debug_headers in
    (ctx ≡ record found.0 { flags = bit_or found.0.flags 3; debug_id = codes "d1" })
    × (is_sampled ctx ≡ true)
    × (is_debug ctx ≡ true)
    × (errors ≡ found.1)
extract-debug_example =
    extract-debug text_map default_headers (Jaeger.do_extract text_map default_headers) [] []
      (codes "jaeger-debug-id") (codes "d1") is_debug_key tt not_blank few_flags

cut_off : length (codes "0123456789") ≤ 33
cut_off = omega arith

extract-truncated_example : (Binary.extract big (good (codes "0123456789"))).1 ≡ 0
extract-truncated_example = extract-truncated big (codes "0123456789") cut_off
