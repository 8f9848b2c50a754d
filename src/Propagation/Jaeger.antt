-- ===== src/Propagation/Jaeger.antt =====
-- propagation/JaegerPropagator.h.
pub mod Failure
pub mod RoundTrip
pub mod Formats
use jaeger_client_cpp.Base.{
  ℕ, Bool, true, false, not, ◌&&◌, ◌||◌, Option, none, some, List, [], ◌∷◌, ◌++◌, map, Bytes, ◌==◌,
  bytes_eq, leb, if◌then◌else◌, length, take, drop, is_empty, insert,
}
use jaeger_client_cpp.Hex.{Stream, good, has_failed}
use jaeger_client_cpp.Uri.{query_unescape}
use jaeger_client_cpp.SpanContext
use jaeger_client_cpp.SpanContext.{SpanContext, StrMap, empty, from_stream, context_eq}
use jaeger_client_cpp.Propagation.Carrier.{HeadersConfig, Carrier, Codec, for_each_key, extract}

-- The pieces that `std::getline(iss, piece, ',')` gives; there is no empty piece at the end.
unfoldable pub get_lines : Bytes → Bytes → List Bytes
get_lines piece [] = if is_empty piece then [] else piece ∷ []
get_lines piece (ch ∷ rest) = elim (ch == b',') [
  | true ↦ piece ∷ get_lines [] rest
  | false ↦ get_lines (piece ++ ch ∷ []) rest
]

-- `piece.find('=')`, and the text before and behind it.
unfoldable pub split_pair : Bytes → Bytes → Option (Bytes × Bytes)
split_pair key [] = none
split_pair key (ch ∷ rest) = elim (ch == b'=') [
  | true ↦ some (key, rest)
  | false ↦ split_pair (key ++ ch ∷ []) rest
]

unfoldable pub insert_pieces : List Bytes → StrMap → StrMap
insert_pieces [] m = m
insert_pieces (piece ∷ pieces) m =
    insert_pieces pieces
      (elim (split_pair [] piece) [ none ↦ m | some (key, value) ↦ insert key value m ])

unfoldable pub parse_comma_separated_map : Bytes → StrMap
unfolding get_lines split_pair insert_pieces
parse_comma_separated_map escaped = insert_pieces (get_lines [] (query_unescape escaped)) []

-- `for (auto&& pair : pairs) baggage[pair.first] = pair.second;`
unfoldable pub insert_all : StrMap → StrMap → StrMap
insert_all [] baggage = baggage
insert_all ((key, value) ∷ pairs) baggage = insert_all pairs (insert key value baggage)

-- The variables that the callback of `doExtract` captures.
pub record Found : Type 0 where
  pub ctx : SpanContext
  pub baggage : StrMap

-- `iss >> ctx`, and the test of the stream and of the context.
unfoldable pub read_context : Bytes → Option SpanContext
read_context value =
    let (ctx, rest) = from_stream (good value) in
    if has_failed rest || context_eq ctx empty then none else some ctx

unfoldable pub has_prefix : Bytes → Bytes → Bool
has_prefix key prefix =
    leb (length prefix) (length key) && bytes_eq (take (length prefix) key) prefix

-- The callback of `doExtract`.
unfoldable pub visit : Codec → HeadersConfig → Bytes → Bytes → Found → Option Found
visit c hc raw_key value found =
    let key = c.normalize_key raw_key in
    if bytes_eq key hc.trace_context_header_name
    then elim (read_context (c.decode_value value)) [
      | none ↦ none
      | some ctx ↦ some (record found { ctx = ctx })
    ]
    else if bytes_eq key hc.jaeger_baggage_header
    then some
        (record found { baggage = insert_all (parse_comma_separated_map value) found.baggage })
    else if has_prefix key hc.trace_baggage_header_prefix
    then some (record found {
      baggage =
          insert (drop (length hc.trace_baggage_header_prefix) key) (c.decode_value value)
            found.baggage;
    })
    else some found

-- The context and the decoding errors counted.
unfoldable pub do_extract : Codec → HeadersConfig → Carrier → SpanContext × ℕ
do_extract c hc reader =
    elim (for_each_key (visit c hc) reader (record { ctx = empty; baggage = [] })) [
      | none ↦ (empty, 1)
      | some found ↦
          (record found.ctx { baggage = found.baggage; debug_id = []; trace_state = [] }, 0)
    ]

unfoldable pub do_inject : Codec → HeadersConfig → SpanContext → Carrier
do_inject c hc ctx =
    (hc.trace_context_header_name, SpanContext.print ctx)
    ∷ map
        (λ (item : Bytes × Bytes).
          (hc.trace_baggage_header_prefix ++ item.0, c.encode_value item.1))
        ctx.baggage

unfoldable pub jaeger_extract : Codec → HeadersConfig → Carrier → SpanContext × ℕ
jaeger_extract c hc = extract c hc (do_extract c hc)
