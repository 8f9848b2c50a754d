-- ===== src/Propagation/Carrier.antt =====
-- HeadersConfig.h, the virtual functions of `Propagator`, and its `extract`.
use jaeger_client_cpp.Base.{
  ℕ, ◌+◌, bit_or, not, ◌&&◌, Option, none, some, List, [], ◌∷◌, ◌≡◌, ◌↔◌, Any, Option-cases, inl,
  inr, Bytes, codes, bytes_eq, leb, if◌then◌else◌, is_empty, map,
}
use jaeger_client_cpp.Uri.{query_escape, query_unescape}
use jaeger_client_cpp.TraceId
use jaeger_client_cpp.SpanContext.{SpanContext, empty}

pub record HeadersConfig : Type 0 where
  pub jaeger_debug_header : Bytes
  pub jaeger_baggage_header : Bytes
  pub trace_context_header_name : Bytes
  pub trace_baggage_header_prefix : Bytes

unfoldable pub or_default : Bytes → Bytes → Bytes
or_default s default = if is_empty s then default else s

-- The constructor: an empty name stands for the default one.
unfoldable pub headers_config : Bytes → Bytes → Bytes → Bytes → HeadersConfig
unfolding or_default
headers_config debug baggage context prefix = record {
  jaeger_debug_header = or_default debug (codes "jaeger-debug-id");
  jaeger_baggage_header = or_default baggage (codes "jaeger-baggage");
  trace_context_header_name = or_default context (codes "uber-trace-id");
  trace_baggage_header_prefix = or_default prefix (codes "uberctx-");
}

abbrev pub Carrier : Type 0
Carrier = List (Bytes × Bytes)

-- `encodeValue`, `decodeValue` and `normalizeKey`.
pub record Codec : Type 0 where
  pub encode_value : Bytes → Bytes
  pub decode_value : Bytes → Bytes
  pub normalize_key : Bytes → Bytes

-- `std::tolower` of the C locale.
unfoldable pub to_lower : ℕ → ℕ
to_lower ch = if leb b'A' ch && leb ch b'Z' then ch + 32 else ch

-- The text map propagators override nothing.
abbrev pub text_map : Codec
text_map = record { encode_value = λ s. s; decode_value = λ s. s; normalize_key = λ s. s }

abbrev pub http_headers : Codec
http_headers = record {
  encode_value = query_escape;
  decode_value = query_unescape;
  normalize_key = map to_lower;
}

-- `ForeachKey`: the callback's captured variables are threaded, and its first error, `none`, ends
-- the iteration.
unfoldable pub for_each_key : {S : Type 0} → (Bytes → Bytes → S → Option S) → Carrier → S → Option S
for_each_key f [] s = some s
for_each_key f ((key, value) ∷ rest) s = elim (f key value s) [
  | none ↦ none
  | some s' ↦ for_each_key f rest s'
]

pub for_each_key_step :
    {S : Type 0} (f : Bytes → Bytes → S → Option S) (key value : Bytes) (rest : Carrier) (s s' : S)
    → f key value s ≡ some s'
    → for_each_key f ((key, value) ∷ rest) s ≡ for_each_key f rest s'
unfolding for_each_key
for_each_key_step f key value rest s s' e = rw (e, for_each_key)

none-ne-some : {S : Type 0} {o : Option S} {a : S} → o ≡ none → o ≡ some a → ⊥
none-ne-some e h = cc

-- The iteration fails if and only if some pair makes the callback fail.
pub for_each_key-none :
    {S : Type 0} (f : Bytes → Bytes → S → Option S) (Bad : Bytes × Bytes → Type 0)
    → ((key value : Bytes) (s : S) → (f key value s ≡ none) ↔ Bad (key, value))
    → (reader : Carrier) (s : S) → (for_each_key f reader s ≡ none) ↔ Any Bad reader
unfolding for_each_key
for_each_key-none f Bad bad [] s = (λ e. cc, λ h. absurd h)
for_each_key-none f Bad bad ((key, value) ∷ rest) s = elim (Option-cases (f key value s)) [
  | inl e ↦ (λ _. inl ((bad key value s).0 e), λ _. rw (e, for_each_key))
  | inr (s', e) ↦ rw (for_each_key_step f key value rest s s' e) (
    λ h. inr ((for_each_key-none f Bad bad rest s').0 h),
    elim [
      | inl b ↦ absurd (none-ne-some ((bad key value s).1 b) e)
      | inr b ↦ (for_each_key-none f Bad bad rest s').1 b
    ],
  )
]

-- The callback that looks for the debug ID.
unfoldable pub find_debug_id : Codec → HeadersConfig → Bytes → Bytes → Bytes → Option Bytes
find_debug_id c hc raw_key value debug_id =
    if bytes_eq (c.normalize_key raw_key) hc.jaeger_debug_header then some value else some debug_id

abbrev pub or_none : Option Bytes → Bytes
or_none none = []
or_none (some s) = s

-- What `extract` makes of the debug ID and of the context that `doExtract` returned.
unfoldable pub combine : Bytes → SpanContext → SpanContext
combine debug_id ctx =
    if not (TraceId.is_valid ctx.trace_id) && is_empty ctx.baggage && is_empty debug_id
    then empty
    else record ctx {
      flags = if is_empty debug_id then ctx.flags else bit_or ctx.flags 3;
      debug_id = debug_id;
    }

-- `extract`, over the format's `doExtract`, which also counts its decoding errors.
unfoldable pub extract :
    Codec → HeadersConfig → (Carrier → SpanContext × ℕ) → Carrier → SpanContext × ℕ
unfolding find_debug_id combine
extract c hc do_extract reader =
    let debug_id = or_none (for_each_key (find_debug_id c hc) reader []) in
    let (ctx, errors) = do_extract reader in (combine debug_id ctx, errors)
