-- ===== src/Propagation/Jaeger/Failure.antt =====
-- When extraction fails.
use jaeger_client_cpp.Base.{
  ◌<◌, ◌≡◌, refl, ap, ◌∙◌, true, Option, none, some, [], ◌∷◌, Bytes, Any, bytes_eq, Bool-cases,
  Option-cases, inl, inr,
}
use jaeger_client_cpp.Hex.{good, has_failed}
use jaeger_client_cpp.TraceId
use jaeger_client_cpp.TraceId.{trace_eq}
use jaeger_client_cpp.SpanContext.{empty, context_eq, map_eq, from_stream}
use jaeger_client_cpp.SpanContext.Colons.{colons, from_stream-colons}
use jaeger_client_cpp.Propagation.Carrier.{
  HeadersConfig, Codec, Carrier, for_each_key, find_debug_id, combine, extract,
}
use jaeger_client_cpp.Propagation.Jaeger.{Found, read_context, visit, do_extract, jaeger_extract}

is_empty_context : context_eq empty empty ≡ true
unfolding context_eq map_eq trace_eq bytes_eq
is_empty_context = refl

read_context-colons : (value : Bytes) → colons value < 3 → read_context value ≡ none
unfolding read_context
read_context-colons value few =
    let (ctx, rest) = from_stream (good value) in
    let same : context_eq ctx empty ≡ true =
      ap (λ c. context_eq c empty) (from_stream-colons value few) ∙ is_empty_context in
    elim (Bool-cases (has_failed rest)) [ inl e ↦ rw e refl | inr e ↦ rw (e, same) refl ]

-- The iteration fails if some pair makes the callback fail.
for_each_key-fails :
    {S : Type 0} (f : Bytes → Bytes → S → Option S) (Bad : Bytes × Bytes → Type 0)
    → ((key value : Bytes) (s : S) → Bad (key, value) → f key value s ≡ none)
    → (reader : Carrier) (s : S) → Any Bad reader
    → for_each_key f reader s ≡ none
unfolding for_each_key
for_each_key-fails f Bad bad [] s h = absurd h
for_each_key-fails f Bad bad ((key, value) ∷ rest) s (inl h) =
    rw (bad key value s h, for_each_key) refl
for_each_key-fails f Bad bad ((key, value) ∷ rest) s (inr h) = elim (Option-cases (f key value s)) [
  | inl e ↦ rw (e, for_each_key) refl
  | inr (s', e) ↦ rw (e, for_each_key) (for_each_key-fails f Bad bad rest s' h)
]

module _ (c : Codec) (hc : HeadersConfig) where
  -- The context's header with a decoded value of fewer than three colons.
  abbrev pub IsIncomplete : Bytes × Bytes → Type 0
  IsIncomplete item =
      (bytes_eq (c.normalize_key item.0) hc.trace_context_header_name ≡ true)
      × (colons (c.decode_value item.1) < 3)

  abbrev pub IsDebugHeader : Bytes × Bytes → Type 0
  IsDebugHeader item = bytes_eq (c.normalize_key item.0) hc.jaeger_debug_header ≡ true

  visit-IsIncomplete :
      (key value : Bytes) (found : Found)
      → IsIncomplete (key, value)
      → visit c hc key value found ≡ none
  unfolding visit
  visit-IsIncomplete key value found (named, few) =
      rw (named, read_context-colons (c.decode_value value) few) refl

  find_debug_id-nothing :
      (reader : Carrier)
      → ¬ Any IsDebugHeader reader
      → for_each_key (find_debug_id c hc) reader [] ≡ some []
  unfolding for_each_key find_debug_id
  find_debug_id-nothing [] h = refl
  find_debug_id-nothing ((key, value) ∷ rest) h =
      elim (Bool-cases (bytes_eq (c.normalize_key key) hc.jaeger_debug_header)) [
        | inl e ↦ absurd (h (inl e))
        | inr e ↦ rw (e, for_each_key) (find_debug_id-nothing rest (λ k. h (inr k)))
      ]

  combine_nothing : combine [] empty ≡ empty
  unfolding combine TraceId.is_valid
  combine_nothing = refl

  do_extract-IsIncomplete :
      (reader : Carrier) → Any IsIncomplete reader → do_extract c hc reader ≡ (empty, 1)
  unfolding do_extract
  do_extract-IsIncomplete reader h =
      let start : Found = record { ctx = empty; baggage = [] } in
      rw
        (for_each_key-fails (visit c hc) IsIncomplete visit-IsIncomplete reader start h, do_extract)
        refl

  -- If some pair is the context's header and its decoded value has fewer than three colons, wherever it
  -- stands among the pairs, and no pair is a debug header, extraction gives the empty context and counts
  -- one decoding error.
  pub jaeger_extract-IsIncomplete :
      (reader : Carrier)
      → Any IsIncomplete reader
      → ¬ Any IsDebugHeader reader
      → jaeger_extract c hc reader ≡ (empty, 1)
  unfolding jaeger_extract extract
  jaeger_extract-IsIncomplete reader short no_debug =
      let fails = do_extract-IsIncomplete reader short in
      rw (find_debug_id-nothing reader no_debug, fails) (ap (λ ctx. (ctx, 1)) combine_nothing)
