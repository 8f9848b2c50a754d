-- ===== src/Propagation/Jaeger/RoundTrip.antt =====
-- What `inject` writes is what `extract` reads, for any codec under which the pairs survive.
use jaeger_client_cpp.Base.{
  ◌≡◌, refl, sym, ap, ◌∙◌, true, false, some, [], ◌∷◌, ◌++◌, map, append_assoc, append-nil, arith,
  Bytes, bytes_eq, bytes_eq_self, length, length-append, take-append, drop-append, All, insert,
  insert_new, HasUniqueKeys, unique_front,
}
use jaeger_client_cpp.Hex.{has_failed}
use jaeger_client_cpp.TraceId
use jaeger_client_cpp.TraceId.{TraceId}
use jaeger_client_cpp.SpanContext
use jaeger_client_cpp.SpanContext.{SpanContext, StrMap, empty, from_stream, context_eq, IsBounded}
use jaeger_client_cpp.SpanContext.RoundTrip.{from_stream-print}
use jaeger_client_cpp.SpanContext.Equality.{context_ne_empty}
use jaeger_client_cpp.Propagation.Carrier.{
  HeadersConfig, Codec, for_each_key, for_each_key_step, find_debug_id, combine, or_none, extract,
}
use jaeger_client_cpp.Propagation.Jaeger.{
  Found, read_context, has_prefix, visit, do_extract, do_inject, jaeger_extract,
}

module _ (c : Codec) (hc : HeadersConfig) where
  abbrev header : Bytes → Bytes
  header key = hc.trace_baggage_header_prefix ++ key

  -- A baggage item whose header is told apart from the others and whose text the codec keeps.
  pub record Survives (item : Bytes × Bytes) : Type 0 where
    pub same_key : c.normalize_key (header item.0) ≡ header item.0
    pub same_value : c.decode_value (c.encode_value item.1) ≡ item.1
    pub not_context : bytes_eq (header item.0) hc.trace_context_header_name ≡ false
    pub not_baggage : bytes_eq (header item.0) hc.jaeger_baggage_header ≡ false
    pub not_debug : bytes_eq (header item.0) hc.jaeger_debug_header ≡ false

  -- So for the header of the context itself.
  pub record Carries (ctx : SpanContext) : Type 0 where
    pub context_key : c.normalize_key hc.trace_context_header_name ≡ hc.trace_context_header_name
    pub context_value : c.decode_value (SpanContext.print ctx) ≡ SpanContext.print ctx
    pub context_not_debug : bytes_eq hc.trace_context_header_name hc.jaeger_debug_header ≡ false
    pub items : All Survives ctx.baggage

  abbrev written : Bytes × Bytes → Bytes × Bytes
  written item = (header item.0, c.encode_value item.1)

  has_prefix-append : (p k : Bytes) → has_prefix (p ++ k) p ≡ true
  unfolding has_prefix
  has_prefix-append p k =
      rw (take-append p k (length p) refl, bytes_eq_self p) (ground (arith, length-append p k))

  visit-item :
      (item : Bytes × Bytes) (found : Found)
      → Survives item
      → visit c hc (header item.0) (c.encode_value item.1) found
        ≡ some (record found { baggage = insert item.0 item.1 found.baggage })
  unfolding visit
  visit-item item found s = rw (
    s.same_key,
    s.not_context,
    s.not_baggage,
    s.same_value,
    has_prefix-append hc.trace_baggage_header_prefix item.0,
    drop-append hc.trace_baggage_header_prefix item.0 (length hc.trace_baggage_header_prefix) refl,
  )

  visit-items :
      (items : StrMap) (found : Found)
      → All Survives items
      → HasUniqueKeys (found.baggage ++ items)
      → for_each_key (visit c hc) (map written items) found
        ≡ some (record found { baggage = found.baggage ++ items })
  unfolding for_each_key
  visit-items [] found s h =
      ap (λ b. some (record found { baggage = b })) (sym (append-nil found.baggage))
  visit-items ((k, v) ∷ items) found (s, ss) h =
      let grown : Found = record found { baggage = found.baggage ++ (k, v) ∷ [] } in
      let regroup = append_assoc found.baggage ((k, v) ∷ []) items in
      rw
        (
          visit-item (k, v) found s,
          insert_new k v found.baggage (unique_front k v found.baggage items h),
          for_each_key,
        )
        (visit-items items grown ss (rw regroup h)
          ∙ ap (λ b. some (record found { baggage = b })) regroup)

  find_debug_id-item :
      (item : Bytes × Bytes) (value debug_id : Bytes)
      → Survives item
      → find_debug_id c hc (header item.0) value debug_id ≡ some debug_id
  unfolding find_debug_id
  find_debug_id-item item value debug_id s = rw (s.same_key, s.not_debug)

  find_debug_id-items :
      (items : StrMap)
      → All Survives items
      → for_each_key (find_debug_id c hc) (map written items) [] ≡ some []
  unfolding for_each_key
  find_debug_id-items [] s = refl
  find_debug_id-items ((k, v) ∷ items) (s, ss) =
      rw (find_debug_id-item (k, v) (c.encode_value v) [] s, for_each_key)
        (find_debug_id-items items ss)

  -- What the text of a context stands for.
  abbrev bare : SpanContext → SpanContext
  bare ctx = record ctx { baggage = []; debug_id = []; trace_state = [] }

  read_context-print :
      (ctx : SpanContext)
      → IsBounded ctx
      → TraceId.is_valid ctx.trace_id ≡ true
      → read_context (SpanContext.print ctx) ≡ some (bare ctx)
  unfolding read_context has_failed
  read_context-print ctx b v = rw (from_stream-print ctx b v, context_ne_empty (bare ctx) v)

  module _ (ctx : SpanContext) (s : Carries ctx) where
    find_debug_id-context :
        find_debug_id c hc hc.trace_context_header_name (SpanContext.print ctx) [] ≡ some []
    unfolding find_debug_id
    find_debug_id-context = rw (s.context_key, s.context_not_debug)

    find_debug_id-written : or_none (for_each_key (find_debug_id c hc) (do_inject c hc ctx) []) ≡ []
    unfolding do_inject
    find_debug_id-written = ap or_none (
        for_each_key_step (find_debug_id c hc) _ _ _ [] [] find_debug_id-context
        ∙ find_debug_id-items ctx.baggage s.items)

    visit-context :
        (found : Found)
        → IsBounded ctx
        → TraceId.is_valid ctx.trace_id ≡ true
        → visit c hc hc.trace_context_header_name (SpanContext.print ctx) found
          ≡ some (record found { ctx = bare ctx })
    unfolding visit
    visit-context found b v = rw (
      s.context_key,
      bytes_eq_self hc.trace_context_header_name,
      s.context_value,
      read_context-print ctx b v,
    )

    visit-written :
        IsBounded ctx
        → TraceId.is_valid ctx.trace_id ≡ true
        → HasUniqueKeys ctx.baggage
        → for_each_key (visit c hc) (do_inject c hc ctx) (record { ctx = empty; baggage = [] })
          ≡ some (record { ctx = bare ctx; baggage = ctx.baggage })
    unfolding do_inject
    visit-written b v u =
        for_each_key_step (visit c hc) _ _ _ _ _
          (visit-context (record { ctx = empty; baggage = [] }) b v)
        ∙ visit-items ctx.baggage (record { ctx = bare ctx; baggage = [] }) s.items u

    do_extract-do_inject :
        IsBounded ctx
        → TraceId.is_valid ctx.trace_id ≡ true
        → HasUniqueKeys ctx.baggage
        → do_extract c hc (do_inject c hc ctx) ≡ (record ctx { debug_id = []; trace_state = [] }, 0)
    unfolding do_extract
    do_extract-do_inject b v u = rw (visit-written b v u, do_extract)

  -- What `inject` wrote is extracted again, without a decoding error: everything but the debug ID
  -- and the trace state, which the format does not carry.
  pub jaeger_extract-do_inject :
      (ctx : SpanContext)
      → IsBounded ctx
      → TraceId.is_valid ctx.trace_id ≡ true
      → HasUniqueKeys ctx.baggage
      → Carries ctx
      → jaeger_extract c hc (do_inject c hc ctx)
        ≡ (record ctx { debug_id = []; trace_state = [] }, 0)
  unfolding jaeger_extract extract combine
  jaeger_extract-do_inject ctx b v u s =
      rw (find_debug_id-written ctx s, do_extract-do_inject ctx s b v u, v)
