-- ===== src/Propagation/Binary/RoundTrip.antt =====
-- A span context through `BinaryPropagator`, between hosts of one byte order.
use jaeger_client_cpp.Base.{
  ℕ, suc, ◌%◌, ◌^◌, ◌<◌, ◌≡◌, refl, sym, ap, ◌∙◌, some, [], ◌∷◌, ◌++◌, append_assoc, append-nil,
  arith, Bytes, length, length-append, take-append, drop-append, All, insert, insert_new,
  unique_front, HasUniqueKeys,
}
use jaeger_client_cpp.Hex.{Stream, good}
use jaeger_client_cpp.SpanContext.{SpanContext, StrMap, IsBounded}
use jaeger_client_cpp.Propagation.Binary.{
  Endian, write_binary, read_binary, get_or_zero, read_text, write_text, write_items, inject,
  read_sized, read_items, extract, and_then,
}
use jaeger_client_cpp.Propagation.Binary.Numbers.{read_binary-write_binary}

read_text-append : (t rest : Bytes) → read_text (length t) (good (t ++ rest)) ≡ (some t, good rest)
unfolding read_text
read_text-append t rest =
    rw (take-append t rest (length t) refl, drop-append t rest (length t) refl)
      (ground (arith, length-append t rest))

-- Both texts of an item have a length that 32 bits hold.
abbrev pub IsShort : Bytes × Bytes → Type 0
IsShort item = (length item.0 < 2 ^ 32) × (length item.1 < 2 ^ 32)

read_sized-write_text :
    (e : Endian) (t rest : Bytes)
    → length t < 2 ^ 32
    → read_sized e (good (write_text e t ++ rest)) ≡ (some t, good rest)
unfolding write_text read_sized
read_sized-write_text e t rest h =
    let fits : length t % 2 ^ 32 ≡ length t = omega arith in
    rw
      (
        fits,
        append_assoc (write_binary e 4 (length t)) t rest,
        read_sized,
        read_binary-write_binary e 4 (length t) (t ++ rest) (omega arith),
      )
      (read_text-append t rest)

and_then-at :
    {A B : Type 0} {r : A × Stream} {value : A} {after : Stream} (next : A → Stream → B)
    → r ≡ (value, after)
    → and_then r next ≡ next value after
unfolding and_then
and_then-at next h = ap (λ r. and_then r next) h

read_items-item :
    (e : Endian) (left : ℕ) (s s1 s2 : Stream) (k v : Bytes) (baggage : StrMap)
    → read_sized e s ≡ (some k, s1)
    → read_sized e s1 ≡ (some v, s2)
    → read_items e (suc left) s baggage ≡ read_items e left s2 (insert k v baggage)
unfolding read_items
read_items-item e left s s1 s2 k v baggage h1 h2 = and_then-at _ h1 ∙ and_then-at _ h2

read_items-write_items :
    (e : Endian) (items baggage : StrMap)
    → All IsShort items
    → HasUniqueKeys (baggage ++ items)
    → read_items e (length items) (good (write_items e items)) baggage ≡ some (baggage ++ items)
unfolding read_items write_items
read_items-write_items e [] baggage s u = ap some (sym (append-nil baggage))
read_items-write_items e ((k, v) ∷ items) baggage (s, ss) u =
    let regroup = append_assoc baggage ((k, v) ∷ []) items in
    let step =
      read_items-item e (length items) _ _ _ k v baggage
        (read_sized-write_text e k (write_text e v ++ write_items e items) s.0)
        (read_sized-write_text e v (write_items e items) s.1) in
    step
    ∙ rw (insert_new k v baggage (unique_front k v baggage items u)) (
        read_items-write_items e items (baggage ++ (k, v) ∷ []) ss (rw regroup u) ∙ ap some regroup)

-- `extract` by the results of its reads.
extract-reads :
    (e : Endian) (ctx : SpanContext) (count : ℕ) (s s1 s2 s3 s4 s5 s6 : Stream)
    → read_binary e 8 s ≡ (ctx.trace_id.high, s1)
    → read_binary e 8 s1 ≡ (ctx.trace_id.low, s2)
    → read_binary e 8 s2 ≡ (ctx.span_id, s3)
    → read_binary e 8 s3 ≡ (ctx.parent_id, s4)
    → get_or_zero s4 ≡ (ctx.flags, s5)
    → read_binary e 4 s5 ≡ (count, s6)
    → read_items e count s6 [] ≡ some ctx.baggage
    → extract e s ≡ (record ctx { debug_id = []; trace_state = [] }, 0)
unfolding extract
extract-reads e ctx count s s1 s2 s3 s4 s5 s6 h1 h2 h3 h4 h5 h6 h7 =
    and_then-at _ h1
    ∙ and_then-at _ h2
    ∙ and_then-at _ h3
    ∙ and_then-at _ h4
    ∙ and_then-at _ h5
    ∙ and_then-at _ h6
    ∙ rw h7 refl

-- What `inject` writes, `extract` reads on every host of the same byte order: all fields but the
-- debug ID and the trace state, with no decoding error. The fields have the widths of their types
-- and the keys of the baggage differ. The baggage may have any bytes, but no more items, and no
-- longer texts, than 32 bits count.
pub extract-inject :
    (e : Endian) (ctx : SpanContext)
    → IsBounded ctx
    → HasUniqueKeys ctx.baggage
    → length ctx.baggage < 2 ^ 32
    → All IsShort ctx.baggage
    → extract e (good (inject e ctx)) ≡ (record ctx { debug_id = []; trace_state = [] }, 0)
unfolding inject get_or_zero
extract-inject e ctx b u n s =
    let fits : length ctx.baggage % 2 ^ 32 ≡ length ctx.baggage = omega arith in
    extract-reads e ctx (length ctx.baggage) _ _ _ _ _ _ _
      (read_binary-write_binary e 8 ctx.trace_id.high _ b.high_word)
      (read_binary-write_binary e 8 ctx.trace_id.low _ b.low_word)
      (read_binary-write_binary e 8 ctx.span_id _ b.span_word)
      (read_binary-write_binary e 8 ctx.parent_id _ b.parent_word) refl
      (rw fits (
        read_binary-write_binary e 4 (length ctx.baggage) (write_items e ctx.baggage)
          (omega arith)))
      (read_items-write_items e ctx.baggage [] s u)
