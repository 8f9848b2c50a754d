-- ===== src/SpanContext/Equality.antt =====
-- `operator==` of span contexts.
use jaeger_client_cpp.Base.{
  ◌≡◌, refl, ◌↔◌, true, false, false≢true, [], ◌∷◌, arith, Bytes, bytes_eq, bytes_eq_iff, length,
  bytes_eq_self, lookup, HasUniqueKeys, none, some, suc, sym, ◌∙◌, ap, if◌then◌else◌, Bool-cases,
  Option-cases, inl, inr,
}
use jaeger_client_cpp.TraceId.{TraceId, no_trace, trace_eq}
use jaeger_client_cpp.TraceId
use jaeger_client_cpp.SpanContext.{SpanContext, StrMap, empty, all_found, map_eq, context_eq}

map_eq-nil : (m : StrMap) → map_eq m [] ≡ true → m ≡ []
unfolding map_eq
map_eq-nil [] h = refl
map_eq-nil (x ∷ m) h = ground arith

-- The test against `SpanContext()` holds of the empty context only.
pub context_eq-empty : (ctx : SpanContext) → (context_eq ctx empty ≡ true) ↔ (ctx ≡ empty)
unfolding context_eq trace_eq
context_eq-empty ctx = (
  λ h. ground (
    arith,
    map_eq-nil ctx.baggage,
    bytes_eq_iff ctx.debug_id [],
    bytes_eq_iff ctx.trace_state [],
  ),
  λ e. rw e (unfold map_eq all_found bytes_eq in refl),
)

no_trace_invalid : TraceId.is_valid no_trace ≡ false
unfolding TraceId.is_valid
no_trace_invalid = refl

-- A context with a valid trace ID is not the empty one.
pub context_ne_empty :
    (ctx : SpanContext) → TraceId.is_valid ctx.trace_id ≡ true → context_eq ctx empty ≡ false
context_ne_empty ctx v = elim (Bool-cases (context_eq ctx empty)) [
  | inl e ↦ absurd (
      false≢true (
        sym (
          ap (λ (c : SpanContext). TraceId.is_valid c.trace_id) ((context_eq-empty ctx).0 e)
          ∙ no_trace_invalid)
        ∙ v))
  | inr e ↦ e
]

bytes_eq_sym : (s t : Bytes) → bytes_eq s t ≡ false → bytes_eq t s ≡ false
bytes_eq_sym s t h = ground (arith, bytes_eq_iff s t, bytes_eq_iff t s)

-- A map without one key.
erase : Bytes → StrMap → StrMap
erase k [] = []
erase k ((j, v) ∷ m) = if bytes_eq j k then m else (j, v) ∷ erase k m

lookup-erase_ne :
    (k j : Bytes) (m : StrMap) → bytes_eq k j ≡ false → lookup j (erase k m) ≡ lookup j m
unfolding erase lookup
lookup-erase_ne k j [] h = refl
lookup-erase_ne k j ((i, v) ∷ m) h =
    ground (arith, bytes_eq_iff i k, bytes_eq_iff i j, bytes_eq_iff k j, lookup-erase_ne k j m h)

erase-HasUniqueKeys : (k : Bytes) (m : StrMap) → HasUniqueKeys m → HasUniqueKeys (erase k m)
unfolding erase
erase-HasUniqueKeys k [] h = tt
erase-HasUniqueKeys k ((j, v) ∷ m) (hj, hm) = elim (Bool-cases (bytes_eq j k)) [
  | inl e ↦ rw e hm
  | inr e ↦ rw e (lookup-erase_ne k j m (bytes_eq_sym j k e) ∙ hj, erase-HasUniqueKeys k m hm)
]

lookup-erase_self : (k : Bytes) (m : StrMap) → HasUniqueKeys m → lookup k (erase k m) ≡ none
unfolding erase lookup
lookup-erase_self k [] h = refl
lookup-erase_self k ((j, v) ∷ m) (hj, hm) =
    ground (arith, bytes_eq_iff j k, lookup-erase_self k m hm)

length-erase :
    (k : Bytes) (m : StrMap) (v : Bytes) → lookup k m ≡ some v → length m ≡ suc (length (erase k m))
unfolding erase lookup
length-erase k [] v h = cc
length-erase k ((j, w) ∷ m) v h = ground (arith, length-erase k m v)

-- Two maps that agree at every key.
abbrev pub SameItems : StrMap → StrMap → Type 0
SameItems m n = (k : Bytes) → lookup k m ≡ lookup k n

all_found-erase :
    (k : Bytes) (m n : StrMap) → lookup k m ≡ none → all_found m (erase k n) ≡ all_found m n
unfolding all_found lookup
all_found-erase k [] n h = refl
all_found-erase k ((j, v) ∷ m) n h =
    ground (arith, lookup-erase_ne k j n, bytes_eq_iff j k, bytes_eq_iff k j, all_found-erase k m n)

-- The first item is found, and so are the others.
found_first :
    (j v : Bytes) (m n : StrMap)
    → all_found ((j, v) ∷ m) n ≡ true
    → (lookup j n ≡ some v) × (all_found m n ≡ true)
unfolding all_found
found_first j v m n e = elim (Option-cases (lookup j n)) [
  | inl h ↦ absurd (false≢true (ground (arith, h)))
  | inr (w, h) ↦ (ground (arith, h, bytes_eq_iff v w), ground (arith, h))
]

all_found-SameItems :
    (m n : StrMap)
    → HasUniqueKeys m
    → HasUniqueKeys n
    → length m ≡ length n
    → all_found m n ≡ true
    → SameItems m n
unfolding lookup
all_found-SameItems [] [] hm hn l e k = refl
all_found-SameItems [] (x ∷ n) hm hn l e k = absurd (omega arith)
all_found-SameItems ((j, v) ∷ m) n (hj, hm) hn l e k =
    let (here, rest) = found_first j v m n e in
    let ih =
      all_found-SameItems m (erase j n) hm (erase-HasUniqueKeys j n hn)
        (omega (arith, length-erase j n v here)) (all_found-erase j m n hj ∙ rest) k in
    ground (arith, bytes_eq_iff j k, lookup-erase_ne j k n)

SameItems-all_found :
    (m n : StrMap)
    → HasUniqueKeys m
    → HasUniqueKeys n
    → SameItems m n
    → (length m ≡ length n) × (all_found m n ≡ true)
unfolding lookup all_found
SameItems-all_found [] [] hm hn same = (refl, refl)
SameItems-all_found [] ((i, w) ∷ n) hm hn same =
    absurd (false≢true (ground (arith, same i, bytes_eq_self i)))
SameItems-all_found ((j, v) ∷ m) n (hj, hm) hn same =
    let here : lookup j n ≡ some v = ground (arith, same j, bytes_eq_self j) in
    let (as_long, found) = SameItems-all_found m (erase j n) hm (erase-HasUniqueKeys j n hn) (λ k.
      ground (arith, same k, bytes_eq_iff j k, lookup-erase_ne j k n, lookup-erase_self j n hn)) in
    (
      omega (arith, length-erase j n v here),
      ground (arith, here, bytes_eq_self v, all_found-erase j m n hj),
    )

-- Contexts that hold the same, whatever the order of the baggage.
pub record IsSame (a b : SpanContext) : Type 0 where
  pub trace_ids : a.trace_id ≡ b.trace_id
  pub span_ids : a.span_id ≡ b.span_id
  pub parent_ids : a.parent_id ≡ b.parent_id
  pub flag_bytes : a.flags ≡ b.flags
  pub items : SameItems a.baggage b.baggage
  pub debug_ids : a.debug_id ≡ b.debug_id
  pub trace_states : a.trace_state ≡ b.trace_state

trace_eq_iff : (s t : TraceId) → (trace_eq s t ≡ true) ↔ (s ≡ t)
unfolding trace_eq
trace_eq_iff s t = ground arith

map_eq_iff :
    (m n : StrMap) → HasUniqueKeys m → HasUniqueKeys n → (map_eq m n ≡ true) ↔ SameItems m n
unfolding map_eq
map_eq_iff m n hm hn = (
  λ h. all_found-SameItems m n hm hn (ground arith) (ground arith),
  λ same. ground (arith, SameItems-all_found m n hm hn same),
)

-- `operator==` of contexts whose baggage has no key twice decides that they agree in every field,
-- whatever the order of the baggage.
pub context_eq_iff :
    (a b : SpanContext)
    → HasUniqueKeys a.baggage
    → HasUniqueKeys b.baggage
    → (context_eq a b ≡ true) ↔ IsSame a b
unfolding context_eq
context_eq_iff a b ha hb = (
  λ h. record {
    trace_ids = ground (arith, trace_eq_iff a.trace_id b.trace_id);
    span_ids = ground arith;
    parent_ids = ground arith;
    flag_bytes = ground arith;
    items = (map_eq_iff a.baggage b.baggage ha hb).0 (ground arith);
    debug_ids = ground (arith, bytes_eq_iff a.debug_id b.debug_id);
    trace_states = ground (arith, bytes_eq_iff a.trace_state b.trace_state);
  },
  λ s. ground (
    arith,
    (map_eq_iff a.baggage b.baggage ha hb).1 s.items,
    trace_eq_iff a.trace_id b.trace_id,
    bytes_eq_iff a.debug_id b.debug_id,
    bytes_eq_iff a.trace_state b.trace_state,
  ),
)
