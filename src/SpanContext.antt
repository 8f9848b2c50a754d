-- ===== src/SpanContext.antt =====
-- SpanContext.h and SpanContext.cpp. The mutex guards the baggage only, and every operation below is
-- one critical section.
mod Tests
pub mod Samples
pub mod Flags
pub mod Colons
pub mod Equality
pub mod RoundTrip
pub mod Bounds
use jaeger_client_cpp.Base.{
  ℕ, ◌<◌, ◌^◌, bit_and, Bool, true, false, not, ◌&&◌, Option, none, some, List, [], ◌∷◌, ◌++◌,
  Bytes, ◌==◌, bytes_eq, if◌then◌else◌, length, is_empty, lookup, HasUniqueKeys,
}
use jaeger_client_cpp.Hex.{Stream, decode_hex, print_hex, set_width}
use jaeger_client_cpp.Hex.Parser.{Reader, ◌>>=◌, ◌>>◌, done, leave, expect, segment, clear_stream}
use jaeger_client_cpp.TraceId
use jaeger_client_cpp.TraceId.{TraceId, no_trace, trace_eq}

abbrev pub StrMap : Type 0
StrMap = List (Bytes × Bytes)

pub record SpanContext : Type 0 where
  pub trace_id : TraceId
  pub span_id : ℕ
  pub parent_id : ℕ
  pub flags : ℕ
  pub baggage : StrMap
  pub debug_id : Bytes
  pub trace_state : Bytes

-- `SpanContext()`
abbrev pub empty : SpanContext
empty = record {
  trace_id = no_trace;
  span_id = 0;
  parent_id = 0;
  flags = 0;
  baggage = [];
  debug_id = [];
  trace_state = [];
}

-- `Flag::kSampled` and `Flag::kDebug`
abbrev pub sampled_flag : ℕ
sampled_flag = 1

abbrev pub debug_flag : ℕ
debug_flag = 2

unfoldable pub with_baggage : SpanContext → StrMap → SpanContext
with_baggage ctx baggage = record ctx { baggage = baggage }

-- `forEachBaggageItem`: the callback's state is threaded, and its answer `false` ends the loop.
unfoldable pub for_each_item : {S : Type 0} → (Bytes → Bytes → S → S × Bool) → StrMap → S → S
for_each_item f [] s = s
for_each_item f ((k, v) ∷ rest) s =
    let (s', go_on) = f k v s in let more = for_each_item f rest s' in if go_on then more else s'

unfoldable pub is_sampled : SpanContext → Bool
is_sampled ctx = not (bit_and ctx.flags sampled_flag == 0)

unfoldable pub is_debug : SpanContext → Bool
is_debug ctx = not (bit_and ctx.flags debug_flag == 0)

unfoldable pub is_debug_id_container_only : SpanContext → Bool
unfolding TraceId.is_valid
is_debug_id_container_only ctx = not (TraceId.is_valid ctx.trace_id) && not (is_empty ctx.debug_id)

unfoldable pub is_valid : SpanContext → Bool
unfolding TraceId.is_valid
is_valid ctx = TraceId.is_valid ctx.trace_id && not (ctx.span_id == 0)

-- What `print` writes.
unfoldable pub print : SpanContext → Bytes
print ctx =
    TraceId.print ctx.trace_id
    ++ (b':'
        ∷ (set_width 16 (print_hex ctx.span_id)
            ++ (b':' ∷ (set_width 16 (print_hex ctx.parent_id) ++ (b':' ∷ print_hex ctx.flags)))))

-- Equality of `std::unordered_map`: as many items, and each item of one found in the other.
unfoldable pub all_found : StrMap → StrMap → Bool
all_found [] n = true
all_found ((k, v) ∷ m) n =
    elim (lookup k n) [ none ↦ false | some w ↦ bytes_eq v w ] && all_found m n

unfoldable pub map_eq : StrMap → StrMap → Bool
unfolding all_found
map_eq m n = length m == length n && all_found m n

-- `operator==`
unfoldable pub context_eq : SpanContext → SpanContext → Bool
context_eq lhs rhs =
    if not (map_eq lhs.baggage rhs.baggage)
    then false
    else trace_eq lhs.trace_id rhs.trace_id
      && lhs.span_id == rhs.span_id
      && lhs.parent_id == rhs.parent_id
      && lhs.flags == rhs.flags
      && bytes_eq lhs.debug_id rhs.debug_id
      && bytes_eq lhs.trace_state rhs.trace_state

-- The trace ID and the test of it.
unfoldable pub read_trace : Reader TraceId
read_trace s =
    let (t, s') = TraceId.from_stream s in if TraceId.is_valid t then (some t, s') else (none, s')

unfoldable pub read_fields : Reader SpanContext
read_fields = do
  trace_id ← read_trace
  expect b':'
  span ← segment 16 b':'
  expect b':'
  parent ← segment 16 b':'
  expect b':'
  flags ← segment 2 b':'
  clear_stream
  done (record empty {
    trace_id = trace_id;
    span_id = decode_hex 64 span;
    parent_id = decode_hex 64 parent;
    flags = decode_hex 8 flags;
  })

unfoldable pub or_empty : Option SpanContext → SpanContext
or_empty none = empty
or_empty (some ctx) = ctx

unfoldable pub from_stream : Stream → SpanContext × Stream
unfolding read_fields or_empty
from_stream s = let (r, s') = read_fields s in (or_empty r, s')

-- The ranges of the fields' machine types.
pub record IsBounded (ctx : SpanContext) : Type 0 where
  pub high_word : ctx.trace_id.high < 2 ^ 64
  pub low_word : ctx.trace_id.low < 2 ^ 64
  pub span_word : ctx.span_id < 2 ^ 64
  pub parent_word : ctx.parent_id < 2 ^ 64
  pub flags_byte : ctx.flags < 2 ^ 8
