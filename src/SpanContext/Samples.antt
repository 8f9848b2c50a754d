-- ===== src/SpanContext/Samples.antt =====
-- Span contexts for the tests.
use jaeger_client_cpp.Base.{◌≡◌, refl, true, [], ◌∷◌, arith, codes, bytes_eq, lookup, HasUniqueKeys}
use jaeger_client_cpp.TraceId
use jaeger_client_cpp.SpanContext.{SpanContext, StrMap, IsBounded}

abbrev pub two_items : StrMap
two_items = (codes "user", codes "a b") ∷ (codes "tier", codes "gold") ∷ []

abbrev pub sampled_ctx : SpanContext
sampled_ctx = record {
  trace_id = record { high = 1; low = 255 };
  span_id = 17;
  parent_id = 3;
  flags = 1;
  baggage = two_items;
  debug_id = [];
  trace_state = codes "vendor=1";
}

pub sampled_ctx-IsBounded : IsBounded sampled_ctx
sampled_ctx-IsBounded = record {
  high_word = omega arith;
  low_word = omega arith;
  span_word = omega arith;
  parent_word = omega arith;
  flags_byte = omega arith;
}

pub sampled_ctx_valid : TraceId.is_valid sampled_ctx.trace_id ≡ true
unfolding TraceId.is_valid
sampled_ctx_valid = refl

pub two_items-HasUniqueKeys : HasUniqueKeys two_items
unfolding lookup bytes_eq
two_items-HasUniqueKeys = (refl, (refl, tt))
