-- ===== src/SpanContext/Tests.antt =====
-- Runs of the theorems on span contexts.
use jaeger_client_cpp.Base.{◌≡◌, refl, ◌↔◌, true, [], ◌∷◌, codes, lookup, HasUniqueKeys, bytes_eq}
use jaeger_client_cpp.Hex.{Stream, good, set_width, print_hex}
use jaeger_client_cpp.TraceId
use jaeger_client_cpp.SpanContext.{SpanContext, StrMap, context_eq, print, from_stream}
use jaeger_client_cpp.SpanContext.Equality.{IsSame, context_eq_iff}
use jaeger_client_cpp.SpanContext.RoundTrip.{from_stream-print}
use jaeger_client_cpp.SpanContext.Samples.{
  two_items-HasUniqueKeys, sampled_ctx, sampled_ctx-IsBounded, sampled_ctx_valid,
}

print_text :
    print sampled_ctx ≡ codes "000000000000000100000000000000ff:0000000000000011:0000000000000003:1"
unfolding print TraceId.print set_width print_hex
print_text = refl

from_stream-print_example :
    from_stream (good (print sampled_ctx))
    ≡ (record sampled_ctx { baggage = []; debug_id = []; trace_state = [] }, good [])
from_stream-print_example = from_stream-print sampled_ctx sampled_ctx-IsBounded sampled_ctx_valid

abbrev text_read : Stream
text_read = good (codes "ff:1:2:3")

abbrev swapped_items : StrMap
swapped_items = (codes "tier", codes "gold") ∷ (codes "user", codes "a b") ∷ []

abbrev swapped_ctx : SpanContext
swapped_ctx = record sampled_ctx { baggage = swapped_items }

swapped_items_unique : HasUniqueKeys swapped_items
unfolding lookup bytes_eq
swapped_items_unique = (refl, (refl, tt))

context_eq_iff_example :
    (context_eq sampled_ctx swapped_ctx ≡ true) ↔ IsSame sampled_ctx swapped_ctx
context_eq_iff_example =
    context_eq_iff sampled_ctx swapped_ctx two_items-HasUniqueKeys swapped_items_unique
