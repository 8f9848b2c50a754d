-- ===== src/TraceId.antt =====
-- TraceID.h and TraceID.cpp.
mod Tests
pub mod RoundTrip
use jaeger_client_cpp.Base.{
  ℕ, ◌-◌, ◌<◌, ◌^◌, Bool, not, ◌&&◌, ◌||◌, ◌++◌, Bytes, ◌==◌, ltb, if◌then◌else◌, length, take,
  drop, is_empty,
}
use jaeger_client_cpp.Hex.{Stream, read_segment, decode_hex, print_hex, set_width}

pub record TraceId : Type 0 where
  pub high : ℕ
  pub low : ℕ

abbrev pub no_trace : TraceId
no_trace = record { high = 0; low = 0 }

unfoldable pub is_valid : TraceId → Bool
is_valid t = not (t.high == 0) || not (t.low == 0)

-- `operator==`
unfoldable pub trace_eq : TraceId → TraceId → Bool
trace_eq s t = s.high == t.high && s.low == t.low

-- What `print` writes.
unfoldable pub print : TraceId → Bytes
print t =
    if t.high == 0
    then set_width 16 (print_hex t.low)
    else set_width 16 (print_hex t.high) ++ set_width 16 (print_hex t.low)

-- The two halves of a segment: the last 16 characters are the low one.
unfoldable pub decode : Bytes → TraceId
decode buffer =
    if ltb (length buffer) 16 then record { high = 0; low = decode_hex 64 buffer } else record {
      high = decode_hex 64 (take (length buffer - 16) buffer);
      low = decode_hex 64 (drop (length buffer - 16) buffer);
    }

unfoldable pub from_stream : Stream → TraceId × Stream
unfolding decode
from_stream s =
    let (buffer, s') = read_segment s 32 b':' in
    (if is_empty buffer then no_trace else decode buffer, s')

-- Both halves are 64-bit words.
abbrev pub IsWord : TraceId → Type 0
IsWord t = (t.high < 2 ^ 64) × (t.low < 2 ^ 64)
