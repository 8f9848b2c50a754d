-- ===== src/TraceId/RoundTrip.antt =====
-- A trace ID survives printing and reading, and whatever is read fits its words.
use jaeger_client_cpp.Base.{
  ℕ, zero, suc, ◌-◌, ◌≤◌, ◌<◌, ◌≡◌, refl, ◌∙◌, false, [], ◌∷◌, ◌++◌, arith, Bytes, ◌==◌, Bool-cases,
  inl, inr, length, length-append, take, drop, take-append, drop-append, All, All-append, is_empty,
  if◌then◌else◌,
}
use jaeger_client_cpp.Hex.{Stream, good, read_segment, decode_hex, is_hex}
use jaeger_client_cpp.Hex.Segment.{IsHex, read_segment-IsSegment, decode_hex-lt}
use jaeger_client_cpp.Hex.RoundTrip.{
  fixed, length-fixed, fixed-IsHex, set_width-print_hex, decode_hex-fixed, read_segment-delim,
}
use jaeger_client_cpp.TraceId.{TraceId, print, decode, from_stream, IsWord}

-- The text of a trace ID, as digits.
pub digits : TraceId → Bytes
digits t = if t.high == 0 then fixed 16 t.low else fixed 16 t.high ++ fixed 16 t.low

pub print-digits : (t : TraceId) → IsWord t → print t ≡ digits t
unfolding print digits
print-digits t (h, l) = rw (
  set_width-print_hex 15 t.low (omega arith) (omega arith),
  set_width-print_hex 15 t.high (omega arith) (omega arith),
)

pub digits-IsHex : (t : TraceId) → All IsHex (digits t)
unfolding digits
digits-IsHex t = elim (Bool-cases (t.high == 0)) [
  | inl e ↦ rw e (fixed-IsHex 16 t.low)
  | inr e ↦
      rw e (All-append IsHex (fixed 16 t.high) _ (fixed-IsHex 16 t.high) (fixed-IsHex 16 t.low))
]

pub length-digits : (t : TraceId) → (16 ≤ length (digits t)) × (length (digits t) ≤ 32)
unfolding digits
length-digits t = ground (
  arith,
  length-fixed 16 t.low,
  length-fixed 16 t.high,
  length-append (fixed 16 t.high) (fixed 16 t.low),
)

decode_halves :
    (a b : Bytes)
    → length b ≡ 16
    → decode (a ++ b) ≡ record { high = decode_hex 64 a; low = decode_hex 64 b }
unfolding decode
decode_halves a b h =
    let places : length (a ++ b) - 16 ≡ length a = omega (arith, length-append a b) in
    rw (places, take-append a b (length a) refl, drop-append a b (length a) refl)
      (ground (arith, length-append a b))

decode-digits : (t : TraceId) → IsWord t → decode (digits t) ≡ t
unfolding digits decode_hex
decode-digits t (h, l) = elim (Bool-cases (t.high == 0)) [
  | inl e ↦ rw e (
      decode_halves [] (fixed 16 t.low) (length-fixed 16 t.low)
      ∙ ground (arith, decode_hex-fixed 64 16 t.low (omega arith) l))
  | inr e ↦ rw e (
      decode_halves (fixed 16 t.high) (fixed 16 t.low) (length-fixed 16 t.low)
      ∙ ground (
        arith,
        decode_hex-fixed 64 16 t.high (omega arith) h,
        decode_hex-fixed 64 16 t.low (omega arith) l,
      ))
]

is_empty_of_pos : (s : Bytes) → 0 < length s → is_empty s ≡ false
is_empty_of_pos [] h = absurd (omega arith)
is_empty_of_pos (c ∷ s) h = refl

-- Reading the text that a trace ID of two words is printed as, before a colon, gives it back and
-- leaves the colon.
pub from_stream-print_colon :
    (t : TraceId) (rest : Bytes)
    → IsWord t
    → from_stream (good (print t ++ b':' ∷ rest)) ≡ (t, good (b':' ∷ rest))
unfolding from_stream is_hex
from_stream-print_colon t rest w = rw (
  print-digits t w,
  read_segment-delim (digits t) rest 32 b':' (digits-IsHex t) (length-digits t).1 refl,
  is_empty_of_pos (digits t) (omega (arith, length-digits t)),
  decode-digits t w,
)

All-take : (n : ℕ) (s : Bytes) → All IsHex s → All IsHex (take n s)
All-take zero s h = tt
All-take (suc n) [] h = tt
All-take (suc n) (c ∷ s) h = (h.0, All-take n s h.1)

All-drop : (n : ℕ) (s : Bytes) → All IsHex s → All IsHex (drop n s)
All-drop zero s h = h
All-drop (suc n) [] h = tt
All-drop (suc n) (c ∷ s) h = All-drop n s h.1

decode-IsWord : (buffer : Bytes) → All IsHex buffer → IsWord (decode buffer)
unfolding decode
decode-IsWord buffer h = ground (
  arith,
  decode_hex-lt 64 buffer h,
  decode_hex-lt 64 _ (All-take (length buffer - 16) buffer h),
  decode_hex-lt 64 _ (All-drop (length buffer - 16) buffer h),
)

-- Both words of a trace ID that was read fit 64 bits, whatever the stream held.
pub from_stream-IsWord : (s : Stream) → IsWord (from_stream s).0
unfolding from_stream
from_stream-IsWord s =
    ground (arith, decode-IsWord (read_segment s 32 b':').0 (read_segment-IsSegment s 32 b':').0)
