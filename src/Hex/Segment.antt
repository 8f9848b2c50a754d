-- ===== src/Hex/Segment.antt =====
-- What `readSegment` hands to `decodeHex`, and what that makes of it.
use jaeger_client_cpp.Base.{
  ℕ, zero, suc, ◌+◌, ◌*◌, ◌%◌, ◌^◌, ◌≤◌, ◌<◌, ◌≡◌, sym, ap, ◌∙◌, ◌/◌, true, [], ◌∷◌, ◌++◌, arith,
  Bytes, length, length-append, All, All-append, bit_or_nibble, Bool-cases, inl, inr,
}
use native.Mathlib.Nat.{
  add-mul-mod_self_left, div-add-mod, mod-lt, mod-mod, mod-eq_of_lt, one-le-pow,
}
use jaeger_client_cpp.Hex.{
  Stream, good, failed, is_hex, read_loop, read_segment, hex_digit, decode_loop, decode_hex,
}

abbrev pub IsHex : ℕ → Type 0
IsHex ch = is_hex ch ≡ true

-- What a segment is, relative to the input that the loop started from.
abbrev pub IsSegment : ℕ → Bytes × Stream → Type 0
IsSegment max_chars r = All IsHex r.0 × (length r.0 ≤ max_chars)

read_loop-IsSegment :
    (n delim : ℕ) (buffer : Bytes) (s : Stream)
    → All IsHex buffer
    → IsSegment (length buffer + n) (read_loop n delim buffer s)
unfolding read_loop
read_loop-IsSegment zero delim buffer s h = (h, omega arith)
read_loop-IsSegment (suc n) delim buffer failed h = (h, omega arith)
read_loop-IsSegment (suc n) delim buffer (good []) h = (h, omega arith)
read_loop-IsSegment (suc n) delim buffer (good (c ∷ r)) h = elim (Bool-cases (is_hex c)) [
  | inl e ↦ ground (
    arith,
    read_loop-IsSegment n delim (buffer ++ c ∷ []) (good r) (All-append IsHex buffer _ h (e, tt)),
    length-append buffer (c ∷ []),
  )
  | inr e ↦ ground (arith, h)
]

-- The buffer that `readSegment` returns holds hexadecimal digits only, at most `max_chars` of them.
pub read_segment-IsSegment :
    (s : Stream) (max_chars delim : ℕ) → IsSegment max_chars (read_segment s max_chars delim)
unfolding read_segment
read_segment-IsSegment s max_chars delim =
    ground (arith, read_loop-IsSegment max_chars delim [] s tt)

hex_digit-lt : (c : ℕ) → IsHex c → hex_digit c < 16
unfolding hex_digit is_hex
hex_digit-lt c h = ground arith

-- The number that hexadecimal digits spell behind `n`, with no bound.
abbrev pub value : ℕ → Bytes → ℕ
value n [] = n
value n (c ∷ s) = value (n * 16 + hex_digit c) s

two-pow-pos : (bits : ℕ) → 0 < 2 ^ bits
two-pow-pos bits = one-le-pow bits 2 (omega arith)

shift-mod : (n d m : ℕ) → (n * 16 + d) % m ≡ (n % m * 16 + d) % m
shift-mod n d m =
    let split : n * 16 + d ≡ n % m * 16 + d + m * (n / m * 16) =
      omega (arith, ap (λ (t : ℕ). t * 16) (div-add-mod n m)) in
    rw split (add-mul-mod_self_left (n % m * 16 + d) m (n / m * 16))

value-mod : (m a b : ℕ) (s : Bytes) → a % m ≡ b % m → value a s % m ≡ value b s % m
value-mod m a b [] h = h
value-mod m a b (c ∷ s) h =
    value-mod m (a * 16 + hex_digit c) (b * 16 + hex_digit c) s
      (shift-mod a _ m ∙ ap (λ t. (t * 16 + hex_digit c) % m) h ∙ sym (shift-mod b _ m))

decode_loop-value :
    (bits n : ℕ) (s : Bytes)
    → n < 2 ^ bits
    → All IsHex s
    → decode_loop bits n s ≡ value n s % 2 ^ bits
unfolding decode_loop
decode_loop-value bits n [] h _ = sym (mod-eq_of_lt h)
decode_loop-value bits n (c ∷ s) h (hc, hs) =
    rw (bit_or_nibble n (hex_digit c) (hex_digit-lt c hc)) (
      decode_loop-value bits ((n * 16 + hex_digit c) % 2 ^ bits) s
        (mod-lt (n * 16 + hex_digit c) (two-pow-pos bits)) hs
      ∙ value-mod (2 ^ bits) _ _ s (mod-mod (n * 16 + hex_digit c) (2 ^ bits)))

-- `decodeHex` of hexadecimal digits is the number that they spell, modulo two to the width of its
-- result.
pub decode_hex-value :
    (bits : ℕ) (s : Bytes) → All IsHex s → decode_hex bits s ≡ value 0 s % 2 ^ bits
unfolding decode_hex
decode_hex-value bits s h = decode_loop-value bits 0 s (two-pow-pos bits) h

-- So the result always fits its type.
pub decode_hex-lt : (bits : ℕ) (s : Bytes) → All IsHex s → decode_hex bits s < 2 ^ bits
decode_hex-lt bits s h = rw (decode_hex-value bits s h) (mod-lt (value 0 s) (two-pow-pos bits))
