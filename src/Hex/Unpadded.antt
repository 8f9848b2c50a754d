-- ===== src/Hex/Unpadded.antt =====
-- Hexadecimal without padding, as `print` writes the flags.
use jaeger_client_cpp.Base.{
  ℕ, zero, suc, ◌/◌, ◌%◌, ◌^◌, ◌≤◌, ◌<◌, ◌≡◌, ◌≢◌, sym, ap, ◌∙◌, [], ◌∷◌, ◌++◌, append_assoc,
  append-nil, arith, Bytes, length, length-append, All, All-append, Bool-cases, inl, inr, ltb,
}
use jaeger_client_cpp.Hex.{lower_digit, hex_loop, print_hex, decode_loop, decode_hex}
use jaeger_client_cpp.Hex.Segment.{IsHex}
use jaeger_client_cpp.Hex.RoundTrip.{lower_digit-IsHex, decode_digit, quotient_lt}

hex_loop-IsHex : (rounds n : ℕ) → All IsHex (hex_loop rounds n)
unfolding hex_loop
hex_loop-IsHex zero n = tt
hex_loop-IsHex (suc rounds) n = elim (Bool-cases (ltb n 16)) [
  | inl e ↦ rw e (lower_digit-IsHex n (ground arith), tt)
  | inr e ↦ rw e (
      All-append IsHex (hex_loop rounds (n / 16)) _ (hex_loop-IsHex rounds (n / 16))
        (lower_digit-IsHex (n % 16) (omega arith), tt))
]

length-hex_loop : (rounds width n : ℕ) → n < 16 ^ suc width → length (hex_loop rounds n) ≤ suc width
unfolding hex_loop
length-hex_loop zero width n h = omega arith
length-hex_loop (suc rounds) zero n h = ground arith
length-hex_loop (suc rounds) (suc width) n h = ground (
  arith,
  length-hex_loop rounds width (n / 16) (quotient_lt n (suc width) h),
  length-append (hex_loop rounds (n / 16)) (lower_digit (n % 16) ∷ []),
)

decode_loop-hex_loop :
    (bits rounds n : ℕ) (rest : Bytes)
    → n < 16 ^ rounds
    → n < 2 ^ bits
    → decode_loop bits 0 (hex_loop rounds n ++ rest) ≡ decode_loop bits n rest
unfolding hex_loop
decode_loop-hex_loop bits zero n rest h k = ap (λ t. decode_loop bits t rest) (omega arith)
decode_loop-hex_loop bits (suc rounds) n rest h k = elim (Bool-cases (ltb n 16)) [
  | inl e ↦
      let quotient : n / 16 ≡ 0 = ground arith in
      let remainder : n % 16 ≡ n = ground arith in
      rw e (rw (quotient, remainder) at (decode_digit bits n rest k))
  | inr e ↦
      rw (e, append_assoc)
        (decode_loop-hex_loop bits rounds (n / 16) (lower_digit (n % 16) ∷ rest)
            (quotient_lt n rounds h) (omega arith)
          ∙ decode_digit bits n rest k)
]

pub print_hex-IsHex : (n : ℕ) → All IsHex (print_hex n)
unfolding print_hex
print_hex-IsHex n = hex_loop-IsHex 16 n

pub print_hex-ne-nil : (n : ℕ) → print_hex n ≢ []
unfolding print_hex
print_hex-ne-nil n h =
    ground (arith, length-append (hex_loop 15 (n / 16)) (lower_digit (n % 16) ∷ []), ap length h)

pub length-print_hex : (width n : ℕ) → n < 16 ^ suc width → length (print_hex n) ≤ suc width
unfolding print_hex
length-print_hex width n h = length-hex_loop 16 width n h

-- A 64-bit word printed without padding is decoded to itself by a result type that holds it.
pub decode_hex-print_hex :
    (bits n : ℕ) → n < 2 ^ 64 → n < 2 ^ bits → decode_hex bits (print_hex n) ≡ n
unfolding decode_hex print_hex
decode_hex-print_hex bits n h k =
    ap (decode_loop bits 0) (sym (append-nil (hex_loop 16 n)))
    ∙ unfold decode_loop in decode_loop-hex_loop bits 16 n [] (omega arith) k
