-- ===== src/Propagation/Binary/Truncated.antt =====
-- `BinaryPropagator` on a stream that ends too early.
use jaeger_client_cpp.Base.{
  ℕ, zero, suc, ◌-◌, ◌*◌, ◌%◌, ◌^◌, ◌≤◌, ◌≡◌, refl, bit_or, [], ◌∷◌, arith, Bytes, length,
}
use jaeger_client_cpp.Hex.{Stream, good, failed, get}
use jaeger_client_cpp.Propagation.Binary.{
  Endian, little, big, write_loop, of_bytes, to_big_endian, read_loop, read_binary, get_or_zero,
  read_items, and_then, extract,
}

-- The bytes that a stream still gives.
abbrev left : Stream → ℕ
left failed = 0
left (good rest) = length rest

left-read_loop :
    (size rounds value : ℕ) (s : Stream) → left (read_loop size rounds value s).1 ≤ left s - rounds
unfolding read_loop get
left-read_loop size zero value s = omega arith
left-read_loop size (suc rounds) value failed = omega arith
left-read_loop size (suc rounds) value (good []) = omega arith
left-read_loop size (suc rounds) value (good (b ∷ rest)) =
    omega (arith, left-read_loop size rounds (bit_or (value * 256 % 256 ^ size) b) (good rest))

left-read_binary :
    (e : Endian) (size : ℕ) (s : Stream) → left (read_binary e size s).1 ≤ left s - size
unfolding read_binary
left-read_binary e size s = left-read_loop size size 0 s

left-get_or_zero : (s : Stream) → left (get_or_zero s).1 ≤ left s - 1
unfolding get_or_zero get
left-get_or_zero failed = omega arith
left-get_or_zero (good []) = omega arith
left-get_or_zero (good (b ∷ rest)) = omega arith

zero_count : (e : Endian) → to_big_endian e 4 0 ≡ 0
unfolding to_big_endian of_bytes write_loop
zero_count little = refl
zero_count big = refl

-- A number that is read where no byte is left is zero.
nothing_read : (e : Endian) (s : Stream) → left s ≡ 0 → (read_binary e 4 s).0 ≡ 0
unfolding read_binary read_loop get
nothing_read e failed h = zero_count e
nothing_read e (good []) h = zero_count e
nothing_read e (good (b ∷ rest)) h = absurd (omega (arith, h))

-- A stream of at most 33 bytes ends before the count of the baggage items. This is not noticed:
-- whatever the bytes, extraction counts no decoding error.
pub extract-truncated :
    (e : Endian) (bytes : Bytes) → length bytes ≤ 33 → (extract e (good bytes)).1 ≡ 0
unfolding extract and_then read_items
extract-truncated e bytes h =
    let s1 = (read_binary e 8 (good bytes)).1 in
    let s2 = (read_binary e 8 s1).1 in
    let s3 = (read_binary e 8 s2).1 in
    let s4 = (read_binary e 8 s3).1 in
    let s5 = (get_or_zero s4).1 in
    let none_left : left s5 ≡ 0 = omega (
      arith,
      left-read_binary e 8 (good bytes),
      left-read_binary e 8 s1,
      left-read_binary e 8 s2,
      left-read_binary e 8 s3,
      left-get_or_zero s4,
    ) in
    rw (nothing_read e s5 none_left, extract, and_then, read_items) refl
