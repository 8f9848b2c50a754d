-- ===== src/Propagation/Binary/Numbers.antt =====
-- A number through `writeBinary` and `readBinary`.
use native.Mathlib.Nat.{
  div-eq_of_lt, pow-suc, div-add-mod, mod-eq_of_lt, mod-lt, one-le-pow, div-div-eq-div-mul,
}
use mathlib.Core.List.{reverse, reverse-reverse, reverse-cons}
use jaeger_client_cpp.Base.{
  ℕ, zero, suc, ◌+◌, ◌*◌, ◌/◌, ◌%◌, ◌^◌, ◌≤◌, ◌<◌, ◌≡◌, refl, sym, ap, ◌∙◌, [], ◌∷◌, ◌++◌, arith,
  Bytes, length, length-append, All, All-append, bit_or_byte,
}
use jaeger_client_cpp.Hex.{Stream, good, get}
use jaeger_client_cpp.Propagation.Binary.{
  Endian, little, big, write_loop, of_bytes, to_big_endian, write_binary, read_loop, read_binary,
}

abbrev pub IsByte : ℕ → Type 0
IsByte b = b < 256

pub length-write_loop : (k n : ℕ) → length (write_loop k n) ≡ k
unfolding write_loop
length-write_loop zero n = refl
length-write_loop (suc k) n = ap suc (length-write_loop k n)

write_loop-IsByte : (k n : ℕ) → All IsByte (write_loop k n)
unfolding write_loop
write_loop-IsByte zero n = tt
write_loop-IsByte (suc k) n = (omega arith, write_loop-IsByte k n)

of_bytes-append : (n : ℕ) (s t : Bytes) → of_bytes n (s ++ t) ≡ of_bytes (of_bytes n s) t
unfolding of_bytes
of_bytes-append n [] t = refl
of_bytes-append n (b ∷ s) t = of_bytes-append (n * 256 + b) s t

div-pow-suc : (n k : ℕ) → n / 256 ^ suc k ≡ n / 256 ^ k / 256
div-pow-suc n k = ap (λ (t : ℕ). n / t) (pow-suc 256 k) ∙ sym (div-div-eq-div-mul n (256 ^ k) 256)

-- Writing the last `k` bytes and reading them behind the others gives the number back.
of_bytes-write_loop : (k n m : ℕ) → n / 256 ^ k ≡ m → of_bytes m (write_loop k n) ≡ n
unfolding of_bytes write_loop
of_bytes-write_loop zero n m h = omega arith
of_bytes-write_loop (suc k) n m h =
    of_bytes-write_loop k n (m * 256 + n / 256 ^ k % 256) (omega (arith, div-pow-suc n k))

div-small : (size n : ℕ) → n < 256 ^ size → n / 256 ^ size ≡ 0
div-small size n h = div-eq_of_lt h

div-of_bytes : (s : Bytes) (n : ℕ) → All IsByte s → of_bytes n s / 256 ^ length s ≡ n
unfolding of_bytes
div-of_bytes [] n h = omega arith
div-of_bytes (b ∷ s) n (hb, hs) =
    div-pow-suc (of_bytes (n * 256 + b) s) (length s)
    ∙ omega (arith, div-of_bytes s (n * 256 + b) hs)

write_loop-of_bytes : (s : Bytes) (n : ℕ) → All IsByte s → write_loop (length s) (of_bytes n s) ≡ s
unfolding of_bytes write_loop
write_loop-of_bytes [] n h = refl
write_loop-of_bytes (b ∷ s) n (hb, hs) =
    let head : of_bytes (n * 256 + b) s / 256 ^ length s % 256 ≡ b =
      omega (arith, div-of_bytes s (n * 256 + b) hs) in
    rw (head, write_loop-of_bytes s (n * 256 + b) hs)

le-of_bytes : (s : Bytes) (n : ℕ) → n ≤ of_bytes n s
unfolding of_bytes
le-of_bytes [] n = omega arith
le-of_bytes (b ∷ s) n = omega (arith, le-of_bytes s (n * 256 + b))

reverse-IsByte : (s : Bytes) → All IsByte s → All IsByte (reverse s)
reverse-IsByte [] h = tt
reverse-IsByte (b ∷ s) (hb, hs) =
    rw (reverse-cons b s) (All-append IsByte (reverse s) _ (reverse-IsByte s hs) (hb, tt))

length-reverse : (s : Bytes) → length (reverse s) ≡ length s
length-reverse [] = refl
length-reverse (b ∷ s) =
    omega
      (arith, ap length (reverse-cons b s), length-append (reverse s) (b ∷ []), length-reverse s)

-- The bytes on the wire: the lowest first from a little-endian host, the highest first from a
-- big-endian one.
abbrev pub wire : Endian → ℕ → ℕ → Bytes
wire little size n = reverse (write_loop size n)
wire big size n = write_loop size n

pub write_binary-wire : (e : Endian) (size n : ℕ) → write_binary e size n ≡ wire e size n
unfolding write_binary to_big_endian
write_binary-wire big size n = refl
write_binary-wire little size n =
    let s = reverse (write_loop size n) in
    let long : size ≡ length s =
      omega (arith, length-reverse (write_loop size n), length-write_loop size n) in
    ap (λ k. write_loop k (of_bytes 0 s)) long
    ∙ write_loop-of_bytes s 0 (reverse-IsByte (write_loop size n) (write_loop-IsByte size n))

pub length-wire : (e : Endian) (size n : ℕ) → length (wire e size n) ≡ size
length-wire little size n =
    omega (arith, length-reverse (write_loop size n), length-write_loop size n)
length-wire big size n = length-write_loop size n

-- The loop that reads takes the bytes apart as long as the number fits.
read_loop-bytes :
    (size : ℕ) (s rest : Bytes) (n : ℕ)
    → All IsByte s
    → of_bytes n s < 256 ^ size
    → read_loop size (length s) n (good (s ++ rest)) ≡ (of_bytes n s, good rest)
unfolding read_loop of_bytes get
read_loop-bytes size [] rest n h k = refl
read_loop-bytes size (b ∷ s) rest n (hb, hs) k =
    let room : n * 256 < 256 ^ size = omega (arith, le-of_bytes s (n * 256 + b)) in
    rw (mod-eq_of_lt room, bit_or_byte n b hb) (read_loop-bytes size s rest (n * 256 + b) hs k)

of_bytes-lt : (s : Bytes) (size : ℕ) → All IsByte s → length s ≡ size → of_bytes 0 s < 256 ^ size
of_bytes-lt s size h e =
    let none_left : of_bytes 0 s / 256 ^ size ≡ 0 =
      ap (λ k. of_bytes 0 s / 256 ^ k) (sym e) ∙ div-of_bytes s 0 h in
    let split : 256 ^ size * (of_bytes 0 s / 256 ^ size) ≡ 0 =
      ap (λ t. 256 ^ size * t) none_left ∙ omega arith in
    omega (
      arith,
      split,
      mod-lt (of_bytes 0 s) (one-le-pow size 256 (omega arith)),
      div-add-mod (of_bytes 0 s) (256 ^ size),
    )

-- What a host makes of any bytes of the right number.
read_binary-bytes :
    (e : Endian) (size : ℕ) (s rest : Bytes)
    → All IsByte s
    → length s ≡ size
    → read_binary e size (good (s ++ rest)) ≡ (to_big_endian e size (of_bytes 0 s), good rest)
unfolding read_binary
read_binary-bytes e size s rest h k =
    ap (λ (r : ℕ × Stream). (to_big_endian e size r.0, r.1))
      (ap (λ rounds. read_loop size rounds 0 (good (s ++ rest))) (sym k)
        ∙ read_loop-bytes size s rest 0 h (of_bytes-lt s size h k))

to_big_endian-little :
    (s : Bytes) (size : ℕ)
    → All IsByte s
    → length s ≡ size
    → to_big_endian little size (of_bytes 0 s) ≡ of_bytes 0 (reverse s)
unfolding to_big_endian
to_big_endian-little s size h k =
    ap (λ t. of_bytes 0 (reverse t))
      (ap (λ rounds. write_loop rounds (of_bytes 0 s)) (sym k) ∙ write_loop-of_bytes s 0 h)

wire-IsByte : (e : Endian) (size n : ℕ) → All IsByte (wire e size n)
wire-IsByte little size n = reverse-IsByte (write_loop size n) (write_loop-IsByte size n)
wire-IsByte big size n = write_loop-IsByte size n

to_big_endian-wire :
    (e : Endian) (size n : ℕ)
    → n < 256 ^ size
    → to_big_endian e size (of_bytes 0 (wire e size n)) ≡ n
to_big_endian-wire big size n h =
    unfold to_big_endian in of_bytes-write_loop size n 0 (div-small size n h)
to_big_endian-wire little size n h =
    to_big_endian-little (wire little size n) size (wire-IsByte little size n)
      (length-wire little size n)
    ∙ ap (of_bytes 0) (reverse-reverse (write_loop size n))
    ∙ of_bytes-write_loop size n 0 (div-small size n h)

-- A host reads back every number of the type that a host of its byte order wrote.
pub read_binary-write_binary :
    (e : Endian) (size n : ℕ) (rest : Bytes)
    → n < 256 ^ size
    → read_binary e size (good (write_binary e size n ++ rest)) ≡ (n, good rest)
read_binary-write_binary e size n rest h =
    ap (λ s. read_binary e size (good (s ++ rest))) (write_binary-wire e size n)
    ∙ read_binary-bytes e size (wire e size n) rest (wire-IsByte e size n) (length-wire e size n)
    ∙ ap (λ v. (v, good rest)) (to_big_endian-wire e size n h)

-- A number that a little-endian host wrote is read by a big-endian one with its bytes reversed, if
-- it fits the width.
pub read_binary-other_host :
    (size n : ℕ) (rest : Bytes)
    → n < 256 ^ size
    → read_binary big size (good (write_binary little size n ++ rest))
      ≡ (of_bytes 0 (reverse (write_loop size n)), good rest)
read_binary-other_host size n rest h =
    ap (λ s. read_binary big size (good (s ++ rest))) (write_binary-wire little size n)
    ∙ read_binary-bytes big size (wire little size n) rest (wire-IsByte little size n)
        (length-wire little size n)
    ∙ unfold to_big_endian in refl
