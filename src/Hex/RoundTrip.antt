-- ===== src/Hex/RoundTrip.antt =====
-- Printing a number in hexadecimal and reading it back through `readSegment` and `decodeHex`.
use native.Mathlib.Nat.{pow-suc, mod-eq_of_lt}
use jaeger_client_cpp.Base.{
  ℕ, zero, suc, ◌+◌, ◌-◌, ◌*◌, ◌/◌, ◌%◌, ◌^◌, ◌≤◌, ◌<◌, ◌≡◌, refl, sym, ap, ◌∙◌, false, [], ◌∷◌,
  ◌++◌, append_assoc, append-nil, arith, Bytes, length, length-append, replicate, All, All-append,
  bit_or_nibble, Bool-cases, inl, inr, ltb, ltb→lt,
}
use jaeger_client_cpp.Hex.{
  good, is_hex, read_loop, read_segment, hex_digit, decode_loop, decode_hex, clear, lower_digit,
  hex_loop, print_hex, set_width,
}
use jaeger_client_cpp.Hex.Segment.{IsHex}

-- `n` in exactly `width` digits.
unfoldable pub fixed : ℕ → ℕ → Bytes
fixed zero n = []
fixed (suc width) n = fixed width (n / 16) ++ lower_digit (n % 16) ∷ []

pub lower_digit-IsHex : (d : ℕ) → d < 16 → IsHex (lower_digit d)
unfolding lower_digit is_hex
lower_digit-IsHex d h = ground arith

hex_digit-lower_digit : (d : ℕ) → d < 16 → hex_digit (lower_digit d) ≡ d
unfolding lower_digit hex_digit
hex_digit-lower_digit d h = ground arith

replicate-append {ℓ} : {A : Type ℓ} (n : ℕ) (x : A) → replicate n x ++ x ∷ [] ≡ replicate (suc n) x
replicate-append zero x = refl
replicate-append (suc n) x = ap (◌∷◌ x) (replicate-append n x)

fixed-zero : (width : ℕ) → fixed width 0 ≡ replicate width b'0'
unfolding fixed lower_digit
fixed-zero zero = refl
fixed-zero (suc width) = rw (fixed-zero width) (replicate-append width b'0')

pub length-fixed : (width n : ℕ) → length (fixed width n) ≡ width
unfolding fixed
length-fixed zero n = refl
length-fixed (suc width) n = omega (
  arith,
  length-append (fixed width (n / 16)) (lower_digit (n % 16) ∷ []),
  length-fixed width (n / 16),
)

pub fixed-IsHex : (width n : ℕ) → All IsHex (fixed width n)
unfolding fixed
fixed-IsHex zero n = tt
fixed-IsHex (suc width) n =
    All-append IsHex (fixed width (n / 16)) _ (fixed-IsHex width (n / 16))
      (lower_digit-IsHex (n % 16) (omega arith), tt)

pub quotient_lt : (n width : ℕ) → n < 16 ^ suc width → n / 16 < 16 ^ width
quotient_lt n width h = let e = pow-suc 16 width in omega arith

-- One more digit takes one more place.
widen :
    (s : Bytes) (d width : ℕ)
    → set_width (suc (suc width)) (s ++ d ∷ []) ≡ set_width (suc width) s ++ d ∷ []
unfolding set_width
widen s d width =
    let places : suc (suc width) - length (s ++ d ∷ []) ≡ suc width - length s =
      omega (arith, length-append s (d ∷ [])) in
    rw places (sym (append_assoc (replicate (suc width - length s) b'0') s (d ∷ [])))

pad_one : (d width : ℕ) → set_width (suc width) (d ∷ []) ≡ replicate width b'0' ++ d ∷ []
unfolding set_width
pad_one d width = ap (λ t. replicate t b'0' ++ d ∷ []) (omega arith)

one_digit :
    (width n : ℕ) → n < 16 → replicate width b'0' ++ lower_digit n ∷ [] ≡ fixed (suc width) n
unfolding fixed
one_digit width n h =
    let quotient : n / 16 ≡ 0 = omega arith in
    let remainder : n % 16 ≡ n = omega arith in rw (quotient, remainder, fixed-zero width)

-- A number of several digits, by its quotient's digits.
more_digits :
    (width n : ℕ) (s : Bytes)
    → n < 16 ^ suc width
    → 16 ≤ n
    → ((w : ℕ) → width ≡ suc w → set_width (suc w) s ≡ fixed (suc w) (n / 16))
    → set_width (suc width) (s ++ lower_digit (n % 16) ∷ []) ≡ fixed (suc width) n
unfolding fixed
more_digits zero n s h big ih = absurd (omega arith)
more_digits (suc w) n s h big ih =
    widen s (lower_digit (n % 16)) w ∙ ap (λ t. t ++ lower_digit (n % 16) ∷ []) (ih w refl)

-- Padding with zeros to a width that is wide enough gives exactly that many digits.
set_width-hex_loop :
    (rounds width n : ℕ)
    → n < 16 ^ suc width
    → width < rounds
    → set_width (suc width) (hex_loop rounds n) ≡ fixed (suc width) n
unfolding set_width hex_loop fixed
set_width-hex_loop zero width n h k = absurd (omega arith)
set_width-hex_loop (suc rounds) width n h k = elim (Bool-cases (ltb n 16)) [
  | inl e ↦ rw e (pad_one (lower_digit n) width ∙ one_digit width n (ltb→lt n 16 e))
  | inr e ↦ rw e (
      more_digits width n (hex_loop rounds (n / 16)) h (ground arith) (λ w small.
        set_width-hex_loop rounds w (n / 16) (quotient_lt n (suc w) (rw (← small) h))
          (omega arith)))
]

pub set_width-print_hex :
    (width n : ℕ)
    → n < 16 ^ suc width
    → width < 16
    → set_width (suc width) (print_hex n) ≡ fixed (suc width) n
unfolding print_hex
set_width-print_hex width n h k = set_width-hex_loop 16 width n h k

pub decode_digit :
    (bits n : ℕ) (rest : Bytes)
    → n < 2 ^ bits
    → decode_loop bits (n / 16) (lower_digit (n % 16) ∷ rest) ≡ decode_loop bits n rest
unfolding decode_loop
decode_digit bits n rest h =
    let low : n % 16 < 16 = omega arith in
    rw (hex_digit-lower_digit (n % 16) low, bit_or_nibble (n / 16) (n % 16) low)
      (ap (λ t. decode_loop bits t rest) (same ∙ mod-eq_of_lt h))
  where
    same : (n / 16 * 16 + n % 16) % 2 ^ bits ≡ n % 2 ^ bits
    same = ap (λ t. t % 2 ^ bits) (omega arith)

decode_loop-fixed :
    (bits width n : ℕ) (rest : Bytes)
    → n < 16 ^ width
    → n < 2 ^ bits
    → decode_loop bits 0 (fixed width n ++ rest) ≡ decode_loop bits n rest
unfolding fixed
decode_loop-fixed bits zero n rest h k = ap (λ t. decode_loop bits t rest) (omega arith)
decode_loop-fixed bits (suc width) n rest h k = rw append_assoc (
    decode_loop-fixed bits width (n / 16) _ (quotient_lt n width h) (omega arith)
    ∙ decode_digit bits n rest k)

pub decode_hex-fixed :
    (bits width n : ℕ) → n < 16 ^ width → n < 2 ^ bits → decode_hex bits (fixed width n) ≡ n
unfolding decode_hex
decode_hex-fixed bits width n h k =
    ap (decode_loop bits 0) (sym (append-nil (fixed width n)))
    ∙ unfold decode_loop in decode_loop-fixed bits width n [] h k

-- A segment of digits is read up to the end of the digits.
pub read_loop-digits :
    (s rest buffer : Bytes) (rounds n delim : ℕ)
    → rounds ≡ length s + n
    → All IsHex s
    → read_loop rounds delim buffer (good (s ++ rest)) ≡ read_loop n delim (buffer ++ s) (good rest)
unfolding read_loop
read_loop-digits [] rest buffer rounds n delim e h =
    rw append-nil (ap (λ t. read_loop t delim buffer (good rest)) (omega arith))
read_loop-digits (c ∷ s) rest buffer zero n delim e h = absurd (omega arith)
read_loop-digits (c ∷ s) rest buffer (suc rounds) n delim e (hc, hs) = rw hc (
    read_loop-digits s rest (buffer ++ c ∷ []) rounds n delim (omega arith) hs
    ∙ ap (λ t. read_loop n delim t (good rest)) (append_assoc buffer (c ∷ []) s))

stop :
    (n : ℕ) (buffer : Bytes) (delim : ℕ) (rest : Bytes)
    → is_hex delim ≡ false
    → read_loop n delim buffer (good (delim ∷ rest)) ≡ (buffer, good (delim ∷ rest))
unfolding read_loop
stop zero buffer delim rest h = refl
stop (suc n) buffer delim rest h = rw h (ground arith)

-- The digits before a delimiter, which stays in the stream.
pub read_segment-delim :
    (s rest : Bytes) (max_chars delim : ℕ)
    → All IsHex s
    → length s ≤ max_chars
    → is_hex delim ≡ false
    → read_segment (good (s ++ delim ∷ rest)) max_chars delim ≡ (s, good (delim ∷ rest))
unfolding read_segment
read_segment-delim s rest max_chars delim h k d =
    read_loop-digits s (delim ∷ rest) [] max_chars (max_chars - length s) delim (omega arith) h
    ∙ stop (max_chars - length s) s delim rest d

-- The digits at the end of the stream; one more read fails it, unless the segment is full.
pub read_segment-end :
    (s : Bytes) (max_chars delim : ℕ)
    → All IsHex s
    → length s ≤ max_chars
    → (read_segment (good s) max_chars delim).0 ≡ s
unfolding read_segment
read_segment-end s max_chars delim h k =
    ap (λ t. (read_loop max_chars delim [] (good t)).0) (sym (append-nil s))
    ∙ ap (λ t. t.0)
        (read_loop-digits s [] [] max_chars (max_chars - length s) delim (omega arith) h)
    ∙ at_end (max_chars - length s) s delim
  where
    at_end : (n : ℕ) (buffer : Bytes) (delim : ℕ) → (read_loop n delim buffer (good [])).0 ≡ buffer
    at_end zero buffer delim = refl
    at_end (suc n) buffer delim = refl

-- Whether or not the last read failed, `in.clear()` leaves an empty stream.
pub clear-read_segment :
    (s : Bytes) (max_chars delim : ℕ)
    → All IsHex s
    → length s ≤ max_chars
    → clear (read_segment (good s) max_chars delim).1 ≡ good []
unfolding read_segment clear
clear-read_segment s max_chars delim h k =
    ap (λ t. clear (read_loop max_chars delim [] (good t)).1) (sym (append-nil s))
    ∙ ap (λ t. clear t.1)
        (read_loop-digits s [] [] max_chars (max_chars - length s) delim (omega arith) h)
    ∙ at_end (max_chars - length s) s delim
  where
    at_end :
        (n : ℕ) (buffer : Bytes) (delim : ℕ)
        → clear (read_loop n delim buffer (good [])).1 ≡ good []
    at_end zero buffer delim = refl
    at_end (suc n) buffer delim = refl
