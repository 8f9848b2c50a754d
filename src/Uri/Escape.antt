-- ===== src/Uri/Escape.antt =====
-- `queryEscape` against `queryUnescape`.
use jaeger_client_cpp.Base.{
  ℕ, zero, suc, ◌+◌, ◌*◌, ◌/◌, ◌%◌, ◌≤◌, ◌<◌, bit_and, ◌≡◌, ◌≢◌, refl, ap, ◌∙◌, ◌⊎◌, inl, inr, true,
  false, not, ◌&&◌, ◌||◌, [], ◌∷◌, ◌++◌, arith, Bytes, ltb, leb, ◌==◌, ==_iff, All, All-append,
  all_below, all_below_sound, Bool-cases, bytes_eq, bytes_eq_iff, bit_or_nibble,
}
use jaeger_client_cpp.Hex.{is_hex, print_hex}
use jaeger_client_cpp.Uri.{
  is_unreserved, decode_digit, upper_digit, upper_loop, escape_char, int_of_char, query_escape,
  default, unescape_loop, query_unescape,
}

-- The bytes that survive: the unreserved ones and those with two digits in `int`.
abbrev pub IsKept : ℕ → Type 0
IsKept c = (16 ≤ c) × (c < 128)

percent_reserved : is_unreserved b'%' ≡ false
unfolding is_unreserved
percent_reserved = refl

two_digits :
    (n : ℕ) → 16 ≤ n → n < 256 → upper_loop 8 n ≡ upper_digit (n / 16) ∷ upper_digit (n % 16) ∷ []
unfolding upper_loop
two_digits n h k = ground arith

upper_digit-is_hex : (d : ℕ) → d < 16 → is_hex (upper_digit d) ≡ true
unfolding upper_digit is_hex
upper_digit-is_hex d h = ground arith

digit_table : all_below 16 (λ d. bit_and (decode_digit (upper_digit d)) 0xff == d) ≡ true
unfolding all_below decode_digit upper_digit
digit_table = refl

decode_digit-upper_digit : (d : ℕ) → d < 16 → bit_and (decode_digit (upper_digit d)) 0xff ≡ d
decode_digit-upper_digit d h = (==_iff _ d).0 (all_below_sound 16 _ d digit_table h)

-- An escaped byte is read back.
unescape_loop-two :
    (hi lo : ℕ) (rest : Bytes)
    → hi < 16
    → lo < 16
    → unescape_loop default 0 (b'%' ∷ upper_digit hi ∷ upper_digit lo ∷ rest)
      ≡ (hi * 16 + lo) ∷ unescape_loop default 0 rest
unfolding unescape_loop
unescape_loop-two hi lo rest h l = ground (
  arith,
  upper_digit-is_hex hi h,
  upper_digit-is_hex lo l,
  decode_digit-upper_digit hi h,
  decode_digit-upper_digit lo l,
  bit_or_nibble hi lo l,
)

-- The escape of a kept byte has one of two shapes.
unescape_loop-escape_char :
    (c : ℕ) (rest : Bytes)
    → IsKept c
    → unescape_loop default 0 (escape_char c ++ rest) ≡ c ∷ unescape_loop default 0 rest
unfolding escape_char int_of_char
unescape_loop-escape_char c rest h = elim (Bool-cases (is_unreserved c)) [
  | inl e ↦ rw e (plain c rest (λ z. cc (percent_reserved)))
  | inr e ↦
      let small : int_of_char c ≡ c = ground arith in
      rw (e, small, two_digits c h.0 (omega arith))
        (unescape_loop-two (c / 16) (c % 16) rest (omega arith) (omega arith)
          ∙ ap (λ t. t ∷ unescape_loop default 0 rest) (omega arith))
]
  where
    plain :
        (c : ℕ) (rest : Bytes)
        → c ≢ b'%'
        → unescape_loop default 0 (c ∷ rest) ≡ c ∷ unescape_loop default 0 rest
    plain c rest ne = unfold unescape_loop in ground arith

-- Unescaping undoes escaping on every text of bytes from 16 to 127.
pub query_unescape-query_escape : (s : Bytes) → All IsKept s → query_unescape (query_escape s) ≡ s
unfolding query_escape query_unescape
query_unescape-query_escape [] h = unfold unescape_loop in refl
query_unescape-query_escape (c ∷ s) (hc, hs) =
    unescape_loop-escape_char c (query_escape s) hc ∙ ap (◌∷◌ c) (query_unescape-query_escape s hs)

loss_table :
    all_below 256 (λ c.
      (leb 16 c && ltb c 128) || not (bytes_eq (query_unescape (query_escape (c ∷ []))) (c ∷ [])))
    ≡ true
unfolding all_below bytes_eq query_unescape query_escape escape_char is_unreserved upper_loop
    int_of_char unescape_loop is_hex decode_digit print_hex
loss_table = refl

-- A byte below 16 or from 128 on does not survive: one digit is written for the former, and eight
-- for the latter.
pub query_unescape-query_escape_ne :
    (c : ℕ) → c < 256 → ¬ IsKept c → query_unescape (query_escape (c ∷ [])) ≢ c ∷ []
query_unescape-query_escape_ne c h k e =
    let table = all_below_sound 256 _ c loss_table h in
    let same = (bytes_eq_iff (query_unescape (query_escape (c ∷ []))) (c ∷ [])).1 e in
    k (ground arith, ground arith)

-- Unreserved, or a percent sign.
abbrev pub IsSafe : ℕ → Type 0
IsSafe c = (is_unreserved c ≡ true) ⊎ (c ≡ b'%')

upper_digit-IsSafe : (d : ℕ) → d < 16 → IsSafe (upper_digit d)
unfolding upper_digit is_unreserved
upper_digit-IsSafe d h = inl (ground arith)

upper_loop-IsSafe : (rounds n : ℕ) → All IsSafe (upper_loop rounds n)
unfolding upper_loop
upper_loop-IsSafe zero n = tt
upper_loop-IsSafe (suc rounds) n = elim (Bool-cases (ltb n 16)) [
  | inl e ↦ rw e (upper_digit-IsSafe n (ground arith), tt)
  | inr e ↦ rw e (
      All-append IsSafe (upper_loop rounds (n / 16)) _ (upper_loop-IsSafe rounds (n / 16))
        (upper_digit-IsSafe (n % 16) (omega arith), tt))
]

escape_char-IsSafe : (c : ℕ) → All IsSafe (escape_char c)
unfolding escape_char
escape_char-IsSafe c = elim (Bool-cases (is_unreserved c)) [
  | inl e ↦ rw e (inl e, tt)
  | inr e ↦ rw e (inr refl, upper_loop-IsSafe 8 (int_of_char c))
]

-- What `queryEscape` writes consists of unreserved characters and percent signs, whatever the
-- input.
pub query_escape-IsSafe : (s : Bytes) → All IsSafe (query_escape s)
unfolding query_escape
query_escape-IsSafe [] = tt
query_escape-IsSafe (c ∷ s) =
    All-append IsSafe (escape_char c) _ (escape_char-IsSafe c) (query_escape-IsSafe s)
