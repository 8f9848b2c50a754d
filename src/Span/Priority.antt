-- ===== src/Span/Priority.antt =====
-- `SamplingPriorityVisitor` of Span.cpp.
use jaeger_client_cpp.Base.{
  ℕ, ◌+◌, ◌-◌, ◌*◌, ◌^◌, Bool, false, ◌&&◌, ◌||◌, Option, none, some, [], ◌∷◌, Bytes, ltb, leb,
  ◌==◌, if◌then◌else◌, pos, gtb,
}
use jaeger_client_cpp.Tag.{Value, flag, real, int64, uint64, text, null, chars, compound}

-- `doubleValue > 0` of the bits of a double: no sign, not zero, and not above infinity, where the
-- bits stand for no number.
unfoldable pub is_positive_double : ℕ → Bool
is_positive_double bits = ltb 0 bits && leb bits 0x7ff0000000000000

unfoldable pub skip_spaces : Bytes → Bytes
skip_spaces [] = []
skip_spaces (c ∷ s) =
    let rest = skip_spaces s in if c == 32 || (leb 9 c && leb c 13) then rest else c ∷ s

-- The number that leading decimal digits spell, `none` without one.
unfoldable pub leading_number : Option ℕ → Bytes → Option ℕ
leading_number found [] = found
leading_number found (c ∷ s) =
    let more = leading_number (some (elim found [ none ↦ 0 | some n ↦ n ] * 10 + (c - b'0'))) s in
    if leb b'0' c && leb c b'9' then more else found

-- A positive `int`; a larger number fails the stream.
unfoldable pub is_positive_int : Option ℕ → Bool
is_positive_int none = false
is_positive_int (some n) = ltb 0 n && ltb n (2 ^ 31)

-- The text behind a sign; no number with a minus sign is positive.
unfoldable pub is_positive_signed : Bytes → Bool
unfolding is_positive_int leading_number
is_positive_signed [] = false
is_positive_signed (c ∷ s) =
    if c == b'-'
    then false
    else if c == b'+'
    then is_positive_int (leading_number none s)
    else is_positive_int (leading_number none (c ∷ s))

-- `iss >> intValue` and `intValue > 0`.
unfoldable pub is_positive_text : Bytes → Bool
unfolding skip_spaces is_positive_signed
is_positive_text s = is_positive_signed (skip_spaces s)

unfoldable pub priority_of : Value → Bool
unfolding is_positive_double is_positive_text
priority_of (flag b) = b
priority_of (real bits) = is_positive_double bits
priority_of (int64 n) = gtb n (pos 0)
priority_of (uint64 n) = ltb 0 n
priority_of (text s) = is_positive_text s
priority_of null = false
priority_of (chars s) = is_positive_text s
priority_of compound = false
