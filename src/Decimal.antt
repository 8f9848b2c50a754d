-- ===== src/Decimal.antt =====
-- The decimal numbers of the standard streams: `std::to_string` and `<<` of an `int`, and `>>` of an
-- `int`, which skips white space, reads a sign and digits, and fails without a digit or out of range.
mod Tests
pub mod RoundTrip
use jaeger_client_cpp.Base.{
  ℕ, zero, suc, ◌+◌, ◌-◌, ◌*◌, ◌/◌, ◌%◌, ◌^◌, Bool, true, false, not, ◌&&◌, ◌||◌, List, [], ◌∷◌,
  ◌++◌, Bytes, ltb, leb, ◌==◌, if◌then◌else◌, ℤ, pos, negsuc,
}

unfoldable pub print_loop : ℕ → ℕ → Bytes
print_loop zero n = []
print_loop (suc rounds) n =
    let front = print_loop rounds (n / 10) in
    if ltb n 10 then (b'0' + n) ∷ [] else front ++ (b'0' + n % 10) ∷ []

-- An `int` has at most 10 digits.
unfoldable pub print_int : ℤ → Bytes
unfolding print_loop
print_int (pos n) = print_loop 10 n
print_int (negsuc n) = b'-' ∷ print_loop 10 (n + 1)

abbrev pub is_digit : ℕ → Bool
is_digit ch = leb b'0' ch && leb ch b'9'

-- `std::isspace` of the C locale.
abbrev pub is_space : ℕ → Bool
is_space ch = ch == 0x20 || (leb 9 ch && leb ch 13)

-- The digits at the front, as a number, after those that are read.
unfoldable pub scan_digits : ℕ → Bytes → ℕ
scan_digits value [] = value
scan_digits value (ch ∷ text) =
    let rest = scan_digits (value * 10 + (ch - b'0')) text in if is_digit ch then rest else value

abbrev pub starts_with_digit : Bytes → Bool
starts_with_digit [] = false
starts_with_digit (ch ∷ text) = is_digit ch

-- The number from its digits on, with whether the stream is still good.
unfoldable pub scan_positive : Bytes → Bool × ℤ
unfolding scan_digits
scan_positive text =
    let value = scan_digits 0 text in
    if not (starts_with_digit text)
    then (false, pos 0)
    else if ltb value (2 ^ 31)
    then (true, pos value)
    else (false, pos (2 ^ 31 - 1))

abbrev negate : ℕ → ℤ
negate zero = pos 0
negate (suc n) = negsuc n

unfoldable pub scan_negative : Bytes → Bool × ℤ
unfolding scan_digits
scan_negative text =
    let value = scan_digits 0 text in
    if not (starts_with_digit text)
    then (false, pos 0)
    else if leb value (2 ^ 31)
    then (true, negate value)
    else (false, negsuc (2 ^ 31 - 1))

-- `>>` of an `int`: the number that it stores, and whether it succeeds.
unfoldable pub scan_int : Bytes → Bool × ℤ
unfolding scan_positive scan_negative
scan_int [] = (false, pos 0)
scan_int (ch ∷ text) =
    let skipped = scan_int text in
    if is_space ch
    then skipped
    else if ch == b'-'
    then scan_negative text
    else if ch == b'+'
    then scan_positive text
    else scan_positive (ch ∷ text)
