-- ===== src/Hex.antt =====
-- utils/HexParsing.h, and what its callers use of the standard streams.
mod Tests
pub mod Segment
pub mod RoundTrip
pub mod Unpadded
pub mod Parser
use jaeger_client_cpp.Base.{
  ℕ, zero, suc, ◌+◌, ◌-◌, ◌*◌, ◌/◌, ◌%◌, ◌^◌, bit_or, Bool, true, false, ◌&&◌, ◌||◌, Option, none,
  some, List, [], ◌∷◌, ◌++◌, Bytes, ltb, leb, ◌==◌, if◌then◌else◌, length, replicate,
}

-- An input stream that holds the bytes not read yet. It fails only by a read at the end, so a
-- failed stream has nothing left.
pub data Stream : Type 0 where
  good : Bytes → Stream
  failed : Stream

-- `in.get(ch)`
unfoldable pub get : Stream → Option ℕ × Stream
get (good []) = (none, failed)
get (good (ch ∷ rest)) = (some ch, good rest)
get failed = (none, failed)

-- `in.putback(ch)`
unfoldable pub putback : ℕ → Stream → Stream
putback ch (good rest) = good (ch ∷ rest)
putback ch failed = failed

-- `in.clear()`
unfoldable pub clear : Stream → Stream
clear (good rest) = good rest
clear failed = good []

-- `!in`
unfoldable pub has_failed : Stream → Bool
has_failed (good rest) = false
has_failed failed = true

unfoldable pub is_hex : ℕ → Bool
is_hex ch =
    (leb b'0' ch && leb ch b'9') || (leb b'A' ch && leb ch b'F') || (leb b'a' ch && leb ch b'f')

-- The loop of `readSegment`, with the rounds that are left.
unfoldable pub read_loop : ℕ → ℕ → Bytes → Stream → Bytes × Stream
unfolding get putback is_hex
read_loop zero delim buffer in' = (buffer, in')
read_loop (suc rounds) delim buffer in' =
    let (next, after) = get in' in
    elim next [
      | none ↦ (buffer, after)
      | some ch ↦
          if is_hex ch
          then read_loop rounds delim (buffer ++ ch ∷ []) after
          else if ch == delim
          then (buffer, putback ch after)
          else ([], after)
    ]

unfoldable pub read_segment : Stream → ℕ → ℕ → Bytes × Stream
unfolding read_loop
read_segment in' max_chars delim = read_loop max_chars delim [] in'

-- `std::isdigit` and `std::isupper` of the C locale decide the branch.
unfoldable pub hex_digit : ℕ → ℕ
hex_digit ch =
    if leb b'0' ch && leb ch b'9'
    then ch - b'0'
    else if leb b'A' ch && leb ch b'Z'
    then ch - b'A' + 10
    else ch - b'a' + 10

-- The loop of `decodeHex` with a result of `bits` bits. The shift and the conversion drop the bits
-- above them; a hexadecimal digit has none there.
unfoldable pub decode_loop : ℕ → ℕ → Bytes → ℕ
unfolding hex_digit
decode_loop bits result [] = result
decode_loop bits result (ch ∷ rest) =
    decode_loop bits (bit_or (result * 16) (hex_digit ch) % 2 ^ bits) rest

unfoldable pub decode_hex : ℕ → Bytes → ℕ
unfolding decode_loop
decode_hex bits str = decode_loop bits 0 str

unfoldable pub lower_digit : ℕ → ℕ
lower_digit d = if ltb d 10 then b'0' + d else b'a' + (d - 10)

-- What `out << std::hex << n` writes; a 64-bit number has at most 16 digits.
unfoldable pub hex_loop : ℕ → ℕ → Bytes
unfolding lower_digit
hex_loop zero n = []
hex_loop (suc rounds) n =
    if ltb n 16 then lower_digit n ∷ [] else hex_loop rounds (n / 16) ++ lower_digit (n % 16) ∷ []

unfoldable pub print_hex : ℕ → Bytes
unfolding hex_loop
print_hex n = hex_loop 16 n

-- `std::setw(width) << std::setfill('0')`
unfoldable pub set_width : ℕ → Bytes → Bytes
set_width width text = replicate (width - length text) b'0' ++ text
