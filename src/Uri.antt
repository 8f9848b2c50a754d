-- ===== src/Uri.antt =====
-- net/URI.h and net/URI.cpp: escaping and query strings. `char` is signed, as on x86-64, so a byte
-- from 128 on is the negative `int` that is printed as a 32-bit number.
mod Tests
pub mod Escape
pub mod Query
pub mod Parts
pub mod Requests
use jaeger_client_cpp.Base.{
  ℕ, zero, suc, ◌+◌, ◌-◌, ◌*◌, ◌/◌, ◌%◌, ◌^◌, bit_and, bit_or, Bool, true, false, not, ◌&&◌, ◌||◌,
  List, [], ◌∷◌, ◌++◌, Bytes, ltb, leb, ◌==◌, if◌then◌else◌, is_empty,
}
use jaeger_client_cpp.Hex.{is_hex, print_hex}

unfoldable pub decode_digit : ℕ → ℕ
decode_digit ch =
    if leb b'0' ch && leb ch b'9'
    then ch - b'0'
    else if leb b'A' ch && leb ch b'F'
    then ch - b'A' + 10
    else ch - b'a' + 10

-- `std::isalpha` and `std::isdigit` of the C locale, and the switch behind them.
unfoldable pub is_unreserved : ℕ → Bool
is_unreserved ch =
    (leb b'A' ch && leb ch b'Z')
    || (leb b'a' ch && leb ch b'z')
    || (leb b'0' ch && leb ch b'9')
    || ch == b'-'
    || ch == b'.'
    || ch == b'_'
    || ch == b'~'

unfoldable pub upper_digit : ℕ → ℕ
upper_digit d = if ltb d 10 then b'0' + d else b'A' + (d - 10)

-- What `out << std::uppercase << std::hex << n` writes of a 32-bit number: at most 8 digits.
unfoldable pub upper_loop : ℕ → ℕ → Bytes
unfolding upper_digit
upper_loop zero n = []
upper_loop (suc rounds) n =
    if ltb n 16 then upper_digit n ∷ [] else upper_loop rounds (n / 16) ++ upper_digit (n % 16) ∷ []

-- `static_cast<int>(ch)` as the unsigned number that `std::hex` prints.
unfoldable pub int_of_char : ℕ → ℕ
int_of_char ch = if ltb ch 128 then ch else 2 ^ 32 - 256 + ch

-- What one round of `queryEscape` writes.
unfoldable pub escape_char : ℕ → Bytes
escape_char ch = if is_unreserved ch then ch ∷ [] else b'%' ∷ upper_loop 8 (int_of_char ch)

unfoldable pub query_escape : Bytes → Bytes
unfolding escape_char
query_escape [] = []
query_escape (ch ∷ input) = escape_char ch ++ query_escape input

pub data State : Type 0 where
  default percent first_hex : State

-- What `queryUnescape` writes from a state on.
unfoldable pub unescape_loop : State → ℕ → Bytes → Bytes
unescape_loop state hex [] = []
unescape_loop default hex (ch ∷ input) = elim (ch == b'%') [
  | true ↦ unescape_loop percent hex input
  | false ↦ ch ∷ unescape_loop default hex input
]
unescape_loop percent hex (ch ∷ input) = elim (is_hex ch) [
  | true ↦ unescape_loop first_hex (bit_and (decode_digit ch) 0xff) input
  | false ↦ b'%' ∷ ch ∷ unescape_loop default hex input
]
unescape_loop first_hex hex (ch ∷ input) = elim (is_hex ch) [
  | true ↦
      (bit_or (hex * 16) (bit_and (decode_digit ch) 0xff) % 256) ∷ unescape_loop default 0 input
  | false ↦ (b'%' ∷ print_hex hex) ++ (ch ∷ unescape_loop default 0 input)
]

unfoldable pub query_unescape : Bytes → Bytes
unfolding unescape_loop
query_unescape input = unescape_loop default 0 input

pub data QueryState : Type 0 where
  key value : QueryState

-- The pair that a `&` inserts.
unfoldable pub query_pair : QueryState → Bytes → Bytes → Bytes × Bytes
query_pair key key_buffer value_buffer = (query_unescape key_buffer, [])
query_pair value key_buffer value_buffer = (query_unescape key_buffer, query_unescape value_buffer)

-- What `parseQueryValues` inserts from a state on, in order.
unfoldable pub query_loop : QueryState → Bytes → Bytes → Bytes → List (Bytes × Bytes)
query_loop state key_buffer value_buffer [] =
    if is_empty key_buffer then [] else query_pair state key_buffer value_buffer ∷ []
query_loop key key_buffer value_buffer (ch ∷ query) = elim (ch == b'=') [
  | true ↦ query_loop value key_buffer [] query
  | false ↦ elim (ch == b'&') [
    | true ↦ query_pair key key_buffer value_buffer ∷ query_loop key [] value_buffer query
    | false ↦ query_loop key (key_buffer ++ ch ∷ []) value_buffer query
  ]
]
query_loop value key_buffer value_buffer (ch ∷ query) = elim (ch == b'&') [
  | true ↦ query_pair value key_buffer value_buffer ∷ query_loop key [] value_buffer query
  | false ↦ query_loop value key_buffer (value_buffer ++ ch ∷ []) query
]

unfoldable pub parse_query_values : Bytes → List (Bytes × Bytes)
parse_query_values query = if is_empty query then [] else query_loop key [] [] query
