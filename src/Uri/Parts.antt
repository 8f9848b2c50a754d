-- ===== src/Uri/Parts.antt =====
-- net/URI.h and `URI::parse` of net/URI.cpp. The expression that splits a URI is that of RFC 3986; its
-- match is written out here, for texts without the zero byte.
mod Tests
pub mod RoundTrip
use jaeger_client_cpp.Base.{
  ℕ, zero, suc, Bool, true, false, not, ◌&&◌, ◌||◌, List, [], ◌∷◌, ◌++◌, Bytes, codes, ◌==◌,
  if◌then◌else◌, is_empty, ℤ, pos, negsuc,
}
use jaeger_client_cpp.Decimal.{print_int, scan_int}

pub record Uri : Type 0 where
  pub scheme : Bytes
  pub host : Bytes
  pub port : ℤ
  pub path : Bytes
  pub query : Bytes

abbrev pub empty_uri : Uri
empty_uri = record { scheme = []; host = []; port = pos 0; path = []; query = [] }

abbrev pub is_zero : ℤ → Bool
is_zero (pos zero) = true
is_zero (pos (suc n)) = false
is_zero (negsuc n) = false

unfoldable pub authority : Uri → Bytes
authority u = if is_zero u.port then u.host else u.host ++ b':' ∷ print_int u.port

unfoldable pub target : Uri → Bytes
target u =
    let result = if is_empty u.path then b'/' ∷ [] else u.path in
    if is_empty u.query then result else result ++ b'?' ∷ u.query

-- The longest front without a character of a class, and the rest.
unfoldable pub span : (ℕ → Bool) → Bytes → Bytes × Bytes
span stops [] = ([], [])
span stops (ch ∷ text) =
    let (front, rest) = span stops text in if stops ch then ([], ch ∷ text) else (ch ∷ front, rest)

abbrev pub is_hash : ℕ → Bool
is_hash ch = ch == b'#'

abbrev pub ends_path : ℕ → Bool
ends_path ch = ch == b'?' || ch == b'#'

abbrev pub ends_authority : ℕ → Bool
ends_authority ch = ch == b'/' || ch == b'?' || ch == b'#'

abbrev pub ends_scheme : ℕ → Bool
ends_scheme ch = ch == b':' || ch == b'/' || ch == b'?' || ch == b'#'

abbrev pub is_colon : ℕ → Bool
is_colon ch = ch == b':'

-- `(([^:/?#]+):)?`, by the span of the scheme's characters: the scheme and the rest.
unfoldable pub split_scheme : Bytes → Bytes × Bytes → Bytes × Bytes
split_scheme text ([], rest) = ([], text)
split_scheme text (ch ∷ front, []) = ([], text)
split_scheme text (ch ∷ front, stop ∷ rest) =
    if is_colon stop then (ch ∷ front, rest) else ([], text)

-- `(//([^/?#]*))?`
unfoldable pub split_authority : Bytes → Bytes × Bytes
unfolding span
split_authority (s ∷ t ∷ text) =
    if s == b'/' && t == b'/' then span ends_authority text else ([], s ∷ t ∷ text)
split_authority (s ∷ []) = ([], s ∷ [])
split_authority [] = ([], [])

-- `(\?([^#]*))?`
unfoldable pub split_query : Bytes → Bytes
unfolding span
split_query [] = []
split_query (ch ∷ text) = if ch == b'?' then (span is_hash text).0 else []

-- The host and the port of an authority, by its span up to a colon.
unfoldable pub set_authority : Bytes × Bytes → Uri → Uri
unfolding scan_int
set_authority (host, []) u = record u { host = host }
set_authority (host, colon ∷ digits) u = record u { host = host; port = (scan_int digits).1 }

unfoldable pub parse : Bytes → Uri
unfolding span split_scheme split_authority split_query set_authority
parse text =
    let (scheme, hierarchy) = split_scheme text (span ends_scheme text) in
    let (address, rest) = split_authority hierarchy in
    let (path, tail) = span ends_path rest in
    set_authority (span is_colon address)
      (record empty_uri { scheme = scheme; path = path; query = split_query tail })
