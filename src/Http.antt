-- ===== src/Http.antt =====
-- net/http: Header.h, Method.h and .cpp, Request.h and .cpp, Response.h and .cpp and SocketReader.h. The
-- expressions that match a line are written out; in the ECMAScript grammar a `.` matches no CR and no
-- LF. A `ParseError` is `none`.
mod Tests
pub mod Lines
pub mod RoundTrip
pub mod Requests
use jaeger_client_cpp.Base.{
  ℕ, zero, suc, ◌+◌, ◌≡◌, Bool, true, false, not, ◌&&◌, ◌||◌, Option, none, some, List, [], ◌∷◌,
  ◌++◌, Bytes, codes, length, ltb, leb, ◌==◌, if◌then◌else◌, is_empty, bytes_eq, ℤ, pos, ◌>>=◌,
}
use jaeger_client_cpp.Decimal.{is_digit, scan_int}
use jaeger_client_cpp.Uri.Parts.{Uri, authority, target, span, is_colon}

pub record Header : Type 0 where
  pub key : Bytes
  pub value : Bytes

-- `readLineCRLF`, after a CR or not: the line and the rest, `none` if the stream ends before the line.
unfoldable pub line_loop : Bool → Bytes → Bytes → Option (Bytes × Bytes)
line_loop saw_cr line [] = none
line_loop true line (ch ∷ text) = elim (ch == b'\n') [
  | true ↦ some (line, text)
  | false ↦ line_loop false (line ++ b'\r' ∷ ch ∷ []) text
]
line_loop false line (ch ∷ text) = elim (ch == b'\r') [
  | true ↦ line_loop true line text
  | false ↦ line_loop false (line ++ ch ∷ []) text
]

unfoldable pub read_line : Bytes → Option (Bytes × Bytes)
unfolding line_loop
read_line text = line_loop false [] text

-- `(.+)` up to the end.
unfoldable pub is_dots : Bytes → Bool
is_dots [] = true
is_dots (ch ∷ text) = not (ch == b'\n') && not (ch == b'\r') && is_dots text

-- `([^:]+): (.+)$`, by the span up to a colon.
unfoldable pub match_header : Bytes × Bytes → Option Header
unfolding is_dots
match_header ([], rest) = none
match_header (k ∷ key, colon ∷ blank ∷ v ∷ value) =
    if blank == b' ' && is_dots (v ∷ value)
    then some (record { key = k ∷ key; value = v ∷ value })
    else none
match_header (k ∷ key, colon ∷ blank ∷ []) = none
match_header (k ∷ key, colon ∷ []) = none
match_header (k ∷ key, []) = none

-- The loop of `readHeaders`, with the rest of the stream; a stream that ends is read to its end. The
-- fuel is enough if it is more than the length of the text.
unfoldable pub header_loop : ℕ → Bytes → List Header → Option (List Header × Bytes)
unfolding read_line match_header
header_loop zero text headers = none
header_loop (suc fuel) text headers = elim (read_line text) [
  | none ↦ some (headers, [])
  | some (line, rest) ↦ elim (is_empty line) [
    | true ↦ some (headers, rest)
    | false ↦ elim (match_header (span is_colon line)) [
      | none ↦ none
      | some header ↦ header_loop fuel rest (headers ++ header ∷ [])
    ]
  ]
]

unfoldable pub read_headers : Bytes → Option (List Header × Bytes)
unfolding header_loop
read_headers text = header_loop (suc (length text)) text []

-- `HTTP/([0-9]\.[0-9])` at the front: the version and the rest.
unfoldable pub match_version : Bytes → Option (Bytes × Bytes)
match_version (h ∷ t ∷ u ∷ p ∷ s ∷ major ∷ dot ∷ minor ∷ rest) =
    if bytes_eq (h ∷ t ∷ u ∷ p ∷ s ∷ []) (codes "HTTP/")
      && is_digit major
      && dot == b'.'
      && is_digit minor
    then some (major ∷ dot ∷ minor ∷ [], rest)
    else none
match_version _ = none

pub record Response : Type 0 where
  pub version : Bytes
  pub status_code : ℤ
  pub reason : Bytes
  pub headers : List Header
  pub body : Bytes

abbrev not_digit : ℕ → Bool
not_digit ch = not (is_digit ch)

-- ` (.+)$` behind the digits of the status, with the version and the digits.
unfoldable pub match_reason : Bytes → Bytes × Bytes → Option (Bytes × Bytes × Bytes)
unfolding is_dots
match_reason version ([], rest) = none
match_reason version (d ∷ digits, blank ∷ r ∷ reason) =
    if blank == b' ' && is_dots (r ∷ reason) then some (version, d ∷ digits, r ∷ reason) else none
match_reason version (d ∷ digits, _) = none

-- `HTTP/([0-9]\.[0-9]) ([0-9]+) (.+)$`
unfoldable pub match_status : Bytes → Option (Bytes × Bytes × Bytes)
unfolding match_version match_reason
match_status line = elim (match_version line) [
  | none ↦ none
  | some (version, []) ↦ none
  | some (version, blank ∷ rest) ↦ elim (blank == b' ') [
    | true ↦ match_reason version (span not_digit rest)
    | false ↦ none
  ]
]

-- `Response::parse`
unfoldable pub parse_response : Bytes → Option Response
unfolding read_line match_status read_headers scan_int
parse_response text = do
  (line, rest) ← read_line text
  (version, digits, reason) ← match_status line
  (headers, body) ← read_headers rest
  some (record {
    version = version;
    status_code = (scan_int digits).1;
    reason = reason;
    headers = headers;
    body = body;
  })

pub data Method : Type 0 where
  options get head post put delete trace connect extension : Method

-- `parseMethod`: the place of the name among the names.
unfoldable pub parse_method : Bytes → Method
parse_method name =
    if bytes_eq name (codes "OPTIONS")
    then options
    else if bytes_eq name (codes "GET")
    then get
    else if bytes_eq name (codes "HEAD")
    then head
    else if bytes_eq name (codes "POST")
    then post
    else if bytes_eq name (codes "PUT")
    then put
    else if bytes_eq name (codes "DELETE")
    then delete
    else if bytes_eq name (codes "TRACE")
    then trace
    else if bytes_eq name (codes "CONNECT")
    then connect
    else extension

pub record Request : Type 0 where
  pub method : Method
  pub target : Bytes
  pub version : Bytes
  pub headers : List Header
  pub body : Bytes

abbrev pub is_blank : ℕ → Bool
is_blank ch = ch == b' '

abbrev pub not_upper : ℕ → Bool
not_upper ch = not (leb b'A' ch && leb ch b'Z')

-- ` HTTP/([0-9]\.[0-9])$` behind the target.
unfoldable pub match_request_version : Bytes → Bytes × Bytes → Option (Bytes × Bytes × Bytes)
unfolding match_version
match_request_version method ([], rest) = none
match_request_version method (t ∷ path, []) = none
match_request_version method (t ∷ path, blank ∷ rest) = elim (match_version rest) [
  | none ↦ none
  | some (version, []) ↦ some (method, t ∷ path, version)
  | some (version, more ∷ rest) ↦ none
]

-- ` ([^ ]+)` behind the method.
unfoldable pub match_target : Bytes × Bytes → Option (Bytes × Bytes × Bytes)
unfolding match_request_version
match_target ([], rest) = none
match_target (m ∷ method, []) = none
match_target (m ∷ method, blank ∷ rest) = elim (blank == b' ') [
  | true ↦ match_request_version (m ∷ method) (span is_blank rest)
  | false ↦ none
]

-- `Request::parse`, whose line matches `([A-Z]+) ([^ ]+) HTTP/([0-9]\.[0-9])$`.
unfoldable pub parse_request : Bytes → Option Request
unfolding read_line match_target read_headers parse_method
parse_request text = do
  (line, rest) ← read_line text
  (method, path, version) ← match_target (span not_upper line)
  (headers, body) ← read_headers rest
  some (record {
    method = parse_method method;
    target = path;
    version = version;
    headers = headers;
    body = body;
  })

-- The request that `get` writes.
unfoldable pub request_text : Bytes → Uri → Bytes
request_text client_version uri =
    codes "GET "
    ++ (target uri
        ++ (codes " HTTP/1.1\r\n"
            ++ (codes "Host: "
                ++ (authority uri
                    ++ (codes "\r\n"
                        ++ (codes "User-Agent: jaegertracing/"
                            ++ (client_version ++ codes "\r\n\r\n")))))))

-- `SocketReader::read`, from what the calls of `recv` give, at most 1024 bytes each.
unfoldable pub read_socket : List Bytes → Bytes
read_socket [] = []
read_socket (chunk ∷ chunks) =
    let rest = read_socket chunks in
    if is_empty chunk then [] else if ltb (length chunk) 1024 then chunk else chunk ++ rest

-- `get`: `exchange` connects, writes the request and gives what `recv` returns, or throws.
unfoldable pub http_get : (Uri → Bytes → Option (List Bytes)) → Bytes → Uri → Option Response
unfolding request_text read_socket parse_response
http_get exchange client_version uri = do
  chunks ← exchange uri (request_text client_version uri)
  parse_response (read_socket chunks)
