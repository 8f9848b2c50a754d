-- ===== src/Http/RoundTrip.antt =====
-- A message that is written out is parsed into its parts.
use jaeger_client_cpp.Base.{
  ℕ, ◌<◌, ◌^◌, ◌≡◌, refl, sym, ap, ◌∙◌, true, false, false≢true, some, List, [], ◌∷◌, ◌++◌,
  append-nil, Bytes, bytes_eq, pos, ◌>>=◌, arith, All, All-map, All-append,
}
use jaeger_client_cpp.Decimal.{starts_with_digit, print_int, scan_int}
use jaeger_client_cpp.Decimal.RoundTrip.{
  IsDigit, print_int-IsDigit, print_int-starts, scan_int-print_int,
}
use jaeger_client_cpp.Uri.Parts.{span}
use jaeger_client_cpp.Uri.Parts.RoundTrip.{Lacks, span-append}
use jaeger_client_cpp.Http.{
  Header, match_version, not_digit, match_reason, match_status, parse_response,
}
use jaeger_client_cpp.Http.Lines.{
  is_cr, read_line-plain, IsText, IsHeader, headers_text, is_dots-Lacks, read_headers-text,
}

-- A response with a version of two characters around a dot.
pub record Message : Type 0 where
  pub major : ℕ
  pub minor : ℕ
  pub status : ℕ
  pub reason : Bytes
  pub headers : List Header
  pub body : Bytes

pub record IsMessage (m : Message) : Type 0 where
  pub major_digit : IsDigit m.major
  pub minor_digit : IsDigit m.minor
  pub status_lt : m.status < 2 ^ 31
  pub reason_text : IsText m.reason
  pub good_headers : All IsHeader m.headers

abbrev version_of : Message → Bytes
version_of m = m.major ∷ b'.' ∷ m.minor ∷ []

abbrev status_tail : Message → Bytes
status_tail m = print_int (pos m.status) ++ b' ' ∷ m.reason

abbrev status_line : Message → Bytes
status_line m = b'H' ∷ b'T' ∷ b'T' ∷ b'P' ∷ b'/' ∷ m.major ∷ b'.' ∷ m.minor ∷ b' ' ∷ status_tail m

abbrev pub message_text : Message → Bytes
message_text m = status_line m ++ b'\r' ∷ b'\n' ∷ (headers_text m.headers ++ b'\r' ∷ b'\n' ∷ m.body)

IsDigit-Lacks : (ch : ℕ) → IsDigit ch → is_cr ch ≡ false
IsDigit-Lacks ch d = ground (arith, d)

status_line-Lacks : (m : Message) → IsMessage m → Lacks is_cr (status_line m)
status_line-Lacks m h =
    let tail : Lacks is_cr (status_tail m) =
      All-append _ (print_int (pos m.status)) (b' ' ∷ m.reason)
        (All-map _ _ (print_int (pos m.status)) IsDigit-Lacks (print_int-IsDigit m.status))
        (refl, is_dots-Lacks m.reason h.reason_text.1) in
    (
      refl,
      (
        refl,
        (
          refl,
          (
            refl,
            (
              refl,
              (
                IsDigit-Lacks m.major h.major_digit,
                (refl, (IsDigit-Lacks m.minor h.minor_digit, (refl, tail))),
              ),
            ),
          ),
        ),
      ),
    )

match_version-digits :
    (major minor : ℕ) (rest : Bytes)
    → IsDigit major
    → IsDigit minor
    → match_version (b'H' ∷ b'T' ∷ b'T' ∷ b'P' ∷ b'/' ∷ major ∷ b'.' ∷ minor ∷ rest)
      ≡ some (major ∷ b'.' ∷ minor ∷ [], rest)
unfolding match_version
match_version-digits major minor rest d e = rw (d, e, match_version) (unfold bytes_eq in refl)

match_reason-parts :
    (version digits reason : Bytes)
    → starts_with_digit digits ≡ true
    → IsText reason
    → match_reason version (digits, b' ' ∷ reason) ≡ some (version, digits, reason)
unfolding match_reason
match_reason-parts version [] reason d t = absurd (false≢true d)
match_reason-parts version (d ∷ digits) [] e t = absurd (false≢true (sym t.0))
match_reason-parts version (d ∷ digits) (r ∷ reason) e t = rw (t.1, match_reason) refl

match_status-line :
    (m : Message)
    → IsMessage m
    → match_status (status_line m) ≡ some (version_of m, print_int (pos m.status), m.reason)
unfolding match_status
match_status-line m h =
    let digits : span not_digit (status_tail m) ≡ (print_int (pos m.status), b' ' ∷ m.reason) =
      span-append not_digit (print_int (pos m.status)) (b' ' ∷ m.reason)
        (All-map _ _ (print_int (pos m.status)) (λ ch d. ground (arith, d))
          (print_int-IsDigit m.status))
        refl in
    rw
      (
        match_version-digits m.major m.minor (b' ' ∷ status_tail m) h.major_digit h.minor_digit,
        match_status,
        digits,
      )
      (match_reason-parts (version_of m) (print_int (pos m.status)) m.reason
        (print_int-starts m.status) h.reason_text)

-- A response is parsed into its version, its status, its reason, its headers in order and its body, if
-- it is written as follows. The status line is `HTTP/` with a version of two digits around a dot, a
-- status below 2^31 in decimal and a reason, with a space before each of the two. The reason is not
-- empty and has no end of line. Each header is its key, a colon, a space and its value, where the key is
-- not empty and has no colon and no carriage return, and the value is not empty and has no end of line.
-- Every line ends with a carriage return and a line feed, the last one is empty, and the body is any.
pub parse_response-message_text :
    (m : Message)
    → IsMessage m
    → parse_response (message_text m)
      ≡ some (record {
        version = m.major ∷ b'.' ∷ m.minor ∷ [];
        status_code = pos m.status;
        reason = m.reason;
        headers = m.headers;
        body = m.body;
      })
unfolding parse_response ◌>>=◌
parse_response-message_text m h =
    let rest = headers_text m.headers ++ b'\r' ∷ b'\n' ∷ m.body in
    let line = read_line-plain (status_line m) rest (status_line-Lacks m h) in
    let status : scan_int (print_int (pos m.status)) ≡ (true, pos m.status) =
      ap scan_int (sym (append-nil (print_int (pos m.status))))
      ∙ scan_int-print_int m.status [] h.status_lt refl in
    rw
      (
        line,
        parse_response,
        ◌>>=◌,
        match_status-line m h,
        read_headers-text m.headers m.body h.good_headers,
        status,
      )
      refl
