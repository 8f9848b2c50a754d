-- ===== src/Http/Requests.antt =====
-- A request that `get` writes is the one that is parsed.
use jaeger_client_cpp.Base.{
  ◌≡◌, refl, sym, true, false, false≢true, some, List, [], ◌∷◌, ◌++◌, append_assoc, Bytes, codes,
  is_empty, bytes_eq, ◌>>=◌, All, All-append,
}
use jaeger_client_cpp.Uri.Parts.{Uri, authority, target, span, is_colon}
use jaeger_client_cpp.Uri.Parts.RoundTrip.{Lacks, lacks-Lacks, span-append}
use jaeger_client_cpp.Http.{
  Header, is_dots, match_version, get, parse_method, is_blank, not_upper, match_request_version,
  match_target, parse_request, request_text,
}
use jaeger_client_cpp.Http.Lines.{
  is_cr, read_line-plain, IsText, IsHeader, headers_text, read_headers-text,
}

-- A URI and a version that a request line and headers can hold.
pub record IsRequestable (client_version : Bytes) (uri : Uri) : Type 0 where
  pub target_filled : is_empty (target uri) ≡ false
  pub target_blank : Lacks is_blank (target uri)
  pub target_cr : Lacks is_cr (target uri)
  pub host_text : IsText (authority uri)
  pub version_text : is_dots client_version ≡ true

abbrev request_line : Uri → Bytes
request_line uri = b'G' ∷ b'E' ∷ b'T' ∷ b' ' ∷ (target uri ++ codes " HTTP/1.1")

-- The headers that `get` sends.
abbrev pub request_headers : Bytes → Uri → List Header
request_headers client_version uri =
    record { key = codes "Host"; value = authority uri }
    ∷ record { key = codes "User-Agent"; value = codes "jaegertracing/" ++ client_version }
    ∷ []

request_text-lines :
    (client_version : Bytes) (uri : Uri)
    → request_text client_version uri
      ≡ request_line uri
        ++ b'\r' ∷ b'\n' ∷ (headers_text (request_headers client_version uri) ++ b'\r' ∷ b'\n' ∷ [])
unfolding request_text
request_text-lines client_version uri = simp append_assoc refl

match_request_version-filled :
    (method path : Bytes)
    → is_empty path ≡ false
    → match_request_version method (path, codes " HTTP/1.1") ≡ some (method, path, codes "1.1")
unfolding match_request_version match_version bytes_eq
match_request_version-filled method [] f = absurd (false≢true (sym f))
match_request_version-filled method (t ∷ path) f = refl

match_request-line :
    (uri : Uri)
    → is_empty (target uri) ≡ false
    → Lacks is_blank (target uri)
    → match_target (span not_upper (request_line uri)) ≡ some (codes "GET", target uri, codes "1.1")
unfolding match_target
match_request-line uri f b =
    let path : span is_blank (target uri ++ codes " HTTP/1.1") ≡ (target uri, codes " HTTP/1.1") =
      span-append is_blank (target uri) (codes " HTTP/1.1") b refl in
    unfold span in
    rw (path, match_target) (match_request_version-filled (codes "GET") (target uri) f)

-- The request that `get` writes is parsed as a GET of the target of the URI, with the version 1.1, the
-- headers `Host` and `User-Agent` and no body, if the target has no blank and no line break and the
-- authority is not empty.
pub parse_request-request_text :
    (client_version : Bytes) (uri : Uri)
    → IsRequestable client_version uri
    → parse_request (request_text client_version uri)
      ≡ some (record {
        method = get;
        target = target uri;
        version = codes "1.1";
        headers = request_headers client_version uri;
        body = [];
      })
unfolding parse_request ◌>>=◌
parse_request-request_text client_version uri h =
    let headers = request_headers client_version uri in
    let rest = headers_text headers ++ b'\r' ∷ b'\n' ∷ [] in
    let line_cr : Lacks is_cr (request_line uri) = (
      refl,
      (
        refl,
        (
          refl,
          (
            refl,
            All-append _ (target uri) (codes " HTTP/1.1") h.target_cr
                (lacks-Lacks is_cr (codes " HTTP/1.1") refl),
          ),
        ),
      ),
    ) in
    let good : All IsHeader headers = (
      record {
        has_key = refl;
        no_colon = lacks-Lacks is_colon (codes "Host") refl;
        no_cr = lacks-Lacks is_cr (codes "Host") refl;
        text = h.host_text;
      },
      (
        record {
          has_key = refl;
          no_colon = lacks-Lacks is_colon (codes "User-Agent") refl;
          no_cr = lacks-Lacks is_cr (codes "User-Agent") refl;
          text = (refl, unfold is_dots in h.version_text);
        },
        tt,
      ),
    ) in
    rw
      (
        request_text-lines client_version uri,
        read_line-plain (request_line uri) rest line_cr,
        parse_request,
        ◌>>=◌,
        match_request-line uri h.target_filled h.target_blank,
        read_headers-text headers [] good,
      )
      (unfold parse_method in unfold bytes_eq in refl)
