-- ===== src/Uri/Parts/RoundTrip.antt =====
-- A URI that is written out is parsed into its parts.
use jaeger_client_cpp.Base.{
  ℕ, zero, suc, ◌<◌, ◌^◌, ◌≡◌, refl, sym, ap, ◌∙◌, Bool, true, false, false≢true, not, ◌&&◌, [],
  ◌∷◌, ◌++◌, append-nil, Bytes, if◌then◌else◌, is_empty, ℤ, pos, arith, Bool-cases, inl, inr, All,
  All-map, All-append,
}
use jaeger_client_cpp.Decimal.{print_int, scan_int}
use jaeger_client_cpp.Decimal.RoundTrip.{IsDigit, scan_int-print_int, print_int-IsDigit}
use jaeger_client_cpp.Uri.Parts.{
  Uri, is_zero, authority, target, span, is_hash, ends_path, ends_authority, ends_scheme, is_colon,
  split_scheme, split_query, set_authority, parse,
}

-- Text without a character of a class.
abbrev pub Lacks : (ℕ → Bool) → Bytes → Type 0
Lacks stops = All (λ ch. stops ch ≡ false)

abbrev pub lacks : (ℕ → Bool) → Bytes → Bool
lacks stops [] = true
lacks stops (ch ∷ text) = not (stops ch) && lacks stops text

pub lacks-Lacks : (stops : ℕ → Bool) (text : Bytes) → lacks stops text ≡ true → Lacks stops text
lacks-Lacks stops [] e = tt
lacks-Lacks stops (ch ∷ text) e = (ground (arith, e), lacks-Lacks stops text (ground (arith, e)))

abbrev pub Stops : (ℕ → Bool) → Bytes → Type 0
Stops stops [] = Unit {0}
Stops stops (ch ∷ rest) = stops ch ≡ true

pub span-append :
    (stops : ℕ → Bool) (front rest : Bytes)
    → Lacks stops front
    → Stops stops rest
    → span stops (front ++ rest) ≡ (front, rest)
unfolding span
span-append stops [] [] h s = refl
span-append stops [] (ch ∷ rest) h s = rw (s, span) refl
span-append stops (ch ∷ front) rest (n, h) s = rw (n, span, span-append stops front rest h s) refl

-- The text of a URI with an authority.
unfoldable pub text_of : Uri → Bytes
unfolding authority target
text_of u = u.scheme ++ b':' ∷ b'/' ∷ b'/' ∷ (authority u ++ target u)

-- The parts of a URI that its text keeps apart.
pub record IsUri (u : Uri) : Type 0 where
  pub has_scheme : is_empty u.scheme ≡ false
  pub scheme_plain : Lacks ends_scheme u.scheme
  pub host_plain : Lacks ends_scheme u.host
  pub port : ℕ
  pub port_eq : u.port ≡ pos port
  pub port_lt : port < 2 ^ 31
  pub path_tail : Bytes
  pub path_eq : u.path ≡ b'/' ∷ path_tail
  pub path_plain : Lacks ends_path path_tail
  pub query_plain : Lacks is_hash u.query

split_scheme-plain :
    (text s rest : Bytes) → is_empty s ≡ false → split_scheme text (s, b':' ∷ rest) ≡ (s, rest)
unfolding split_scheme
split_scheme-plain text [] rest ne = absurd (false≢true (sym ne))
split_scheme-plain text (ch ∷ s) rest ne = refl

port_text : ℤ → Bytes
port_text port = if is_zero port then [] else b':' ∷ print_int port

query_text : Bytes → Bytes
query_text query = if is_empty query then [] else b'?' ∷ query

authority-port_text : (u : Uri) → authority u ≡ u.host ++ port_text u.port
unfolding authority port_text
authority-port_text u = elim (Bool-cases (is_zero u.port)) [
  | inl e ↦ rw (e, authority) (sym (append-nil u.host))
  | inr e ↦ rw (e, authority) refl
]

target-query_text :
    (u : Uri) (tail : Bytes) → u.path ≡ b'/' ∷ tail → target u ≡ (b'/' ∷ tail) ++ query_text u.query
unfolding target query_text
target-query_text u tail e = elim (Bool-cases (is_empty u.query)) [
  | inl f ↦ rw (e, f, target) (sym (append-nil (b'/' ∷ tail)))
  | inr f ↦ rw (e, f, target) refl
]

split_query-query_text :
    (query : Bytes) → Lacks is_hash query → split_query (query_text query) ≡ query
unfolding split_query query_text
split_query-query_text [] h = refl
split_query-query_text (ch ∷ query) h =
    ap (λ (t : Bytes). (span is_hash t).0) (sym (append-nil (ch ∷ query)))
    ∙ ap (λ (p : Bytes × Bytes). p.0) (span-append is_hash (ch ∷ query) [] h tt)

query_text-Stops : (query : Bytes) → Stops ends_path (query_text query)
unfolding query_text
query_text-Stops [] = tt
query_text-Stops (ch ∷ query) = refl

port_text-Stops : (port : ℤ) → Stops is_colon (port_text port)
unfolding port_text
port_text-Stops port = ground arith

print_int-Lacks : (n : ℕ) → Lacks ends_authority (print_int (pos n))
print_int-Lacks n =
    All-map IsDigit (λ ch. ends_authority ch ≡ false) _ (λ ch d. ground (arith, d))
      (print_int-IsDigit n)

port_text-Lacks : (n : ℕ) → Lacks ends_authority (port_text (pos n))
unfolding port_text
port_text-Lacks zero = tt
port_text-Lacks (suc n) = (refl, print_int-Lacks (suc n))

set_authority-port_text :
    (n : ℕ) (u : Uri) (host : Bytes)
    → u.port ≡ pos 0
    → n < 2 ^ 31
    → set_authority (host, port_text (pos n)) u ≡ record u { host = host; port = pos n }
unfolding set_authority port_text
set_authority-port_text zero u host z h = ap (λ p. record u { host = host; port = p }) z
set_authority-port_text (suc n) u host z h =
    ap (λ t. record u { host = host; port = (scan_int t).1 })
      (sym (append-nil (print_int (pos (suc n)))))
    ∙ ap (λ (p : Bool × ℤ). record u { host = host; port = p.1 })
        (scan_int-print_int (suc n) [] h refl)

authority-Lacks : (u : Uri) → IsUri u → Lacks ends_authority (authority u)
authority-Lacks u h =
    rw (authority-port_text u, h.port_eq)
      (All-append _ u.host (port_text (pos h.port))
        (All-map _ _ u.host (λ ch n. ground (arith, n)) h.host_plain) (port_text-Lacks h.port))

-- A URI with a scheme, an authority and an absolute path is its own text: `parse` gives back the scheme,
-- the host, the port, the path and the query, where no part has the character that ends it.
pub parse-text_of : (u : Uri) → IsUri u → parse (text_of u) ≡ u
unfolding parse text_of
parse-text_of u h =
    let path = b'/' ∷ h.path_tail in
    let tail = target-query_text u h.path_tail h.path_eq in
    let rest = b'/' ∷ b'/' ∷ (authority u ++ target u) in
    let bare : Uri = record u { host = []; port = pos 0; path = path } in
    let at_scheme : span ends_scheme (text_of u) ≡ (u.scheme, b':' ∷ rest) =
      span-append ends_scheme u.scheme (b':' ∷ rest) h.scheme_plain refl in
    let at_authority : span ends_authority (authority u ++ target u) ≡ (authority u, target u) =
      span-append ends_authority (authority u) (target u) (authority-Lacks u h) (rw tail refl) in
    let at_path : span ends_path (target u) ≡ (path, query_text u.query) = rw tail (
      span-append ends_path path (query_text u.query) (refl, h.path_plain)
        (query_text-Stops u.query)) in
    let at_host : span is_colon (authority u) ≡ (u.host, port_text u.port) =
      rw (authority-port_text u) (
        span-append is_colon u.host (port_text u.port)
          (All-map _ _ u.host (λ ch n. ground (arith, n)) h.host_plain) (port_text-Stops u.port)) in
    rw
      (
        parse,
        at_scheme,
        split_scheme-plain (text_of u) u.scheme rest h.has_scheme,
        at_authority,
        at_path,
        at_host,
        split_query-query_text u.query h.query_plain,
      )
      (ap (λ q. set_authority (u.host, port_text q) bare) h.port_eq
        ∙ set_authority-port_text h.port bare u.host refl h.port_lt
        ∙ ap (λ q. record u { port = q; path = path }) (sym h.port_eq)
        ∙ ap (λ q. record u { path = q }) (sym h.path_eq))
