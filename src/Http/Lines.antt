-- ===== src/Http/Lines.antt =====
-- Lines and headers that are written out are read back.
use jaeger_client_cpp.Base.{
  ℕ, zero, suc, ◌≤◌, ◌≡◌, refl, sym, ap, ◌∙◌, Bool, true, false, false≢true, Option, none, some,
  List, [], ◌∷◌, ◌++◌, append_assoc, append-nil, Bytes, length, length-append, ◌==◌, is_empty,
  arith, All, All-append, Bool-cases, Option-cases, inl, inr,
}
use jaeger_client_cpp.Uri.Parts.{span, is_colon}
use jaeger_client_cpp.Uri.Parts.RoundTrip.{Lacks, span-append}
use jaeger_client_cpp.Http.{
  Header, line_loop, read_line, is_dots, match_header, header_loop, read_headers,
}

abbrev pub is_cr : ℕ → Bool
is_cr ch = ch == b'\r'

line_loop-plain :
    (acc line rest : Bytes)
    → Lacks is_cr line
    → line_loop false acc (line ++ b'\r' ∷ b'\n' ∷ rest) ≡ some (acc ++ line, rest)
unfolding line_loop
line_loop-plain acc [] rest h = ap (λ t. some (t, rest)) (sym (append-nil acc))
line_loop-plain acc (ch ∷ line) rest (n, h) =
    rw (n, line_loop)
      (line_loop-plain (acc ++ ch ∷ []) line rest h
        ∙ ap (λ t. some (t, rest)) (append_assoc acc (ch ∷ []) line))

pub read_line-plain :
    (line rest : Bytes)
    → Lacks is_cr line
    → read_line (line ++ b'\r' ∷ b'\n' ∷ rest) ≡ some (line, rest)
unfolding read_line
read_line-plain line rest h = line_loop-plain [] line rest h

-- A value that a header or a reason can have.
abbrev pub IsText : Bytes → Type 0
IsText value = (is_empty value ≡ false) × (is_dots value ≡ true)

pub record IsHeader (h : Header) : Type 0 where
  pub has_key : is_empty h.key ≡ false
  pub no_colon : Lacks is_colon h.key
  pub no_cr : Lacks is_cr h.key
  pub text : IsText h.value

abbrev pub header_text : Header → Bytes
header_text h = h.key ++ b':' ∷ b' ' ∷ h.value

abbrev pub headers_text : List Header → Bytes
headers_text [] = []
headers_text (h ∷ hs) = header_text h ++ b'\r' ∷ b'\n' ∷ headers_text hs

pub is_dots-Lacks : (value : Bytes) → is_dots value ≡ true → Lacks is_cr value
unfolding is_dots
is_dots-Lacks [] d = tt
is_dots-Lacks (ch ∷ value) d = (ground (arith, d), is_dots-Lacks value (ground (arith, d)))

match_header-parts :
    (key value : Bytes)
    → is_empty key ≡ false
    → IsText value
    → match_header (key, b':' ∷ b' ' ∷ value) ≡ some (record { key = key; value = value })
unfolding match_header
match_header-parts [] value k t = absurd (false≢true (sym k))
match_header-parts (k ∷ key) [] f t = absurd (false≢true (sym t.0))
match_header-parts (k ∷ key) (v ∷ value) f t = rw (t.1, match_header) refl

match_header-text :
    (h : Header) → IsHeader h → match_header (span is_colon (header_text h)) ≡ some h
match_header-text h p =
    ap match_header (span-append is_colon h.key (b':' ∷ b' ' ∷ h.value) p.no_colon refl)
    ∙ match_header-parts h.key h.value p.has_key p.text

is_empty-append : (s t : Bytes) → is_empty s ≡ false → is_empty (s ++ t) ≡ false
is_empty-append [] t e = absurd (false≢true (sym e))
is_empty-append (c ∷ s) t e = refl

header_text-Lacks : (h : Header) → IsHeader h → Lacks is_cr (header_text h)
header_text-Lacks h p =
    All-append _ h.key (b':' ∷ b' ' ∷ h.value) p.no_cr
      (refl, (refl, is_dots-Lacks h.value p.text.1))

header_loop-text :
    (fuel : ℕ) (hs acc : List Header) (body : Bytes)
    → All IsHeader hs
    → suc (length hs) ≤ fuel
    → header_loop fuel (headers_text hs ++ b'\r' ∷ b'\n' ∷ body) acc ≡ some (acc ++ hs, body)
unfolding header_loop
header_loop-text zero hs acc body good le = absurd (ground (arith, le))
header_loop-text (suc fuel) [] acc body good le =
    unfold read_line in unfold line_loop in ap (λ t. some (t, body)) (sym (append-nil acc))
header_loop-text (suc fuel) (h ∷ hs) acc body (p, good) le =
    let rest = headers_text hs ++ b'\r' ∷ b'\n' ∷ body in
    let whole : headers_text (h ∷ hs) ++ b'\r' ∷ b'\n' ∷ body
        ≡ header_text h ++ b'\r' ∷ b'\n' ∷ rest =
      append_assoc (header_text h) (b'\r' ∷ b'\n' ∷ headers_text hs) _ in
    let line : read_line (header_text h ++ b'\r' ∷ b'\n' ∷ rest) ≡ some (header_text h, rest) =
      read_line-plain (header_text h) rest (header_text-Lacks h p) in
    let filled = is_empty-append h.key (b':' ∷ b' ' ∷ h.value) p.has_key in
    rw (whole, line, header_loop, filled, match_header-text h p)
      (header_loop-text fuel hs (acc ++ h ∷ []) body good (omega (arith, le))
        ∙ ap (λ t. some (t, body)) (append_assoc acc (h ∷ []) hs))

length-headers_text : (hs : List Header) → length hs ≤ length (headers_text hs)
length-headers_text [] = omega arith
length-headers_text (h ∷ hs) =
    omega (
      arith,
      length-headers_text hs,
      length-append (header_text h) (b'\r' ∷ b'\n' ∷ headers_text hs),
    )

-- Headers that end with an empty line are read back, and the body behind them is left.
pub read_headers-text :
    (hs : List Header) (body : Bytes)
    → All IsHeader hs
    → read_headers (headers_text hs ++ b'\r' ∷ b'\n' ∷ body) ≡ some (hs, body)
unfolding read_headers
read_headers-text hs body good =
    header_loop-text (suc (length (headers_text hs ++ b'\r' ∷ b'\n' ∷ body))) hs [] body good (
      omega (arith, length-headers_text hs, length-append (headers_text hs) (b'\r' ∷ b'\n' ∷ body)))

abbrev IsShorter : Bytes → Option (Bytes × Bytes) → Type 0
IsShorter text none = Unit {0}
IsShorter text (some (line, rest)) = suc (length rest) ≤ length text

IsShorter-more :
    (text : Bytes) (ch : ℕ) (o : Option (Bytes × Bytes))
    → IsShorter text o
    → IsShorter (ch ∷ text) o
IsShorter-more text ch none h = tt
IsShorter-more text ch (some (line, rest)) h = omega (arith, h)

line_loop-IsShorter :
    (saw_cr : Bool) (line text : Bytes) → IsShorter text (line_loop saw_cr line text)
unfolding line_loop
line_loop-IsShorter saw_cr line [] = tt
line_loop-IsShorter true line (ch ∷ text) = elim (Bool-cases (ch == b'\n')) [
  | inl y ↦ rw (y, line_loop) (omega arith)
  | inr y ↦
      let l = line ++ b'\r' ∷ ch ∷ [] in
      rw (y, line_loop)
        (IsShorter-more text ch (line_loop false l text) (line_loop-IsShorter false l text))
]
line_loop-IsShorter false line (ch ∷ text) = elim (Bool-cases (ch == b'\r')) [
  | inl y ↦
      rw (y, line_loop)
        (IsShorter-more text ch (line_loop true line text) (line_loop-IsShorter true line text))
  | inr y ↦
      let l = line ++ ch ∷ [] in
      rw (y, line_loop)
        (IsShorter-more text ch (line_loop false l text) (line_loop-IsShorter false l text))
]

header_loop-fuel :
    (fuel more : ℕ) (text : Bytes) (acc : List Header)
    → suc (length text) ≤ fuel
    → suc (length text) ≤ more
    → header_loop fuel text acc ≡ header_loop more text acc
unfolding header_loop read_line
header_loop-fuel zero more text acc le me = absurd (ground (arith, le))
header_loop-fuel (suc fuel) zero text acc le me = absurd (ground (arith, me))
header_loop-fuel (suc fuel) (suc more) text acc le me =
    elim (Option-cases (line_loop false [] text)) [
      | inl e ↦ rw (e, header_loop) refl
      | inr ((line, rest), e) ↦
          let shorter = rw e at (line_loop-IsShorter false [] text) in
          elim (Bool-cases (is_empty line)) [
            | inl y ↦ rw (e, y, header_loop) refl
            | inr y ↦ elim (Option-cases (match_header (span is_colon line))) [
              | inl m ↦ rw (e, y, m, header_loop) refl
              | inr (h, m) ↦
                  rw (e, y, m, header_loop)
                    (header_loop-fuel fuel more rest (acc ++ h ∷ []) (omega (arith, shorter, le))
                      (omega (arith, shorter, me)))
            ]
          ]
    ]

-- The fuel of the loop on headers is enough: with any more of it, what is read is the same.
pub read_headers-enough :
    (fuel : ℕ) (text : Bytes)
    → suc (length text) ≤ fuel
    → header_loop fuel text [] ≡ read_headers text
unfolding read_headers
read_headers-enough fuel text le =
    header_loop-fuel fuel (suc (length text)) text [] le (omega arith)
