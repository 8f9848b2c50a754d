-- ===== src/Hex/Parser.antt =====
-- The readers that are built from `in.get` and `readSegment`: a reader consumes a prefix of the
-- stream, and `none` stands for the early `return` of a default object.
use jaeger_client_cpp.Base.{
  ℕ, ◌≤◌, ◌≡◌, refl, false, Option, none, some, [], ◌∷◌, ◌++◌, ◌==◌, if◌then◌else◌, Bytes, length,
  All, is_empty, ap, sym, ◌∙◌, ◌≢◌, arith,
}
use jaeger_client_cpp.Hex.{Stream, good, get, clear, read_segment, is_hex}
use jaeger_client_cpp.Hex.Segment.{IsHex, read_segment-IsSegment}
use jaeger_client_cpp.Hex.RoundTrip.{read_segment-delim, read_segment-end, clear-read_segment}

abbrev pub Reader : Type 0 → Type 0
Reader A = Stream → Option A × Stream

-- Go on behind a part that succeeded, and leave behind one that did not.
abbrev pub go_on : {A B : Type 0} → Option A × Stream → (A → Reader B) → Option B × Stream
go_on (none, s) f = (none, s)
go_on (some a, s) f = f a s

infixl 5 ◌>>=◌ ◌>>◌
abbrev pub ◌>>=◌ : {A B : Type 0} → Reader A → (A → Reader B) → Reader B
◌>>=◌ m f s = go_on (m s) f

abbrev pub ◌>>◌ : {A B : Type 0} → Reader A → Reader B → Reader B
m >> k = m >>= λ _. k

abbrev pub done : {A : Type 0} → A → Reader A
done a s = (some a, s)

abbrev pub leave : {A : Type 0} → Reader A
leave s = (none, s)

-- `if (!in.get(ch) || ch != expected) return {};`
unfoldable pub expect : ℕ → Reader (Unit {0})
unfolding get
expect ch s =
    let (next, s') = get s in
    elim next [ none ↦ (none, s') | some c ↦ if c == ch then (some tt, s') else (none, s') ]

-- `buffer = readSegment(in, maxChars, delim); if (buffer.empty()) return {};`
unfoldable pub segment : ℕ → ℕ → Reader Bytes
segment max_chars delim s =
    let (buffer, s') = read_segment s max_chars delim in
    if is_empty buffer then (none, s') else (some buffer, s')

-- `in.clear()`
unfoldable pub clear_stream : Reader (Unit {0})
clear_stream s = (some tt, clear s)

pub expect_hit : (ch : ℕ) (rest : Bytes) → expect ch (good (ch ∷ rest)) ≡ (some tt, good rest)
unfolding expect
expect_hit ch rest = ground arith

nonempty : {A : Type 0} (s : Bytes) (x y : A) → s ≢ [] → (if is_empty s then x else y) ≡ y
nonempty [] x y h = absurd (h refl)
nonempty (c ∷ s) x y h = refl

pub segment-delim :
    (s rest : Bytes) (max_chars delim : ℕ)
    → s ≢ []
    → All IsHex s
    → length s ≤ max_chars
    → is_hex delim ≡ false
    → segment max_chars delim (good (s ++ delim ∷ rest)) ≡ (some s, good (delim ∷ rest))
unfolding segment
segment-delim s rest max_chars delim ne h k d =
    rw (read_segment-delim s rest max_chars delim h k d) (nonempty s _ _ ne)

-- The last segment of the stream, and the stream that `in.clear()` makes of what is left.
pub segment-end :
    (s : Bytes) (max_chars delim : ℕ)
    → s ≢ []
    → All IsHex s
    → length s ≤ max_chars
    → (t : Stream) × (segment max_chars delim (good s) ≡ (some s, t)) × (clear t ≡ good [])
unfolding segment
segment-end s max_chars delim ne h k =
    let r = read_segment (good s) max_chars delim in
    let e = read_segment-end s max_chars delim h k in
    (
      r.1,
      nonempty {A = Option Bytes × Stream} r.0 (none, r.1) (some r.0, r.1) (λ z. ne (sym e ∙ z))
          ∙ ap (λ b. (some b, r.1)) e,
      clear-read_segment s max_chars delim h k,
    )

pub clear-done :
    {A : Type 0} (a : A) (t : Stream)
    → clear t ≡ good []
    → (clear_stream >> done a) t ≡ (some a, good [])
unfolding clear_stream
clear-done a t e = ap (λ u. (some a, u)) e

-- The last segment, `in.clear()` and the result.
pub segment-end_done :
    {A : Type 0} (s : Bytes) (max_chars delim : ℕ) (f : Bytes → A)
    → s ≢ []
    → All IsHex s
    → length s ≤ max_chars
    → (do buffer ← segment max_chars delim; clear_stream; done (f buffer)) (good s)
      ≡ (some (f s), good [])
segment-end_done s max_chars delim f ne h k =
    let (t, e, c) = segment-end s max_chars delim ne h k in
    rw (e, ◌>>=◌, go_on) (clear-done (f s) t c)

-- A property of what a reader's success yields.
abbrev pub Yields : {A : Type 0} → (A → Type 0) → Option A × Stream → Type 0
Yields P (none, s) = Unit {0}
Yields P (some a, s) = P a

pub go_on-Yields :
    {A B : Type 0} (P : A → Type 0) (Q : B → Type 0) (r : Option A × Stream) (f : A → Reader B)
    → Yields P r
    → ((a : A) (s : Stream) → P a → Yields Q (f a s))
    → Yields Q (go_on r f)
go_on-Yields P Q (none, s) f h k = tt
go_on-Yields P Q (some a, s) f h k = k a s h

pub segment-Yields :
    (max_chars delim : ℕ) (s : Stream) → Yields (All IsHex) (segment max_chars delim s)
unfolding segment
segment-Yields max_chars delim s =
    pick (read_segment s max_chars delim).0 _ (read_segment-IsSegment s max_chars delim).0
  where
    pick :
        (b : Bytes) (t : Stream)
        → All IsHex b
        → Yields
            (All IsHex)
            (if◌then◌else◌ {A = Option Bytes × Stream} (is_empty b) (none, t) (some b, t))
    pick [] t h = tt
    pick (c ∷ b) t h = h

-- A part whose value does not matter.
pub any-Yields : {A : Type 0} (r : Option A × Stream) → Yields (λ _. Unit {0}) r
any-Yields (none, s) = tt
any-Yields (some a, s) = tt
