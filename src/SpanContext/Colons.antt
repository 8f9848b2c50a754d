-- ===== src/SpanContext/Colons.antt =====
-- A context is read from no text with fewer than three colons.
use jaeger_client_cpp.Base.{
  ℕ, zero, suc, ◌+◌, ◌<◌, ◌≤◌, ◌≡◌, refl, ap, ◌⊎◌, Option, none, some, [], ◌∷◌, ◌++◌, arith, Bytes,
  ◌==◌, if◌then◌else◌, is_empty, Bool-cases, inl, inr,
}
use jaeger_client_cpp.Hex.{Stream, good, failed, get, putback, is_hex, read_loop, read_segment}
use jaeger_client_cpp.Hex.Parser.{Reader, go_on, ◌>>=◌, expect, segment}
use jaeger_client_cpp.TraceId
use jaeger_client_cpp.TraceId.{TraceId}
use jaeger_client_cpp.SpanContext.{empty, read_trace, read_fields, or_empty, from_stream}

unfoldable pub colons : Bytes → ℕ
colons [] = 0
colons (ch ∷ text) = (if ch == b':' then 1 else 0) + colons text

left : Stream → ℕ
left (good text) = colons text
left failed = 0

read_loop-left :
    (rounds : ℕ) (buffer : Bytes) (s : Stream) → left (read_loop rounds b':' buffer s).1 ≤ left s
unfolding read_loop get putback left colons
read_loop-left zero buffer s = omega arith
read_loop-left (suc rounds) buffer failed = omega arith
read_loop-left (suc rounds) buffer (good []) = omega arith
read_loop-left (suc rounds) buffer (good (ch ∷ text)) = elim (Bool-cases (is_hex ch)) [
  | inl e ↦ rw e (omega (arith, read_loop-left rounds (buffer ++ ch ∷ []) (good text)))
  | inr e ↦ elim (Bool-cases (ch == b':')) [
    | inl f ↦ rw (e, f) (ground (arith, f))
    | inr f ↦ rw (e, f) (ground (arith, f))
  ]
]

-- A reader that adds no colon to what is left.
Keeps : {A : Type 0} → Reader A → Type 0
Keeps m = (s : Stream) → left (m s).1 ≤ left s

-- A reader that stops if fewer than so many colons are left.
Needs : {A : Type 0} → ℕ → Reader A → Type 0
Needs n m = (s : Stream) → left s < n → (m s).0 ≡ none

go_on-none :
    {A B : Type 0} (n : ℕ) (f : A → Reader B) (r : Option A × Stream)
    → left r.1 < n
    → ((a : A) → Needs n (f a))
    → (go_on r f).0 ≡ none
unfolding Needs
go_on-none n f (none, t) few h = refl
go_on-none n f (some a, t) few h = h a t few

Needs-bind :
    {A B : Type 0} (n : ℕ) (m : Reader A) (f : A → Reader B)
    → Keeps m
    → ((a : A) → Needs n (f a))
    → Needs n (m >>= f)
unfolding Keeps Needs
Needs-bind n m f k h s few = go_on-none n f (m s) (omega (arith, few, k s)) h

-- A colon is read, or the reader stops.
expect-colon : (s : Stream) → (left (expect b':' s).1 + 1 ≤ left s) ⊎ ((expect b':' s).0 ≡ none)
unfolding expect get left colons
expect-colon failed = inr refl
expect-colon (good []) = inr refl
expect-colon (good (ch ∷ text)) = elim (Bool-cases (ch == b':')) [
  | inl e ↦ rw e (inl (omega arith))
  | inr e ↦ rw e (inr refl)
]

go_on_stopped :
    {A B : Type 0} (f : A → Reader B) (r : Option A × Stream) → r.0 ≡ none → (go_on r f).0 ≡ none
go_on_stopped f (none, t) e = refl
go_on_stopped f (some a, t) e = absurd (ground (arith, e))

Needs-expect :
    {B : Type 0} (n : ℕ) (f : Unit {0} → Reader B)
    → ((u : Unit {0}) → Needs n (f u))
    → Needs (n + 1) (expect b':' >>= f)
unfolding Needs
Needs-expect n f h s few = elim (expect-colon s) [
  | inl le ↦ go_on-none n f (expect b':' s) (omega (arith, few, le)) h
  | inr e ↦ go_on_stopped f (expect b':' s) e
]

Needs-zero : {A : Type 0} (m : Reader A) → Needs 0 m
unfolding Needs
Needs-zero m s few = absurd (omega (arith, few))

segment-Keeps : (max_chars : ℕ) → Keeps (segment max_chars b':')
unfolding Keeps segment read_segment
segment-Keeps max_chars s =
    let (buffer, t) = read_segment s max_chars b':' in
    elim (Bool-cases (is_empty buffer)) [
      | inl e ↦ rw e (read_loop-left max_chars [] s)
      | inr e ↦ rw e (read_loop-left max_chars [] s)
    ]

read_trace-Keeps : Keeps read_trace
unfolding Keeps read_trace TraceId.from_stream read_segment
read_trace-Keeps s =
    let (t, rest) = TraceId.from_stream s in
    elim (Bool-cases (TraceId.is_valid t)) [
      | inl e ↦ rw e (read_loop-left 32 [] s)
      | inr e ↦ rw e (read_loop-left 32 [] s)
    ]

read_fields-Needs : Needs 3 read_fields
unfolding read_fields
read_fields-Needs = Needs-bind 3 read_trace _ read_trace-Keeps (λ trace_id. Needs-expect 2 _ (λ _.
    Needs-bind 2 (segment 16 b':') _ (segment-Keeps 16) (λ span. Needs-expect 1 _ (λ _.
      Needs-bind 1 (segment 16 b':') _ (segment-Keeps 16)
        (λ parent. Needs-expect 0 _ (λ _. Needs-zero _))))))

-- What is read of a text with fewer than three colons is the empty context.
pub from_stream-colons : (text : Bytes) → colons text < 3 → (from_stream (good text)).0 ≡ empty
unfolding from_stream or_empty Needs left
from_stream-colons text few = ap or_empty (read_fields-Needs (good text) few)
