-- ===== src/Decimal/RoundTrip.antt =====
-- What is printed is read back.
use native.Mathlib.Nat.{pow-suc}
use jaeger_client_cpp.Base.{
  ℕ, zero, suc, ◌+◌, ◌-◌, ◌*◌, ◌/◌, ◌%◌, ◌^◌, ◌<◌, ◌≡◌, refl, sym, ap, ◌∙◌, true, false, false≢true,
  [], ◌∷◌, ◌++◌, append_assoc, append-nil, Bytes, ltb, pos, arith, Bool-cases, inl, inr, All,
  All-append,
}
use jaeger_client_cpp.Decimal.{
  print_loop, print_int, is_digit, scan_digits, starts_with_digit, scan_positive, scan_int,
}

abbrev pub IsDigit : ℕ → Type 0
IsDigit ch = is_digit ch ≡ true

print_loop-IsDigit : (rounds n : ℕ) → All IsDigit (print_loop rounds n)
unfolding print_loop
print_loop-IsDigit zero n = tt
print_loop-IsDigit (suc rounds) n = elim (Bool-cases (ltb n 10)) [
  | inl e ↦ rw (e, print_loop) (ground (arith, e), tt)
  | inr e ↦
      rw (e, print_loop)
        (All-append IsDigit (print_loop rounds (n / 10)) _ (print_loop-IsDigit rounds (n / 10))
          (ground arith, tt))
]

pub print_int-IsDigit : (n : ℕ) → All IsDigit (print_int (pos n))
unfolding print_int
print_int-IsDigit n = print_loop-IsDigit 10 n

-- What follows the digits of a number.
abbrev pub Ends : Bytes → Type 0
Ends rest = starts_with_digit rest ≡ false

scan_digits-stop : (value : ℕ) (rest : Bytes) → Ends rest → scan_digits value rest ≡ value
unfolding scan_digits
scan_digits-stop value [] e = refl
scan_digits-stop value (ch ∷ rest) e = rw e refl

scan_digits-append :
    (value : ℕ) (digits rest : Bytes)
    → All IsDigit digits
    → scan_digits value (digits ++ rest) ≡ scan_digits (scan_digits value digits) rest
unfolding scan_digits
scan_digits-append value [] rest h = refl
scan_digits-append value (ch ∷ digits) rest (d, h) =
    rw d (scan_digits-append (value * 10 + (ch - b'0')) digits rest h)

scan_digits-print_loop : (rounds n : ℕ) → n < 10 ^ rounds → scan_digits 0 (print_loop rounds n) ≡ n
unfolding print_loop scan_digits
scan_digits-print_loop zero n h = omega (arith, h)
scan_digits-print_loop (suc rounds) n h = elim (Bool-cases (ltb n 10)) [
  | inl e ↦ rw (e, print_loop) (unfold scan_digits in ground (arith, e))
  | inr e ↦
      rw (e, print_loop)
        (scan_digits-append 0 (print_loop rounds (n / 10)) ((b'0' + n % 10) ∷ [])
            (print_loop-IsDigit rounds (n / 10))
          ∙ ap (λ v. scan_digits v ((b'0' + n % 10) ∷ []))
              (scan_digits-print_loop rounds (n / 10)
                (let e = pow-suc 10 rounds in omega (arith, h)))
          ∙ ground arith)
]

print_loop-starts :
    (rounds n : ℕ) (rest : Bytes) → starts_with_digit (print_loop (suc rounds) n ++ rest) ≡ true
unfolding print_loop
print_loop-starts zero n rest = elim (Bool-cases (ltb n 10)) [
  | inl e ↦ rw (e, print_loop) ground (arith, e)
  | inr e ↦ rw (e, print_loop) ground arith
]
print_loop-starts (suc rounds) n rest = elim (Bool-cases (ltb n 10)) [
  | inl e ↦ rw (e, print_loop) ground (arith, e)
  | inr e ↦
      let again = print_loop-starts rounds (n / 10) ((b'0' + n % 10) ∷ rest) in
      rw (e, print_loop, append_assoc) again
]

pub print_int-starts : (n : ℕ) → starts_with_digit (print_int (pos n)) ≡ true
unfolding print_int
print_int-starts n =
    ap starts_with_digit (sym (append-nil (print_loop 10 n))) ∙ print_loop-starts 9 n []

scan_int-digits :
    (text : Bytes) → starts_with_digit text ≡ true → scan_int text ≡ scan_positive text
unfolding scan_int
scan_int-digits [] e = absurd (false≢true e)
scan_int-digits (ch ∷ text) e = ground (arith, e)

scan_positive-print_loop :
    (n : ℕ) (rest : Bytes)
    → n < 2 ^ 31
    → Ends rest
    → scan_positive (print_loop 10 n ++ rest) ≡ (true, pos n)
unfolding scan_positive
scan_positive-print_loop n rest h ends =
    let value : scan_digits 0 (print_loop 10 n ++ rest) ≡ n =
      scan_digits-append 0 (print_loop 10 n) rest (print_loop-IsDigit 10 n)
      ∙ ap (λ v. scan_digits v rest) (scan_digits-print_loop 10 n (omega (arith, h)))
      ∙ scan_digits-stop n rest ends in
    rw (value, print_loop-starts 9 n rest) ground (arith, h)

-- A number that is not negative and fits an `int` is read back as it was printed, up to a character
-- that is no digit.
pub scan_int-print_int :
    (n : ℕ) (rest : Bytes)
    → n < 2 ^ 31
    → Ends rest
    → scan_int (print_int (pos n) ++ rest) ≡ (true, pos n)
unfolding print_int
scan_int-print_int n rest h ends =
    scan_int-digits (print_loop 10 n ++ rest) (print_loop-starts 9 n rest)
    ∙ scan_positive-print_loop n rest h ends
