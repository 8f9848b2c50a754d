-- ===== src/Base/Bits.antt =====
-- `|` and `&` on machine words as arithmetic.
use Prim.Native.Nat.{
  ℕ, zero, suc, ◌+◌, ◌*◌, ◌/◌, ◌%◌, ◌^◌, ◌≤◌, ◌<◌, max, bit_or, digits, bit_or-bitwise,
}
use mathlib.Core.Path.{◌≡◌, refl, ap, ◌∙◌}
use mathlib.Core.Bool.{Bool, true, ◌&&◌}
use native.Mathlib.Nat.{pow-suc}
use native.Mathlib.Omega.{arith}

-- To check a fact about every byte by evaluation.
unfoldable pub all_below : ℕ → (ℕ → Bool) → Bool
all_below zero test = true
all_below (suc bound) test = all_below bound test && test bound

pub all_below_sound :
    (bound : ℕ) (test : ℕ → Bool) (i : ℕ) → all_below bound test ≡ true → i < bound → test i ≡ true
unfolding all_below
all_below_sound zero test i checked small = absurd (omega arith)
all_below_sound (suc bound) test i checked small = ground (arith, all_below_sound bound test i)

abbrev or_digits : ℕ → ℕ → ℕ → ℕ
or_digits n a b = digits (λ y. y) max n a b

-- Fuel beyond the number itself changes nothing.
or_digits_fuel : (more few a b : ℕ) → a ≤ few → few ≤ more → or_digits more a b ≡ or_digits few a b
or_digits_fuel zero zero a b le fits = refl
or_digits_fuel (suc more) zero zero b le fits = refl
or_digits_fuel (suc more) zero (suc a) b le fits = absurd (omega arith)
or_digits_fuel zero (suc few) a b le fits = absurd (omega arith)
or_digits_fuel (suc more) (suc few) zero b le fits = refl
or_digits_fuel (suc more) (suc few) (suc a) b le fits =
    omega (arith, or_digits_fuel more few (suc a / 2) (b / 2) (omega arith) (omega arith))

pub zero-bit_or : (b : ℕ) → bit_or 0 b ≡ b
zero-bit_or b = bit_or-bitwise 0 b

-- The lowest bit apart from the others.
pub bit_or_step : (a b : ℕ) → bit_or a b ≡ bit_or (a / 2) (b / 2) * 2 + max (a % 2) (b % 2)
bit_or_step zero b = omega (arith, zero-bit_or b, zero-bit_or (b / 2))
bit_or_step (suc a) b = omega (
  arith,
  bit_or-bitwise (suc a) b,
  bit_or-bitwise (suc a / 2) (b / 2),
  or_digits_fuel a (suc a / 2) (suc a / 2) (b / 2) (omega arith) (omega arith),
)

bit_or-zero_fuel : (n a : ℕ) → a ≤ n → bit_or a 0 ≡ a
bit_or-zero_fuel n zero h = refl
bit_or-zero_fuel zero (suc a) h = absurd (omega arith)
bit_or-zero_fuel (suc n) (suc a) h =
    omega (arith, bit_or_step (suc a) 0, bit_or-zero_fuel n (suc a / 2) (omega arith))

pub bit_or-zero : (a : ℕ) → bit_or a 0 ≡ a
bit_or-zero a = bit_or-zero_fuel a a (omega arith)

-- Shifting by one bit leaves room for one bit.
or_shift_one : (a d b m : ℕ) → b ≡ a * 2 → bit_or a (d / 2) ≡ m → bit_or b d ≡ m * 2 + d % 2
or_shift_one a d b m e h = ground (arith, bit_or_step b d)

-- `(a << k) | b` is a sum when `b` has at most `k` bits.
pub bit_or_shift : (k a b : ℕ) → b < 2 ^ k → bit_or (a * 2 ^ k) b ≡ a * 2 ^ k + b
bit_or_shift zero a b h =
    let none_left : b ≡ 0 = omega arith in
    let same : a * 2 ^ 0 ≡ a = omega arith in rw (none_left, same, bit_or-zero a) (omega arith)
bit_or_shift (suc k) a b h =
    let twice : a * 2 ^ suc k ≡ a * 2 ^ k * 2 =
      omega (arith, ap (λ (t : ℕ). a * t) (pow-suc 2 k)) in
    let half : b / 2 < 2 ^ k = omega (arith, pow-suc 2 k) in
    or_shift_one (a * 2 ^ k) b (a * 2 ^ suc k) (a * 2 ^ k + b / 2) twice
      (bit_or_shift k a (b / 2) half)
    ∙ omega arith

-- So for a hexadecimal digit and for a byte.
pub bit_or_nibble : (a d : ℕ) → d < 16 → bit_or (a * 16) d ≡ a * 16 + d
bit_or_nibble a d h = bit_or_shift 4 a d h

pub bit_or_byte : (a d : ℕ) → d < 256 → bit_or (a * 256) d ≡ a * 256 + d
bit_or_byte a d h = bit_or_shift 8 a d h
