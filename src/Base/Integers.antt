-- ===== src/Base/Integers.antt =====
-- Machine integers: two's complement, and the comparison of signed numbers.
use Prim.Native.Nat.{ℕ, ◌-◌, ◌%◌, ◌^◌}
use mathlib.Core.Bool.{Bool, true, false}
use jaeger_client_cpp.Base.Tests.{ltb, if◌then◌else◌}

-- `negsuc n` is `-(n + 1)`.
pub data ℤ : Type 0 where
  pos negsuc : ℕ → ℤ

-- The signed number of so many bits that a word stands for.
unfoldable pub to_signed : ℕ → ℕ → ℤ
to_signed bits n =
    let word = n % 2 ^ bits in
    if ltb word (2 ^ (bits - 1)) then pos word else negsuc (2 ^ bits - 1 - word)

-- Conversion to an unsigned word of so many bits.
unfoldable pub to_unsigned : ℕ → ℤ → ℕ
to_unsigned bits (pos n) = n % 2 ^ bits
to_unsigned bits (negsuc n) = 2 ^ bits - 1 - n % 2 ^ bits

-- `>` on signed numbers.
unfoldable pub gtb : ℤ → ℤ → Bool
gtb (pos m) (pos n) = ltb n m
gtb (pos m) (negsuc n) = true
gtb (negsuc m) (pos n) = false
gtb (negsuc m) (negsuc n) = ltb m n
