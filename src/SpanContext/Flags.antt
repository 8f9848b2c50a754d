-- ===== src/SpanContext/Flags.antt =====
-- The two flag bits of a byte.
use jaeger_client_cpp.Base.{
  ℕ, ◌/◌, ◌<◌, bit_and, bit_or, ◌≡◌, refl, Bool, true, false, not, ◌&&◌, arith, ◌==◌, ltb,
  all_below, all_below_sound,
}

abbrev sampled_bit : ℕ → Bool
sampled_bit f = not (bit_and f 1 == 0)

abbrev debug_bit : ℕ → Bool
debug_bit f = not (bit_and f 2 == 0)

forced_table :
    all_below 256 (λ f.
      sampled_bit (bit_or f 3)
      && debug_bit (bit_or f 3)
      && bit_or f 3 / 4 == f / 4
      && ltb (bit_or f 3) 256)
    ≡ true
unfolding all_below
forced_table = refl

-- `flags | kSampled | kDebug` sets both bits and keeps the others.
pub bit_or-both :
    (f : ℕ)
    → f < 256
    → (sampled_bit (bit_or f 3) ≡ true)
      × (debug_bit (bit_or f 3) ≡ true)
      × (bit_or f 3 / 4 ≡ f / 4)
      × (bit_or f 3 < 256)
bit_or-both f h =
    let row = all_below_sound 256 _ f forced_table h in
    (ground arith, ground arith, ground arith, ground arith)

cleared_table :
    all_below 256 (λ f.
      not (sampled_bit (bit_and f 254)) && bit_and f 254 / 2 == f / 2 && ltb (bit_and f 254) 256)
    ≡ true
unfolding all_below
cleared_table = refl

-- `flags & ~kSampled` clears the sampled bit and keeps the others.
pub bit_and-unsampled :
    (f : ℕ)
    → f < 256
    → (sampled_bit (bit_and f 254) ≡ false) × (bit_and f 254 / 2 ≡ f / 2) × (bit_and f 254 < 256)
bit_and-unsampled f h =
    let row = all_below_sound 256 _ f cleared_table h in (ground arith, ground arith, ground arith)
