-- ===== src/Samplers/Limits.antt =====
-- The balance of a rate limiter.
use jaeger_client_cpp.Base.{
  ℕ, ◌-◌, ◌^◌, ◌<◌, ◌≤◌, ◌≡◌, refl, sym, subst, true, false, List, [], ◌∷◌, pos, arith, Bool-cases,
  inl, inr,
}
use jaeger_client_cpp.Samplers.{Arithmetic, RateLimiter, new_limiter, elapsed, earned, check_credit}

module _ {D : Type 0} (a : Arithmetic D) (IsFinite : D → Type 0) where
  abbrev pub IsLe : D → D → Type 0
  IsLe x y = a.le x y ≡ true

  -- What the limiter relies on, which holds of the doubles of IEEE 754: a comparison is true of numbers
  -- alone, which are those that are equal to themselves, and orders them; a number between zero and a
  -- finite one is finite; the sum of what is not negative, the product of finite numbers that are not
  -- negative, and the difference of finite ones in order, are not negative; a time of 64 bits is a finite
  -- number of seconds.
  pub record IsOrdered : Type 0 where
    pub le_self : (x y : D) → IsLe x y → IsLe x x × IsLe y y
    pub le_trans : (x y z : D) → IsLe x y → IsLe y z → IsLe x z
    pub not_lt : (x y : D) → IsLe x x → IsLe y y → a.lt x y ≡ false → IsLe y x
    pub finite_between : (x y : D) → IsLe a.zero_value x → IsLe x y → IsFinite y → IsFinite x
    pub add_nonneg :
        (x y : D) → IsLe a.zero_value x → IsLe a.zero_value y → IsLe a.zero_value (a.add x y)
    pub mul_nonneg :
        (x y : D)
        → IsFinite x
        → IsFinite y
        → IsLe a.zero_value x
        → IsLe a.zero_value y
        → IsLe a.zero_value (a.mul x y)
    pub sub_nonneg :
        (x y : D) → IsFinite x → IsLe a.zero_value y → IsLe y x → IsLe a.zero_value (a.sub x y)
    pub sub_le : (x y : D) → IsFinite x → IsLe a.zero_value y → IsLe y x → IsLe (a.sub x y) x
    pub seconds_finite : (n : ℕ) → n < 2 ^ 63 → IsFinite (a.seconds (pos n))
    pub seconds_nonneg : (n : ℕ) → n < 2 ^ 63 → IsLe a.zero_value (a.seconds (pos n))

  -- The balance is between zero and its maximum.
  pub record IsFunded (r : RateLimiter D) : Type 0 where
    pub rate_finite : IsFinite r.credits_per_second
    pub rate_nonneg : IsLe a.zero_value r.credits_per_second
    pub max_finite : IsFinite r.max_balance
    pub max_nonneg : IsLe a.zero_value r.max_balance
    pub balance_nonneg : IsLe a.zero_value r.balance
    pub balance_le : IsLe r.balance r.max_balance

  elapsed-later : (now last : ℕ) → last ≤ now → elapsed now last ≡ pos (now - last)
  unfolding elapsed
  elapsed-later now last le = ground (arith, le)

  earned-bounds :
      (o : IsOrdered) (now : ℕ) (r : RateLimiter D)
      → r.last_tick ≤ now
      → now < 2 ^ 63
      → IsFunded r
      → IsLe a.zero_value (earned a now r) × IsLe (earned a now r) r.max_balance
  unfolding earned
  earned-bounds o now r later small h =
      let time = now - r.last_tick in
      let short : time < 2 ^ 63 = omega (arith, small) in
      let credit = a.mul (a.seconds (pos time)) r.credits_per_second in
      let balance = a.add r.balance credit in
      let credit_nonneg =
        o.mul_nonneg _ _ (o.seconds_finite time short) h.rate_finite (o.seconds_nonneg time short)
          h.rate_nonneg in
      let nonneg = o.add_nonneg r.balance credit h.balance_nonneg credit_nonneg in
      let max_number = (o.le_self _ _ h.max_nonneg).1 in
      elim (Bool-cases (a.lt r.max_balance balance)) [
        | inl e ↦ rw (elapsed-later now r.last_tick later, e, earned) (h.max_nonneg, max_number)
        | inr e ↦
            rw (elapsed-later now r.last_tick later, e, earned)
              (nonneg, o.not_lt r.max_balance balance max_number (o.le_self _ _ nonneg).1 e)
      ]

  check_credit-IsFunded :
      (o : IsOrdered) (now : ℕ) (cost : D) (r : RateLimiter D)
      → IsLe a.zero_value cost
      → r.last_tick ≤ now
      → now < 2 ^ 63
      → IsFunded r
      → IsFunded (check_credit a now cost r).1 × ((check_credit a now cost r).1.last_tick ≡ now)
  unfolding check_credit
  check_credit-IsFunded o now cost r c later small h =
      let credits = earned a now r in
      let (nonneg, le) = earned-bounds o now r later small h in
      let finite = o.finite_between credits r.max_balance nonneg le h.max_finite in
      elim (Bool-cases (a.le cost credits)) [
        | inl e ↦
            rw (e, check_credit)
              (
                record {
                  rate_finite = h.rate_finite;
                  rate_nonneg = h.rate_nonneg;
                  max_finite = h.max_finite;
                  max_nonneg = h.max_nonneg;
                  balance_nonneg = o.sub_nonneg credits cost finite c e;
                  balance_le = o.le_trans _ credits _ (o.sub_le credits cost finite c e) le;
                },
                refl,
              )
        | inr e ↦
            rw (e, check_credit)
              (
                record {
                  rate_finite = h.rate_finite;
                  rate_nonneg = h.rate_nonneg;
                  max_finite = h.max_finite;
                  max_nonneg = h.max_nonneg;
                  balance_nonneg = nonneg;
                  balance_le = le;
                },
                refl,
              )
      ]

  -- The limiter after checks at these times.
  unfoldable pub checks : D → List ℕ → RateLimiter D → RateLimiter D
  checks cost [] r = r
  checks cost (now ∷ times) r = checks cost times (check_credit a now cost r).1

  -- Times of a 64-bit clock that does not go back.
  abbrev pub IsSteady : ℕ → List ℕ → Type 0
  IsSteady start [] = Unit {0}
  IsSteady start (now ∷ times) = (start ≤ now) × (now < 2 ^ 63) × IsSteady now times

  checks-keep :
      (o : IsOrdered) (cost : D) (times : List ℕ) (r : RateLimiter D)
      → IsLe a.zero_value cost
      → IsSteady r.last_tick times
      → IsFunded r
      → IsFunded (checks cost times r)
  unfolding checks
  checks-keep o cost [] r c steady h = h
  checks-keep o cost (now ∷ times) r c (later, small, steady) h =
      let (funded, ticked) = check_credit-IsFunded o now cost r c later small h in
      checks-keep o cost times (check_credit a now cost r).1 c
        (subst (λ t. IsSteady t times) (sym ticked) steady) funded

  -- The balance of a limiter stays between zero and its maximum through checks at any times of a 64-bit
  -- clock that does not go back, if its rate and its maximum are finite and, as the cost of an item is, not
  -- negative. The arithmetic has the laws of order and sign of IEEE 754.
  pub checks-IsFunded :
      (o : IsOrdered) (cost rate max_balance : D) (start : ℕ) (times : List ℕ)
      → IsFinite rate
      → IsFinite max_balance
      → IsLe a.zero_value cost
      → IsLe a.zero_value rate
      → IsLe a.zero_value max_balance
      → IsSteady start times
      → IsFunded (checks cost times (new_limiter a rate max_balance start))
  unfolding new_limiter
  checks-IsFunded o cost rate max_balance start times fr fm c p m steady =
      checks-keep o cost times (new_limiter a rate max_balance start) c steady (record {
        rate_finite = fr;
        rate_nonneg = p;
        max_finite = fm;
        max_nonneg = m;
        balance_nonneg = m;
        balance_le = (o.le_self _ _ m).1;
      })
