-- ===== src/Baggage/Setter.antt =====
-- What one call of `setBaggage` does.
use jaeger_client_cpp.Base.{
  ℕ, zero, suc, ◌+◌, ◌%◌, ◌^◌, ◌≤◌, ◌<◌, ◌≡◌, refl, sym, ap, ◌∙◌, Bool, true, false, ltb, negsuc,
  ◌&&◌, none, some, [], ◌∷◌, arith, Bytes, bytes_eq, bytes_eq_iff, if◌then◌else◌, length, take,
  lookup, insert, lookup-insert, HasUniqueKeys, Bool-cases, inl, inr, ℤ, pos, to_signed,
  to_unsigned, gtb,
}
use jaeger_client_cpp.SpanContext.{StrMap}
use jaeger_client_cpp.Metrics.{Metrics}
use jaeger_client_cpp.Baggage.{Restriction, RestrictionManager, Update, is_too_long, set_baggage}

-- A value up to a bound in bytes; a negative bound is none.
pub up_to_bound : ℤ → Bytes → Bytes
up_to_bound (pos n) value = take n value
up_to_bound (negsuc n) value = value

-- The bound is an `int`.
abbrev pub IsInt : ℤ → Type 0
IsInt (pos n) = n < 2 ^ 31
IsInt (negsuc n) = n < 2 ^ 31

take_all : (n : ℕ) (text : Bytes) → length text ≤ n → take n text ≡ text
take_all zero [] h = refl
take_all (suc n) [] h = refl
take_all zero (ch ∷ text) h = absurd (omega (arith, h))
take_all (suc n) (ch ∷ text) h = ap (λ t. ch ∷ t) (take_all n text (omega (arith, h)))

to_signed-small : (n : ℕ) → n < 2 ^ 31 → to_signed 32 n ≡ pos n
unfolding to_signed
to_signed-small n h = ground (arith, h)

too_long-pos :
    (n : ℕ) (value : Bytes)
    → length value < 2 ^ 31
    → is_too_long value (pos n) ≡ ltb n (length value)
unfolding is_too_long gtb
too_long-pos n value fits = ap (λ size. gtb size (pos n)) (to_signed-small (length value) fits)

too_long-negsuc :
    (n : ℕ) (value : Bytes) → length value < 2 ^ 31 → is_too_long value (negsuc n) ≡ true
unfolding is_too_long gtb
too_long-negsuc n value fits =
    ap (λ size. gtb size (negsuc n)) (to_signed-small (length value) fits)

-- What `setBaggage` stores of a value is the value up to the bound.
kept-up_to_bound :
    (bound : ℤ) (value : Bytes)
    → length value < 2 ^ 31
    → IsInt bound
    → (if is_too_long value bound then take (to_unsigned 64 bound) value else value)
      ≡ up_to_bound bound value
unfolding up_to_bound to_unsigned
kept-up_to_bound (pos n) value fits small =
    let same : n % 2 ^ 64 ≡ n = omega (arith, small) in
    elim (Bool-cases (ltb n (length value))) [
      | inl e ↦ rw (too_long-pos n value fits, e, same) refl
      | inr e ↦ rw (too_long-pos n value fits, e) (sym (take_all n value (ground (arith, e))))
    ]
kept-up_to_bound (negsuc n) value fits small =
    rw (too_long-negsuc n value fits)
      (take_all (to_unsigned 64 (negsuc n)) value (omega (arith, fits, small)))

module _ (get_restriction : RestrictionManager) (service key value : Bytes) (sampled : Bool)
    (baggage : StrMap) (m : Metrics) where
  abbrev update : Update
  update = set_baggage get_restriction service sampled baggage key value m

  abbrev restriction : Restriction
  restriction = get_restriction service key

  -- After a call, a key that is allowed has the first bytes of the value, as many as its bound says, or
  -- the whole value if that is not longer or the bound is negative; every other key has what it had
  -- before, and a key that is not allowed changes nothing. The length of the value and the bound are in
  -- the range of `int`.
  pub lookup-set_baggage :
      (j : Bytes)
      → length value < 2 ^ 31
      → IsInt restriction.max_value_length
      → lookup j update.baggage ≡ (
          if restriction.key_allowed && bytes_eq key j
          then some (up_to_bound restriction.max_value_length value)
          else lookup j baggage)
  unfolding set_baggage
  lookup-set_baggage j fits small =
      let bound = restriction.max_value_length in
      let kept = if is_too_long value bound then take (to_unsigned 64 bound) value else value in
      elim (Bool-cases restriction.key_allowed) [
        | inl e ↦
            rw (e, set_baggage)
              (lookup-insert key j kept baggage
                ∙ ap (λ t. if bytes_eq key j then some t else lookup j baggage)
                    (kept-up_to_bound bound value fits small))
        | inr e ↦ rw (e, set_baggage) refl
      ]

  -- Each call counts once: as a success if the key is allowed, else as a failure. It counts a
  -- truncation if and only if the key is allowed and the value too long.
  pub set_baggage-metrics : update.metrics ≡ record m {
    baggage_update_success =
        if restriction.key_allowed then m.baggage_update_success + 1 else m.baggage_update_success;
    baggage_update_failure =
        if restriction.key_allowed then m.baggage_update_failure else m.baggage_update_failure + 1;
    baggage_truncate =
        if restriction.key_allowed && is_too_long value restriction.max_value_length
        then m.baggage_truncate + 1
        else m.baggage_truncate;
  }
  unfolding set_baggage
  set_baggage-metrics = elim (Bool-cases restriction.key_allowed) [
    | inl e ↦ rw (e, set_baggage) refl
    | inr e ↦ rw (e, set_baggage) refl
  ]

lookup-insert_ne :
    (j k : Bytes) (v : Bytes) (baggage : StrMap)
    → bytes_eq k j ≡ false
    → lookup j baggage ≡ none
    → lookup j (insert k v baggage) ≡ none
lookup-insert_ne j k v baggage e h = lookup-insert k j v baggage ∙ rw (e, h) refl

pub insert-HasUniqueKeys :
    (k v : Bytes) (baggage : StrMap) → HasUniqueKeys baggage → HasUniqueKeys (insert k v baggage)
unfolding insert lookup
insert-HasUniqueKeys k v [] u = (refl, tt)
insert-HasUniqueKeys k v ((j, w) ∷ baggage) (h, u) = elim (Bool-cases (bytes_eq j k)) [
  | inl e ↦ rw e (h, u)
  | inr e ↦ rw e (
    lookup-insert_ne j k v baggage (ground (arith, bytes_eq_iff j k, bytes_eq_iff k j)) h,
    insert-HasUniqueKeys k v baggage u,
  )
]
