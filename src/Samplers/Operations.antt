-- ===== src/Samplers/Operations.antt =====
-- The samplers of operations that an adaptive sampler holds.
use jaeger_client_cpp.Base.{
  ℕ, ◌+◌, ◌≤◌, max, ◌≡◌, refl, ◌∙◌, false, none, some, List, [], ◌∷◌, Bytes, bytes_eq, leb, length,
  lookup, insert, lookup-insert, Bool-cases, Option-cases, inl, inr, arith,
}
use jaeger_client_cpp.TraceId.{TraceId}
use jaeger_client_cpp.Samplers.{
  Arithmetic, Adaptive, guaranteed_status, new_guaranteed, ask, adaptive_status,
}

length-insert :
    {V : Type 0} (k : Bytes) (v : V) (m : List (Bytes × V))
    → length (insert k v m) ≡ elim (lookup k m) [ none ↦ length m + 1 | some w ↦ length m ]
unfolding insert lookup
length-insert k v [] = omega arith
length-insert k v ((j, w) ∷ m) = ground (arith, length-insert k v m)

module _ {D : Type 0} (a : Arithmetic D) where
  length-adaptive_status :
      (now : ℕ) (id : TraceId) (operation : Bytes) (s : Adaptive D)
      → (length (adaptive_status a now id operation s).1.samplers
          ≤ max s.max_operations (length s.samplers))
        × ((adaptive_status a now id operation s).1.max_operations ≡ s.max_operations)
  unfolding adaptive_status ask
  length-adaptive_status now id operation s = elim (Option-cases (lookup operation s.samplers)) [
    | inl e ↦ elim (Bool-cases (leb s.max_operations (length s.samplers))) [
      | inl full ↦ rw (e, full, adaptive_status) (omega arith, refl)
      | inr room ↦
          rw (e, room, adaptive_status)
            (
              ground (
                arith,
                room,
                e,
                length-insert operation
                    (guaranteed_status a now id
                      (new_guaranteed a s.lower_bound s.default_sampler.sampling_rate now)).1
                    s.samplers,
              ),
              refl,
            )
    ]
    | inr (g, e) ↦
        rw (e, adaptive_status)
          (
            ground (arith, e, length-insert operation (guaranteed_status a now id g).1 s.samplers),
            refl,
          )
  ]

  -- A question about an operation leaves the samplers of all other operations alone.
  pub lookup-adaptive_status :
      (now : ℕ) (id : TraceId) (operation other : Bytes) (s : Adaptive D)
      → bytes_eq operation other ≡ false
      → lookup other (adaptive_status a now id operation s).1.samplers ≡ lookup other s.samplers
  unfolding adaptive_status ask
  lookup-adaptive_status now id operation other s n =
      elim (Option-cases (lookup operation s.samplers)) [
        | inl e ↦ elim (Bool-cases (leb s.max_operations (length s.samplers))) [
          | inl full ↦ rw (e, full, adaptive_status) refl
          | inr room ↦
              rw (e, room, adaptive_status) (lookup-insert operation other _ s.samplers ∙ rw n refl)
        ]
        | inr (g, e) ↦
            rw (e, adaptive_status) (lookup-insert operation other _ s.samplers ∙ rw n refl)
      ]

  -- A question by its time, trace ID and operation.
  abbrev pub Question : Type 0
  Question = ℕ × TraceId × Bytes

  unfoldable pub questions : List Question → Adaptive D → Adaptive D
  questions [] s = s
  questions ((now, id, operation) ∷ qs) s = questions qs (adaptive_status a now id operation s).1

  -- However many operations are asked about, an adaptive sampler never holds more samplers of
  -- operations than its maximum, or than it began with if that was more.
  pub length-questions :
      (qs : List Question) (s : Adaptive D)
      → length (questions qs s).samplers ≤ max s.max_operations (length s.samplers)
  unfolding questions
  length-questions [] s = omega arith
  length-questions ((now, id, operation) ∷ qs) s =
      let step = length-adaptive_status now id operation s in
      let rest = length-questions qs (adaptive_status a now id operation s).1 in
      omega (arith, step.0, step.1, rest)
