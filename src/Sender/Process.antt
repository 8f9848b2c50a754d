-- ===== src/Sender/Process.antt =====
-- The sizes of spans and batches, and the process of a sender, which its calls keep.
use jaeger_client_cpp.Base.{
  ℕ, ◌+◌, ◌≤◌, ◌≡◌, refl, sym, ◌∙◌, Bool, true, false, false≢true, List, [], ◌∷◌, ◌++◌, arith,
  if◌then◌else◌, is_empty, Bool-cases, inl, inr, pos,
}
use jaeger_client_cpp.Sender.{
  overhead, Outcome, returned, failed, Sender, new_sender, start, add_size, fits, has_room,
  reset_buffers, flush, push, after_flush, append_started, append, Call, append_call, flush_call,
  call,
}

module _ {X : Type 0} (size : X → ℕ) (max_packet process : ℕ) where
  abbrev pub total : List X → ℕ
  total [] = 0
  total (x ∷ xs) = size x + total xs

  pub total-append : (xs ys : List X) → total (xs ++ ys) ≡ total xs + total ys
  total-append [] ys = omega arith
  total-append (x ∷ xs) ys = omega (arith, total-append xs ys)

  -- A batch with its process and the overhead fits a packet.
  abbrev pub IsPacket : List X → Type 0
  IsPacket batch = total batch + process + overhead ≤ max_packet

  -- A span fits a packet by itself.
  abbrev pub IsSmall : X → Type 0
  IsSmall span = size span + process + overhead ≤ max_packet

  -- What holds between the calls.
  pub record IsSound (s : Sender X) : Type 0 where
    pub process_known : s.started ≡ true → s.process_byte_size ≡ process

  pub new_sender-IsSound : IsSound new_sender
  new_sender-IsSound = record { process_known = λ e. absurd (false≢true e) }

  pub start-IsSound : (s : Sender X) → IsSound s → IsSound (start size max_packet process s)
  unfolding start
  start-IsSound s h = elim (Bool-cases s.started) [
    | inl e ↦ simp (e, start) h
    | inr e ↦ rw (e, start) (record { process_known = λ _. refl })
  ]

  pub start-started : (s : Sender X) → (start size max_packet process s).started ≡ true
  unfolding start
  start-started s = ground arith

  -- A call that leaves the process.
  abbrev SameProcess : Sender X → Sender X → Type 0
  SameProcess s t = (t.started ≡ s.started) × (t.process_byte_size ≡ s.process_byte_size)

  same_process : (s t : Sender X) → SameProcess s t → IsSound s → IsSound t
  same_process s t (same, sized) h = record {
    process_known = λ e. sized ∙ h.process_known (sym same ∙ e);
  }

  flush-SameProcess :
      (sent : Bool) (s : Sender X) → SameProcess s (flush size max_packet process sent s).1
  unfolding flush reset_buffers
  flush-SameProcess sent s = elim (Bool-cases (is_empty s.span_buffer)) [
    | inl e ↦ rw (e, flush) (refl, refl)
    | inr e ↦ elim (Bool-cases sent) [
      | inl y ↦ rw (e, y, flush) (refl, refl)
      | inr y ↦ rw (e, y, flush) (refl, refl)
    ]
  ]

  room-SameProcess :
      (sent room : Bool) (s : Sender X)
      → SameProcess s (if room then (returned 0, s) else flush size max_packet process sent s).1
  room-SameProcess sent true s = (refl, refl)
  room-SameProcess sent false s = flush-SameProcess sent s

  after_flush-SameProcess :
      (span : X) (o : Outcome × Sender X)
      → SameProcess o.1 (after_flush size max_packet process span o).1
  unfolding after_flush push
  after_flush-SameProcess span (returned n, s) = (refl, refl)
  after_flush-SameProcess span (failed n, s) = (refl, refl)

  append_started-SameProcess :
      (sent : Bool) (span : X) (s : Sender X)
      → SameProcess s (append_started size max_packet process sent span s).1
  unfolding append_started push
  append_started-SameProcess sent span s =
      let bytes = add_size size max_packet process s.byte_buffer_size (size span) in
      elim (Bool-cases (fits size max_packet process s (pos (size span)))) [
        | inr e ↦ rw (e, append_started) (refl, refl)
        | inl e ↦ elim (Bool-cases (fits size max_packet process s bytes)) [
          | inl f ↦
              rw (e, f, append_started)
                (room-SameProcess sent (has_room size max_packet process s bytes)
                  (push size max_packet process span bytes s))
          | inr f ↦
              let s1 : Sender X = record s { byte_buffer_size = bytes } in
              let o = flush size max_packet process sent s1 in
              let (a, b) = after_flush-SameProcess span o in
              let (c, d) = flush-SameProcess sent s1 in rw (e, f, append_started) (a ∙ c, b ∙ d)
        ]
      ]

  pub append_started-IsSound :
      (sent : Bool) (span : X) (s : Sender X)
      → IsSound s
      → IsSound (append_started size max_packet process sent span s).1
  append_started-IsSound sent span s h = same_process s _ (append_started-SameProcess sent span s) h

  pub flush-IsSound :
      (sent : Bool) (s : Sender X) → IsSound s → IsSound (flush size max_packet process sent s).1
  flush-IsSound sent s h = same_process s _ (flush-SameProcess sent s) h

  pub append-IsSound :
      (sent : Bool) (span : X) (s : Sender X)
      → IsSound s
      → IsSound (append size max_packet process sent span s).1
  unfolding append
  append-IsSound sent span s h =
      let s1 = start size max_packet process s in
      append_started-IsSound sent span s1 (start-IsSound s h)

  pub call-IsSound :
      (c : Call X) (s : Sender X) → IsSound s → IsSound (call size max_packet process c s)
  unfolding call
  call-IsSound (append_call sent span) s h = append-IsSound sent span s h
  call-IsSound (flush_call sent) s h = flush-IsSound sent s h

  pub nil_of_is_empty : (xs : List X) → is_empty xs ≡ true → xs ≡ []
  nil_of_is_empty [] e = refl
  nil_of_is_empty (x ∷ xs) e = absurd (false≢true e)
