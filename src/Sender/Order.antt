-- ===== src/Sender/Order.antt =====
-- What a transport that takes every batch receives.
use jaeger_client_cpp.Base.{
  ℕ, ◌+◌, ◌≡◌, refl, sym, ap, ◌∙◌, Bool, true, false, List, [], ◌∷◌, ◌++◌, append-nil, append_assoc,
  arith, leb, ℤ, pos, if◌then◌else◌, is_empty, All, Bool-cases, inl, inr,
}
use jaeger_client_cpp.Sender.{
  overhead, Outcome, returned, failed, Sender, new_sender, start, add_size, fits, has_room,
  reset_buffers, flush, push, after_flush, append_started, append, Call, append_call, flush_call,
  call, calls,
}
use jaeger_client_cpp.Sender.Process.{
  IsSound, IsSmall, new_sender-IsSound, start-IsSound, start-started, call-IsSound,
}

module _ {X : Type 0} (size : X → ℕ) (max_packet process : ℕ) where
  abbrev pub flatten : List (List X) → List X
  flatten [] = []
  flatten (batch ∷ batches) = batch ++ flatten batches

  flatten-append : (bs : List (List X)) (b : List X) → flatten (bs ++ b ∷ []) ≡ flatten bs ++ b
  flatten-append [] b = append-nil b
  flatten-append (c ∷ bs) b =
      ap (λ t. c ++ t) (flatten-append bs b) ∙ sym (append_assoc c (flatten bs) b)

  -- The spans that a sender has given away or still holds, in order.
  abbrev pub all_spans : Sender X → List X
  all_spans s = flatten s.emitted ++ s.span_buffer

  -- The span of an append as a list, empty for one that is too large by itself.
  unfoldable pub small_span : X → List X
  small_span span = if leb (size span + process + overhead) max_packet then span ∷ [] else []

  abbrev small_call : Call X → List X
  small_call (append_call sent span) = small_span span
  small_call (flush_call sent) = []

  -- The appended spans in order, but for the large ones.
  abbrev pub small_spans : List (Call X) → List X
  small_spans [] = []
  small_spans (c ∷ cs) = small_call c ++ small_spans cs

  -- The transport takes the batch of this call.
  abbrev pub IsSent : Call X → Type 0
  IsSent (append_call sent span) = sent ≡ true
  IsSent (flush_call sent) = sent ≡ true

  flush-nothing :
      (sent : Bool) (s : Sender X)
      → is_empty s.span_buffer ≡ true
      → flush size max_packet process sent s ≡ (returned 0, s)
  unfolding flush
  flush-nothing sent s e = rw (e, flush) refl

  pub flush-all_spans :
      (s : Sender X) → all_spans (flush size max_packet process true s).1 ≡ all_spans s
  unfolding flush reset_buffers
  flush-all_spans s = elim (Bool-cases (is_empty s.span_buffer)) [
    | inl e ↦ ap (λ (o : Outcome × Sender X). all_spans o.1) (flush-nothing true s e)
    | inr e ↦
        rw (e, flush)
          (append-nil (flatten (s.emitted ++ s.span_buffer ∷ []))
            ∙ flatten-append s.emitted s.span_buffer)
  ]

  abbrev HasReturned : Outcome × Sender X → Type 0
  HasReturned (returned n, s) = Unit {0}
  HasReturned (failed n, s) = ⊥

  flush-HasReturned : (s : Sender X) → HasReturned (flush size max_packet process true s)
  unfolding flush
  flush-HasReturned s = elim (Bool-cases (is_empty s.span_buffer)) [
    | inl e ↦ rw (e, flush) tt
    | inr e ↦ rw (e, flush) tt
  ]

  push-all_spans :
      (span : X) (bytes : ℤ) (s : Sender X)
      → all_spans (push size max_packet process span bytes s) ≡ all_spans s ++ span ∷ []
  unfolding push
  push-all_spans span bytes s = sym (append_assoc (flatten s.emitted) s.span_buffer (span ∷ []))

  after_flush-all_spans :
      (span : X) (o : Outcome × Sender X)
      → HasReturned o
      → all_spans (after_flush size max_packet process span o).1 ≡ all_spans o.1 ++ span ∷ []
  unfolding after_flush
  after_flush-all_spans span (returned n, s) h =
      push-all_spans span (add_size size max_packet process (pos (size span)) s.process_byte_size) s
  after_flush-all_spans span (failed n, s) h = absurd h

  room-all_spans :
      (room : Bool) (s : Sender X)
      → all_spans (if room then (returned 0, s) else flush size max_packet process true s).1
        ≡ all_spans s
  room-all_spans true s = refl
  room-all_spans false s = flush-all_spans s

  append_started-all_spans :
      (span : X) (s : Sender X)
      → s.process_byte_size ≡ process
      → all_spans (append_started size max_packet process true span s).1
        ≡ all_spans s ++ small_span span
  unfolding append_started small_span
  append_started-all_spans span s known =
      let bytes = add_size size max_packet process s.byte_buffer_size (size span) in
      let same : fits size max_packet process s (pos (size span))
          ≡ leb (size span + process + overhead) max_packet =
        unfold fits in ap (λ p. leb (size span + p + overhead) max_packet) known in
      elim (Bool-cases (fits size max_packet process s (pos (size span)))) [
        | inr e ↦ rw (e, sym same ∙ e, append_started) (sym (append-nil (all_spans s)))
        | inl e ↦ elim (Bool-cases (fits size max_packet process s bytes)) [
          | inl f ↦
              rw (e, sym same ∙ e, f, append_started)
                (room-all_spans (has_room size max_packet process s bytes) _
                  ∙ push-all_spans span bytes s)
          | inr f ↦
              let s1 : Sender X = record s { byte_buffer_size = bytes } in
              rw (e, sym same ∙ e, f, append_started)
                (after_flush-all_spans span (flush size max_packet process true s1)
                    (flush-HasReturned s1)
                  ∙ ap (λ t. t ++ span ∷ []) (flush-all_spans s1))
        ]
      ]

  start-all_spans : (s : Sender X) → all_spans (start size max_packet process s) ≡ all_spans s
  unfolding start
  start-all_spans s = ground arith

  call-all_spans :
      (c : Call X) (s : Sender X)
      → IsSound size max_packet process s
      → IsSent c
      → all_spans (call size max_packet process c s) ≡ all_spans s ++ small_call c
  unfolding call append
  call-all_spans (flush_call sent) s h taken =
      rw taken (flush-all_spans s ∙ sym (append-nil (all_spans s)))
  call-all_spans (append_call sent span) s h taken =
      let s1 = start size max_packet process s in
      let known =
        (start-IsSound size max_packet process s h).process_known
          (start-started size max_packet process s) in
      rw taken (
        append_started-all_spans span s1 known ∙ ap (λ t. t ++ small_span span) (start-all_spans s))

  -- An append of a span that fits a packet adds it to the spans, if the transport takes the batch.
  pub append-all_spans :
      (span : X) (s : Sender X)
      → IsSound size max_packet process s
      → IsSmall size max_packet process span
      → all_spans (append size max_packet process true span s).1 ≡ all_spans s ++ span ∷ []
  unfolding call
  append-all_spans span s h small =
      let one : small_span span ≡ span ∷ [] = unfold small_span in ground (arith, small) in
      call-all_spans (append_call true span) s h refl ∙ ap (λ t. all_spans s ++ t) one

  calls-all_spans :
      (cs : List (Call X)) (s : Sender X)
      → IsSound size max_packet process s
      → All IsSent cs
      → all_spans (calls size max_packet process cs s) ≡ all_spans s ++ small_spans cs
  unfolding calls
  calls-all_spans [] s h sent = sym (append-nil (all_spans s))
  calls-all_spans (c ∷ cs) s h (taken, sent) =
      calls-all_spans cs (call size max_packet process c s)
        (call-IsSound size max_packet process c s h) sent
      ∙ ap (λ t. t ++ small_spans cs) (call-all_spans c s h taken)
      ∙ append_assoc (all_spans s) (small_call c) (small_spans cs)

  -- If the transport takes every batch, then after any sequence of calls the spans in the batches,
  -- followed by those in the buffer, are the appended spans in their order: none is lost or sent
  -- twice, but for the spans that are too large for a packet by themselves.
  pub calls-small_spans :
      (cs : List (Call X))
      → All IsSent cs
      → all_spans (calls size max_packet process cs new_sender) ≡ small_spans cs
  calls-small_spans cs sent =
      calls-all_spans cs new_sender (new_sender-IsSound size max_packet process) sent
