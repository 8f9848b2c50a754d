-- ===== src/Sender/Packets.antt =====
-- No batch is larger than a packet, while the size of the buffer stays in the range of `int`.
use jaeger_client_cpp.Base.{
  ℕ, ◌+◌, ◌<◌, ◌≤◌, ◌^◌, ◌≡◌, refl, sym, ap, subst, ◌∙◌, Bool, true, false, List, [], ◌∷◌, arith,
  if◌then◌else◌, is_empty, All, Bool-cases, inl, inr, pos,
}
use jaeger_client_cpp.Sender.{
  Outcome, returned, failed, Sender, new_sender, start, add_size, fits, has_room, reset_buffers,
  flush, after_flush, append_started, append, Call, append_call, flush_call, call, calls,
}
use jaeger_client_cpp.Sender.Process.{total, IsSmall, start-started, nil_of_is_empty}
use jaeger_client_cpp.Sender.Counting.{
  IsPacket, is_small, with_span, after_append, StaysInt, IsCounted, new_sender-IsCounted,
  larger-IsCounted, start-IsCounted, flush-IsCounted, push-IsCounted, add_size-pos, fits-le,
}

module _ {X : Type 0} (size : X → ℕ) (max_packet process : ℕ) where
  -- A flush that returns leaves an empty buffer, and one that fails was not taken.
  abbrev Ended : Bool → Outcome × Sender X → Type 0
  Ended sent (returned n, s) = s.span_buffer ≡ []
  Ended sent (failed n, s) = sent ≡ false

  flush-Ended :
      (sent : Bool) (s : Sender X)
      → Ended sent (flush size max_packet process sent s)
        × ((flush size max_packet process sent s).1.started ≡ s.started)
  unfolding flush reset_buffers
  flush-Ended sent s = elim (Bool-cases (is_empty s.span_buffer)) [
    | inl e ↦ rw (e, flush) (nil_of_is_empty size max_packet process s.span_buffer e, refl)
    | inr e ↦ elim (Bool-cases sent) [
      | inl y ↦ rw (e, y, flush) (refl, refl)
      | inr y ↦ rw (e, y, flush) (refl, refl)
    ]
  ]

  after_flush-IsCounted :
      (n m : ℕ) (sent : Bool) (span : X) (o : Outcome × Sender X)
      → IsCounted size max_packet process n o.1
      → max_packet ≤ m
      → (sent ≡ false → n ≤ m)
      → o.1.started ≡ true
      → Ended sent o
      → IsSmall size max_packet process span
      → max_packet < 2 ^ 31
      → IsCounted size max_packet process m (after_flush size max_packet process span o).1
  unfolding after_flush
  after_flush-IsCounted n m sent span (returned k, s) h packet le y e f small =
      let nothing : total size max_packet process s.span_buffer ≡ 0 =
        ap (total size max_packet process) e in
      let known = h.sound.process_known y in
      let sum =
        add_size-pos size max_packet process (size span) s.process_byte_size
          (omega (arith, known, f, small)) in
      rw sum (
        push-IsCounted size max_packet process m span (size span + s.process_byte_size) n s h y
          packet (omega (arith, known, f, packet)) (omega (arith, nothing))
          (omega (arith, nothing, f)))
  after_flush-IsCounted n m sent span (failed k, s) h packet le y e f small =
      larger-IsCounted size max_packet process n m s h (le e)

  room-IsCounted :
      (n : ℕ) (sent room : Bool) (s : Sender X)
      → IsCounted size max_packet process n s
      → IsCounted size max_packet process n
          (if room then (returned 0, s) else flush size max_packet process sent s).1
  room-IsCounted n sent true s h = h
  room-IsCounted n sent false s h = flush-IsCounted size max_packet process n sent s h

  append_small-IsCounted :
      (n m : ℕ) (sent : Bool) (span : X) (s : Sender X)
      → IsCounted size max_packet process n s
      → s.started ≡ true
      → IsSmall size max_packet process span
      → n + size span < 2 ^ 31
      → max_packet ≤ m
      → (sent ≡ false → n + size span ≤ m)
      → IsCounted size max_packet process m (append_started size max_packet process sent span s).1
  unfolding append_started
  append_small-IsCounted n m sent span s h y small room packet le =
      let known = h.sound.process_known y in
      let bytes = h.bytes + size span in
      let e : fits size max_packet process s (pos (size span)) ≡ true =
        unfold fits in ground (arith, known, small) in
      let sum : add_size size max_packet process s.byte_buffer_size (size span) ≡ pos bytes =
        ap (λ b. add_size size max_packet process b (size span)) h.bytes_eq
        ∙ add_size-pos size max_packet process h.bytes (size span)
            (omega (arith, h.bytes_le, room)) in
      elim (Bool-cases (fits size max_packet process s (pos bytes))) [
        | inl f ↦
            let short = fits-le size max_packet process s bytes known f in
            rw (e, sum, f, append_started)
              (room-IsCounted m sent (has_room size max_packet process s (pos bytes)) _ (
                push-IsCounted size max_packet process m span bytes n s h y packet
                  (omega (arith, short, packet)) (omega (arith, h.counted))
                  (omega (arith, h.counted, short))))
        | inr f ↦
            let s1 : Sender X = record s { byte_buffer_size = pos bytes } in
            let (ended, same) = flush-Ended sent s1 in
            let larger : IsCounted size max_packet process (n + size span) s1 = record {
              sound = record { process_known = h.sound.process_known };
              nothing_before = h.nothing_before;
              bytes = bytes;
              bytes_eq = refl;
              bytes_le = omega (arith, h.bytes_le);
              packet_le = omega (arith, h.packet_le);
              counted = omega (arith, h.counted);
              buffer_fits = h.buffer_fits;
              batches_fit = h.batches_fit;
            } in
            rw (e, sum, f, append_started)
              (after_flush-IsCounted (n + size span) m sent span
                (flush size max_packet process sent s1)
                (flush-IsCounted size max_packet process (n + size span) sent s1 larger) packet le
                (same ∙ y) ended small (omega (arith, h.packet_le, room)))
      ]

  append_started-IsCounted :
      (n : ℕ) (sent : Bool) (span : X) (s : Sender X)
      → IsCounted size max_packet process n s
      → s.started ≡ true
      → with_span size max_packet process n span < 2 ^ 31
      → IsCounted size max_packet process
          (after_append size max_packet process sent n span)
          (append_started size max_packet process sent span s).1
  unfolding append_started
  append_started-IsCounted n sent span s h y room =
      elim (Bool-cases (is_small size max_packet process span)) [
        | inl e ↦
            let small : IsSmall size max_packet process span = ground (arith, e) in
            append_small-IsCounted n (after_append size max_packet process sent n span) sent span s
              h y small (ground (arith, e, room)) (ground (arith, e, h.packet_le))
              (λ n. ground (arith, e, n))
        | inr e ↦
            let known = h.sound.process_known y in
            let large : fits size max_packet process s (pos (size span)) ≡ false =
              unfold fits in ground (arith, known, e) in
            let same : after_append size max_packet process sent n span ≡ n = ground (arith, e) in
            subst
              (λ m.
                IsCounted size max_packet process m
                  (append_started size max_packet process sent span s).1)
              (sym same) (rw (large, append_started) h)
      ]

  calls-IsCounted :
      (cs : List (Call X)) (n : ℕ) (s : Sender X)
      → IsCounted size max_packet process n s
      → StaysInt size max_packet process n cs
      → All (IsPacket size max_packet process) (calls size max_packet process cs s).emitted
  unfolding calls call append
  calls-IsCounted [] n s h room = h.batches_fit
  calls-IsCounted (append_call sent span ∷ cs) n s h (room, later) =
      calls-IsCounted cs (after_append size max_packet process sent n span) _
        (append_started-IsCounted n sent span (start size max_packet process s)
          (start-IsCounted size max_packet process n s h) (start-started size max_packet process s)
          room)
        later
  calls-IsCounted (flush_call sent ∷ cs) n s h room =
      calls-IsCounted cs n _ (flush-IsCounted size max_packet process n sent s h) room

  -- Each batch that is given to the transport fits a packet, with its process and the overhead, whatever
  -- the transport answers, while the counter of the buffer's bytes stays in the range of `int`: it does
  -- not overflow if one packet and the spans that are appended without a batch being taken have fewer
  -- than 2 ^ 31 bytes.
  pub calls-IsPacket :
      (cs : List (Call X))
      → StaysInt size max_packet process max_packet cs
      → All (IsPacket size max_packet process) (calls size max_packet process cs new_sender).emitted
  calls-IsPacket cs room =
      calls-IsCounted cs max_packet new_sender (new_sender-IsCounted size max_packet process) room
