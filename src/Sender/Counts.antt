-- ===== src/Sender/Counts.antt =====
-- The counts that the sender's calls return, when the transport takes every batch.
use jaeger_client_cpp.Base.{
  ℕ, ◌+◌, ◌≡◌, refl, Bool, true, false, [], ◌∷◌, arith, if◌then◌else◌, is_empty, length, pos,
  length-append, Bool-cases, inl, inr,
}
use jaeger_client_cpp.Sender.{
  Outcome, returned, failed, Sender, start, add_size, fits, has_room, reset_buffers, flush, push,
  after_flush, append_started, append,
}
use jaeger_client_cpp.Sender.Process.{
  IsSound, start-IsSound, start-started, nil_of_is_empty, IsSmall,
}

module _ {X : Type 0} (size : X → ℕ) (max_packet process : ℕ) where
  -- The call returned, and counts the spans that have left the buffer, where `n` were to leave it.
  abbrev pub Counts : ℕ → Outcome × Sender X → Type 0
  Counts n (returned flushed, s) = flushed + length s.span_buffer ≡ n
  Counts n (failed m, s) = ⊥

  pub flush-Counts :
      (s : Sender X)
      → Counts (length s.span_buffer) (flush size max_packet process true s)
        × ((flush size max_packet process true s).1.span_buffer ≡ [])
  unfolding flush reset_buffers
  flush-Counts s = elim (Bool-cases (is_empty s.span_buffer)) [
    | inl e ↦ rw (e, flush) (omega arith, nil_of_is_empty size max_packet process s.span_buffer e)
    | inr e ↦ rw (e, flush) (omega arith, refl)
  ]

  after_flush-Counts :
      (n : ℕ) (span : X) (o : Outcome × Sender X)
      → Counts n o
      → Counts (n + 1) (after_flush size max_packet process span o)
  unfolding after_flush push
  after_flush-Counts n span (returned m, s) h =
      omega (arith, h, length-append s.span_buffer (span ∷ []))
  after_flush-Counts n span (failed m, s) h = absurd h

  room-Counts :
      (room : Bool) (s : Sender X)
      → Counts
          (length s.span_buffer)
          (if room then (returned 0, s) else flush size max_packet process true s)
  room-Counts true s = omega arith
  room-Counts false s = (flush-Counts s).0

  append_started-Counts :
      (span : X) (s : Sender X)
      → s.process_byte_size ≡ process
      → IsSmall size max_packet process span
      → Counts (length s.span_buffer + 1) (append_started size max_packet process true span s)
  unfolding append_started
  append_started-Counts span s known small =
      let bytes = add_size size max_packet process s.byte_buffer_size (size span) in
      let e : fits size max_packet process s (pos (size span)) ≡ true =
        unfold fits in ground (arith, known, small) in
      elim (Bool-cases (fits size max_packet process s bytes)) [
        | inl f ↦
            let pushed = push size max_packet process span bytes s in
            let longer : length pushed.span_buffer ≡ length s.span_buffer + 1 =
              unfold push in length-append s.span_buffer (span ∷ []) in
            rw (e, f, append_started, ← longer)
              (room-Counts (has_room size max_packet process s bytes) pushed)
        | inr f ↦
            rw (e, f, append_started)
              (after_flush-Counts (length s.span_buffer) span _
                (flush-Counts (record s { byte_buffer_size = bytes })).0)
      ]

  -- Each append of a span that fits a packet returns, and counts the spans that left the buffer.
  pub append-Counts :
      (span : X) (s : Sender X)
      → IsSound size max_packet process s
      → IsSmall size max_packet process span
      → Counts (length s.span_buffer + 1) (append size max_packet process true span s)
  unfolding append start
  append-Counts span s h small =
      let s1 = start size max_packet process s in
      let known =
        (start-IsSound size max_packet process s h).process_known
          (start-started size max_packet process s) in
      let same : length s1.span_buffer ≡ length s.span_buffer = unfold start in ground arith in
      rw (← same) (append_started-Counts span s1 known small)
