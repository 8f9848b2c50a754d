-- ===== src/Sender/Counting.antt =====
-- The size of the buffer counts the bytes of its spans, while it stays in the range of `int`.
use jaeger_client_cpp.Base.{
  ℕ, ◌+◌, ◌%◌, ◌<◌, ◌≤◌, ◌^◌, ◌≡◌, refl, sym, ap, ◌∙◌, Bool, true, false, false≢true, ◌&&◌, List,
  [], ◌∷◌, ◌++◌, arith, leb, if◌then◌else◌, is_empty, All, All-append, Bool-cases, inl, inr, pos,
  to_signed, to_unsigned,
}
use jaeger_client_cpp.Sender.{
  overhead, Sender, new_sender, start, add_size, fits, reset_buffers, flush, push, Call,
  append_call, flush_call,
}
use jaeger_client_cpp.Sender.Process.{
  total, total-append, IsSound, new_sender-IsSound, start-IsSound,
}

module _ {X : Type 0} (size : X → ℕ) (max_packet process : ℕ) where
  -- A batch with its process and the overhead fits a packet.
  abbrev pub IsPacket : List X → Type 0
  IsPacket batch = total size max_packet process batch + process + overhead ≤ max_packet

  abbrev pub is_small : X → Bool
  is_small span = leb (size span + process + overhead) max_packet

  -- A number of bytes with one more span, which counts if it fits a packet.
  abbrev pub with_span : ℕ → X → ℕ
  with_span n span = if is_small span then n + size span else n

  -- The bytes that the buffer may count after an append, from `n` at most: an append of a span that fits a
  -- packet leaves a packet at most, if the transport takes its batch.
  abbrev pub after_append : Bool → ℕ → X → ℕ
  after_append sent n span = if sent && is_small span then max_packet else with_span n span

  -- From `n` bytes at most, the calls count no more bytes than an `int` holds: one packet and the spans
  -- that are appended while the transport takes no batch have fewer than 2 ^ 31 bytes.
  abbrev pub StaysInt : ℕ → List (Call X) → Type 0
  StaysInt n [] = Unit {0}
  StaysInt n (append_call sent span ∷ cs) =
      (with_span n span < 2 ^ 31) × StaysInt (after_append sent n span) cs
  StaysInt n (flush_call sent ∷ cs) = StaysInt n cs

  -- What holds between the calls, if at most `n` bytes are counted.
  pub record IsCounted (n : ℕ) (s : Sender X) : Type 0 where
    pub sound : IsSound size max_packet process s
    pub nothing_before : s.started ≡ false → s.span_buffer ≡ []
    pub bytes : ℕ
    pub bytes_eq : s.byte_buffer_size ≡ pos bytes
    pub bytes_le : bytes ≤ n
    pub packet_le : max_packet ≤ n
    pub counted : total size max_packet process s.span_buffer ≤ bytes
    pub buffer_fits : is_empty s.span_buffer ≡ false → IsPacket s.span_buffer
    pub batches_fit : All IsPacket s.emitted

  pub new_sender-IsCounted : IsCounted max_packet new_sender
  new_sender-IsCounted = record {
    sound = new_sender-IsSound size max_packet process;
    nothing_before = λ e. refl;
    bytes = 0;
    bytes_eq = refl;
    bytes_le = omega arith;
    packet_le = omega arith;
    counted = omega arith;
    buffer_fits = λ e. absurd (false≢true (sym e));
    batches_fit = tt;
  }

  pub larger-IsCounted : (n m : ℕ) (s : Sender X) → IsCounted n s → n ≤ m → IsCounted m s
  larger-IsCounted n m s h le = record {
    sound = h.sound;
    nothing_before = h.nothing_before;
    bytes = h.bytes;
    bytes_eq = h.bytes_eq;
    bytes_le = omega (arith, h.bytes_le);
    packet_le = omega (arith, h.packet_le);
    counted = h.counted;
    buffer_fits = h.buffer_fits;
    batches_fit = h.batches_fit;
  }

  pub start-IsCounted :
      (n : ℕ) (s : Sender X) → IsCounted n s → IsCounted n (start size max_packet process s)
  start-IsCounted n s h =
      let sound = start-IsSound size max_packet process s h.sound in
      elim (Bool-cases s.started) [
        | inl e ↦ unfold start in simp e h
        | inr e ↦
            unfold start in
            rw e (record {
              sound = record { process_known = λ _. refl };
              nothing_before = λ _. h.nothing_before e;
              bytes = h.bytes;
              bytes_eq = h.bytes_eq;
              bytes_le = h.bytes_le;
              packet_le = h.packet_le;
              counted = h.counted;
              buffer_fits = h.buffer_fits;
              batches_fit = h.batches_fit;
            })
      ]

  -- A batch was given to the transport, and is still in the buffer.
  tried-IsCounted :
      (n : ℕ) (s : Sender X)
      → IsCounted n s
      → is_empty s.span_buffer ≡ false
      → IsCounted n (record s { emitted = s.emitted ++ s.span_buffer ∷ [] })
  tried-IsCounted n s h e = record {
    sound = record { process_known = h.sound.process_known };
    nothing_before = h.nothing_before;
    bytes = h.bytes;
    bytes_eq = h.bytes_eq;
    bytes_le = h.bytes_le;
    packet_le = h.packet_le;
    counted = h.counted;
    buffer_fits = h.buffer_fits;
    batches_fit = All-append IsPacket s.emitted _ h.batches_fit (h.buffer_fits e, tt);
  }

  -- The process has at most the bytes of a packet, if the buffer is not empty.
  started_of_span :
      (n : ℕ) (s : Sender X)
      → IsCounted n s
      → is_empty s.span_buffer ≡ false
      → s.process_byte_size ≡ process
  started_of_span n s h e = elim (Bool-cases s.started) [
    | inl y ↦ h.sound.process_known y
    | inr y ↦ absurd (false≢true (sym e ∙ ap is_empty (h.nothing_before y)))
  ]

  reset-IsCounted :
      (n : ℕ) (s : Sender X)
      → IsCounted n s
      → is_empty s.span_buffer ≡ false
      → IsCounted n (reset_buffers size max_packet process s)
  unfolding reset_buffers
  reset-IsCounted n s h e = record {
    sound = record { process_known = h.sound.process_known };
    nothing_before = λ _. refl;
    bytes = s.process_byte_size;
    bytes_eq = refl;
    bytes_le = omega (arith, started_of_span n s h e, h.buffer_fits e, h.packet_le);
    packet_le = h.packet_le;
    counted = omega arith;
    buffer_fits = λ e. absurd (false≢true (sym e));
    batches_fit = h.batches_fit;
  }

  pub flush-IsCounted :
      (n : ℕ) (sent : Bool) (s : Sender X)
      → IsCounted n s
      → IsCounted n (flush size max_packet process sent s).1
  unfolding flush
  flush-IsCounted n sent s h = elim (Bool-cases (is_empty s.span_buffer)) [
    | inl e ↦ rw (e, flush) h
    | inr e ↦ elim (Bool-cases sent) [
      | inl y ↦ rw (e, y, flush) (reset-IsCounted n _ (tried-IsCounted n s h e) e)
      | inr y ↦ rw (e, y, flush) (tried-IsCounted n s h e)
    ]
  ]

  -- A span is pushed, which leaves `bytes` bytes.
  pub push-IsCounted :
      (m : ℕ) (span : X) (bytes : ℕ) (n : ℕ) (s : Sender X)
      → IsCounted n s
      → s.started ≡ true
      → max_packet ≤ m
      → bytes ≤ m
      → total size max_packet process s.span_buffer + size span ≤ bytes
      → total size max_packet process s.span_buffer + size span + process + overhead ≤ max_packet
      → IsCounted m (push size max_packet process span (pos bytes) s)
  unfolding push
  push-IsCounted m span bytes n s h y packet le c f =
      let sum = total-append size max_packet process s.span_buffer (span ∷ []) in
      record {
        sound = record { process_known = h.sound.process_known };
        nothing_before = λ e. absurd (false≢true (sym e ∙ y));
        bytes = bytes;
        bytes_eq = refl;
        bytes_le = le;
        packet_le = packet;
        counted = omega (arith, sum, c);
        buffer_fits = λ _. omega (arith, sum, f);
        batches_fit = h.batches_fit;
      }

  pub add_size-pos :
      (n k : ℕ) → n + k < 2 ^ 31 → add_size size max_packet process (pos n) k ≡ pos (n + k)
  unfolding add_size to_signed to_unsigned
  add_size-pos n k h =
      let inner : (n % 2 ^ 32 + k) % 2 ^ 32 ≡ n + k = omega (arith, h) in ground (arith, h, inner)

  pub fits-le :
      (s : Sender X) (bytes : ℕ)
      → s.process_byte_size ≡ process
      → fits size max_packet process s (pos bytes) ≡ true
      → bytes + process + overhead ≤ max_packet
  unfolding fits
  fits-le s bytes e f = ground arith
