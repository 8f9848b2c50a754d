-- ===== src/Sender.antt =====
-- ThriftSender.h and ThriftSender.cpp, over any type of spans with the sizes that Thrift's
-- serialization gives them. The size of one span or process is below the range of `int`;
-- `_byteBufferSize` is an `int`, whose overflow wraps around. `_maxSpanBytes` is the packet size
-- less the process and the overhead; its comparisons are written as sums.
mod Tests
pub mod Process
pub mod Counting
pub mod Packets
pub mod Order
pub mod Counts
use jaeger_client_cpp.Base.{
  ℕ, ◌+◌, Bool, true, false, not, List, [], ◌∷◌, ◌++◌, ltb, leb, if◌then◌else◌, is_empty, length, ℤ,
  pos, negsuc, to_signed, to_unsigned,
}

-- `kEmitBatchOverhead`
abbrev pub overhead : ℕ
overhead = 30

-- The count that a call returns, or the number of failed spans of the `Exception` that it throws.
pub data Outcome : Type 0 where
  returned failed : ℕ → Outcome

-- The data members, and the batches that were given to `emitBatch`.
pub record Sender (X : Type 0) : Type 0 where
  pub started : Bool
  pub process_byte_size : ℕ
  pub byte_buffer_size : ℤ
  pub span_buffer : List X
  pub emitted : List (List X)

abbrev pub new_sender : {X : Type 0} → Sender X
new_sender = record {
  started = false;
  process_byte_size = 0;
  byte_buffer_size = pos 0;
  span_buffer = [];
  emitted = [];
}

-- The calls of a sender, each with whether the transport takes its batch.
pub data Call (X : Type 0) : Type 0 where
  append_call : Bool → X → Call X
  flush_call : Bool → Call X

-- `max_packet` is `maxPacketSize()`, and `process` the size of the serialized process.
module _ {X : Type 0} (size : X → ℕ) (max_packet process : ℕ) where
  -- The first call sets the process and its size.
  unfoldable pub start : Sender X → Sender X
  start s = if s.started then s else record s { started = true; process_byte_size = process }

  -- A sum of two `int`s.
  unfoldable pub add_size : ℤ → ℕ → ℤ
  add_size bytes n = to_signed 32 (to_unsigned 32 bytes + n)

  -- `bytes <= _maxSpanBytes` and `bytes < _maxSpanBytes`. A negative number of bytes is compared only when
  -- the span has fitted, so that `_maxSpanBytes` is not negative.
  unfoldable pub fits : Sender X → ℤ → Bool
  fits s (pos bytes) = leb (bytes + s.process_byte_size + overhead) max_packet
  fits s (negsuc n) = true

  unfoldable pub has_room : Sender X → ℤ → Bool
  has_room s (pos bytes) = ltb (bytes + s.process_byte_size + overhead) max_packet
  has_room s (negsuc n) = true

  -- `resetBuffers`
  unfoldable pub reset_buffers : Sender X → Sender X
  reset_buffers s = record s { span_buffer = []; byte_buffer_size = pos s.process_byte_size }

  -- `flush`, where `sent` tells whether the transport takes the batch.
  unfoldable pub flush : Bool → Sender X → Outcome × Sender X
  unfolding reset_buffers
  flush sent s =
      if is_empty s.span_buffer
      then (returned 0, s)
      else let count = length s.span_buffer in
        let tried = record s { emitted = s.emitted ++ s.span_buffer ∷ [] } in
        if sent then (returned count, reset_buffers tried) else (failed count, tried)

  -- The buffer and its size with one more span.
  unfoldable pub push : X → ℤ → Sender X → Sender X
  push span bytes s = record s {
    span_buffer = s.span_buffer ++ span ∷ [];
    byte_buffer_size = bytes;
  }

  -- What `append` does after a flush of the full buffer; an exception leaves it.
  unfoldable pub after_flush : X → Outcome × Sender X → Outcome × Sender X
  unfolding push add_size
  after_flush span (returned n, s) =
      (returned n, push span (add_size (pos (size span)) s.process_byte_size) s)
  after_flush span (failed n, s) = (failed n, s)

  -- `append` of a span when the process is set.
  unfoldable pub append_started : Bool → X → Sender X → Outcome × Sender X
  append_started sent span s =
      if not (fits s (pos (size span)))
      then (failed 1, s)
      else let bytes = add_size s.byte_buffer_size (size span) in
        if fits s bytes
        then (if has_room s bytes
            then (returned 0, push span bytes s)
            else flush sent (push span bytes s))
        else after_flush span (flush sent (record s { byte_buffer_size = bytes }))

  unfoldable pub append : Bool → X → Sender X → Outcome × Sender X
  unfolding start append_started
  append sent span s = append_started sent span (start s)

  unfoldable pub call : Call X → Sender X → Sender X
  unfolding append flush
  call (append_call sent span) s = (append sent span s).1
  call (flush_call sent) s = (flush sent s).1

  unfoldable pub calls : List (Call X) → Sender X → Sender X
  unfolding call
  calls [] s = s
  calls (c ∷ cs) s = calls cs (call c s)
