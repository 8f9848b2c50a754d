-- ===== src/Transport/Batches.antt =====
-- The batches of the sender over the transporter.
use jaeger_client_cpp.Base.{
  ℕ, ◌+◌, ◌<◌, ◌≤◌, ◌^◌, ◌≡◌, refl, ◌∙◌, true, List, [], ◌∷◌, Bytes, length, leb, ◌==◌,
  if◌then◌else◌, ℤ, pos, to_unsigned, arith, All, All-map,
}
use jaeger_client_cpp.Sender.{overhead, Call, calls, new_sender}
use jaeger_client_cpp.Sender.Process.{total}
use jaeger_client_cpp.Sender.Counting.{IsPacket, StaysInt}
use jaeger_client_cpp.Sender.Packets.{calls-IsPacket}
use jaeger_client_cpp.Transport.{emitted, not_written, emit_udp}
use jaeger_client_cpp.Transport.Sending.{emit_udp-packet}

module _ {X : Type 0} (size : X → ℕ) (max_packet process : ℕ) (serialize : List X → Bytes) where
  -- Each batch that the sender gives to a transporter over UDP is sent as one packet: none is refused for
  -- its size, and it counts as sent if `send` wrote all of it. It holds while the counter of the buffer's
  -- bytes stays in the range of `int`: one packet and the spans that are appended without a batch being
  -- taken have fewer than 2 ^ 31 bytes. A serialized batch is not longer than its process, its spans and
  -- the overhead together.
  pub calls-sent :
      (send : Bytes → ℤ) (cs : List (Call X))
      → StaysInt size max_packet process max_packet cs
      → max_packet < 2 ^ 31
      → ((batch : List X)
          → length (serialize batch) ≤ total size max_packet process batch + process + overhead)
      → All
          (λ batch. emit_udp (pos max_packet) send (serialize batch) ≡ (
            serialize batch ∷ [],
            if to_unsigned 32 (send (serialize batch)) == length (serialize batch)
                then emitted
                else not_written,
          ))
          (calls size max_packet process cs new_sender).emitted
  calls-sent send cs room small estimate =
      All-map (IsPacket size max_packet process) _
        (calls size max_packet process cs new_sender).emitted
        (λ batch packet.
          let bound = estimate batch in
          let short : length (serialize batch) < 2 ^ 31 = omega (arith, bound, packet, small) in
          let fits : leb (length (serialize batch)) max_packet ≡ true =
            ground (arith, bound, packet) in
          emit_udp-packet max_packet send (serialize batch) short ∙ rw fits refl)
        (calls-IsPacket size max_packet process cs room)
