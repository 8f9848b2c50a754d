-- ===== src/Transport.antt =====
-- utils/Transport.h, utils/UDPTransporter.h and utils/HTTPTransporter.h. What Thrift writes into the
-- buffer for a batch, and what the socket does, are parameters.
mod Tests
pub mod Sending
pub mod Making
pub mod Batches
use jaeger_client_cpp.Base.{
  ℕ, ◌%◌, ◌^◌, ◌*◌, Bool, true, false, not, ◌&&◌, Option, none, some, List, [], ◌∷◌, ◌++◌, Bytes,
  codes, length, take, if◌then◌else◌, ◌==◌, ltb, is_empty, ℤ, pos, negsuc, gtb, to_signed,
  to_unsigned,
}
use jaeger_client_cpp.Uri.Parts.{Uri, parse}
use jaeger_client_cpp.Http.{Response, parse_response, read_socket}
use jaeger_client_cpp.Config.Reporter.{ReporterConfig, parse_address}

-- How `emitBatch` ends; an answer that cannot be read is an exception too.
pub data Emitted : Type 0 where
  emitted does_not_fit not_written no_answer bad_status : Emitted

abbrev pub udp_packet_max_length : ℤ
udp_packet_max_length = pos 65000

abbrev pub http_packet_max_length : ℤ
http_packet_max_length = pos (1024 * 1024)

-- The size that `getBuffer` gives, a `uint32_t`.
unfoldable pub buffer_size : Bytes → ℕ
buffer_size data_ = length data_ % 2 ^ 32

-- `UDPTransporter::emitBatch`: what is given to `send`, and how it ends. `send` gives the number of bytes
-- that were written, or -1.
unfoldable pub emit_udp : ℤ → (Bytes → ℤ) → Bytes → List Bytes × Emitted
unfolding buffer_size
emit_udp max_packet_size send buffer =
    let size = buffer_size buffer in
    let packet = take size buffer in
    if gtb (to_signed 32 size) max_packet_size
    then ([], does_not_fit)
    else if not (to_unsigned 32 (send packet) == size)
    then (packet ∷ [], not_written)
    else (packet ∷ [], emitted)

-- `<` with a literal below 2 ^ 31.
unfoldable pub status_below : ℤ → ℕ → Bool
status_below (pos code) n = ltb code n
status_below (negsuc code) n = true

-- The test of the response, as it is written.
unfoldable pub check_status : Response → Emitted
unfolding status_below
check_status response =
    if status_below response.status_code 200 && gtb response.status_code (pos 204)
    then bad_status
    else emitted

-- `HTTPTransporter::emitBatch`; `answer` is what `recv` gives, or none for an exception.
unfoldable pub emit_http : (Bytes → ℤ) → Option (List Bytes) → Bytes → List Bytes × Emitted
unfolding buffer_size read_socket parse_response check_status
emit_http send answer buffer =
    let size = buffer_size buffer in
    let packet = take size buffer in
    if not (to_unsigned 32 (send packet) == size) then (packet ∷ [], not_written) else elim answer [
      | none ↦ (packet ∷ [], no_answer)
      | some chunks ↦ elim (parse_response (read_socket chunks)) [
        | none ↦ (packet ∷ [], no_answer)
        | some response ↦ (packet ∷ [], check_status response)
      ]
    ]
