-- ===== src/Transport/Sending.antt =====
-- What the transporters send, and what they take for a success.
use jaeger_client_cpp.Base.{
  ℕ, ◌<◌, ◌^◌, ◌%◌, ◌≡◌, refl, sym, ap, ◌∙◌, true, false, ◌&&◌, some, List, [], ◌∷◌, Bytes, length,
  take, take-append, append-nil, if◌then◌else◌, ◌==◌, leb, ℤ, pos, negsuc, gtb, to_signed,
  to_unsigned, arith, Bool-cases, inl, inr,
}
use jaeger_client_cpp.Http.{Response, parse_response, read_socket}
use jaeger_client_cpp.Transport.{
  emitted, does_not_fit, not_written, buffer_size, emit_udp, status_below, check_status, emit_http,
}

take-all : (n : ℕ) (text : Bytes) → n ≡ length text → take n text ≡ text
take-all n text e = ap (take n) (sym (append-nil text)) ∙ take-append text [] n e

-- A batch is sent over UDP as one packet, which holds the whole batch, exactly if that is not longer than
-- the bound; a longer one is refused before anything is sent. It counts as sent only if `send` wrote all
-- of it.
pub emit_udp-packet :
    (bound : ℕ) (send : Bytes → ℤ) (buffer : Bytes)
    → length buffer < 2 ^ 31
    → let size = length buffer in
      emit_udp (pos bound) send buffer ≡ (
        if leb size bound
        then (buffer ∷ [], if to_unsigned 32 (send buffer) == size then emitted else not_written)
        else ([], does_not_fit))
unfolding emit_udp buffer_size
emit_udp-packet bound send buffer small =
    let l = length buffer in
    let size : l % 2 ^ 32 ≡ l = omega (arith, small) in
    let whole : take l buffer ≡ buffer = take-all l buffer refl in
    let signed : to_signed 32 l ≡ pos l = unfold to_signed in ground (arith, small) in
    elim (Bool-cases (leb l bound)) [
      | inl e ↦
          let fits : gtb (pos l) (pos bound) ≡ false = unfold gtb in ground (arith, e) in
          rw (size, signed, whole, fits, e)
            (elim (Bool-cases (to_unsigned 32 (send buffer) == l)) [
              | inl k ↦ rw k refl
              | inr k ↦ rw k refl
            ])
      | inr e ↦
          let too_long : gtb (pos l) (pos bound) ≡ true = unfold gtb in ground (arith, e) in
          rw (size, signed, too_long, e) refl
    ]

-- The test of the status is never true.
check-never : (status : ℤ) → (status_below status 200 && gtb status (pos 204)) ≡ false
unfolding status_below gtb
check-never (pos code) = ground arith
check-never (negsuc n) = refl

check_status-emitted : (response : Response) → check_status response ≡ emitted
unfolding check_status
check_status-emitted response = rw (check-never response.status_code) refl

-- A batch that is sent over HTTP counts as accepted whatever the status of the answer, errors of the
-- server included, if `send` wrote all of it and the answer can be read as a response.
pub emit_http-any_status :
    (send : Bytes → ℤ) (buffer : Bytes) (chunks : List Bytes) (response : Response)
    → length buffer < 2 ^ 32
    → to_unsigned 32 (send buffer) ≡ length buffer
    → parse_response (read_socket chunks) ≡ some response
    → emit_http send (some chunks) buffer ≡ (buffer ∷ [], emitted)
unfolding emit_http buffer_size
emit_http-any_status send buffer chunks response small written parsed =
    let l = length buffer in
    let size : l % 2 ^ 32 ≡ l = omega (arith, small) in
    let sized : buffer_size buffer ≡ l = size in
    let whole : take l buffer ≡ buffer = take-all l buffer refl in
    let same : (to_unsigned 32 (send buffer) == l) ≡ true = ground (arith, written) in
    rw (sized, whole, same, parsed)
      (rw (sized, whole) (ap (λ e. (buffer ∷ [], e)) (check_status-emitted response)))
