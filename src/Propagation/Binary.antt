-- ===== src/Propagation/Binary.antt =====
-- `BinaryPropagator` of propagation/Propagator.h, and platform/Endian.h.
pub mod Numbers
pub mod RoundTrip
pub mod Truncated
use jaeger_client_cpp.Base.{
  ℕ, zero, suc, ◌+◌, ◌*◌, ◌/◌, ◌%◌, ◌^◌, bit_or, Bool, true, false, Option, none, some, List, [],
  ◌∷◌, ◌++◌, Bytes, leb, if◌then◌else◌, length, take, drop, insert,
}
use mathlib.Core.List.{reverse}
use jaeger_client_cpp.Hex.{Stream, good, failed, get}
use jaeger_client_cpp.SpanContext.{SpanContext, StrMap, empty}

-- The byte order of the host.
pub data Endian : Type 0 where
  little big : Endian

-- The loop of `writeBinary`: the byte that `value >> 8 * k` ends in, for falling `k`.
unfoldable pub write_loop : ℕ → ℕ → Bytes
write_loop zero value = []
write_loop (suc k) value = (value / 256 ^ k % 256) ∷ write_loop k value

-- The number that bytes spell, the first one the highest.
unfoldable pub of_bytes : ℕ → Bytes → ℕ
of_bytes n [] = n
of_bytes n (b ∷ bytes) = of_bytes (n * 256 + b) bytes

-- What `htobe32` and `htobe64` compute, and so `be32toh` and `be64toh`: a little-endian host
-- reverses the bytes of the number, and a big-endian one leaves it.
unfoldable pub to_big_endian : Endian → ℕ → ℕ → ℕ
to_big_endian little size value = of_bytes 0 (reverse (write_loop size value))
to_big_endian big size value = value

unfoldable pub write_binary : Endian → ℕ → ℕ → Bytes
write_binary e size value = write_loop size (to_big_endian e size value)

-- The loop of `readBinary`, with the rounds that are left; `value <<= 8` drops what leaves the type.
unfoldable pub read_loop : ℕ → ℕ → ℕ → Stream → ℕ × Stream
read_loop size zero value in' = (value, in')
read_loop size (suc rounds) value in' =
    let (next, after) = get in' in
    elim next [
      | none ↦ (value, after)
      | some byte ↦ read_loop size rounds (bit_or (value * 256 % 256 ^ size) byte) after
    ]

unfoldable pub read_binary : Endian → ℕ → Stream → ℕ × Stream
read_binary e size in' =
    let (value, after) = read_loop size size 0 in' in (to_big_endian e size value, after)

-- `in.get(ch)` where `ch` was `'\0'`.
unfoldable pub get_or_zero : Stream → ℕ × Stream
unfolding get
get_or_zero in' =
    let (next, after) = get in' in elim next [ none ↦ (0, after) | some ch ↦ (ch, after) ]

-- `in.read(&text[0], count)`, with `none` where the stream fails.
unfoldable pub read_text : ℕ → Stream → Option Bytes × Stream
read_text count failed = (none, failed)
read_text count (good rest) =
    if leb count (length rest)
    then (some (take count rest), good (drop count rest))
    else (none, failed)

unfoldable pub write_text : Endian → Bytes → Bytes
write_text e text = write_binary e 4 (length text % 2 ^ 32) ++ text

unfoldable pub write_items : Endian → StrMap → Bytes
write_items e [] = []
write_items e ((key, value) ∷ items) =
    write_text e key ++ (write_text e value ++ write_items e items)

-- `inject`
unfoldable pub inject : Endian → SpanContext → Bytes
inject e ctx =
    write_binary e 8 ctx.trace_id.high
    ++ (write_binary e 8 ctx.trace_id.low
        ++ (write_binary e 8 ctx.span_id
            ++ (write_binary e 8 ctx.parent_id
                ++ (ctx.flags
                    ∷ (write_binary e 4 (length ctx.baggage % 2 ^ 32)
                        ++ write_items e ctx.baggage)))))

-- A text behind its length.
unfoldable pub read_sized : Endian → Stream → Option Bytes × Stream
read_sized e in' = let (count, after) = read_binary e 4 in' in read_text count after

-- Goes on with what was read and with the stream behind it.
unfoldable pub and_then : {A B : Type 0} → A × Stream → (A → Stream → B) → B
and_then (value, after) next = next value after

-- The loop of `extract` over the baggage items; `none` is its error return.
unfoldable pub read_items : Endian → ℕ → Stream → StrMap → Option StrMap
read_items e zero in' baggage = some baggage
read_items e (suc left) in' baggage = and_then (read_sized e in') (λ key after_key. elim key [
  | none ↦ none
  | some k ↦ and_then (read_sized e after_key) (λ value after_value. elim value [
    | none ↦ none
    | some v ↦ read_items e left after_value (insert k v baggage)
  ])
])

-- `extract`, with the decoding errors it counts.
unfoldable pub extract : Endian → Stream → SpanContext × ℕ
extract e in' = and_then (read_binary e 8 in') (λ high s1. and_then (read_binary e 8 s1) (λ low s2.
    and_then (read_binary e 8 s2) (λ span_id s3. and_then (read_binary e 8 s3) (λ parent_id s4.
      and_then (get_or_zero s4) (λ flags s5. and_then (read_binary e 4 s5) (λ count s6.
        elim (read_items e count s6 []) [
          | none ↦ (empty, 1)
          | some baggage ↦ (
            record {
              trace_id = record { high = high; low = low };
              span_id = span_id;
              parent_id = parent_id;
              flags = flags;
              baggage = baggage;
              debug_id = [];
              trace_state = [];
            },
            0,
          )
        ]))))))
