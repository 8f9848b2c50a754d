-- ===== src/Hex/Tests.antt =====
-- A run of the hexadecimal decoder, which keeps the low bits.
use jaeger_client_cpp.Base.{◌≡◌, refl, codes}
use jaeger_client_cpp.Hex.{decode_hex}

three_digits_value : decode_hex 8 (codes "1fF") ≡ 255
unfolding decode_hex
three_digits_value = refl
