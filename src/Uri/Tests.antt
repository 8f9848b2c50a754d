-- ===== src/Uri/Tests.antt =====
-- A run of the parser of queries.
use jaeger_client_cpp.Base.{◌≡◌, refl, [], ◌∷◌, codes}
use jaeger_client_cpp.Hex.{is_hex}
use jaeger_client_cpp.Uri.{query_loop, query_pair, decode_digit, query_unescape, parse_query_values}

two_pairs :
    parse_query_values (codes "a=1&b=%20&c")
    ≡ (codes "a", codes "1") ∷ (codes "b", codes " ") ∷ (codes "c", []) ∷ []
unfolding parse_query_values query_loop query_pair query_unescape is_hex decode_digit
two_pairs = refl
