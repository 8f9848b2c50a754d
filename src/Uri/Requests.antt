-- ===== src/Uri/Requests.antt =====
-- The queries of the requests for the restrictions and for the sampling strategy.
use jaeger_client_cpp.Base.{
  ◌≡◌, ◌≢◌, refl, ap, ◌∙◌, inl, inr, [], ◌∷◌, ◌++◌, arith, Bytes, codes, All, All-map, All-append,
}
use jaeger_client_cpp.Uri.{
  is_unreserved, query_escape, query_unescape, unescape_loop, parse_query_values,
}
use jaeger_client_cpp.Uri.Escape.{IsKept, IsSafe, query_escape-IsSafe, query_unescape-query_escape}
use jaeger_client_cpp.Uri.Query.{parts, pairs, key_of, value_of, glue, parse_query_values-pairs}
use jaeger_client_cpp.Uri.Parts.{is_hash}
use jaeger_client_cpp.Uri.Parts.RoundTrip.{Lacks}

-- Text without an ampersand is one part.
parts-plain : (s : Bytes) → All (λ c. c ≢ b'&') s → parts s ≡ s ∷ []
unfolding parts glue
parts-plain [] h = refl
parts-plain (c ∷ s) (hc, hs) = ground (arith, parts-plain s hs)

-- What `queryEscape` writes ends neither a part nor the query.
pub query_escape-Lacks : (s : Bytes) → Lacks is_hash (query_escape s)
query_escape-Lacks s =
    All-map IsSafe _ (query_escape s)
      (λ c h. elim h [
        | inl u ↦ (unfold is_unreserved in ground (arith, u))
        | inr e ↦ ground (arith, e)
      ])
      (query_escape-IsSafe s)

query_escape-one_part : (s : Bytes) → All (λ c. c ≢ b'&') (query_escape s)
query_escape-one_part s =
    All-map IsSafe _ (query_escape s)
      (λ c h. elim h [
        | inl u ↦ (unfold is_unreserved in ground (arith, u))
        | inr e ↦ ground (arith, e)
      ])
      (query_escape-IsSafe s)

-- The query of a request names the service.
pub parse_query_values-service :
    (service : Bytes)
    → All IsKept service
    → parse_query_values (codes "service=" ++ query_escape service)
      ≡ (codes "service", service) ∷ []
unfolding pairs key_of value_of
parse_query_values-service service h =
    let query = codes "service=" ++ query_escape service in
    let one_part : All (λ c. c ≢ b'&') (codes "service=") = (
      omega arith,
      (
        omega arith,
        (
          omega arith,
          (omega arith, (omega arith, (omega arith, (omega arith, (omega arith, tt))))),
        ),
      ),
    ) in
    let name : query_unescape (codes "service") ≡ codes "service" =
      unfold query_unescape unescape_loop in refl in
    parse_query_values-pairs query
    ∙ ap pairs (
        parts-plain query
          (All-append _ (codes "service=") _ one_part (query_escape-one_part service)))
    ∙ ap (λ t. (query_unescape (codes "service"), t) ∷ []) (query_unescape-query_escape service h)
    ∙ ap (λ k. (k, service) ∷ []) name
