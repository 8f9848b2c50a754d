-- ===== src/Baggage/Polling/Requests.antt =====
-- The request that the manager sends.
use jaeger_client_cpp.Base.{
  ◌<◌, ◌^◌, ◌≡◌, refl, sym, ap, ◌∙◌, [], ◌∷◌, ◌++◌, arith, Bytes, codes, All, All-append, pos,
}
use jaeger_client_cpp.Uri.{query_escape, parse_query_values}
use jaeger_client_cpp.Uri.Escape.{IsKept}
use jaeger_client_cpp.Uri.Parts.{Uri, authority, target, parse, is_hash, ends_scheme, ends_path}
use jaeger_client_cpp.Uri.Parts.RoundTrip.{Lacks, lacks-Lacks, text_of, IsUri, parse-text_of}
use jaeger_client_cpp.Baggage.Polling.{IpAddress, ip_authority, remote_uri}
use jaeger_client_cpp.Uri.Requests.{query_escape-Lacks, parse_query_values-service}

-- The request for the restrictions goes to the manager's server and names its service, which the server
-- reads back from the query, where each byte of the name is from 16 to 127.
pub remote_uri-service :
    (address : IpAddress) (service : Bytes)
    → Lacks ends_scheme address.host
    → address.port < 2 ^ 16
    → All IsKept service
    → let uri = remote_uri address service in
      (parse_query_values uri.query ≡ (codes "service", service) ∷ [])
      × (authority uri ≡ ip_authority address)
      × (target uri ≡ codes "/baggageRestrictions?service=" ++ query_escape service)
unfolding remote_uri
remote_uri-service address service plain small kept =
    let u : Uri = record {
      scheme = codes "http";
      host = address.host;
      port = pos address.port;
      path = codes "/baggageRestrictions";
      query = codes "service=" ++ query_escape service;
    } in
    let good : IsUri u = record {
      has_scheme = refl;
      scheme_plain = lacks-Lacks ends_scheme (codes "http") refl;
      host_plain = plain;
      port = address.port;
      port_eq = refl;
      port_lt = omega (arith, small);
      path_tail = codes "baggageRestrictions";
      path_eq = refl;
      path_plain = lacks-Lacks ends_path (codes "baggageRestrictions") refl;
      query_plain =
          All-append _ (codes "service=") _ (lacks-Lacks is_hash (codes "service=") refl)
            (query_escape-Lacks service);
    } in
    let same : ip_authority address ≡ authority u = unfold ip_authority authority in ground arith in
    let written : text_of u
        ≡ codes "http://"
          ++ (ip_authority address
              ++ (codes "/baggageRestrictions?service=" ++ query_escape service)) =
      unfold text_of target in rw (sym same) refl in
    let parsed : remote_uri address service ≡ u = ap parse (sym written) ∙ parse-text_of u good in
    rw parsed (parse_query_values-service service kept, sym same, unfold target in refl)
