-- ===== src/Uri/Parts/Tests.antt =====
-- Runs of the theorem on the parts of a URI.
use jaeger_client_cpp.Base.{◌≡◌, refl, codes, pos, arith}
use jaeger_client_cpp.Uri.Parts.{Uri, parse, ends_scheme, ends_path, is_hash}
use jaeger_client_cpp.Uri.Parts.RoundTrip.{lacks-Lacks, text_of, IsUri, parse-text_of}

abbrev sampling_uri : Uri
sampling_uri = record {
  scheme = codes "http";
  host = codes "127.0.0.1";
  port = pos 5778;
  path = codes "/sampling";
  query = codes "service=a";
}

sampling_uri-IsUri : IsUri sampling_uri
sampling_uri-IsUri = record {
  has_scheme = refl;
  scheme_plain = lacks-Lacks ends_scheme (codes "http") refl;
  host_plain = lacks-Lacks ends_scheme (codes "127.0.0.1") refl;
  port = 5778;
  port_eq = refl;
  port_lt = omega arith;
  path_tail = codes "sampling";
  path_eq = refl;
  path_plain = lacks-Lacks ends_path (codes "sampling") refl;
  query_plain = lacks-Lacks is_hash (codes "service=a") refl;
}

parse-text_of_example : parse (text_of sampling_uri) ≡ sampling_uri
parse-text_of_example = parse-text_of sampling_uri sampling_uri-IsUri
