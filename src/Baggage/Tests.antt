-- ===== src/Baggage/Tests.antt =====
-- Runs of the theorems on baggage.
use jaeger_client_cpp.Base.{
  ◌^◌, ◌<◌, ◌≡◌, refl, true, false, ◌&&◌, Option, none, some, List, [], ◌∷◌, ◌++◌, arith, Bytes,
  bytes_eq, codes, All, if◌then◌else◌, length, lookup, ℤ, pos,
}
use jaeger_client_cpp.Uri.{query_escape, parse_query_values}
use jaeger_client_cpp.Uri.Escape.{IsKept}
use jaeger_client_cpp.Uri.Parts.{Uri, authority, target, ends_scheme}
use jaeger_client_cpp.Uri.Parts.RoundTrip.{Lacks, lacks-Lacks}
use jaeger_client_cpp.Baggage.Polling.{IpAddress, ip_authority, Turn, remote_uri}
use jaeger_client_cpp.Baggage.Polling.Requests.{remote_uri-service}
use jaeger_client_cpp.SpanContext.Samples.{two_items}
use jaeger_client_cpp.Metrics.{null_metrics}
use jaeger_client_cpp.Baggage.{Restriction, default_manager, set_baggage}
use jaeger_client_cpp.Baggage.Setter.{up_to_bound, IsInt, lookup-set_baggage}

abbrev five : Bytes → Bytes → Restriction
five = default_manager (pos 5)

small_value : length (codes "platinum") < 2 ^ 31
small_value = omega arith

small_bound : IsInt (five (codes "shop") (codes "tier")).max_value_length
unfolding default_manager
small_bound = omega arith

lookup-set_baggage_example :
    lookup
      (codes "tier")
      (set_baggage five
        (codes "shop")
        true
        two_items
        (codes "tier")
        (codes "platinum")
        null_metrics).baggage
    ≡ (if (five (codes "shop") (codes "tier")).key_allowed && bytes_eq (codes "tier") (codes "tier")
        then some
            (up_to_bound (five (codes "shop") (codes "tier")).max_value_length (codes "platinum"))
        else lookup (codes "tier") two_items)
lookup-set_baggage_example =
    lookup-set_baggage five (codes "shop") (codes "tier") (codes "platinum") true two_items
      null_metrics (codes "tier") small_value small_bound

abbrev agent : IpAddress
agent = record { host = codes "127.0.0.1"; port = 5778 }

-- A server that sends a list, and one that cannot be reached.
abbrev serves : Uri → Bytes → Option (List Bytes)
serves uri request = some ((codes "HTTP/1.1 200 OK\r\n\r\n[a]") ∷ [])

abbrev unreachable : Uri → Bytes → Option (List Bytes)
unreachable uri request = none

abbrev reads : Bytes → Option (Option (List (Bytes × ℤ)))
reads body = if bytes_eq body (codes "[a]") then some (some ((codes "a", pos 3) ∷ [])) else none

abbrev turns : List Turn
turns =
    record { closed = false; now = 110; exchange = serves; updated = 112 }
    ∷ record { closed = true; now = 120; exchange = unreachable; updated = 120 }
    ∷ []

shop-IsKept : All IsKept (codes "shop")
shop-IsKept = (
  (omega arith, omega arith),
  ((omega arith, omega arith), ((omega arith, omega arith), ((omega arith, omega arith), tt))),
)

agent_plain : Lacks ends_scheme agent.host
agent_plain = lacks-Lacks ends_scheme (codes "127.0.0.1") refl

agent_port : agent.port < 2 ^ 16
agent_port = omega arith

remote_uri-service_example :
    let uri = remote_uri agent (codes "shop") in
    (parse_query_values uri.query ≡ (codes "service", codes "shop") ∷ [])
    × (authority uri ≡ ip_authority agent)
    × (target uri ≡ codes "/baggageRestrictions?service=" ++ query_escape (codes "shop"))
remote_uri-service_example =
    remote_uri-service agent (codes "shop") agent_plain agent_port shop-IsKept
