-- ===== src/Transport/Making.antt =====
-- The constructors of utils/UDPTransporter.cpp and utils/HTTPTransporter.cpp, `makeReporter` of
-- reporters/Config.cpp, and the address of a host and port in net/IPAddress.cpp. The calls of the
-- operating system's network are parameters.
pub mod Agent
use jaeger_client_cpp.Base.{
  [], ℕ, to_unsigned, Bool, Option, none, some, ◌++◌, Bytes, codes, if◌then◌else◌, is_empty, ℤ, pos,
  ◌>>=◌,
}
use jaeger_client_cpp.Decimal.{print_int}
use jaeger_client_cpp.Uri.Parts.{Uri, is_zero, parse}
use jaeger_client_cpp.Config.Reporter.{ReporterConfig, parse_address}
use jaeger_client_cpp.Transport.{udp_packet_max_length, http_packet_max_length}

-- `inet_pton` for `AF_INET`, which returns 0 for a text that is not an address; `getaddrinfo` of a host
-- and a service, whose first result has an address and a port; and whether a socket can be opened and
-- connected.
pub record Network : Type 0 where
  pub inet_pton : Bytes → Option Bytes
  pub getaddrinfo : Bytes → Bytes → Option (Bytes × ℕ)
  pub connects : Bytes × ℕ → Bool

-- `versionFromString` and `resolveAddress`, which throws where there is no result. The port of an address
-- is written to the 16 bits of `sin_port`.
unfoldable pub socket_address : Network → Bytes × ℤ → Option (Bytes × ℕ)
unfolding to_unsigned print_int
socket_address net (host, port) = elim (net.inet_pton host) [
  | some address ↦ some (address, to_unsigned 16 port)
  | none ↦ net.getaddrinfo host (if is_zero port then [] else print_int port)
]

-- A transporter that is connected to a host and a port, with its `_maxPacketSize`.
pub data Transporter : Type 0 where
  udp_transporter : Bytes × ℕ → ℤ → Transporter
  http_transporter : Bytes × ℕ → Bytes → ℤ → Transporter

unfoldable pub new_udp : (Bytes × ℕ → Bool) → Bytes × ℕ → ℤ → Option Transporter
new_udp connects server_addr max_packet_size =
    if connects server_addr
    then some (
        udp_transporter server_addr
          (if is_zero max_packet_size then udp_packet_max_length else max_packet_size))
    else none

-- The path that the client posts to is that of the endpoint, with the format.
unfoldable pub new_http : Network → Uri → ℤ → Option Transporter
unfolding socket_address
new_http net endpoint max_packet_size = do
  server_addr ← socket_address net (endpoint.host, endpoint.port)
  if net.connects server_addr
      then some (
          http_transporter server_addr (endpoint.path ++ codes "?format=jaeger.thrift")
            (if is_zero max_packet_size then http_packet_max_length else max_packet_size))
      else none

-- The networks of the transporters over UDP and over HTTP, which differ in the type of the socket.
unfoldable pub make_transporter : Network → Network → ReporterConfig → Option Transporter
unfolding new_udp new_http parse parse_address socket_address
make_transporter datagram stream c =
    if is_empty c.endpoint
    then (do
      server_addr ← socket_address datagram (parse_address c.local_agent_host_port)
      new_udp datagram.connects server_addr (pos 0))
    else new_http stream (parse c.endpoint) (pos 0)

-- A remote reporter with its sender's transporter, and whether a logging reporter stands beside it.
pub record MadeReporter : Type 0 where
  pub transporter : Transporter
  pub buffer_flush_interval : ℤ
  pub queue_size : ℤ
  pub logs_spans : Bool

unfoldable pub make_reporter : Network → Network → ReporterConfig → Option MadeReporter
unfolding make_transporter
make_reporter datagram stream c = do
  transporter ← make_transporter datagram stream c
  some (record {
    transporter = transporter;
    buffer_flush_interval = c.buffer_flush_interval;
    queue_size = c.queue_size;
    logs_spans = c.log_spans;
  })
