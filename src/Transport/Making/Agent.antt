-- ===== src/Transport/Making/Agent.antt =====
-- Where the reporter of a configuration from the environment sends to.
use jaeger_client_cpp.Base.{
  ℕ, zero, suc, ◌⊎◌, none, inl, inr, sym, ◌>>=◌, ◌<◌, ◌^◌, ◌%◌, to_unsigned, ◌≡◌, refl, ap, ◌∙◌,
  Bool, true, false, some, [], Bytes, codes, is_empty, ℤ, pos, arith,
}
use jaeger_client_cpp.Decimal.{scan_int, print_int}
use jaeger_client_cpp.Uri.Parts.{is_colon}
use jaeger_client_cpp.Uri.Parts.RoundTrip.{Lacks}
use jaeger_client_cpp.Config.Sources.{Environment, string_variable, int_variable, bool_variable}
use jaeger_client_cpp.Config.Reporter.{
  ReporterConfig, parse_address, set_agent_host, set_agent_port, set_endpoint, set_log_spans,
  set_flush_interval, set_queue_size, reporter_from_env,
}
use jaeger_client_cpp.Config.Making.{agent-address}
use jaeger_client_cpp.Transport.{udp_packet_max_length}
use jaeger_client_cpp.Transport.Making.{
  Network, udp_transporter, socket_address, new_udp, make_transporter,
}

-- The later variables leave the address and the endpoint.
later_variables :
    (spans : Bool × Bool) (interval size : Bool × ℤ) (c : ReporterConfig)
    → let d = set_queue_size size (set_flush_interval interval (set_log_spans spans c)) in
      (d.local_agent_host_port ≡ c.local_agent_host_port) × (d.endpoint ≡ c.endpoint)
unfolding set_queue_size set_flush_interval set_log_spans
later_variables spans interval size c = ground arith

agent_keeps_endpoint :
    (host agent_port : Bytes) (c : ReporterConfig)
    → (set_agent_port agent_port (set_agent_host host c)).endpoint ≡ c.endpoint
unfolding set_agent_port set_agent_host
agent_keeps_endpoint host agent_port c = ground arith

no_endpoint : (c : ReporterConfig) → set_endpoint [] c ≡ c
unfolding set_endpoint
no_endpoint c = refl

abbrev pub agent_host : Environment → Bytes
agent_host env = string_variable env (codes "JAEGER_AGENT_HOST")

abbrev pub agent_port : Environment → Bytes
agent_port env = string_variable env (codes "JAEGER_AGENT_PORT")

-- An address of a host and a port: of a numeric host, the address that it reads as, with the low 16 bits
-- of the port; of another host, what the resolver gives for it and the port, which is not zero.
abbrev pub IsResolved : Network → Bytes → ℕ → Bytes × ℕ → Type 0
IsResolved net host port address =
    ((net.inet_pton host ≡ some address.0) × (address.1 ≡ port % 2 ^ 16))
    ⊎ ((net.inet_pton host ≡ none)
        × (0 < port)
        × (net.getaddrinfo host (print_int (pos port)) ≡ some address))

socket_address-IsResolved :
    (net : Network) (host : Bytes) (port : ℕ) (address : Bytes × ℕ)
    → IsResolved net host port address
    → socket_address net (host, pos port) ≡ some address
unfolding socket_address to_unsigned
socket_address-IsResolved net host port (ip, word) (inl (numeric, low)) =
    rw (numeric, socket_address) (ap (λ w. some (ip, w)) (sym low))
socket_address-IsResolved net host zero address (inr (named, given, found)) =
    absurd (omega (arith, given))
socket_address-IsResolved net host (suc port) address (inr (named, given, found)) =
    rw (named, socket_address) found

-- If the environment sets the agent's host and a port that can be read, and neither it nor the
-- configuration sets an endpoint, the reporter's transporter is one over UDP, with packets of up to 65000
-- bytes, to an address of that host and port, where a socket can be connected to it. The host has no
-- colon and the port is in the range of `int`. A numeric host gives the address that it reads as, with
-- the low 16 bits of the port, and another host what the resolver gives for it and the port, which is
-- then not zero.
pub make_transporter-agent :
    (datagram stream : Network) (env : Environment) (c : ReporterConfig) (port : ℕ)
    (address : Bytes × ℕ)
    → is_empty (agent_host env) ≡ false
    → is_empty (agent_port env) ≡ false
    → Lacks is_colon (agent_host env)
    → port < 2 ^ 31
    → scan_int (agent_port env) ≡ (true, pos port)
    → string_variable env (codes "JAEGER_ENDPOINT") ≡ []
    → c.endpoint ≡ []
    → IsResolved datagram (agent_host env) port address
    → datagram.connects address ≡ true
    → make_transporter datagram stream (reporter_from_env env c)
      ≡ some (udp_transporter address udp_packet_max_length)
unfolding reporter_from_env make_transporter new_udp ◌>>=◌
make_transporter-agent datagram stream env c port target h p lacks small scan unset none_set
      resolved up =
    let host = agent_host env in
    let c2 = set_agent_port (agent_port env) (set_agent_host host c) in
    let same : set_endpoint (string_variable env (codes "JAEGER_ENDPOINT")) c2 ≡ c2 =
      ap (λ e. set_endpoint e c2) unset ∙ no_endpoint c2 in
    let (address_kept, endpoint_kept) =
      later_variables (bool_variable env (codes "JAEGER_REPORTER_LOG_SPANS"))
        (int_variable env (codes "JAEGER_REPORTER_FLUSH_INTERVAL"))
        (int_variable env (codes "JAEGER_REPORTER_MAX_QUEUE_SIZE"))
        (set_endpoint (string_variable env (codes "JAEGER_ENDPOINT")) c2) in
    let address : parse_address (reporter_from_env env c).local_agent_host_port ≡ (host, pos port) =
      ap parse_address (address_kept ∙ ap (λ (d : ReporterConfig). d.local_agent_host_port) same)
      ∙ agent-address c host (agent_port env) port h p lacks small scan in
    let endpoint : (reporter_from_env env c).endpoint ≡ [] =
      endpoint_kept
      ∙ ap (λ (d : ReporterConfig). d.endpoint) same
      ∙ agent_keeps_endpoint host (agent_port env) c
      ∙ none_set in
    let found = socket_address-IsResolved datagram host port target resolved in
    rw (make_transporter, endpoint, address, found, up) refl
