-- ===== src/Transport/Tests.antt =====
-- Runs of the theorems on the transporters.
use jaeger_client_cpp.Base.{
  ◌&&◌, inr, ℕ, ◌+◌, ◌≤◌, ◌<◌, ◌^◌, ◌≡◌, refl, sym, ap, ◌∙◌, true, false, none, some, List, [], ◌∷◌,
  ◌++◌, replicate, length-replicate, All, Bytes, bytes_eq, codes, is_empty, length, ◌==◌,
  if◌then◌else◌, ℤ, pos, to_unsigned, arith,
}
use jaeger_client_cpp.Decimal.{scan_int}
use jaeger_client_cpp.Decimal.RoundTrip.{scan_int-print_int}
use jaeger_client_cpp.Uri.Parts.{is_colon}
use jaeger_client_cpp.Uri.Parts.RoundTrip.{Lacks, lacks-Lacks}
use jaeger_client_cpp.Sender.{overhead, Call, append_call, flush_call, calls, new_sender}
use jaeger_client_cpp.Sender.Process.{total}
use jaeger_client_cpp.Sender.Counting.{StaysInt}
use jaeger_client_cpp.Config.Sources.{Environment, string_variable}
use jaeger_client_cpp.Config.Reporter.{default_reporter, reporter_config, reporter_from_env}
use jaeger_client_cpp.Transport.{udp_packet_max_length}
use jaeger_client_cpp.Transport.Batches.{calls-sent}
use jaeger_client_cpp.Transport.Making.{Network, udp_transporter, make_transporter}
use jaeger_client_cpp.Transport.Making.Agent.{
  agent_host, agent_port, IsResolved, make_transporter-agent,
}
use jaeger_client_cpp.Decimal.{print_int}
use jaeger_client_cpp.Http.{Response, is_dots, parse_response, read_socket}
use jaeger_client_cpp.Http.RoundTrip.{Message, IsMessage, message_text, parse_response-message_text}
use jaeger_client_cpp.Transport.{emitted, not_written, emit_udp, emit_http}
use jaeger_client_cpp.Transport.Sending.{emit_http-any_status}

abbrev batch : Bytes
batch = codes "batch"

abbrev writes_all : Bytes → ℤ
writes_all packet = pos (length packet)

batch_small : length batch < 2 ^ 31
batch_small = omega arith

abbrev refusal : Message
refusal = record {
  major = b'1';
  minor = b'1';
  status = 500;
  reason = codes "Error";
  headers = [];
  body = [];
}

refusal-IsMessage : IsMessage refusal
unfolding is_dots
refusal-IsMessage = record {
  major_digit = refl;
  minor_digit = refl;
  status_lt = omega arith;
  reason_text = (refl, refl);
  good_headers = tt;
}

abbrev refused : Response
refused = record {
  version = b'1' ∷ b'.' ∷ b'1' ∷ [];
  status_code = pos 500;
  reason = codes "Error";
  headers = [];
  body = [];
}

one_chunk : read_socket (message_text refusal ∷ []) ≡ message_text refusal
unfolding read_socket print_int
one_chunk = refl

refusal_parsed : parse_response (read_socket (message_text refusal ∷ [])) ≡ some refused
refusal_parsed = ap parse_response one_chunk ∙ parse_response-message_text refusal refusal-IsMessage

batch_written : to_unsigned 32 (writes_all batch) ≡ length batch
unfolding to_unsigned
batch_written = refl

batch_below : length batch < 2 ^ 32
batch_below = omega arith

emit_http-any_status_example :
    emit_http writes_all (some (message_text refusal ∷ [])) batch ≡ (batch ∷ [], emitted)
emit_http-any_status_example =
    emit_http-any_status writes_all batch (message_text refusal ∷ []) refused batch_below
      batch_written refusal_parsed

abbrev own_size : ℕ → ℕ
own_size n = n

abbrev serialized : List ℕ → Bytes
serialized spans = replicate (total own_size 100 10 spans + 10 + overhead) b'x'

serialized_short :
    (spans : List ℕ) → length (serialized spans) ≤ total own_size 100 10 spans + 10 + overhead
serialized_short spans =
    omega (arith, length-replicate {A = ℕ} (total own_size 100 10 spans + 10 + overhead) b'x')

abbrev some_calls : List (Call ℕ)
some_calls = append_call true 20 ∷ append_call true 30 ∷ append_call false 25 ∷ flush_call true ∷ []

hundred_small : 100 < 2 ^ 31
hundred_small = omega arith

some_calls-small : StaysInt own_size 100 10 100 some_calls
some_calls-small = (omega arith, (omega arith, (omega arith, tt)))

calls-sent_example :
    All
      (λ spans. emit_udp (pos 100) writes_all (serialized spans) ≡ (
        serialized spans ∷ [],
        if to_unsigned 32 (writes_all (serialized spans)) == length (serialized spans)
            then emitted
            else not_written,
      ))
      (calls own_size 100 10 some_calls new_sender).emitted
calls-sent_example =
    calls-sent own_size 100 10 serialized writes_all some_calls some_calls-small hundred_small
      serialized_short

abbrev agent_environment : Environment
agent_environment name =
    if bytes_eq name (codes "JAEGER_AGENT_HOST")
    then some (codes "agent")
    else if bytes_eq name (codes "JAEGER_AGENT_PORT")
    then some (codes "6832")
    else none

has_host : agent_host agent_environment ≡ codes "agent"
unfolding string_variable bytes_eq
has_host = refl

has_port : agent_port agent_environment ≡ codes "6832"
unfolding string_variable bytes_eq
has_port = refl

has_no_endpoint : string_variable agent_environment (codes "JAEGER_ENDPOINT") ≡ []
unfolding string_variable bytes_eq
has_no_endpoint = refl

host_given : is_empty (agent_host agent_environment) ≡ false
host_given = ap is_empty has_host

port_given : is_empty (agent_port agent_environment) ≡ false
port_given = ap is_empty has_port

host_plain : Lacks is_colon (agent_host agent_environment)
host_plain = rw has_host (lacks-Lacks is_colon (codes "agent") refl)

port_small : 6832 < 2 ^ 31
port_small = omega arith

port_printed : print_int (pos 6832) ++ [] ≡ codes "6832"
unfolding print_int
port_printed = refl

port_scanned : scan_int (agent_port agent_environment) ≡ (true, pos 6832)
port_scanned =
    ap scan_int (has_port ∙ sym port_printed) ∙ scan_int-print_int 6832 [] port_small refl

nothing_configured : default_reporter.endpoint ≡ []
unfolding default_reporter reporter_config
nothing_configured = refl

-- A network in which no host is numeric but the agent is known, at port 6832.
abbrev home : Network
home = record {
  inet_pton = λ host. none;
  getaddrinfo = λ host service.
      if bytes_eq host (codes "agent") && bytes_eq service (codes "6832")
      then some (10 ∷ 0 ∷ 0 ∷ 7 ∷ [], 6832)
      else none;
  connects = λ address. true;
}

agent-IsResolved : IsResolved home (agent_host agent_environment) 6832 (10 ∷ 0 ∷ 0 ∷ 7 ∷ [], 6832)
unfolding string_variable bytes_eq print_int
agent-IsResolved = inr (refl, omega arith, refl)

make_transporter-agent_example :
    make_transporter home home (reporter_from_env agent_environment default_reporter)
    ≡ some (udp_transporter (10 ∷ 0 ∷ 0 ∷ 7 ∷ [], 6832) udp_packet_max_length)
make_transporter-agent_example =
    make_transporter-agent home home agent_environment default_reporter 6832
      (10 ∷ 0 ∷ 0 ∷ 7 ∷ [], 6832) host_given port_given host_plain port_small port_scanned
      has_no_endpoint nothing_configured agent-IsResolved refl
