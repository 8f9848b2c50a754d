-- ===== src/Config/Reporter.antt =====
-- reporters/Config.h and `fromEnv` of reporters/Config.cpp, with `IPAddress::parse` of net/IPAddress.h.
use jaeger_client_cpp.Base.{
  ◌*◌, Bool, false, not, Option, none, some, [], ◌∷◌, ◌++◌, Bytes, codes, if◌then◌else◌, is_empty,
  ℤ, pos, ◌>>=◌,
}
use jaeger_client_cpp.Decimal.{print_int, scan_int}
use jaeger_client_cpp.Uri.Parts.{span, is_colon}
use jaeger_client_cpp.Config.Sources.{
  Environment, string_variable, int_variable, bool_variable, Yaml, find_or_default, defined_map,
  scaled, is_positive,
}

pub record ReporterConfig : Type 0 where
  pub queue_size : ℤ
  pub buffer_flush_interval : ℤ
  pub log_spans : Bool
  pub local_agent_host_port : Bytes
  pub endpoint : Bytes

abbrev pub default_flush_interval : ℤ
default_flush_interval = pos (10 * 1000000000)

unfoldable pub reporter_config : ℤ → ℤ → Bool → Bytes → Bytes → ReporterConfig
reporter_config queue_size buffer_flush_interval log_spans host_port endpoint = record {
  queue_size = if is_positive queue_size then queue_size else pos 100;
  buffer_flush_interval =
      if is_positive buffer_flush_interval then buffer_flush_interval else default_flush_interval;
  log_spans = log_spans;
  local_agent_host_port = if is_empty host_port then codes "127.0.0.1:6831" else host_port;
  endpoint = endpoint;
}

-- The default arguments.
unfoldable pub default_reporter : ReporterConfig
unfolding reporter_config
default_reporter =
    reporter_config (pos 100) default_flush_interval false (codes "127.0.0.1:6831") []

-- `parse` of the keys of a map.
unfoldable pub reporter_of_map : {N : Type 0} → Yaml N → N → Option ReporterConfig
unfolding find_or_default reporter_config scaled
reporter_of_map y node = do
  queue_size ← find_or_default y y.as_int node (codes "queueSize") (pos 0)
  interval ← find_or_default y y.as_int node (codes "bufferFlushInterval") (pos 0)
  log_spans ← find_or_default y y.as_bool node (codes "logSpans") false
  host_port ← find_or_default y y.as_string node (codes "localAgentHostPort") []
  endpoint ← find_or_default y y.as_string node (codes "endpoint") []
  some (reporter_config queue_size (scaled 1000000000 interval) log_spans host_port endpoint)

unfoldable pub parse_reporter : {N : Type 0} → Yaml N → Option N → Option ReporterConfig
unfolding reporter_of_map default_reporter defined_map
parse_reporter y node = elim (defined_map y node) [
  | none ↦ some default_reporter
  | some found ↦ reporter_of_map y found
]

-- `IPAddress::parse`, by the span up to a colon.
unfoldable pub host_and_port : Bytes × Bytes → Bytes × ℤ
host_and_port (ip, []) = (ip, pos 0)
host_and_port (ip, colon ∷ digits) =
    let (good, port) = scan_int digits in (ip, if good then port else pos 0)

unfoldable pub parse_address : Bytes → Bytes × ℤ
unfolding span host_and_port
parse_address host_port = host_and_port (span is_colon host_port)

-- The host and the port of `fromEnv`.
unfoldable pub set_agent_host : Bytes → ReporterConfig → ReporterConfig
unfolding parse_address print_int
set_agent_host agent_host c = if is_empty agent_host then c else record c {
  local_agent_host_port = agent_host ++ b':' ∷ print_int (parse_address c.local_agent_host_port).1;
}

unfoldable pub set_agent_port : Bytes → ReporterConfig → ReporterConfig
unfolding parse_address print_int scan_int
set_agent_port agent_port c =
    let (good, port) = scan_int agent_port in
    if is_empty agent_port
    then c
    else if good
    then record c {
      local_agent_host_port = (parse_address c.local_agent_host_port).0 ++ b':' ∷ print_int port;
    }
    else c

unfoldable pub set_endpoint : Bytes → ReporterConfig → ReporterConfig
set_endpoint endpoint c = if is_empty endpoint then c else record c { endpoint = endpoint }

unfoldable pub set_log_spans : Bool × Bool → ReporterConfig → ReporterConfig
set_log_spans (given, value) c = if given then record c { log_spans = value } else c

unfoldable pub set_flush_interval : Bool × ℤ → ReporterConfig → ReporterConfig
unfolding scaled
set_flush_interval (failed, value) c =
    if not failed
    then (if is_positive value
        then record c { buffer_flush_interval = scaled 1000000 value }
        else c)
    else c

unfoldable pub set_queue_size : Bool × ℤ → ReporterConfig → ReporterConfig
set_queue_size (failed, value) c =
    if not failed then (if is_positive value then record c { queue_size = value } else c) else c

unfoldable pub reporter_from_env : Environment → ReporterConfig → ReporterConfig
unfolding set_agent_host set_agent_port set_endpoint set_log_spans set_flush_interval set_queue_size
    string_variable int_variable bool_variable
reporter_from_env env c =
    let c1 = set_agent_host (string_variable env (codes "JAEGER_AGENT_HOST")) c in
    let c2 = set_agent_port (string_variable env (codes "JAEGER_AGENT_PORT")) c1 in
    let c3 = set_endpoint (string_variable env (codes "JAEGER_ENDPOINT")) c2 in
    let c4 = set_log_spans (bool_variable env (codes "JAEGER_REPORTER_LOG_SPANS")) c3 in
    let c5 = set_flush_interval (int_variable env (codes "JAEGER_REPORTER_FLUSH_INTERVAL")) c4 in
    set_queue_size (int_variable env (codes "JAEGER_REPORTER_MAX_QUEUE_SIZE")) c5
