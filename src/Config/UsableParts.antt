-- ===== src/Config/UsableParts.antt =====
-- A reporter and headers that are configured can be used.
use jaeger_client_cpp.Base.{
  ℕ, zero, suc, ◌*◌, ◌<◌, ◌≡◌, refl, Bool, true, false, false≢true, Option, [], ◌∷◌, ◌++◌, Bytes,
  codes, if◌then◌else◌, is_empty, ℤ, pos, negsuc, Always, Always-step, Bool-cases, Option-cases,
  inl, inr, arith,
}
use jaeger_client_cpp.Propagation.Carrier.{HeadersConfig, or_default, headers_config}
use jaeger_client_cpp.Decimal.{scan_int}
use jaeger_client_cpp.Config.Sources.{
  Environment, string_variable, int_variable, bool_variable, Yaml, defined_map, scaled, is_positive,
  IsPositive,
}
use jaeger_client_cpp.Config.Reporter.{
  ReporterConfig, default_flush_interval, reporter_config, default_reporter, reporter_of_map,
  parse_reporter, parse_address, set_agent_host, set_agent_port, set_endpoint, set_log_spans,
  set_flush_interval, set_queue_size, reporter_from_env,
}
use jaeger_client_cpp.Config.{headers_of_map, parse_headers}

pub record IsUsableReporter (c : ReporterConfig) : Type 0 where
  pub has_queue : IsPositive c.queue_size
  pub flushes : IsPositive c.buffer_flush_interval
  pub has_agent : is_empty c.local_agent_host_port ≡ false

pub positive_or :
    (z default : ℤ)
    → is_positive default ≡ true
    → is_positive (if is_positive z then z else default) ≡ true
positive_or z default d = elim (Bool-cases (is_positive z)) [ inl e ↦ rw e e | inr e ↦ rw e d ]

pub filled_or :
    (s default : Bytes)
    → is_empty default ≡ false
    → is_empty (if is_empty s then default else s) ≡ false
filled_or [] default d = d
filled_or (ch ∷ s) default d = refl

reporter_config-IsUsableReporter :
    (queue interval : ℤ) (log : Bool) (host endpoint : Bytes)
    → IsUsableReporter (reporter_config queue interval log host endpoint)
unfolding reporter_config
reporter_config-IsUsableReporter queue interval log host endpoint = record {
  has_queue = positive_or queue (pos 100) refl;
  flushes = positive_or interval default_flush_interval refl;
  has_agent = filled_or host (codes "127.0.0.1:6831") refl;
}

reporter_of_map-IsUsableReporter :
    {N : Type 0} (y : Yaml N) (node : N) → Always IsUsableReporter (reporter_of_map y node)
unfolding reporter_of_map
reporter_of_map-IsUsableReporter y node = Always-step IsUsableReporter _ _ λ queue.
    Always-step IsUsableReporter _ _ λ interval. Always-step IsUsableReporter _ _ λ log.
      Always-step IsUsableReporter _ _ λ host. Always-step IsUsableReporter _ _ λ endpoint.
        reporter_config-IsUsableReporter queue (scaled 1000000000 interval) log host endpoint

pub default_reporter-IsUsableReporter : IsUsableReporter default_reporter
unfolding default_reporter
default_reporter-IsUsableReporter =
    reporter_config-IsUsableReporter (pos 100) default_flush_interval false (codes "127.0.0.1:6831")
      []

pub parse_reporter-IsUsableReporter :
    {N : Type 0} (y : Yaml N) (node : Option N) → Always IsUsableReporter (parse_reporter y node)
unfolding parse_reporter
parse_reporter-IsUsableReporter y node = elim (Option-cases (defined_map y node)) [
  | inl e ↦ rw (e, parse_reporter) default_reporter-IsUsableReporter
  | inr (found, e) ↦ rw (e, parse_reporter) (reporter_of_map-IsUsableReporter y found)
]

is_empty-snoc : (s : Bytes) (ch : ℕ) (t : Bytes) → is_empty (s ++ ch ∷ t) ≡ false
is_empty-snoc [] ch t = refl
is_empty-snoc (c ∷ s) ch t = refl

with_agent :
    (c : ReporterConfig) (host : Bytes)
    → is_empty host ≡ false
    → IsUsableReporter c
    → IsUsableReporter (record c { local_agent_host_port = host })
with_agent c host f h = record { has_queue = h.has_queue; flushes = h.flushes; has_agent = f }

set_agent_host-IsUsableReporter :
    (agent : Bytes) (c : ReporterConfig)
    → IsUsableReporter c
    → IsUsableReporter (set_agent_host agent c)
unfolding set_agent_host
set_agent_host-IsUsableReporter [] c h = h
set_agent_host-IsUsableReporter (ch ∷ agent) c h = with_agent c _ refl h

set_agent_port-IsUsableReporter :
    (port : Bytes) (c : ReporterConfig)
    → IsUsableReporter c
    → IsUsableReporter (set_agent_port port c)
unfolding set_agent_port
set_agent_port-IsUsableReporter [] c h = h
set_agent_port-IsUsableReporter (ch ∷ port) c h = elim (Bool-cases (scan_int (ch ∷ port)).0) [
  | inl e ↦
      rw (e, set_agent_port)
        (with_agent c _ (is_empty-snoc (parse_address c.local_agent_host_port).0 b':' _) h)
  | inr e ↦ rw (e, set_agent_port) h
]

set_endpoint-IsUsableReporter :
    (endpoint : Bytes) (c : ReporterConfig)
    → IsUsableReporter c
    → IsUsableReporter (set_endpoint endpoint c)
unfolding set_endpoint
set_endpoint-IsUsableReporter [] c h = h
set_endpoint-IsUsableReporter (ch ∷ endpoint) c h = record {
  has_queue = h.has_queue;
  flushes = h.flushes;
  has_agent = h.has_agent;
}

set_log_spans-IsUsableReporter :
    (given : Bool × Bool) (c : ReporterConfig)
    → IsUsableReporter c
    → IsUsableReporter (set_log_spans given c)
unfolding set_log_spans
set_log_spans-IsUsableReporter (true, value) c h = record {
  has_queue = h.has_queue;
  flushes = h.flushes;
  has_agent = h.has_agent;
}
set_log_spans-IsUsableReporter (false, value) c h = h

IsPositive-pos : (n : ℕ) → 0 < n → IsPositive (pos n)
IsPositive-pos zero h = absurd (ground (arith, h))
IsPositive-pos (suc n) h = refl

milliseconds-IsPositive : (z : ℤ) → IsPositive z → IsPositive (scaled 1000000 z)
unfolding scaled
milliseconds-IsPositive (pos zero) h = absurd (false≢true h)
milliseconds-IsPositive (pos (suc n)) h = IsPositive-pos (suc n * 1000000) (omega arith)
milliseconds-IsPositive (negsuc n) h = h

set_flush_interval-IsUsableReporter :
    (given : Bool × ℤ) (c : ReporterConfig)
    → IsUsableReporter c
    → IsUsableReporter (set_flush_interval given c)
unfolding set_flush_interval
set_flush_interval-IsUsableReporter (true, value) c h = h
set_flush_interval-IsUsableReporter (false, value) c h = elim (Bool-cases (is_positive value)) [
  | inl e ↦
      rw (e, set_flush_interval)
        (record {
          has_queue = h.has_queue;
          flushes = milliseconds-IsPositive value e;
          has_agent = h.has_agent;
        })
  | inr e ↦ rw (e, set_flush_interval) h
]

set_queue_size-IsUsableReporter :
    (given : Bool × ℤ) (c : ReporterConfig)
    → IsUsableReporter c
    → IsUsableReporter (set_queue_size given c)
unfolding set_queue_size
set_queue_size-IsUsableReporter (true, value) c h = h
set_queue_size-IsUsableReporter (false, value) c h = elim (Bool-cases (is_positive value)) [
  | inl e ↦
      rw (e, set_queue_size)
        (record { has_queue = e; flushes = h.flushes; has_agent = h.has_agent })
  | inr e ↦ rw (e, set_queue_size) h
]

pub reporter_from_env-IsUsableReporter :
    (env : Environment) (c : ReporterConfig)
    → IsUsableReporter c
    → IsUsableReporter (reporter_from_env env c)
unfolding reporter_from_env
reporter_from_env-IsUsableReporter env c h =
    let host = string_variable env (codes "JAEGER_AGENT_HOST") in
    let port = string_variable env (codes "JAEGER_AGENT_PORT") in
    let endpoint = string_variable env (codes "JAEGER_ENDPOINT") in
    let log = bool_variable env (codes "JAEGER_REPORTER_LOG_SPANS") in
    let interval = int_variable env (codes "JAEGER_REPORTER_FLUSH_INTERVAL") in
    let h1 = set_agent_host-IsUsableReporter host c h in
    let h2 = set_agent_port-IsUsableReporter port (set_agent_host host c) h1 in
    let h3 =
      set_endpoint-IsUsableReporter endpoint (set_agent_port port (set_agent_host host c)) h2 in
    let c3 = set_endpoint endpoint (set_agent_port port (set_agent_host host c)) in
    let h4 = set_log_spans-IsUsableReporter log c3 h3 in
    let h5 = set_flush_interval-IsUsableReporter interval (set_log_spans log c3) h4 in
    set_queue_size-IsUsableReporter (int_variable env (codes "JAEGER_REPORTER_MAX_QUEUE_SIZE"))
      (set_flush_interval interval (set_log_spans log c3)) h5

-- The names of the headers.
pub record IsUsableHeaders (c : HeadersConfig) : Type 0 where
  pub has_debug : is_empty c.jaeger_debug_header ≡ false
  pub has_baggage : is_empty c.jaeger_baggage_header ≡ false
  pub has_context : is_empty c.trace_context_header_name ≡ false
  pub has_prefix : is_empty c.trace_baggage_header_prefix ≡ false

pub headers_config-IsUsableHeaders :
    (debug baggage context prefix : Bytes)
    → IsUsableHeaders (headers_config debug baggage context prefix)
unfolding headers_config or_default
headers_config-IsUsableHeaders debug baggage context prefix = record {
  has_debug = filled_or debug (codes "jaeger-debug-id") refl;
  has_baggage = filled_or baggage (codes "jaeger-baggage") refl;
  has_context = filled_or context (codes "uber-trace-id") refl;
  has_prefix = filled_or prefix (codes "uberctx-") refl;
}

headers_of_map-IsUsableHeaders :
    {N : Type 0} (y : Yaml N) (node : N) → Always IsUsableHeaders (headers_of_map y node)
unfolding headers_of_map
headers_of_map-IsUsableHeaders y node = Always-step IsUsableHeaders _ _ λ debug.
    Always-step IsUsableHeaders _ _ λ baggage. Always-step IsUsableHeaders _ _ λ context.
      Always-step IsUsableHeaders _ _
        λ prefix. headers_config-IsUsableHeaders debug baggage context prefix

pub parse_headers-IsUsableHeaders :
    {N : Type 0} (y : Yaml N) (node : Option N) → Always IsUsableHeaders (parse_headers y node)
unfolding parse_headers
parse_headers-IsUsableHeaders y node = elim (Option-cases (defined_map y node)) [
  | inl e ↦ rw (e, parse_headers) (headers_config-IsUsableHeaders [] [] [] [])
  | inr (found, e) ↦ rw (e, parse_headers) (headers_of_map-IsUsableHeaders y found)
]
