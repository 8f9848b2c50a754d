-- ===== src/Config.antt =====
-- Config.h and Config.cpp, baggage/RestrictionsConfig.h and `parse` of propagation/HeadersConfig.h.
mod Tests
pub mod Sources
pub mod Reporter
pub mod Sampler
pub mod UsableParts
pub mod Usable
pub mod Tags
pub mod Making
use jaeger_client_cpp.Base.{
  ℕ, ◌+◌, ◌*◌, Bool, true, false, not, Option, none, some, List, [], ◌∷◌, ◌++◌, map, Bytes, codes,
  bytes_eq, if◌then◌else◌, is_empty, ℤ, pos, ◌>>=◌, ◌==◌,
}
use jaeger_client_cpp.Tag.{Tag, Value, text}
use jaeger_client_cpp.Propagation.Carrier.{HeadersConfig, headers_config}
use jaeger_client_cpp.Samplers.{Arithmetic}
use jaeger_client_cpp.Config.Sources.{
  Environment, string_variable, bool_variable, Yaml, find_or_default, defined_map, scaled,
}
use jaeger_client_cpp.Config.Reporter.{
  ReporterConfig, default_reporter, parse_reporter, reporter_from_env,
}
use jaeger_client_cpp.Config.Sampler.{
  SamplerConfig, default_sampler, parse_sampler, sampler_from_env,
}

pub record RestrictionsConfig : Type 0 where
  pub deny_baggage_on_initialization_failure : Bool
  pub host_port : Bytes
  pub refresh_interval : ℤ

abbrev pub default_restrictions : RestrictionsConfig
default_restrictions = record {
  deny_baggage_on_initialization_failure = false;
  host_port = [];
  refresh_interval = pos 0;
}

unfoldable pub restrictions_of_map : {N : Type 0} → Yaml N → N → Option RestrictionsConfig
unfolding find_or_default scaled
restrictions_of_map y node = do
  deny ← find_or_default y y.as_bool node (codes "denyBaggageOnInitializationFailure") false
  host_port ← find_or_default y y.as_string node (codes "hostPort") []
  interval ← find_or_default y y.as_int node (codes "refreshInterval") (pos 0)
  some (record {
    deny_baggage_on_initialization_failure = deny;
    host_port = host_port;
    refresh_interval = scaled 1000000000 interval;
  })

unfoldable pub parse_restrictions : {N : Type 0} → Yaml N → Option N → Option RestrictionsConfig
unfolding restrictions_of_map defined_map
parse_restrictions y node = elim (defined_map y node) [
  | none ↦ some default_restrictions
  | some found ↦ restrictions_of_map y found
]

unfoldable pub headers_of_map : {N : Type 0} → Yaml N → N → Option HeadersConfig
unfolding find_or_default headers_config
headers_of_map y node = do
  debug ← find_or_default y y.as_string node (codes "jaegerDebugHeader") []
  baggage ← find_or_default y y.as_string node (codes "jaegerBaggageHeader") []
  context ← find_or_default y y.as_string node (codes "TraceContextHeaderName") []
  prefix ← find_or_default y y.as_string node (codes "traceBaggageHeaderPrefix") []
  some (headers_config debug baggage context prefix)

unfoldable pub parse_headers : {N : Type 0} → Yaml N → Option N → Option HeadersConfig
unfolding headers_of_map headers_config defined_map
parse_headers y node = elim (defined_map y node) [
  | none ↦ some (headers_config [] [] [] [])
  | some found ↦ headers_of_map y found
]

pub data Format : Type 0 where
  jaeger w3c : Format

-- `parsePropagationFormat`, which warns of an unknown format.
unfoldable pub parse_propagation_format : Bytes → Format
parse_propagation_format format = if bytes_eq format (codes "w3c") then w3c else jaeger

-- `std::getline` with a delimiter, of a stream that is `none` when it is no longer good: whether it
-- succeeds, the string it leaves and the stream. A string is cleared only if the stream is good.
unfoldable pub line_until : ℕ → Bytes → Bytes → Bool × Bytes × Option Bytes
line_until delimiter line [] = (not (is_empty line), line, none)
line_until delimiter line (ch ∷ stream) =
    let rest = line_until delimiter (line ++ ch ∷ []) stream in
    if ch == delimiter then (true, line, some stream) else rest

unfoldable pub get_line : ℕ → Option Bytes → Bytes → Bool × Bytes × Option Bytes
unfolding line_until
get_line delimiter none old = (false, old, none)
get_line delimiter (some stream) old = line_until delimiter [] stream

-- The tag of a piece of the variable, if it has one.
unfoldable pub read_tag : Bytes → List Tag
unfolding get_line
read_tag piece =
    let (good, tag_key, stream) = get_line b'=' (some piece) [] in
    let (found, first_value, stream') = get_line b'=' stream [] in
    let (more, tag_value, stream'') = get_line b'=' stream' first_value in
    if good
    then (if more then [] else record { key = tag_key; value = text tag_value } ∷ [])
    else []

-- The loop on the pieces up to the commas, from a piece that is begun; an empty last one is not read.
unfoldable pub read_tags : Bytes → Bytes → List Tag
unfolding read_tag
read_tags piece [] = if is_empty piece then [] else read_tag piece
read_tags piece (ch ∷ tags) =
    let next = read_tag piece ++ read_tags [] tags in
    let rest = read_tags (piece ++ ch ∷ []) tags in if ch == b',' then next else rest

pub record Config (D : Type 0) : Type 0 where
  pub disabled : Bool
  pub trace_id_128_bit : Bool
  pub propagation_format : Format
  pub service_name : Bytes
  pub tags : List Tag
  pub sampler : SamplerConfig D
  pub reporter : ReporterConfig
  pub headers : HeadersConfig
  pub baggage_restrictions : RestrictionsConfig

-- The first variables of `fromEnv`.
unfoldable pub set_disabled : {D : Type 0} → Bool × Bool → Config D → Config D
set_disabled (given, value) c = if given then record c { disabled = value } else c

unfoldable pub set_128_bit : {D : Type 0} → Bool × Bool → Config D → Config D
set_128_bit (given, value) c = if given then record c { trace_id_128_bit = value } else c

unfoldable pub set_format : {D : Type 0} → Bytes → Config D → Config D
unfolding parse_propagation_format
set_format format c =
    if is_empty format then c else record c { propagation_format = parse_propagation_format format }

unfoldable pub set_service_name : {D : Type 0} → Bytes → Config D → Config D
set_service_name name c = if is_empty name then c else record c { service_name = name }

unfoldable pub add_tags : {D : Type 0} → Bytes → Config D → Config D
unfolding read_tags
add_tags variable c =
    if is_empty variable then c else record c { tags = c.tags ++ read_tags [] variable }

module _ {D : Type 0} (a : Arithmetic D) (default_probability : D) where
  -- `Config()`
  unfoldable pub default_config : Config D
  unfolding default_sampler default_reporter headers_config
  default_config = record {
    disabled = false;
    trace_id_128_bit = false;
    propagation_format = jaeger;
    service_name = [];
    tags = [];
    sampler = default_sampler a default_probability;
    reporter = default_reporter;
    headers = headers_config [] [] [] [];
    baggage_restrictions = default_restrictions;
  }

  unfoldable pub from_env : (Bytes → Option D) → Environment → Config D → Config D
  unfolding set_disabled set_128_bit set_format set_service_name add_tags sampler_from_env
      reporter_from_env string_variable bool_variable
  from_env scan_double env c =
      let c1 = set_disabled (bool_variable env (codes "JAEGER_DISABLED")) c in
      let c2 = set_128_bit (bool_variable env (codes "JAEGER_TRACEID_128BIT")) c1 in
      let c3 = set_format (string_variable env (codes "JAEGER_PROPAGATION")) c2 in
      let c4 = set_service_name (string_variable env (codes "JAEGER_SERVICE_NAME")) c3 in
      let c5 = add_tags (string_variable env (codes "JAEGER_TAGS")) c4 in
      record c5 {
        reporter = reporter_from_env env c5.reporter;
        sampler = sampler_from_env a default_probability scan_double env c5.sampler;
      }

  -- The tags of a map, in its order.
  unfoldable pub tags_of_pairs : {N : Type 0} → Yaml N → List (N × N) → Option (List Tag)
  tags_of_pairs y [] = some []
  tags_of_pairs y ((k, v) ∷ pairs) = do
    tag_key ← y.as_string k
    tag_value ← y.as_string v
    tags ← tags_of_pairs y pairs
    some (record { key = tag_key; value = text tag_value } ∷ tags)

  unfoldable pub tags_of_node : {N : Type 0} → Yaml N → Option N → Option (List Tag)
  unfolding tags_of_pairs
  tags_of_node y none = some []
  tags_of_node y (some node) = tags_of_pairs y (y.as_pairs node)

  unfoldable pub config_of_map : {N : Type 0} → Yaml N → (N → Option D) → N → Option (Config D)
  unfolding find_or_default parse_propagation_format parse_sampler parse_reporter parse_headers
      parse_restrictions tags_of_node
  config_of_map y as_double node = do
    service_name ← find_or_default y y.as_string node (codes "service_name") []
    disabled ← find_or_default y y.as_bool node (codes "disabled") false
    wide ← find_or_default y y.as_bool node (codes "traceid_128bit") false
    format ← find_or_default y y.as_string node (codes "propagation_format") (codes "jaeger")
    sampler ← parse_sampler a default_probability y as_double (y.find node (codes "sampler"))
    reporter ← parse_reporter y (y.find node (codes "reporter"))
    headers ← parse_headers y (y.find node (codes "headers"))
    restrictions ← parse_restrictions y (y.find node (codes "baggage_restrictions"))
    tags ← tags_of_node y (y.find node (codes "tags"))
    some (record {
      disabled = disabled;
      trace_id_128_bit = wide;
      propagation_format = parse_propagation_format format;
      service_name = service_name;
      tags = tags;
      sampler = sampler;
      reporter = reporter;
      headers = headers;
      baggage_restrictions = restrictions;
    })

  unfoldable pub parse : {N : Type 0} → Yaml N → (N → Option D) → Option N → Option (Config D)
  unfolding config_of_map default_config defined_map
  parse y as_double node = elim (defined_map y node) [
    | none ↦ some default_config
    | some found ↦ config_of_map y as_double found
  ]
