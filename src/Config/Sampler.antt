-- ===== src/Config/Sampler.antt =====
-- samplers/Config.h and samplers/Config.cpp. Reading a `double` from a stream is a parameter, and so is
-- the default probability of 0.001.
use jaeger_client_cpp.Base.{
  ℕ, ◌*◌, Bool, not, ◌&&◌, ◌||◌, Option, none, some, [], Bytes, codes, bytes_eq, if◌then◌else◌,
  is_empty, ℤ, pos, negsuc, ◌>>=◌,
}
use jaeger_client_cpp.Uri.Parts.{is_zero}
use jaeger_client_cpp.Config.Sources.{
  Environment, string_variable, lower_case, Yaml, find_or_default, defined_map, scaled, is_positive,
}
use jaeger_client_cpp.Samplers.{Arithmetic, new_probabilistic, new_rate_limiting}
use jaeger_client_cpp.Samplers.Remote.{
  AnySampler, const_sampler, probabilistic_sampler, rate_limiting_sampler, Remote, new_remote,
  Manager, new_manager,
}

pub record SamplerConfig (D : Type 0) : Type 0 where
  pub type_name : Bytes
  pub param : D
  pub sampling_server_url : Bytes
  pub max_operations : ℤ
  pub sampling_refresh_interval : ℤ

abbrev pub default_url : Bytes
default_url = codes "http://127.0.0.1:5778/sampling"

abbrev pub default_refresh_interval : ℤ
default_refresh_interval = pos (60 * 1000000000)

-- What `makeSampler` returns, a null pointer included, or that it throws.
pub data MadeSampler (D : Type 0) : Type 0 where
  made : AnySampler D → MadeSampler D
  made_remote : Remote D → Manager → ℤ → MadeSampler D
  no_sampler : MadeSampler D
  invalid_argument : MadeSampler D

module _ {D : Type 0} (a : Arithmetic D) (default_probability : D) where
  unfoldable pub sampler_config : Bytes → D → Bytes → ℤ → ℤ → SamplerConfig D
  sampler_config type_name param url max_operations interval = record {
    type_name = if is_empty type_name then codes "remote" else type_name;
    param = if a.eq param (a.of_int (negsuc 0)) then default_probability else param;
    sampling_server_url = if is_empty url then default_url else url;
    max_operations = if is_zero max_operations then pos 2000 else max_operations;
    sampling_refresh_interval = if is_positive interval then interval else default_refresh_interval;
  }

  -- The default arguments.
  unfoldable pub default_sampler : SamplerConfig D
  unfolding sampler_config
  default_sampler =
      sampler_config (codes "remote") default_probability default_url (pos 2000)
        default_refresh_interval

  -- `parse` of the keys of a map; `as_double` converts a node.
  unfoldable pub sampler_of_map :
      {N : Type 0} → Yaml N → (N → Option D) → N → Option (SamplerConfig D)
  unfolding find_or_default sampler_config scaled
  sampler_of_map y as_double node = do
    type_name ← find_or_default y y.as_string node (codes "type") []
    param ← find_or_default y as_double node (codes "param") (a.of_int (negsuc 0))
    url ← find_or_default y y.as_string node (codes "samplingServerURL") []
    max_operations ← find_or_default y y.as_int node (codes "maxOperations") (pos 0)
    interval ← find_or_default y y.as_int node (codes "samplingRefreshInterval") (pos 0)
    some (sampler_config type_name param url max_operations (scaled 1000000000 interval))

  unfoldable pub parse_sampler :
      {N : Type 0} → Yaml N → (N → Option D) → Option N → Option (SamplerConfig D)
  unfolding sampler_of_map default_sampler defined_map
  parse_sampler y as_double node = elim (defined_map y node) [
    | none ↦ some default_sampler
    | some found ↦ sampler_of_map y as_double found
  ]

  unfoldable pub set_type : Bytes → SamplerConfig D → SamplerConfig D
  set_type type_name c = if is_empty type_name then c else record c { type_name = type_name }

  unfoldable pub set_param : Option D → Bytes → SamplerConfig D → SamplerConfig D
  set_param scanned param c =
      if is_empty param
      then c
      else elim scanned [ none ↦ c | some value ↦ record c { param = value } ]

  unfoldable pub set_url : Bytes → SamplerConfig D → SamplerConfig D
  set_url url c = if is_empty url then c else record c { sampling_server_url = url }

  -- `fromEnv`; `scan_double` is `>>` of a `double`.
  unfoldable pub sampler_from_env :
      (Bytes → Option D) → Environment → SamplerConfig D → SamplerConfig D
  unfolding set_type set_param set_url string_variable
  sampler_from_env scan_double env c =
      let c1 = set_type (string_variable env (codes "JAEGER_SAMPLER_TYPE")) c in
      let param = string_variable env (codes "JAEGER_SAMPLER_PARAM") in
      let c2 = set_param (scan_double param) param c1 in
      set_url (string_variable env (codes "JAEGER_SAMPLING_ENDPOINT")) c2

  unfoldable pub in_unit : D → Bool
  in_unit param = a.le a.zero_value param && a.le param a.one_value

  -- The branch of `makeSampler` for a probabilistic sampler.
  unfoldable pub make_probabilistic : D → MadeSampler D
  unfolding in_unit new_probabilistic
  make_probabilistic param =
      if in_unit param
      then made (probabilistic_sampler (new_probabilistic a param))
      else invalid_argument

  -- The branch for a remotely controlled sampler, by its first sampler.
  unfoldable pub make_remote : (Bytes → Bool) → SamplerConfig D → MadeSampler D → MadeSampler D
  unfolding new_manager
  make_remote connect c (made first) =
      made_remote (new_remote first c.max_operations) (new_manager connect c.sampling_server_url)
        c.sampling_refresh_interval
  make_remote connect c (made_remote r manager interval) = no_sampler
  make_remote connect c no_sampler = no_sampler
  make_remote connect c invalid_argument = invalid_argument

  -- `makeSampler`, by the type in small letters; its call of itself is for a probabilistic sampler.
  unfoldable pub make_by_type : (Bytes → Bool) → ℕ → Bytes → SamplerConfig D → MadeSampler D
  unfolding make_probabilistic make_remote new_rate_limiting
  make_by_type connect now sampler_type c =
      if bytes_eq sampler_type (codes "const")
      then made (const_sampler (not (a.eq c.param a.zero_value)))
      else if bytes_eq sampler_type (codes "probabilistic")
      then make_probabilistic c.param
      else if bytes_eq sampler_type (codes "ratelimiting")
      then made (rate_limiting_sampler (new_rate_limiting a c.param now))
      else if bytes_eq sampler_type (codes "remote") || is_empty sampler_type
      then make_remote connect c (make_probabilistic c.param)
      else no_sampler

  -- `connect` tells whether the manager can connect to a server.
  unfoldable pub make_sampler : (Bytes → Bool) → ℕ → SamplerConfig D → MadeSampler D
  unfolding lower_case make_by_type
  make_sampler connect now c = make_by_type connect now (lower_case c.type_name) c
