-- ===== src/Config/Usable.antt =====
-- Whatever a configuration is made of, it can be used.
use jaeger_client_cpp.Base.{
  ◌≡◌, refl, sym, ap, ◌∙◌, subst, Bool, true, false, Option, none, some, [], ◌∷◌, Bytes, codes,
  if◌then◌else◌, is_empty, ℤ, pos, Always, Always-bind, Always-step, Bool-cases, Option-cases, inl,
  inr,
}
use jaeger_client_cpp.Uri.Parts.{is_zero}
use jaeger_client_cpp.Samplers.{Arithmetic}
use jaeger_client_cpp.Config.Sources.{
  Environment, string_variable, bool_variable, Yaml, defined_map, scaled, is_positive, IsPositive,
}
use jaeger_client_cpp.Config.UsableParts.{
  IsUsableReporter, positive_or, filled_or, parse_reporter-IsUsableReporter,
  default_reporter-IsUsableReporter, reporter_from_env-IsUsableReporter, IsUsableHeaders,
  headers_config-IsUsableHeaders, parse_headers-IsUsableHeaders,
}
use jaeger_client_cpp.Config.Sampler.{
  SamplerConfig, default_url, default_refresh_interval, sampler_config, default_sampler,
  sampler_of_map, parse_sampler, set_type, set_param, set_url, sampler_from_env,
}
use jaeger_client_cpp.Config.{
  Config, set_disabled, set_128_bit, set_format, set_service_name, add_tags, default_config,
  from_env, config_of_map, parse,
}

module _ {D : Type 0} (a : Arithmetic D) (default_probability : D) where
  pub record IsUsableSampler (c : SamplerConfig D) : Type 0 where
    pub has_type : is_empty c.type_name ≡ false
    pub has_url : is_empty c.sampling_server_url ≡ false
    pub has_bound : is_zero c.max_operations ≡ false
    pub refreshes : IsPositive c.sampling_refresh_interval

  nonzero_or :
      (z default : ℤ) → is_zero default ≡ false → is_zero (if is_zero z then default else z) ≡ false
  nonzero_or z default d = elim (Bool-cases (is_zero z)) [ inl e ↦ rw e d | inr e ↦ rw e e ]

  sampler_config-IsUsableSampler :
      (type_name : Bytes) (param : D) (url : Bytes) (max_operations interval : ℤ)
      → IsUsableSampler
          (sampler_config a default_probability type_name param url max_operations interval)
  unfolding sampler_config
  sampler_config-IsUsableSampler type_name param url max_operations interval = record {
    has_type = filled_or type_name (codes "remote") refl;
    has_url = filled_or url default_url refl;
    has_bound = nonzero_or max_operations (pos 2000) refl;
    refreshes = positive_or interval default_refresh_interval refl;
  }

  default_sampler-IsUsableSampler : IsUsableSampler (default_sampler a default_probability)
  unfolding default_sampler
  default_sampler-IsUsableSampler =
      sampler_config-IsUsableSampler (codes "remote") default_probability default_url (pos 2000)
        default_refresh_interval

  sampler_of_map-IsUsableSampler :
      {N : Type 0} (y : Yaml N) (as_double : N → Option D) (node : N)
      → Always IsUsableSampler (sampler_of_map a default_probability y as_double node)
  unfolding sampler_of_map
  sampler_of_map-IsUsableSampler y as_double node = Always-step IsUsableSampler _ _ λ type_name.
      Always-step IsUsableSampler _ _ λ param. Always-step IsUsableSampler _ _ λ url.
        Always-step IsUsableSampler _ _ λ bound. Always-step IsUsableSampler _ _ λ interval.
          sampler_config-IsUsableSampler type_name param url bound (scaled 1000000000 interval)

  parse_sampler-IsUsableSampler :
      {N : Type 0} (y : Yaml N) (as_double : N → Option D) (node : Option N)
      → Always IsUsableSampler (parse_sampler a default_probability y as_double node)
  unfolding parse_sampler
  parse_sampler-IsUsableSampler y as_double node = elim (Option-cases (defined_map y node)) [
    | inl e ↦ rw (e, parse_sampler) default_sampler-IsUsableSampler
    | inr (found, e) ↦ rw (e, parse_sampler) (sampler_of_map-IsUsableSampler y as_double found)
  ]

  with_sampler :
      (c d : SamplerConfig D)
      → is_empty d.type_name ≡ false
      → is_empty d.sampling_server_url ≡ false
      → d.max_operations ≡ c.max_operations
      → d.sampling_refresh_interval ≡ c.sampling_refresh_interval
      → IsUsableSampler c
      → IsUsableSampler d
  with_sampler c d t u m i h = record {
    has_type = t;
    has_url = u;
    has_bound = ap is_zero m ∙ h.has_bound;
    refreshes = ap is_positive i ∙ h.refreshes;
  }

  set_type-IsUsableSampler :
      (name : Bytes) (c : SamplerConfig D)
      → IsUsableSampler c
      → IsUsableSampler (set_type a default_probability name c)
  unfolding set_type
  set_type-IsUsableSampler [] c h = h
  set_type-IsUsableSampler (ch ∷ name) c h = with_sampler c _ refl h.has_url refl refl h

  set_param-IsUsableSampler :
      (scanned : Option D) (param : Bytes) (c : SamplerConfig D)
      → IsUsableSampler c
      → IsUsableSampler (set_param a default_probability scanned param c)
  unfolding set_param
  set_param-IsUsableSampler scanned [] c h = h
  set_param-IsUsableSampler none (ch ∷ param) c h = h
  set_param-IsUsableSampler (some value) (ch ∷ param) c h =
      with_sampler c _ h.has_type h.has_url refl refl h

  set_url-IsUsableSampler :
      (url : Bytes) (c : SamplerConfig D)
      → IsUsableSampler c
      → IsUsableSampler (set_url a default_probability url c)
  unfolding set_url
  set_url-IsUsableSampler [] c h = h
  set_url-IsUsableSampler (ch ∷ url) c h = with_sampler c _ h.has_type refl refl refl h

  sampler_from_env-IsUsableSampler :
      (scan_double : Bytes → Option D) (env : Environment) (c : SamplerConfig D)
      → IsUsableSampler c
      → IsUsableSampler (sampler_from_env a default_probability scan_double env c)
  unfolding sampler_from_env
  sampler_from_env-IsUsableSampler scan_double env c h =
      let name = string_variable env (codes "JAEGER_SAMPLER_TYPE") in
      let param = string_variable env (codes "JAEGER_SAMPLER_PARAM") in
      let c1 = set_type a default_probability name c in
      let c2 = set_param a default_probability (scan_double param) param c1 in
      set_url-IsUsableSampler (string_variable env (codes "JAEGER_SAMPLING_ENDPOINT")) c2
        (set_param-IsUsableSampler (scan_double param) param c1 (set_type-IsUsableSampler name c h))

  -- What the parts of the client rely on.
  pub record IsUsable (c : Config D) : Type 0 where
    pub usable_sampler : IsUsableSampler c.sampler
    pub usable_reporter : IsUsableReporter c.reporter
    pub usable_headers : IsUsableHeaders c.headers

  default_config-IsUsable : IsUsable (default_config a default_probability)
  unfolding default_config
  default_config-IsUsable = record {
    usable_sampler = default_sampler-IsUsableSampler;
    usable_reporter = default_reporter-IsUsableReporter;
    usable_headers = headers_config-IsUsableHeaders [] [] [] [];
  }

  config_of_map-IsUsable :
      {N : Type 0} (y : Yaml N) (as_double : N → Option D) (node : N)
      → Always IsUsable (config_of_map a default_probability y as_double node)
  unfolding config_of_map
  config_of_map-IsUsable y as_double node = Always-step IsUsable _ _ λ service_name.
      Always-step IsUsable _ _ λ disabled. Always-step IsUsable _ _ λ wide.
        Always-step IsUsable _ _ λ format.
          Always-bind IsUsableSampler IsUsable _ _ (parse_sampler-IsUsableSampler y as_double _)
            λ sampler s.
              Always-bind IsUsableReporter IsUsable _ _ (parse_reporter-IsUsableReporter y _)
                λ reporter r.
                  Always-bind IsUsableHeaders IsUsable _ _ (parse_headers-IsUsableHeaders y _)
                    λ headers h. Always-step IsUsable _ _ λ restrictions.
                      Always-step IsUsable _ _ λ tags. record {
                        usable_sampler = s;
                        usable_reporter = r;
                        usable_headers = h;
                      }

  parse-IsUsable :
      {N : Type 0} (y : Yaml N) (as_double : N → Option D) (node : Option N)
      → Always IsUsable (parse a default_probability y as_double node)
  unfolding parse
  parse-IsUsable y as_double node = elim (Option-cases (defined_map y node)) [
    | inl e ↦ rw (e, parse) default_config-IsUsable
    | inr (found, e) ↦ rw (e, parse) (config_of_map-IsUsable y as_double found)
  ]

  kept :
      (c d : Config D)
      → d.sampler ≡ c.sampler
      → d.reporter ≡ c.reporter
      → d.headers ≡ c.headers
      → IsUsable c
      → IsUsable d
  kept c d s r n h = record {
    usable_sampler = subst IsUsableSampler (sym s) h.usable_sampler;
    usable_reporter = subst IsUsableReporter (sym r) h.usable_reporter;
    usable_headers = subst IsUsableHeaders (sym n) h.usable_headers;
  }

  set_disabled-IsUsable :
      (given : Bool × Bool) (c : Config D) → IsUsable c → IsUsable (set_disabled given c)
  unfolding set_disabled
  set_disabled-IsUsable (true, value) c h = kept c _ refl refl refl h
  set_disabled-IsUsable (false, value) c h = h

  set_128_bit-IsUsable :
      (given : Bool × Bool) (c : Config D) → IsUsable c → IsUsable (set_128_bit given c)
  unfolding set_128_bit
  set_128_bit-IsUsable (true, value) c h = kept c _ refl refl refl h
  set_128_bit-IsUsable (false, value) c h = h

  set_format-IsUsable :
      (format : Bytes) (c : Config D) → IsUsable c → IsUsable (set_format format c)
  unfolding set_format
  set_format-IsUsable [] c h = h
  set_format-IsUsable (ch ∷ format) c h = kept c _ refl refl refl h

  set_service_name-IsUsable :
      (name : Bytes) (c : Config D) → IsUsable c → IsUsable (set_service_name name c)
  unfolding set_service_name
  set_service_name-IsUsable [] c h = h
  set_service_name-IsUsable (ch ∷ name) c h = kept c _ refl refl refl h

  add_tags-IsUsable : (tags : Bytes) (c : Config D) → IsUsable c → IsUsable (add_tags tags c)
  unfolding add_tags
  add_tags-IsUsable [] c h = h
  add_tags-IsUsable (ch ∷ tags) c h = kept c _ refl refl refl h

  from_env-IsUsable :
      (scan_double : Bytes → Option D) (env : Environment) (c : Config D)
      → IsUsable c
      → IsUsable (from_env a default_probability scan_double env c)
  unfolding from_env
  from_env-IsUsable scan_double env c h =
      let disabled = bool_variable env (codes "JAEGER_DISABLED") in
      let wide = bool_variable env (codes "JAEGER_TRACEID_128BIT") in
      let format = string_variable env (codes "JAEGER_PROPAGATION") in
      let name = string_variable env (codes "JAEGER_SERVICE_NAME") in
      let tags = string_variable env (codes "JAEGER_TAGS") in
      let c2 = set_128_bit wide (set_disabled disabled c) in
      let h2 = set_128_bit-IsUsable wide _ (set_disabled-IsUsable disabled c h) in
      let c4 = set_service_name name (set_format format c2) in
      let h4 = set_service_name-IsUsable name _ (set_format-IsUsable format c2 h2) in
      let h5 = add_tags-IsUsable tags c4 h4 in
      record {
        usable_sampler =
            sampler_from_env-IsUsableSampler scan_double env (add_tags tags c4).sampler
              h5.usable_sampler;
        usable_reporter =
            reporter_from_env-IsUsableReporter env (add_tags tags c4).reporter h5.usable_reporter;
        usable_headers = h5.usable_headers;
      }

  -- Whatever the configuration file says and whatever the environment holds, a configuration that is
  -- read can be used: the queue, the flush interval and the refresh interval are positive, the bound on
  -- operations is not zero, and the address of the agent, the sampler's type and server and the names
  -- of the headers are not empty. A file that is no map counts as an empty one.
  pub from_env-parse :
      {N : Type 0} (y : Yaml N) (as_double : N → Option D) (node : Option N)
      (scan_double : Bytes → Option D) (env : Environment) (c : Config D)
      → parse a default_probability y as_double node ≡ some c
      → IsUsable (from_env a default_probability scan_double env c)
  from_env-parse y as_double node scan_double env c e =
      from_env-IsUsable scan_double env c
        (subst (Always IsUsable) e (parse-IsUsable y as_double node))
