-- ===== src/Tracer/Factory.antt =====
-- `TracerFactory::MakeTracer` of TracerFactory.cpp, as it is built with YAML support. `load` is
-- `YAML::Load`, and none its parser exception.
use jaeger_client_cpp.Base.{
  ℕ, ◌≡◌, refl, ◌∙◌, Bool, true, false, not, ◌&&◌, Option, none, some, Bytes, if◌then◌else◌,
  is_empty,
}
use jaeger_client_cpp.Samplers.{Arithmetic}
use jaeger_client_cpp.Config.{Config, parse, from_env}
use jaeger_client_cpp.Config.Sources.{Environment, Yaml, lower_case}
use jaeger_client_cpp.Config.Reporter.{ReporterConfig}
use jaeger_client_cpp.Config.Sampler.{in_unit}
use jaeger_client_cpp.Config.Making.{is_probable}
use jaeger_client_cpp.Tracer.Facade.{
  Client, MakeResult, no_service_name, noop_tracer, sampler_failed, reporter_failed, tracer_made,
  Host, make_tracer,
}
use jaeger_client_cpp.Tracer.Facade.Travel.{is_made, is_made-make_tracer}

-- The tracer, the tracer that does nothing, or the error.
pub data FactoryResult (D R : Type 0) : Type 0 where
  configuration_parse_error invalid_configuration noop_from_factory : FactoryResult D R
  from_factory : Client D R → FactoryResult D R

-- An exception of `make` is an invalid configuration.
unfoldable pub as_result : {D R : Type 0} → MakeResult D R → FactoryResult D R
as_result no_service_name = invalid_configuration
as_result noop_tracer = noop_from_factory
as_result sampler_failed = invalid_configuration
as_result reporter_failed = invalid_configuration
as_result (tracer_made client) = from_factory client

abbrev pub is_from_factory : {D R : Type 0} → FactoryResult D R → Bool
is_from_factory configuration_parse_error = false
is_from_factory invalid_configuration = false
is_from_factory noop_from_factory = false
is_from_factory (from_factory client) = true

as_result-is_made : {D R : Type 0} (m : MakeResult D R) → is_from_factory (as_result m) ≡ is_made m
unfolding as_result
as_result-is_made no_service_name = refl
as_result-is_made noop_tracer = refl
as_result-is_made sampler_failed = refl
as_result-is_made reporter_failed = refl
as_result-is_made (tracer_made client) = refl

guarded :
    {D R : Type 0} (refused : Bool) (m : MakeResult D R) (good : Bool)
    → is_from_factory (as_result m) ≡ (not refused && good)
    → is_from_factory (if refused then invalid_configuration else as_result m)
      ≡ (not refused && good)
guarded true m good h = refl
guarded false m good h = h

module _ {D R N : Type 0} (a : Arithmetic D) (default_probability : D) (connect : Bytes → Bool)
    (make_reporter : ReporterConfig → Option R) (host : Host) (y : Yaml N)
    (as_double : N → Option D) (scan_double : Bytes → Option D) (env : Environment) where
  -- `make` with a configuration alone.
  unfoldable pub make_configured : ℕ → Config D → FactoryResult D R
  unfolding make_tracer as_result
  make_configured now c =
      if is_empty c.service_name
      then invalid_configuration
      else as_result (
          make_tracer a default_probability connect make_reporter host now c.service_name
            c.trace_id_128_bit c)

  unfoldable pub use_environment : Bool → Config D → Config D
  unfolding from_env
  use_environment read_from_env c =
      if read_from_env then from_env a default_probability scan_double env c else c

  unfoldable pub make_from_yaml : Bool → (Bytes → Option N) → ℕ → Bytes → FactoryResult D R
  unfolding parse use_environment make_configured
  make_from_yaml read_from_env load now configuration = elim (load configuration) [
    | none ↦ configuration_parse_error
    | some node ↦ elim (parse a default_probability y as_double (some node)) [
      | none ↦ invalid_configuration
      | some c ↦ make_configured now (use_environment read_from_env c)
    ]
  ]

  make_configured-is_made :
      (now : ℕ) (c : Config D) (reporter : R)
      → make_reporter c.reporter ≡ some reporter
      → is_from_factory (make_configured now c) ≡ (
          not (is_empty c.service_name)
          && (not c.disabled
              && not (
                  is_probable (lower_case c.sampler.type_name)
                  && not (in_unit a default_probability c.sampler.param))))
  unfolding make_configured
  make_configured-is_made now c reporter e =
      let m =
        make_tracer a default_probability connect make_reporter host now c.service_name
          c.trace_id_128_bit c in
      let made =
        as_result-is_made m
        ∙ is_made-make_tracer a default_probability connect make_reporter host now c.service_name
            c.trace_id_128_bit c reporter e in
      guarded (is_empty c.service_name) m _ made

  -- From a document that can be read, the factory makes a tracer exactly when the configuration, with what
  -- the environment adds, has a service name, is not disabled, and has no probability outside 0 to 1
  -- beside a probabilistic, remote or empty sampler type. The reporter is one that can be made.
  pub make_from_yaml-is_made :
      (read_from_env : Bool) (load : Bytes → Option N) (now : ℕ) (configuration : Bytes) (node : N)
      (c : Config D) (reporter : R)
      → load configuration ≡ some node
      → parse a default_probability y as_double (some node) ≡ some c
      → make_reporter (use_environment read_from_env c).reporter ≡ some reporter
      → let used = use_environment read_from_env c in
        is_from_factory (make_from_yaml read_from_env load now configuration) ≡ (
          not (is_empty used.service_name)
          && (not used.disabled
              && not (
                  is_probable (lower_case used.sampler.type_name)
                  && not (in_unit a default_probability used.sampler.param))))
  unfolding make_from_yaml
  make_from_yaml-is_made read_from_env load now configuration node c reporter loaded read e =
      rw (make_from_yaml, loaded, read)
        (make_configured-is_made now (use_environment read_from_env c) reporter e)
