-- ===== src/Tracer/Facade.antt =====
-- `Tracer::make`, the constructor's tags, `Inject` and `Extract` of Tracer.h and Tracer.cpp.
pub mod Travel
use jaeger_client_cpp.Base.{
  ℕ, Bool, true, false, not, Option, none, some, List, [], ◌∷◌, ◌++◌, Bytes, codes, if◌then◌else◌,
  is_empty,
}
use jaeger_client_cpp.Hex.{Stream}
use jaeger_client_cpp.SpanContext.{SpanContext, empty, context_eq}
use jaeger_client_cpp.Tag.{Tag, Value, text, chars}
use jaeger_client_cpp.Propagation.Carrier.{HeadersConfig, Carrier, Codec}
use jaeger_client_cpp.Propagation.Jaeger
use jaeger_client_cpp.Propagation.Jaeger.{jaeger_extract}
use jaeger_client_cpp.Propagation.W3c
use jaeger_client_cpp.Propagation.W3c.{w3c_extract}
use jaeger_client_cpp.Propagation.Binary
use jaeger_client_cpp.Propagation.Binary.{Endian}
use jaeger_client_cpp.Samplers.{Arithmetic}
use jaeger_client_cpp.Config.{Config, Format, jaeger, w3c}
use jaeger_client_cpp.Config.Reporter.{ReporterConfig}
use jaeger_client_cpp.Config.Sampler.{
  MadeSampler, made, made_remote, no_sampler, invalid_argument, make_sampler,
}

-- The members of a tracer that its configuration sets; `reporter` is made of the reporter's part.
pub record Client (D R : Type 0) : Type 0 where
  pub service_name : Bytes
  pub sampler : MadeSampler D
  pub reporter : R
  pub format : Format
  pub headers : HeadersConfig
  pub gen_128_bit : Bool
  pub tags : List Tag

-- What `make` returns: a tracer, the tracer that does nothing, or an exception.
pub data MakeResult (D R : Type 0) : Type 0 where
  no_service_name noop_tracer sampler_failed reporter_failed : MakeResult D R
  tracer_made : Client D R → MakeResult D R

-- What the constructor asks of the host: its name, unless that throws, and its address, if it has one.
pub record Host : Type 0 where
  pub client_version : Bytes
  pub hostname : Option Bytes
  pub address : Option Bytes

abbrev host_tag : Bytes → Option Bytes → List Tag
host_tag tag_key none = []
host_tag tag_key (some name) = record { key = tag_key; value = text name } ∷ []

unfoldable pub tracer_tags : Host → List Tag → List Tag
tracer_tags h tags =
    record { key = codes "jaeger.version"; value = chars h.client_version }
    ∷ (host_tag (codes "hostname") h.hostname ++ (host_tag (codes "ip") h.address ++ tags))

-- The end of `make`, with the sampler; a null pointer is not noticed.
unfoldable pub with_sampler :
    {D R : Type 0} → Option R → Host → Bytes → Bool → Config D → MadeSampler D → MakeResult D R
unfolding tracer_tags
with_sampler reporter host service_name gen_128_bit c invalid_argument = sampler_failed
with_sampler none host service_name gen_128_bit c _ = reporter_failed
with_sampler (some reporter) host service_name gen_128_bit c chosen = tracer_made (record {
  service_name = service_name;
  sampler = chosen;
  reporter = reporter;
  format = c.propagation_format;
  headers = c.headers;
  gen_128_bit = gen_128_bit;
  tags = tracer_tags host c.tags;
})

-- `make` with all its arguments; `make_reporter` is `makeReporter`, which may throw.
unfoldable pub make_tracer :
    {D R : Type 0}
    → Arithmetic D
    → D
    → (Bytes → Bool)
    → (ReporterConfig → Option R)
    → Host
    → ℕ
    → Bytes
    → Bool
    → Config D
    → MakeResult D R
unfolding make_sampler with_sampler
make_tracer a default_probability connect make_reporter host now service_name gen_128_bit c =
    if is_empty service_name
    then no_service_name
    else if c.disabled
    then noop_tracer
    else with_sampler (make_reporter c.reporter) host service_name gen_128_bit c
        (make_sampler a default_probability connect now c.sampler)

-- The propagator of a text carrier, by the format of the tracer.
unfoldable pub text_inject : Format → Codec → HeadersConfig → SpanContext → Carrier
text_inject jaeger codec headers ctx = Jaeger.do_inject codec headers ctx
text_inject w3c codec headers ctx = W3c.do_inject ctx

unfoldable pub text_extract : Format → Codec → HeadersConfig → Carrier → SpanContext × ℕ
text_extract jaeger codec headers reader = jaeger_extract codec headers reader
text_extract w3c codec headers reader = w3c_extract codec headers reader

-- `Inject`; a context of another tracer is `none`, and so is the error that it gives.
unfoldable pub inject : Format → Codec → HeadersConfig → Option SpanContext → Option Carrier
unfolding text_inject
inject format codec headers none = none
inject format codec headers (some ctx) = some (text_inject format codec headers ctx)

unfoldable pub inject_binary : Endian → Option SpanContext → Option Bytes
inject_binary e none = none
inject_binary e (some ctx) = some (Binary.inject e ctx)

-- An empty context is a null pointer; the decoding errors are counted.
unfoldable pub found : SpanContext × ℕ → Option SpanContext × ℕ
unfolding context_eq
found (ctx, errors) = (if context_eq ctx empty then none else some ctx, errors)

-- `Extract`
unfoldable pub extract : Format → Codec → HeadersConfig → Carrier → Option SpanContext × ℕ
unfolding text_extract found
extract format codec headers reader = found (text_extract format codec headers reader)

unfoldable pub extract_binary : Endian → Stream → Option SpanContext × ℕ
unfolding found
extract_binary e reader = found (Binary.extract e reader)
