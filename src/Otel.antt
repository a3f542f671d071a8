-- ===== src/Otel.antt =====
-- pkg/otel: the provider of tracers. OpenTelemetry's SDK is the interface `Sdk`, with its types of
-- exporters and of resources; floating-point numbers are the interface `Floats`.
pub mod Laws
use oauth2_token_exchange.Common.{
  String, Bool, true, false, not, Option, none, some, List, [], ◌∷◌, ◌==◌, ◌||◌, if◌then◌else◌,
}
use oauth2_token_exchange.Go.Act.{
  Act, Reply, returned, failed, panicked, pure, wrapping, ◌>>=◌, ◌>>◌,
}
use oauth2_token_exchange.Go.Map.{StringMap}
use oauth2_token_exchange.Go.Strings.{has_prefix, trim_prefix}

-- `float64` with its comparison `<=` and two of its constants.
pub record Floats : Type 1 where
  pub Float : Type 0
  pub le : Float → Float → Bool
  pub zero : Float
  pub one : Float

pub data Sampler (F : Type 0) : Type 0 where
  trace_id_ratio_based : F → Sampler F
  never_sample always_sample : Sampler F

pub record Sdk (S E R : Type 0) : Type 0 where
  pub new_grpc_exporter : String → Bool → Act S E
  pub new_http_exporter : String → Bool → Act S E
  pub new_resource : StringMap → Act S R

-- `sdktrace.TracerProvider`
pub record SdkProvider (E R F : Type 0) : Type 0 where
  pub exporter : E
  pub resource : R
  pub sampler : Sampler F

pub data TracerProvider (E R F : Type 0) : Type 0 where
  noop : TracerProvider E R F
  sdk : SdkProvider E R F → TracerProvider E R F

-- `tp.Tracer(name)`
pub record Tracer (E R F : Type 0) : Type 0 where
  pub provider : TracerProvider E R F
  pub name : String

pub data Propagator : Type 0 where
  trace_context baggage : Propagator

-- The variable `tracerProvider` of the package, and what the package sets in the `otel` library.
pub record Global (E R F : Type 0) : Type 0 where
  pub tracer_provider : Option (SdkProvider E R F)
  pub registered : TracerProvider E R F
  pub propagators : List Propagator

pub record Config (F : Type 0) : Type 0 where
  pub service_name : String
  pub endpoint_url : String
  pub enabled : Bool
  pub sample_ratio : F
  pub is_insecure : Bool
  pub resource_attributes : StringMap

module _ (floats : Floats) where
  open floats use {Float, le, zero, one}

  unfoldable pub default_config : Config Float
  default_config = record {
    service_name = "unknown-service";
    endpoint_url = "";
    enabled = false;
    sample_ratio = one;
    is_insecure = true;
    resource_attributes = [];
  }

  unfoldable pub sampler_of : Float → Sampler Float
  sampler_of ratio =
      if le ratio zero
      then never_sample
      else if le one ratio
      then always_sample
      else trace_id_ratio_based ratio

-- `toResourceAttributes`, for the order in which Go ranges over a map.
unfoldable pub to_resource_attributes :
    {F : Type 0} → (StringMap → StringMap) → Config F → StringMap
to_resource_attributes range c = ("service.name", c.service_name) ∷ range c.resource_attributes

-- A call of a library, with the globals beside the world.
abbrev pub on_world : {S G A : Type 0} → Act S A → Act (G × S) A
on_world m (g, s) = let (r, s') = m s in (r, (g, s'))

module _ {S E R F : Type 0} (library : Sdk S E R) where
  unfoldable pub create_grpc_exporter : Config F → Act S E
  unfolding trim_prefix
  create_grpc_exporter cfg =
      wrapping "failed to create OTLP gRPC exporter"
        (library.new_grpc_exporter (trim_prefix cfg.endpoint_url "grpc://") cfg.is_insecure)

  unfoldable pub create_http_exporter : Config F → Act S E
  create_http_exporter cfg =
      wrapping "failed to create OTLP HTTP exporter"
        (library.new_http_exporter cfg.endpoint_url cfg.is_insecure)

  unfoldable pub create_exporter : Config F → Act S E
  unfolding create_grpc_exporter create_http_exporter has_prefix
  create_exporter cfg =
      if has_prefix cfg.endpoint_url "grpc://"
      then create_grpc_exporter cfg
      else create_http_exporter cfg

module _ {S E R : Type 0} (floats : Floats) (library : Sdk S E R)
    (range : StringMap → StringMap) where
  open floats use {Float}

  abbrev pub register :
      TracerProvider E R Float → String → Act (Global E R Float × S) (Tracer E R Float)
  register tp name (g, s) = (returned (record { provider = tp; name = name }), (g, s))

  -- The provider becomes the library's and the package's.
  abbrev pub install :
      Config Float → SdkProvider E R Float → Act (Global E R Float × S) (Tracer E R Float)
  install cfg tp (g, s) = (
    returned (record { provider = sdk tp; name = cfg.service_name }),
    (
      record {
        tracer_provider = some tp;
        registered = sdk tp;
        propagators = trace_context ∷ baggage ∷ [];
      },
      s,
    ),
  )

  abbrev pub start_sdk : Config Float → Act (Global E R Float × S) (Tracer E R Float)
  start_sdk cfg = do
    exporter ← on_world (create_exporter library cfg)
    resource ← on_world (
        wrapping "failed to create resource"
          (library.new_resource (to_resource_attributes range cfg)))
    install cfg (record {
      exporter = exporter;
      resource = resource;
      sampler = sampler_of floats cfg.sample_ratio;
    })

  abbrev pub start_noop : Config Float → Act (Global E R Float × S) (Tracer E R Float)
  start_noop cfg (g, s) = (
    returned (record { provider = noop; name = cfg.service_name }),
    (record g { registered = noop }, s),
  )

  -- `InitTracer`
  unfoldable pub init_tracer : Config Float → Act (Global E R Float × S) (Tracer E R Float)
  unfolding create_exporter to_resource_attributes sampler_of
  init_tracer cfg =
      if not cfg.enabled || (cfg.endpoint_url == "") then start_noop cfg else start_sdk cfg

module _ {S E R F : Type 0} (shut : SdkProvider E R F → Act S (Unit {0})) where
  abbrev pub shut_down : Option (SdkProvider E R F) → Act (Global E R F × S) (Unit {0})
  shut_down none = pure tt
  shut_down (some tp) = do
    on_world (wrapping "failed to shutdown tracer provider" (shut tp))
    λ (g, s). (returned tt, (record g { tracer_provider = none }, s))

  -- `Shutdown`. `shut` is the SDK's method of that name, with the context's deadline.
  unfoldable pub shutdown : Act (Global E R F × S) (Unit {0})
  shutdown (g, s) = shut_down g.tracer_provider (g, s)

-- `GetTracer`, by the provider that is registered with the library
unfoldable pub get_tracer : {E R F : Type 0} → Global E R F → String → Tracer E R F
get_tracer g name = record { provider = g.registered; name = name }
