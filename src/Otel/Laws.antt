-- ===== src/Otel/Laws.antt =====
-- pkg/otel: the provider that is started, and that it is shut down once.
use oauth2_token_exchange.Common.{
  String, ◌<>◌, false, Option, none, some, ◌∷◌, [], ◌≡◌, ◌⊎◌, refl, ap,
}
use oauth2_token_exchange.Go.Errors.{GoError, wrapped}
use oauth2_token_exchange.Go.Act.{
  Act, Reply, returned, failed, panicked, continue, wrap_reply, wrapping, ◌>>=◌,
}
use oauth2_token_exchange.Go.Map.{StringMap}
use oauth2_token_exchange.Go.Strings.{has_prefix}
use oauth2_token_exchange.Otel.{
  Floats, Sdk, SdkProvider, Global, Config, Tracer, sdk, trace_context, baggage, sampler_of,
  to_resource_attributes, on_world, install, shut_down, shutdown,
}

module _ {S E R : Type 0} (floats : Floats) (library : Sdk S E R)
    (range : StringMap → StringMap) where
  open floats use {Float}

  -- The exporter is made for the part of a `grpc://` address behind that prefix, and for the whole of
  -- any other address.
  abbrev pub IsExporter : Config Float → S → E → Type 0
  IsExporter cfg s e =
      ((rest : String) × (cfg.endpoint_url ≡ "grpc://" <> rest)
        × ((library.new_grpc_exporter rest cfg.is_insecure s).0 ≡ returned e))
      ⊎ ((has_prefix cfg.endpoint_url "grpc://" ≡ false)
          × ((library.new_http_exporter cfg.endpoint_url cfg.is_insecure s).0 ≡ returned e))

  module _ (cfg : Config Float) (g : Global E R Float) (s : S) where
    -- The globals once the provider is installed, and what its parts are.
    abbrev IsInstalled :
        Tracer E R Float → Reply (Tracer E R Float) × (Global E R Float × S) → Type 0
    IsInstalled t out =
        (tp : SdkProvider E R Float) × (t ≡ record { provider = sdk tp; name = cfg.service_name })
        × (out.1.0 ≡ record {
          tracer_provider = some tp;
          registered = sdk tp;
          propagators = trace_context ∷ baggage ∷ [];
        })
        × (tp.sampler ≡ sampler_of floats cfg.sample_ratio)
        × IsExporter cfg s tp.exporter
        × ((after : S) × ((library.new_resource (to_resource_attributes range cfg) after).0
              ≡ returned tp.resource))

    abbrev build : E → R → SdkProvider E R Float
    build exporter resource = record {
      exporter = exporter;
      resource = resource;
      sampler = sampler_of floats cfg.sample_ratio;
    }

    abbrev with_exporter : E → Act (Global E R Float × S) (Tracer E R Float)
    with_exporter exporter = do
      resource ← on_world (
          wrapping "failed to create resource"
            (library.new_resource (to_resource_attributes range cfg)))
      install floats library range cfg (build exporter resource)

module _ {S E R F : Type 0} (shut : SdkProvider E R F → Act S (Unit {0})) where
  abbrev pub forget : Unit {0} → Act (Global E R F × S) (Unit {0})
  forget done (g, s) = (returned tt, (record g { tracer_provider = none }, s))

  -- What `Shutdown` does with the outcome of the provider's.
  abbrev pub after_shut : Reply (Unit {0}) → Act (Global E R F × S) (Unit {0})
  after_shut r = continue (wrap_reply "failed to shutdown tracer provider" r) forget

  after_shut_failed :
      (r : Reply (Unit {0})) (g : Global E R F) (s : S) (e : GoError)
      → (after_shut r (g, s)).0 ≡ failed e
      → (cause : GoError) × (r ≡ failed cause)
        × (e ≡ wrapped "failed to shutdown tracer provider" cause)
        × ((after_shut r (g, s)).1 ≡ (g, s))
  after_shut_failed (returned a) g s e h = cc
  after_shut_failed (failed cause) g s e h = (cause, refl, cc, refl)
  after_shut_failed (panicked text) g s e h = cc

  shut_down_failed :
      (g : Global E R F) (s : S) (e : GoError) (o : Option (SdkProvider E R F))
      → (shut_down shut o (g, s)).0 ≡ failed e
      → (tp : SdkProvider E R F) × (cause : GoError) × (o ≡ some tp)
        × ((shut tp s).0 ≡ failed cause)
        × (e ≡ wrapped "failed to shutdown tracer provider" cause)
        × ((shut_down shut o (g, s)).1 ≡ (g, (shut tp s).1))
  shut_down_failed g s e none h = cc
  shut_down_failed g s e (some tp) h =
      let (cause, same, text, kept) = after_shut_failed (shut tp s).0 g (shut tp s).1 e h in
      (tp, cause, refl, same, text, kept)

  after_shut-again :
      (r : Reply (Unit {0})) (g : Global E R F) (s : S)
      → (after_shut r (g, s)).0 ≡ returned tt
      → shutdown shut (after_shut r (g, s)).1 ≡ (returned tt, (after_shut r (g, s)).1)
  unfolding shutdown
  after_shut-again (returned a) g s h = refl
  after_shut-again (failed e) g s h = cc
  after_shut-again (panicked text) g s h = cc

  shut_down-again :
      (g : Global E R F) (s : S) (o : Option (SdkProvider E R F))
      → g.tracer_provider ≡ o
      → (shut_down shut o (g, s)).0 ≡ returned tt
      → shutdown shut (shut_down shut o (g, s)).1 ≡ (returned tt, (shut_down shut o (g, s)).1)
  unfolding shutdown
  shut_down-again g s none e h = ap (λ o. shut_down shut o (g, s)) e
  shut_down-again g s (some tp) e h = after_shut-again (shut tp s).0 g (shut tp s).1 h

  -- A shutdown that fails has called the provider's, whose error it gives with a prefix, and keeps the
  -- provider.
  pub shutdown_failed :
      (g : Global E R F) (s : S) (e : GoError)
      → (shutdown shut (g, s)).0 ≡ failed e
      → (tp : SdkProvider E R F) × (cause : GoError) × (g.tracer_provider ≡ some tp)
        × ((shut tp s).0 ≡ failed cause)
        × (e ≡ wrapped "failed to shutdown tracer provider" cause)
        × ((shutdown shut (g, s)).1 ≡ (g, (shut tp s).1))
  unfolding shutdown
  shutdown_failed g s e h = shut_down_failed g s e g.tracer_provider h

  -- After a shutdown that returned, another one does nothing.
  pub shutdown-again :
      (g : Global E R F) (s : S)
      → (shutdown shut (g, s)).0 ≡ returned tt
      → shutdown shut (shutdown shut (g, s)).1 ≡ (returned tt, (shutdown shut (g, s)).1)
  unfolding shutdown
  shutdown-again g s h = shut_down-again g s g.tracer_provider refl h
