-- ===== src/Tracer/Laws.antt =====
-- pkg/tracer/tracer.go: only the first initialisation counts, and spans are started by its tracer.
use oauth2_token_exchange.Common.{String, ◌≡◌, ◌≢◌, ◌⊎◌, inl, inr, refl}
use oauth2_token_exchange.Go.Act.{Reply, returned, failed, panicked}
use oauth2_token_exchange.Go.Map.{StringMap}
use oauth2_token_exchange.Otel
use oauth2_token_exchange.Otel.{Floats, Sdk, Config, Global, Tracer, noop}
use oauth2_token_exchange.Tracer.{State, new_state, keep, init_tracer, start}

module _ {S E R : Type 0} (floats : Floats) (library : Sdk S E R)
    (range : StringMap → StringMap) where
  open floats use {Float}

  abbrev Outcome : Type 0
  Outcome = Reply (Tracer E R Float) × (Global E R Float × S)

  keep-again :
      (x : Outcome) (name : String) (cfg : Config Float)
      → let out = keep floats library range new_state x in
        ((text : String) → out.0 ≢ panicked text)
        → init_tracer floats library range name cfg out.1 ≡ out
  unfolding init_tracer
  keep-again (returned t, (g, s)) name cfg h = refl
  keep-again (failed e, (g, s)) name cfg h = refl
  keep-again (panicked text, (g, s)) name cfg h = absurd (h text refl)

  keep-start :
      (x : Outcome) (span : String) (attributes : StringMap)
      → let out = keep floats library range new_state x in
        let t = (start out.1.0 span attributes).tracer in
        ((out.0 ≡ returned tt) × (x.0 ≡ returned t))
        ⊎ ((out.0 ≢ returned tt) × (t ≡ record { provider = noop; name = "noop" }))
  unfolding start
  keep-start (returned t, (g, s)) span attributes = inl (refl, refl)
  keep-start (failed e, (g, s)) span attributes = inr ((λ h. cc), refl)
  keep-start (panicked text, (g, s)) span attributes = inr ((λ h. cc), refl)

  module _ (name : String) (cfg : Config Float) (s : S) where
    -- The first call of `InitTracer`.
    abbrev pub first : Reply (Unit {0}) × (State E R Float × S)
    first = init_tracer floats library range name cfg (new_state, s)

    -- A second initialisation changes nothing, and returns what the first one has returned, if that did
    -- not panic.
    pub init_tracer-again :
        (name' : String) (cfg' : Config Float)
        → ((text : String) → first.0 ≢ panicked text)
        → init_tracer floats library range name' cfg' first.1 ≡ first
    unfolding init_tracer
    init_tracer-again name' cfg' h = keep-again _ name' cfg' h

    -- After an initialisation that returned, spans are started by the tracer that it made; after any
    -- other, by one that does nothing.
    pub start_after_init :
        (span : String) (attributes : StringMap)
        → let t = (start first.1.0 span attributes).tracer in
          ((first.0 ≡ returned tt)
            × ((Otel.init_tracer floats library range
                  (record cfg { service_name = name })
                  (new_state.otel, s)).0
                ≡ returned t))
          ⊎ ((first.0 ≢ returned tt) × (t ≡ record { provider = noop; name = "noop" }))
    unfolding init_tracer
    start_after_init span attributes = keep-start _ span attributes
