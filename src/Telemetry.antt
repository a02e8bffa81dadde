-- ===== src/Telemetry.antt =====
-- pkg/telemetry/telemetry.go. The OpenTelemetry libraries and gRPC are an argument: whether each of
-- their calls fails.
use llm_proxy_study_project.Prelude.{String, ◌<>◌, Option, none, some, List, ◌∷◌, ◌≡◌, refl}
use llm_proxy_study_project.Go.Effect.{Error, Result, ok, err, Op, pure, ◌>>◌, wrap}

-- The calls that OpenTelemetry has had; SetTracerProvider and SetMeterProvider with the name and the
-- version of the resource.
pub data Call : Type 0 where
  set_tracer_provider : String → String → Call
  set_meter_provider : String → String → Call
  shutdown_tracer : Call
  shutdown_meter : Call

pub record Library : Type 0 where
  pub resource_new : String → String → Option Error
  pub grpc_new_client : String → Option Error
  pub otlptracegrpc_new : String → Option Error
  pub prometheus_new : Option Error
  pub tracer_shutdown : Option Error
  pub meter_shutdown : Option Error

-- The state is the list of the calls so far, the latest first.
abbrev pub Calls : Type 0
Calls = List Call

abbrev outcome : Option Error → Op Calls (Unit {0})
outcome none calls = (ok tt, calls)
outcome (some e) calls = (err e, calls)

abbrev noted : Call → Op Calls (Unit {0})
noted call calls = (ok tt, call ∷ calls)

module _ (lib : Library) where
  -- The function that Init returns.
  unfoldable pub shutdown : Op Calls (Unit {0})
  shutdown = do
    noted shutdown_tracer
    outcome lib.tracer_shutdown
    noted shutdown_meter
    outcome lib.meter_shutdown

  unfoldable pub init : String → String → String → Op Calls (Op Calls (Unit {0}))
  init service_name service_version otlp_endpoint = do
    wrap "create resource" (outcome (lib.resource_new service_name service_version))
    wrap "grpc dial" (outcome (lib.grpc_new_client otlp_endpoint))
    wrap "trace exporter" (outcome (lib.otlptracegrpc_new otlp_endpoint))
    noted (set_tracer_provider service_name service_version)
    wrap "prometheus exporter" (outcome lib.prometheus_new)
    noted (set_meter_provider service_name service_version)
    pure shutdown

-- What a call of Init comes to.
pub data Initialised (lib : Library) (name version endpoint : String) (calls : Calls)
    : Result (Op Calls (Unit {0})) × Calls → Type 0 where
  ready :
      lib.resource_new name version ≡ none
      → lib.grpc_new_client endpoint ≡ none
      → lib.otlptracegrpc_new endpoint ≡ none
      → lib.prometheus_new ≡ none
      → Initialised lib name version endpoint calls (
        ok (shutdown lib),
        set_meter_provider name version ∷ set_tracer_provider name version ∷ calls,
      )
  untouched : {e : Error} → Initialised lib name version endpoint calls (err e, calls)
  halfway :
      {e : Error}
      → lib.prometheus_new ≡ some e
      → Initialised lib name version endpoint calls
          (err ("prometheus exporter" <> ": " <> e), set_tracer_provider name version ∷ calls)

module _ (lib : Library) (name version endpoint : String) (calls : Calls) where
  -- Init, by the outcomes of its four fallible calls.
  abbrev by_outcomes :
      Option Error → Option Error → Option Error → Option Error → Op Calls (Op Calls (Unit {0}))
  by_outcomes resource conn trace prom = do
    wrap "create resource" (outcome resource)
    wrap "grpc dial" (outcome conn)
    wrap "trace exporter" (outcome trace)
    noted (set_tracer_provider name version)
    wrap "prometheus exporter" (outcome prom)
    noted (set_meter_provider name version)
    pure (shutdown lib)

  outcomes-Initialised :
      (a b c d : Option Error)
      → lib.resource_new name version ≡ a
      → lib.grpc_new_client endpoint ≡ b
      → lib.otlptracegrpc_new endpoint ≡ c
      → lib.prometheus_new ≡ d
      → Initialised lib name version endpoint calls (by_outcomes a b c d calls)
  outcomes-Initialised (some e) b c d p q r s = untouched
  outcomes-Initialised none (some e) c d p q r s = untouched
  outcomes-Initialised none none (some e) d p q r s = untouched
  outcomes-Initialised none none none (some e) p q r s = halfway s
  outcomes-Initialised none none none none p q r s = ready p q r s

  -- Init on every branch: it returns the shutdown function once both providers are set; it fails
  -- and has set neither; or it fails because of the Prometheus exporter, and has set the tracer
  -- provider.
  pub init-Initialised :
      Initialised lib name version endpoint calls (init lib name version endpoint calls)
  unfolding init
  init-Initialised = outcomes-Initialised _ _ _ _ refl refl refl refl

  -- The meter provider is shut down only after the tracer provider was, without an error; its error
  -- is then the error of the whole.
  pub shutdown_lem :
      (e : Error)
      → lib.tracer_shutdown ≡ some e
      → shutdown lib calls ≡ (err e, shutdown_tracer ∷ calls)
  unfolding shutdown
  shutdown_lem e h = rw (shutdown, h) refl
