-- ===== src/Startup/Endings/Services.antt =====
-- The mains of the auth and billing services, from their start to their end.
use llm_proxy_study_project.Prelude.{String, Option, none, some, List, [], ◌∷◌, refl}
use llm_proxy_study_project.Go.Effect.{Error}
use llm_proxy_study_project.Telemetry.{init}
use llm_proxy_study_project.Startup.{
  Event, info, warned, failed, consuming, serving, closed, pool, on, with_telemetry, new_process,
  note, ◌>>◌, listen, dialled,
}
use llm_proxy_study_project.Startup.AuthService
use llm_proxy_study_project.Startup.BillingService
use llm_proxy_study_project.Startup.Endings.{
  Steps, first_failure, ending, warning, Ends, IsEnding, telemetered-IsEnding, required-Ends,
  deferring-Ends,
}

module _ (e : AuthService.Outside) where
  -- What the auth service cannot do without.
  abbrev pub auth_steps : Steps
  auth_steps =
      ("db connect failed", e.pgxpool_new (AuthService.db_url e))
      ∷ ("db ping failed", e.pool_ping (AuthService.db_url e))
      ∷ []

  abbrev pub auth_work : List Event
  auth_work =
      closed pool
      ∷ failed "server error" (e.listen_and_serve (AuthService.address e))
      ∷ serving (AuthService.address e)
      ∷ info "auth-service starting"
      ∷ []

  auth-Ends : Ends (AuthService.body e) (ending auth_work (first_failure auth_steps))
  unfolding AuthService.body first_failure
  auth-Ends = required-Ends _ "db connect failed" _ _ _ (
      deferring-Ends _ _ _ _
        (required-Ends _ "db ping failed" _ _ [] (record { flow = λ p. refl; events = λ p. refl })))

  -- The main of the auth service, from its start: if one of its two necessary steps fails, it logs
  -- the first such failure and exits with code 1, and serves nothing; if none does, it serves until
  -- ListenAndServe returns, logs that error, closes the pool and returns. A failure of telemetry.Init
  -- only adds a warning at the start of the log.
  pub auth_main-IsEnding :
      IsEnding (AuthService.main e new_process) (ending auth_work (first_failure auth_steps)) (
        warning
          (init e.telemetry "auth-service"
            (AuthService.version e)
            (AuthService.otlp_endpoint e)
            []).0)
  unfolding AuthService.main with_telemetry
  auth_main-IsEnding = telemetered-IsEnding (AuthService.body e) _ _ auth-Ends

module _ (e : BillingService.Outside) where
  -- What the billing service cannot do without.
  abbrev pub billing_steps : Steps
  billing_steps =
      ("db connect failed", e.pgxpool_new (BillingService.db_url e))
      ∷ ("db ping failed", e.pool_ping (BillingService.db_url e))
      ∷ []

  -- What the try of the broker leaves.
  abbrev pub tried : Option Error → Event
  tried none = dialled (BillingService.rabbit_url e)
  tried (some msg) = warned "rabbitmq initial connect failed, consumer will retry" msg

  abbrev pub billing_work : List Event
  billing_work =
      closed pool
      ∷ failed "server error" (e.listen_and_serve (BillingService.address e))
      ∷ serving (BillingService.address e)
      ∷ info "billing-service starting"
      ∷ tried (e.amqp_dial (BillingService.rabbit_url e))
      ∷ consuming (BillingService.rabbit_url e)
      ∷ []

  probed-Ends :
      (o : Option Error) (address : String) (msg : Error)
      → Ends
          (note (consuming (BillingService.rabbit_url e))
            >> (BillingService.probe e (BillingService.rabbit_url e) o
                >> (note (info "billing-service starting") >> listen address msg)))
          (
            on tt,
            failed "server error" msg
                ∷ serving address
                ∷ info "billing-service starting"
                ∷ tried o
                ∷ consuming (BillingService.rabbit_url e)
                ∷ [],
          )
  probed-Ends none address msg = record { flow = λ p. refl; events = λ p. refl }
  probed-Ends (some _) address msg = record { flow = λ p. refl; events = λ p. refl }

  billing-Ends : Ends (BillingService.body e) (ending billing_work (first_failure billing_steps))
  unfolding BillingService.body first_failure
  billing-Ends = required-Ends _ "db connect failed" _ _ _ (
      deferring-Ends _ _ _ _ (
        required-Ends _ "db ping failed" _ _ [] (
          probed-Ends (e.amqp_dial (BillingService.rabbit_url e)) (BillingService.address e)
            (e.listen_and_serve (BillingService.address e)))))

  -- The main of the billing service, from its start: if one of its two necessary steps fails, it
  -- logs the first such failure and exits with code 1; if none does, it starts the consumer, tries
  -- the broker once, where an error is a warning, serves until ListenAndServe returns, logs that
  -- error, closes the pool and returns.
  pub billing_main-IsEnding :
      IsEnding
        (BillingService.main e new_process)
        (ending billing_work (first_failure billing_steps))
        (warning
          (init e.telemetry "billing-service"
            (BillingService.version e)
            (BillingService.otlp_endpoint e)
            []).0)
  unfolding BillingService.main with_telemetry
  billing_main-IsEnding = telemetered-IsEnding (BillingService.body e) _ _ billing-Ends
