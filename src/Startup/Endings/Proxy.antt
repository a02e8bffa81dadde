-- ===== src/Startup/Endings/Proxy.antt =====
-- The main of the proxy, from its start to its end.
use llm_proxy_study_project.Prelude.{List, [], ◌∷◌, refl}
use llm_proxy_study_project.Telemetry.{init}
use llm_proxy_study_project.Startup.{
  Event, info, failed, serving, closed, redis_client, rabbit_conn, rabbit_channel, with_telemetry,
  new_process,
}
use llm_proxy_study_project.Startup.LlmProxy
use llm_proxy_study_project.Startup.LlmProxy.{error_of}
use llm_proxy_study_project.Startup.Endings.{
  Steps, first_failure, ending, warning, Ends, IsEnding, telemetered-IsEnding, required-Ends,
  deferring-Ends,
}

module _ (e : LlmProxy.Outside) where
  -- What the proxy cannot do without.
  abbrev pub proxy_steps : Steps
  proxy_steps =
      ("redis url parse failed", e.redis_parse_url (LlmProxy.redis_url e))
      ∷ ("redis ping failed", e.redis_ping (LlmProxy.redis_url e))
      ∷ ("rabbitmq connect failed", e.amqp_dial (LlmProxy.rabbit_url e))
      ∷ ("rabbitmq channel failed", e.amqp_channel)
      ∷ ("queue declare failed", e.queue_declare "usage.recorded")
      ∷ ("provider init failed", error_of (LlmProxy.chosen e))
      ∷ []

  abbrev pub proxy_work : List Event
  proxy_work =
      closed redis_client
      ∷ closed rabbit_conn
      ∷ closed rabbit_channel
      ∷ failed "server error" (e.listen_and_serve (LlmProxy.address e))
      ∷ serving (LlmProxy.address e)
      ∷ info "llm-proxy starting"
      ∷ []

  proxy-Ends : Ends (LlmProxy.body e) (ending proxy_work (first_failure proxy_steps))
  unfolding LlmProxy.body first_failure
  proxy-Ends = required-Ends _ "redis url parse failed" _ _ _ (
      deferring-Ends _ _ _ _ (
        required-Ends _ "redis ping failed" _ _ _ (
          required-Ends _ "rabbitmq connect failed" _ _ _ (
            deferring-Ends _ _ _ _ (
              required-Ends _ "rabbitmq channel failed" _ _ _ (
                deferring-Ends _ _ _ _ (
                  required-Ends _ "queue declare failed" _ _ _ (
                    required-Ends _ "provider init failed" _ _ []
                      (record { flow = λ p. refl; events = λ p. refl })))))))))

  -- The main of the proxy, from its start: if one of its six necessary steps fails, it logs the
  -- first such failure, exits with code 1 and closes nothing; if none does, it serves until
  -- ListenAndServe returns, logs that error, and closes the channel, the connection and the Redis
  -- client in this order.
  pub proxy_main-IsEnding :
      IsEnding (LlmProxy.main e new_process) (ending proxy_work (first_failure proxy_steps)) (
        warning (init e.telemetry "llm-proxy" (LlmProxy.version e) (LlmProxy.otlp_endpoint e) []).0)
  unfolding LlmProxy.main with_telemetry
  proxy_main-IsEnding = telemetered-IsEnding (LlmProxy.body e) _ _ proxy-Ends
