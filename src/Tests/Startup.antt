-- ===== src/Tests/Startup.antt =====
-- Runs of the programs from their start, and of the shared packages.
use llm_proxy_study_project.Prelude.{
  ℕ, ◌*◌, ◌^◌, String, ◌==◌, none, some, List, [], ◌∷◌, ◌≡◌, refl, if◌then◌else◌, arith,
}
use llm_proxy_study_project.Prelude.Int.{pos, negsuc}
use llm_proxy_study_project.Go.Decimal.{number, decimal}
use llm_proxy_study_project.Go.Strconv.{atoi}
use llm_proxy_study_project.Go.Int64.{wrap64}
use llm_proxy_study_project.Go.Http.{Request}
use llm_proxy_study_project.Telemetry.{Library, Initialised, init, init-Initialised}
use llm_proxy_study_project.Startup.{getenv, failed, new_process}
use llm_proxy_study_project.Startup.LlmProxy
use llm_proxy_study_project.LlmProxy.Provider.{new_provider}
use llm_proxy_study_project.Startup.Endings.{IsEnding, ending, first_failure, warning}
use llm_proxy_study_project.Startup.Endings.Proxy.{proxy_steps, proxy_work, proxy_main-IsEnding}
use llm_proxy_study_project.Startup.Configuration.{cache_ttl, in_nanoseconds, cache_ttl_exact}
use llm_proxy_study_project.Middleware.{
  write_header, write, new_writer, status_of, act_all, HandlerFunc, Line, logging, record_all,
}

-- Libraries of which the Prometheus exporter fails.
abbrev library : Library
library = record {
  resource_new = λ name version. none;
  grpc_new_client = λ endpoint. none;
  otlptracegrpc_new = λ endpoint. none;
  prometheus_new = some "duplicate collector";
  tracer_shutdown = none;
  meter_shutdown = none;
}

init-Initialised_example :
    Initialised library "llm-proxy" "1.0.0" "localhost:4317" []
      (init library "llm-proxy" "1.0.0" "localhost:4317" [])
init-Initialised_example = init-Initialised library "llm-proxy" "1.0.0" "localhost:4317" []

-- A proxy that reaches Redis and RabbitMQ, and is told to use a provider that it does not know.
abbrev outside : LlmProxy.Outside
outside = record {
  env = λ key. if key == "LLM_PROVIDER" then "anthropic" else "";
  telemetry = library;
  redis_parse_url = λ url. none;
  redis_ping = λ url. none;
  amqp_dial = λ url. none;
  amqp_channel = none;
  queue_declare = λ name. none;
  listen_and_serve = λ address. "http: Server closed";
}

proxy_main-IsEnding_example :
    IsEnding
      (LlmProxy.main outside new_process)
      (ending (proxy_work outside) (first_failure (proxy_steps outside)))
      (warning
        (init library "llm-proxy" (LlmProxy.version outside) (LlmProxy.otlp_endpoint outside) []).0)
proxy_main-IsEnding_example = proxy_main-IsEnding outside

anthropic_exits :
    first_failure (proxy_steps outside)
    ≡ some (failed "provider init failed" "unknown provider: anthropic")
unfolding first_failure new_provider getenv
anthropic_exits = refl

abbrev with_ttl : String → String → String
with_ttl text key = if key == "CACHE_TTL" then text else ""

cache_ttl_exact_example : cache_ttl (with_ttl "60") ≡ pos (60 * 10 ^ 9)
unfolding decimal
cache_ttl_exact_example = cache_ttl_exact (with_ttl "60") 60 refl (ground arith)

test_minutes : cache_ttl (with_ttl "5m") ≡ pos 0
unfolding cache_ttl in_nanoseconds atoi getenv number wrap64
test_minutes = refl

test_century : cache_ttl (with_ttl "9223372037") ≡ negsuc 9223372036709551615
unfolding cache_ttl in_nanoseconds atoi getenv number wrap64
test_century = refl

-- A handler that answers with status 404 and a text.
abbrev missing : HandlerFunc ℕ
missing r s = (write_header 404 ∷ write "not found" ∷ [], s)

abbrev asked : Request
asked = record {
  method = "GET";
  path = "models" ∷ [];
  query = λ _. "";
  authorization = "";
  body = none;
  now = 0;
}

-- A handler that writes before it sets a status is logged with a status that is not sent.
late : HandlerFunc ℕ
late r s = (write "partial" ∷ write_header 500 ∷ [], s)

abbrev logged_status : List Line → ℕ
logged_status [] = 0
logged_status (line ∷ _) = line.status

test_late :
    (logged_status (logging late asked 0 (new_writer, (7, []))).1.1 ≡ 500)
    × (status_of (logging late asked 0 (new_writer, (7, []))).0 ≡ 200)
unfolding late logging record_all act_all
test_late = (refl, refl)
