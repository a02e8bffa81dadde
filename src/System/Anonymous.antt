-- ===== src/System/Anonymous.antt =====
-- The HTTP client of the proxy itself, HTTPLLMProxyClient of pkg/client, against the proxy.
use llm_proxy_study_project.Prelude.{ℕ, String, some, [], ◌∷◌, ◌≡◌, refl, ap, trim_prefix}
use llm_proxy_study_project.Go.Effect.{ok, err}
use llm_proxy_study_project.Go.Decimal.{decimal}
use llm_proxy_study_project.Go.Url.{Target, parse}
use llm_proxy_study_project.Go.Json.{Json}
use llm_proxy_study_project.Go.Http.{Response, write_error}
use llm_proxy_study_project.Stats.{Stats, record_status}
use llm_proxy_study_project.LlmProxy.Provider.{CompletionRequest}
use llm_proxy_study_project.LlmProxy.Service.{Service}
use llm_proxy_study_project.LlmProxy.Handler.{llm_service, router, route, completions}
use llm_proxy_study_project.Client.{
  Outgoing, HttpClient, post_request, answer, decode_completion, complete, completion_body,
}
use llm_proxy_study_project.System.{received}

module _ {W : Type 0} (s : Service W) (format_time : ℕ → String) where
  -- A transport that carries each request to the proxy, and its answer back.
  abbrev pub Carries : HttpClient (Stats × W) → (Stats × W → ℕ) → Type 0
  Carries c clock =
      (o : Outgoing) (w w' : Stats × W) (resp : Response)
      → router (llm_service s) format_time (received (clock w) o) w ≡ some (resp, w')
      → c.do_request o w ≡ (ok resp, w')

  keyless :
      (now : ℕ) (t : Target) (v : Json) (w : Stats × W)
      → t.path ≡ "completions" ∷ []
      → router (llm_service s) format_time (received now (post_request t v)) w
        ≡ some (write_error 401 "missing api key", (record_status 401 w.0, w.1))
  unfolding router route completions trim_prefix
  keyless now t v w path = rw (router, path) refl

  -- Complete of the HTTP client for the proxy fails with status 401 whatever it asks: its requests
  -- show no key, and the proxy's service is not called.
  pub client_complete_unauthorized :
      (c : HttpClient (Stats × W)) (clock : Stats × W → ℕ) (req : CompletionRequest) (w : Stats × W)
      → Carries c clock
      → complete c req w ≡ (err "llm complete: status 401", (record_status 401 w.0, w.1))
  unfolding complete parse decimal
  client_complete_unauthorized c clock req w carries =
      ap (answer c "llm complete" decode_completion)
        (carries _ w _ _ (keyless (clock w) _ (completion_body req) w refl))
