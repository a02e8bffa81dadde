-- ===== src/System/Models.antt =====
-- The list of models, from the provider to a client of the proxy.
use llm_proxy_study_project.Prelude.{
  ℕ, String, Option, none, some, List, [], ◌∷◌, ◌≡◌, refl, ap, ◌∙◌,
}
use llm_proxy_study_project.Go.Effect.{Result, ok, err}
use llm_proxy_study_project.Go.Decimal.{decimal}
use llm_proxy_study_project.Go.Json.{arr}
use llm_proxy_study_project.Go.Url.{Target, parse}
use llm_proxy_study_project.Go.Http.{Response, write_json, write_error}
use llm_proxy_study_project.Stats.{Stats, record_status}
use llm_proxy_study_project.LlmProxy.Provider.{Model}
use llm_proxy_study_project.LlmProxy.Service.{Service, list_models}
use llm_proxy_study_project.LlmProxy.Handler as Proxy
use llm_proxy_study_project.LlmProxy.Handler.{llm_service, models_json}
use llm_proxy_study_project.Client.{
  HttpClient, get_request, answer, decode_models, http_llm_proxy_client,
}
use llm_proxy_study_project.Client.Decoding.{decode_models-models_json}
use llm_proxy_study_project.System.{received}
use llm_proxy_study_project.System.Anonymous.{Carries}

-- What the client makes of the provider's list, and the statistics after it.
abbrev pub listed :
    {W : Type 0} → Stats → Result (List Model) × W → Result (List Model) × (Stats × W)
listed st (ok ms, w) = (ok ms, (record_status 200 st, w))
listed st (err _, w) = (err "llm models: status 500", (record_status 500 st, w))

module _ {W : Type 0} (s : Service W) (format_time : ℕ → String) where
  -- What the endpoint makes of the provider's list.
  abbrev shown : Stats → Result (List Model) × W → Response × (Stats × W)
  shown st (ok ms, w) = (write_json 200 (arr (models_json ms)), (record_status 200 st, w))
  shown st (err msg, w) = (write_error 500 msg, (record_status 500 st, w))

  routed_models :
      (now : ℕ) (t : Target) (w : Stats × W)
      → t.path ≡ "models" ∷ []
      → Proxy.router (llm_service s) format_time (received now (get_request t)) w
        ≡ some (shown w.0 (list_models s w.1))
  unfolding Proxy.router Proxy.route Proxy.models
  routed_models now t w path = rw (Proxy.router, path) (by_result (list_models s w.1))
    where
      by_result :
          (x : Result (List Model) × W)
          → Proxy.counted (llm_service s) format_time (
              Proxy.pure_route
                (llm_service s)
                format_time
                (elim x.0 as (λ _. Response × W) [
                  | err e ↦ (write_error 500 e, x.1)
                  | ok ms ↦ (write_json 200 (arr (models_json ms)), x.1)
                ])
                w.0)
            ≡ some (shown w.0 x)
      by_result (ok ms, w') = refl
      by_result (err e, w') = refl

  read_models :
      (c : HttpClient (Stats × W)) (st : Stats) (x : Result (List Model) × W)
      → answer c "llm models" decode_models (ok (shown st x).0, (shown st x).1) ≡ listed st x
  unfolding decimal
  read_models c st (ok ms, w) =
      ap
        (λ (o : Option (List Model)). elim o as (λ _. Result (List Model) × (Stats × W)) [
          | none ↦ (err (c.body_error (some (arr (models_json ms)))), (record_status 200 st, w))
          | some a ↦ (ok a, (record_status 200 st, w))
        ])
        (decode_models-models_json ms)
  read_models c st (err msg, w) = refl

  -- Models of the HTTP client, over a transport that carries its requests to the proxy, is the
  -- provider's list: the same models, or an error in which only the status 500 is left; the request
  -- is counted, and needs no key.
  pub models_through :
      (c : HttpClient (Stats × W)) (clock : Stats × W → ℕ) (w : Stats × W)
      → Carries s format_time c clock
      → (http_llm_proxy_client c).models w ≡ listed w.0 (list_models s w.1)
  unfolding http_llm_proxy_client parse
  models_through c clock w carries =
      ap (answer c "llm models" decode_models) (carries _ w _ _ (routed_models (clock w) _ w refl))
      ∙ read_models c w.0 (list_models s w.1)
