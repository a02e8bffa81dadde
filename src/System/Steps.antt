-- ===== src/System/Steps.antt =====
-- The deployed services as one machine: each step is a request that a server handles, a message that
-- the billing consumer handles, or a change elsewhere, in any order.
use llm_proxy_study_project.Prelude.{ℕ, String, Option, none, some, List, ◌≡◌, ap, subst, arith}
use llm_proxy_study_project.Prelude.Int.{ℤ}
use llm_proxy_study_project.Go.Effect.{Result}
use llm_proxy_study_project.Go.Float.{Float64}
use llm_proxy_study_project.Go.Json.{Json, Payload}
use llm_proxy_study_project.Go.Http.{Request, Response}
use llm_proxy_study_project.Stats.{Stats}
use llm_proxy_study_project.Billing.Consumer.{billing_service, handle}
use llm_proxy_study_project.LlmProxy.Provider.{LlmProvider, CompletionResponse}
use llm_proxy_study_project.LlmProxy.Service.{Redis, Broker}
use llm_proxy_study_project.LlmProxy.Service.Keeping.{IsKept}
use llm_proxy_study_project.LlmProxy.Handler.{llm_service, router}
use llm_proxy_study_project.LlmProxy.Handler.Keeping.{router-Rel}
use llm_proxy_study_project.Client.{
  Outgoing, get_request, validate, balance, http_auth_client, http_billing_client,
}
use llm_proxy_study_project.Client.Keeping.{validate_keeps, balance_keeps}
use llm_proxy_study_project.System.{
  World, Setting, auth_router, billing_router, call_auth, call_billing, auth_http, billing_http,
  ran, assembled,
}

module _ {V : Type 0} (e : Setting) (parse_time : String → Option ℕ) (fl : Float64)
    (prices : List (String × fl.Carrier)) where
  pub data Step : World V → World V → Type 0 where
    -- A client of the proxy calls a server over the network.
    auth_called : {w : World V} (o : Outgoing) → Step w (call_auth e o w).1
    billing_called : {w : World V} (o : Outgoing) → Step w (call_billing e o w).1
    -- Anyone else's request reaches a server.
    auth_requested :
        {w : World V} (r : Request) → Step w (record w { auth = (auth_router e r w.auth).1 })
    billing_requested :
        {w : World V} (r : Request)
        → Step w (record w { billing = (billing_router e r w.billing).1 })
    -- The consumer of the billing service gets a message.
    delivered :
        {w : World V} (body : Payload)
        → Step w (record w {
          billing =
              (w.billing.0, (handle parse_time (billing_service fl prices) body w.billing.1).1);
        })
    -- Redis, RabbitMQ or the provider change, whoever uses them.
    elsewhere : {w : World V} (rest : V) → Step w (record w { rest = rest })

  -- Any number of steps.
  pub data Reach : World V → World V → Type 0 where
    here : {w : World V} → Reach w w
    after : {u v w : World V} → Step u v → Reach v w → Reach u w

  pub Reach-trans : {u v w : World V} → Reach u v → Reach v w → Reach u w
  Reach-trans here k = k
  Reach-trans (after s r) k = after s (Reach-trans r k)

  one : {u v : World V} → Step u v → Reach u v
  one s = after s here

  validate-Reach : (key : String) (w : World V) → Reach w (validate (auth_http e) key w).1
  validate-Reach key w =
      validate_keeps (Reach w) (auth_http e) key w here (λ t. one (auth_called (get_request t)))

  balance-Reach : (user : String) (w : World V) → Reach w (balance (billing_http e) user w).1
  balance-Reach user w =
      balance_keeps (Reach w) (billing_http e) user w here
        (λ t. one (billing_called (get_request t)))

  module _ (provider : LlmProvider V) (redis : Redis V) (rabbit : Broker V) (cache_ttl : ℤ)
      (sha256_hex : Json → String) where
    ran-Reach :
        (w w' : World V) (res : Result CompletionResponse)
        (x : Option (Result CompletionResponse × V))
        → ran e w x ≡ some (res, w')
        → Reach w w'
    ran-Reach w w' res none h = absurd (ground arith)
    ran-Reach w w' res (some (a, rest)) h =
        subst (Reach w)
          (ap
            (λ (o : Option (Result CompletionResponse × World V)). elim o as (λ _. World V) [
              | none ↦ w
              | some (_, v) ↦ v
            ])
            h)
          (one (elsewhere rest))

    proxy-IsKept : IsKept Reach (assembled e provider redis rabbit cache_ttl sha256_hex)
    unfolding assembled http_auth_client http_billing_client
    proxy-IsKept = record {
      stay = λ w. here;
      chain = Reach-trans;
      validate = validate-Reach;
      balance = balance-Reach;
      get = λ key w. one (elsewhere _);
      set = λ key doc ttl w. one (elsewhere _);
      flush_db = λ w. one (elsewhere _);
      publish = λ doc w. one (elsewhere _);
      list_models = λ w. one (elsewhere _);
      provider = λ req w w' res run. ran-Reach w w' res _ run;
    }

    -- A request that the deployed proxy answers is a sequence of steps of the other services, of
    -- Redis, RabbitMQ and the provider.
    pub router-Reach :
        (format_time : ℕ → String) (r : Request) (st st' : Stats) (w w' : World V) (resp : Response)
        → router
            (llm_service (assembled e provider redis rabbit cache_ttl sha256_hex))
            format_time
            r
            (st, w)
          ≡ some (resp, (st', w'))
        → Reach w w'
    router-Reach format_time r st st' w w' resp run =
        router-Rel Reach _ proxy-IsKept format_time r st st' w w' resp run
