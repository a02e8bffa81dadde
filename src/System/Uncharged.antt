-- ===== src/System/Uncharged.antt =====
-- What a request to the deployed proxy does to the databases of the other services.
use llm_proxy_study_project.Prelude.{ℕ, String, Option, none, some, ◌≡◌, refl, ◌∙◌, subst, arith}
use llm_proxy_study_project.Prelude.Int.{ℤ}
use llm_proxy_study_project.Go.Effect.{Result}
use llm_proxy_study_project.Go.Json.{Json}
use llm_proxy_study_project.Go.Url.{Target}
use llm_proxy_study_project.Go.Http.{Request, Response}
use llm_proxy_study_project.Stats.{Stats}
use llm_proxy_study_project.Auth.Store
use llm_proxy_study_project.Auth.Handler.Reading as Auth
use llm_proxy_study_project.Billing.Store.{Db}
use llm_proxy_study_project.Billing.Handler.Keeping as Billing
use llm_proxy_study_project.LlmProxy.Provider.{LlmProvider, CompletionResponse}
use llm_proxy_study_project.LlmProxy.Service.{Redis, Broker}
use llm_proxy_study_project.LlmProxy.Service.Keeping.{IsKept}
use llm_proxy_study_project.LlmProxy.Handler.{llm_service, router}
use llm_proxy_study_project.LlmProxy.Handler.Keeping.{router-Rel}
use llm_proxy_study_project.Client.{get_request, http_auth_client, http_billing_client}
use llm_proxy_study_project.Client.Keeping.{validate_keeps, balance_keeps}
use llm_proxy_study_project.System.{
  World, Setting, auth_router, billing_router, received, call_auth, call_billing, auth_http,
  billing_http, ran, assembled,
}
use llm_proxy_study_project.System.Keeping.{exchange_lem}

-- The tables of both services are the same.
pub record IsUntouched {V : Type 0} (w w' : World V) : Type 0 where
  pub auth : w'.auth.1.tables ≡ w.auth.1.tables
  pub billing : w'.billing.1.tables ≡ w.billing.1.tables

IsUntouched-refl : {V : Type 0} (w : World V) → IsUntouched w w
IsUntouched-refl w = record { auth = refl; billing = refl }

IsUntouched-trans :
    {V : Type 0} {u v w : World V} → IsUntouched u v → IsUntouched v w → IsUntouched u w
IsUntouched-trans a b = record { auth = b.auth ∙ a.auth; billing = b.billing ∙ a.billing }

module _ {V : Type 0} (e : Setting) (provider : LlmProvider V) (redis : Redis V) (rabbit : Broker V)
    (cache_ttl : ℤ) (sha256_hex : Json → String) where
  call_auth-IsUntouched :
      (w : World V) (t : Target) → IsUntouched w (call_auth e (get_request t) w).1
  call_auth-IsUntouched w t = record {
    auth =
        exchange_lem (λ (s : Stats × Store.Db). s.1.tables ≡ w.auth.1.tables) (e.network w.calls)
          (auth_router e) (received (e.clock w.calls) (get_request t)) w.auth refl
          (Auth.router_get e.crypto e.jwt_secret e.format_time _ w.auth refl);
    billing = refl;
  }

  call_billing-IsUntouched :
      (w : World V) (t : Target) → IsUntouched w (call_billing e (get_request t) w).1
  call_billing-IsUntouched w t = record {
    auth = refl;
    billing =
        exchange_lem (λ (s : Stats × Db). s.1.tables ≡ w.billing.1.tables) (e.network w.calls)
          (billing_router e) (received (e.clock w.calls) (get_request t)) w.billing refl
          (Billing.router_get e.format_time _ w.billing refl);
  }

  ran-IsUntouched :
      (w w' : World V) (res : Result CompletionResponse)
      (x : Option (Result CompletionResponse × V))
      → ran e w x ≡ some (res, w')
      → IsUntouched w w'
  ran-IsUntouched w w' res none h = absurd (ground arith)
  ran-IsUntouched w w' res (some (a, rest)) h =
      let left : record w { rest = rest } ≡ w' = cc in
      subst (IsUntouched w) left (record { auth = refl; billing = refl })

  proxy-IsKept : IsKept IsUntouched (assembled e provider redis rabbit cache_ttl sha256_hex)
  unfolding assembled http_auth_client http_billing_client
  proxy-IsKept = record {
    stay = IsUntouched-refl;
    chain = IsUntouched-trans;
    validate = λ key w.
        validate_keeps (IsUntouched w) (auth_http e) key w (IsUntouched-refl w)
          (call_auth-IsUntouched w);
    balance = λ user w.
        balance_keeps (IsUntouched w) (billing_http e) user w (IsUntouched-refl w)
          (call_billing-IsUntouched w);
    get = λ key w. record { auth = refl; billing = refl };
    set = λ key doc ttl w. record { auth = refl; billing = refl };
    flush_db = λ w. record { auth = refl; billing = refl };
    publish = λ doc w. record { auth = refl; billing = refl };
    list_models = λ w. record { auth = refl; billing = refl };
    provider = λ req w w' res run. ran-IsUntouched w w' res _ run;
  }

  -- A request that the deployed proxy answers, whatever it asks and whatever the network does,
  -- changes no table of the auth service and none of the billing service: a completion that has
  -- been served has taken nothing from the balance, and has reserved nothing of it.
  pub router-IsUntouched :
      (format_time : ℕ → String) (r : Request) (st st' : Stats) (w w' : World V) (resp : Response)
      → router
          (llm_service (assembled e provider redis rabbit cache_ttl sha256_hex))
          format_time
          r
          (st, w)
        ≡ some (resp, (st', w'))
      → IsUntouched w w'
  router-IsUntouched format_time r st st' w w' resp run =
      router-Rel IsUntouched _ proxy-IsKept format_time r st st' w w' resp run
