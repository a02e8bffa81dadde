-- ===== src/System.antt =====
-- The deployed services and the network between them: internal/llmproxy with the HTTP clients of
-- pkg/client (cmd/llm-proxy), over the routers of internal/auth and internal/billing. A call may
-- fail before the server has it, or after the server has handled it.
pub mod Links
pub mod Balances
pub mod Paid
pub mod Charged
pub mod Anonymous
pub mod Steps
pub mod Keeping
pub mod History
pub mod Revoked
pub mod Uncharged
pub mod Deposits
pub mod Models
use llm_proxy_study_project.Prelude.{ℕ, suc, String, Option, none, some, List, [], ◌∷◌}
use llm_proxy_study_project.Prelude.Int.{ℤ}
use llm_proxy_study_project.Go.Effect.{Error, Result, ok, err, Op}
use llm_proxy_study_project.Go.Json.{Json, Payload}
use llm_proxy_study_project.Go.Http.{Request, Response, Handler}
use llm_proxy_study_project.Stats.{Stats}
use llm_proxy_study_project.Auth.Store
use llm_proxy_study_project.Auth.Service.{Crypto}
use llm_proxy_study_project.Auth.Handler
use llm_proxy_study_project.Billing.Store as BillingStore
use llm_proxy_study_project.Billing.Handler as BillingHandler
use llm_proxy_study_project.LlmProxy.Provider.{
  LlmProvider, CompletionRequest, CompletionResponse, Run,
}
use llm_proxy_study_project.LlmProxy.Service.{Service, Redis, Broker}
use llm_proxy_study_project.Client.{Outgoing, HttpClient, http_auth_client, http_billing_client}

pub data Fault : Type 0 where
  unsent : Error → Fault
  unanswered : Error → Fault

-- The state of the auth service, that of the billing service, what Redis, RabbitMQ and the provider
-- keep, and the number of HTTP calls so far.
pub record World (V : Type 0) : Type 0 where
  pub auth : Stats × Store.Db
  pub billing : Stats × BillingStore.Db
  pub rest : V
  pub calls : ℕ

-- What the deployment is given: the auth service's secrets, the network's faults and the time of
-- each HTTP call, and the texts of errors and of times.
pub record Setting : Type 0 where
  pub crypto : Crypto
  pub jwt_secret : String
  pub format_time : ℕ → String
  pub network : ℕ → Option Fault
  pub clock : ℕ → ℕ
  pub url_error : String → Error
  pub body_error : Payload → Error

abbrev pub received : ℕ → Outgoing → Request
received now o = record {
  method = o.method;
  path = (o.target).path;
  query = (o.target).query;
  authorization = o.authorization;
  body = o.body;
  now = now;
}

-- A call of a server: what the client gets of it.
abbrev pub exchange : {S : Type 0} → Option Fault → Handler S → Request → S → Result Response × S
exchange none handler r s = let (response, s') = handler r s in (ok response, s')
exchange (some (unsent msg)) handler r s = (err msg, s)
exchange (some (unanswered msg)) handler r s = (err msg, (handler r s).1)

module _ (e : Setting) where
  abbrev pub auth_router : Handler (Stats × Store.Db)
  auth_router = Handler.router e.crypto e.jwt_secret e.format_time

  abbrev pub billing_router : Handler (Stats × BillingStore.Db)
  billing_router = BillingHandler.router e.format_time

module _ {V : Type 0} (e : Setting) where
  abbrev pub call_auth : Outgoing → Op (World V) Response
  call_auth o w =
      let (res, auth) =
        exchange (e.network w.calls) (auth_router e) (received (e.clock w.calls) o) w.auth in
      (res, record w { auth = auth; calls = suc w.calls })

  abbrev pub call_billing : Outgoing → Op (World V) Response
  call_billing o w =
      let (res, billing) =
        exchange (e.network w.calls) (billing_router e) (received (e.clock w.calls) o) w.billing in
      (res, record w { billing = billing; calls = suc w.calls })

  abbrev pub auth_http : HttpClient (World V)
  auth_http = record { do_request = call_auth; url_error = e.url_error; body_error = e.body_error }

  abbrev pub billing_http : HttpClient (World V)
  billing_http = record {
    do_request = call_billing;
    url_error = e.url_error;
    body_error = e.body_error;
  }

  -- A call of what the rest of the world keeps.
  abbrev pub on_rest : {A : Type 0} → Op V A → Op (World V) A
  on_rest f w = let (a, rest) = f w.rest in (a, record w { rest = rest })

  abbrev pub ran : {A : Type 0} → World V → Option (Result A × V) → Option (Result A × World V)
  ran w none = none
  ran w (some (a, rest)) = some (a, record w { rest = rest })

  -- The proxy's service as main assembles it.
  unfoldable pub assembled :
      LlmProvider V → Redis V → Broker V → ℤ → (Json → String) → Service (World V)
  assembled provider redis rabbit cache_ttl sha256_hex = record {
    provider = record {
      complete = λ req w. ran w (provider.complete req w.rest);
      list_models = on_rest provider.list_models;
    };
    auth_client = http_auth_client auth_http;
    billing_client = http_billing_client billing_http;
    redis = record {
      get = λ key. on_rest (redis.get key);
      set = λ key doc ttl. on_rest (redis.set key doc ttl);
      flush_db = on_rest redis.flush_db;
    };
    rabbit = record {
      publish = λ doc. on_rest (rabbit.publish doc);
      timestamp = λ w. rabbit.timestamp w.rest;
    };
    cache_ttl = cache_ttl;
    sha256_hex = sha256_hex;
  }
