-- ===== src/Tests/Services.antt =====
-- Runs of the services' routers and of their clients.
use llm_proxy_study_project.Prelude.{none, [], ◌∷◌, ◌≡◌, arith}
use llm_proxy_study_project.Prelude.Int.{pos}
use llm_proxy_study_project.Go.Http.{Request}
use llm_proxy_study_project.Stats.{new_stats}
use llm_proxy_study_project.Auth.Handler as Auth
use llm_proxy_study_project.Auth.Handler.Shapes as AuthShapes
use llm_proxy_study_project.Billing.Handler as Billing
use llm_proxy_study_project.Billing.Handler.Shapes as BillingShapes
use llm_proxy_study_project.LlmProxy.Service.{list_models}
use llm_proxy_study_project.Client
use llm_proxy_study_project.System.{billing_http}
use llm_proxy_study_project.System.Deposits.{DepositOutcome, deposit-DepositOutcome}
use llm_proxy_study_project.System.Models.{listed, models_through}
use llm_proxy_study_project.Tests.Auth.{crypto, db}
use llm_proxy_study_project.Tests.Billing.{db_up}
use llm_proxy_study_project.Tests.System.{Kept, setting, world, deployed, proxy_http, carries}

abbrev profile : Request
profile = record {
  method = "GET";
  path = "auth" ∷ "users" ∷ "me" ∷ [];
  query = λ name. "";
  authorization = "Bearer token";
  body = none;
  now = 0;
}

auth-IsAnswer_example :
    AuthShapes.IsAnswer profile
      (Auth.router crypto "s" (λ n. "") profile (new_stats "auth-service" "1.0.0" 0, db)).0
auth-IsAnswer_example =
    AuthShapes.auth-IsAnswer crypto "s" (λ n. "") profile (new_stats "auth-service" "1.0.0" 0, db)

abbrev history : Request
history = record {
  method = "GET";
  path = "billing" ∷ "transactions" ∷ "u1" ∷ [];
  query = λ name. "";
  authorization = "";
  body = none;
  now = 0;
}

billing-IsAnswer_example :
    BillingShapes.IsAnswer history
      (Billing.router (λ n. "") history (new_stats "billing-service" "1.0.0" 0, db_up)).0
billing-IsAnswer_example =
    BillingShapes.billing-IsAnswer (λ n. "") history (new_stats "billing-service" "1.0.0" 0, db_up)

deposit-DepositOutcome_example :
    DepositOutcome "u1"
      (pos 5)
      world
      none
      (Client.deposit (billing_http {V = Kept} setting) "u1" (pos 5) world)
deposit-DepositOutcome_example = deposit-DepositOutcome setting "u1" (pos 5) world (ground arith)

models_through_example :
    (Client.http_llm_proxy_client proxy_http).models (new_stats "llm-proxy" "1.0.0" 0, world)
    ≡ listed (new_stats "llm-proxy" "1.0.0" 0) (list_models deployed world)
models_through_example =
    models_through deployed (λ n. "") proxy_http (λ w. 0) (new_stats "llm-proxy" "1.0.0" 0, world)
      carries
