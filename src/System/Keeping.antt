-- ===== src/System/Keeping.antt =====
-- Relations that every statement of a store keeps, over the steps of the deployed services.
use llm_proxy_study_project.Prelude.{ℕ, String, Option, none, some, List, refl}
use llm_proxy_study_project.Go.Float.{Float64}
use llm_proxy_study_project.Go.Http.{Request, Handler}
use llm_proxy_study_project.Stats.{Stats}
use llm_proxy_study_project.Auth.Store as AuthStore
use llm_proxy_study_project.Auth.Service.Keeping as AuthKeeping
use llm_proxy_study_project.Auth.Handler.Keeping as AuthHandler
use llm_proxy_study_project.Billing.Store as BillingStore
use llm_proxy_study_project.Billing.Service.Keeping as BillingKeeping
use llm_proxy_study_project.Billing.Handler.Keeping.{router-Rel}
use llm_proxy_study_project.Billing.Consumer.Keeping.{handle-Rel}
use llm_proxy_study_project.System.{
  World, Setting, Fault, unsent, unanswered, auth_router, billing_router, received, exchange,
}
use llm_proxy_study_project.System.Steps.{
  Step, auth_called, billing_called, auth_requested, billing_requested, delivered, elsewhere, Reach,
  here, after,
}

-- Whether the network loses the call or its answer, the server has handled it or not.
pub exchange_lem :
    {S : Type 0} (P : S → Type 0) (fault : Option Fault) (handler : Handler S) (r : Request) (s : S)
    → P s
    → P (handler r s).1
    → P (exchange fault handler r s).1
exchange_lem P none handler r s old new = new
exchange_lem P (some (unsent msg)) handler r s old new = old
exchange_lem P (some (unanswered msg)) handler r s old new = new

module _ {V : Type 0} (AuthRel : AuthStore.Tables → AuthStore.Tables → Type 0)
    (BillingRel : BillingStore.Tables → BillingStore.Tables → Type 0) where
  -- The tables of both services are related to those before.
  pub record AreRelated (w w' : World V) : Type 0 where
    pub auth : AuthRel w.auth.1.tables w'.auth.1.tables
    pub billing : BillingRel w.billing.1.tables w'.billing.1.tables

  module _ (a : AuthKeeping.IsKept AuthRel) (b : BillingKeeping.IsKept BillingRel) (e : Setting)
      (parse_time : String → Option ℕ) (fl : Float64) (prices : List (String × fl.Carrier)) where
    Step-AreRelated : {w w' : World V} → Step e parse_time fl prices w w' → AreRelated w w'
    Step-AreRelated (auth_called {w} o) = record {
      auth =
          exchange_lem (λ (s : Stats × AuthStore.Db). AuthRel w.auth.1.tables s.1.tables)
            (e.network w.calls) (auth_router e) (received (e.clock w.calls) o) w.auth (a.same refl)
            (AuthHandler.router-Rel AuthRel a e.crypto e.jwt_secret e.format_time
              (received (e.clock w.calls) o) w.auth);
      billing = b.same refl;
    }
    Step-AreRelated (billing_called {w} o) = record {
      auth = a.same refl;
      billing =
          exchange_lem (λ (s : Stats × BillingStore.Db). BillingRel w.billing.1.tables s.1.tables)
            (e.network w.calls) (billing_router e) (received (e.clock w.calls) o) w.billing
            (b.same refl)
            (router-Rel BillingRel b e.format_time (received (e.clock w.calls) o) w.billing);
    }
    Step-AreRelated (auth_requested {w} r) = record {
      auth = AuthHandler.router-Rel AuthRel a e.crypto e.jwt_secret e.format_time r w.auth;
      billing = b.same refl;
    }
    Step-AreRelated (billing_requested {w} r) = record {
      auth = a.same refl;
      billing = router-Rel BillingRel b e.format_time r w.billing;
    }
    Step-AreRelated (delivered {w} body) = record {
      auth = a.same refl;
      billing = handle-Rel BillingRel b parse_time fl prices body w.billing.1;
    }
    Step-AreRelated (elsewhere _) = record { auth = a.same refl; billing = b.same refl }

    pub Reach-AreRelated : {w w' : World V} → Reach e parse_time fl prices w w' → AreRelated w w'
    Reach-AreRelated here = record { auth = a.same refl; billing = b.same refl }
    Reach-AreRelated (after s r) =
        let first = Step-AreRelated s in
        let rest = Reach-AreRelated r in
        record { auth = a.chain first.auth rest.auth; billing = b.chain first.billing rest.billing }
