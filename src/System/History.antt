-- ===== src/System/History.antt =====
-- What no step of the deployed services undoes.
use llm_proxy_study_project.Prelude.{ℕ, String, Option, List}
use llm_proxy_study_project.Go.Float.{Float64}
use llm_proxy_study_project.Auth.Service.Later.{IsLater}
use llm_proxy_study_project.Auth.Service.History as Auth
use llm_proxy_study_project.Billing.Store.Extended.{IsExtended}
use llm_proxy_study_project.Billing.Service.History as Billing
use llm_proxy_study_project.System.{World, Setting}
use llm_proxy_study_project.System.Steps.{Reach}
use llm_proxy_study_project.System.Keeping.{Reach-AreRelated}

-- A world that comes after another: of the auth service nothing is lost and no revocation is undone,
-- and the ledger of the billing service has only been added to.
pub record IsAfter {V : Type 0} (w w' : World V) : Type 0 where
  pub auth : IsLater w.auth.1.tables w'.auth.1.tables
  pub ledger : IsExtended w.billing.1.tables.transactions w'.billing.1.tables.transactions

module _ {V : Type 0} (e : Setting) (parse_time : String → Option ℕ) (fl : Float64)
    (prices : List (String × fl.Carrier)) where
  -- However the requests to the services, the deliveries to the consumer and what happens in Redis,
  -- RabbitMQ and at the provider interleave, and whatever the network and the databases do: no user
  -- and no key is lost, no key changes its owner, no revocation is undone, and the ledger of
  -- transactions is only added to.
  pub Reach-IsAfter : {w w' : World V} → Reach e parse_time fl prices w w' → IsAfter w w'
  Reach-IsAfter steps =
      let related =
        Reach-AreRelated IsLater Billing.Extends Auth.IsLater-IsKept Billing.Extends-IsKept e
          parse_time fl prices steps in
      record { auth = related.auth; ledger = related.billing }
