-- ===== src/Billing/Handler/Keeping.antt =====
-- What each handler of the billing service, and its router, leaves of the tables.
use llm_proxy_study_project.Prelude.{ℕ, String, Option, none, some, ◌≡◌, refl, ◌∙◌, not_both}
use llm_proxy_study_project.Prelude.Int.{ℤ}
use llm_proxy_study_project.Go.Effect.{Result, ok, err}
use llm_proxy_study_project.Go.Http.{Request, Response, write_json, write_error}
use llm_proxy_study_project.Stats.{Stats, stats_handler, middleware}
use llm_proxy_study_project.Billing.Store.{Db, Tables}
use llm_proxy_study_project.Billing.Store.Extended.{IsRead}
use llm_proxy_study_project.Billing.Service.Keeping.{
  IsKept, deposit-Leaves, balance-IsRead, usage-IsRead, transactions-IsRead,
}
use llm_proxy_study_project.Billing.Service
use llm_proxy_study_project.Billing.Handler.{
  decode_deposit, balance_answer, new_balance_answer, deposited, get_balance, deposit, get_usage,
  get_transactions, usage_json, transactions_json, route, router,
}
use llm_proxy_study_project.Billing.Handler.Routes.{
  Routed, missing, other_method, statistics, measured, healthy, deposits, balances, usages,
  histories, route-Routed,
}

-- An answer that is written from a result passes the tables on.
shown_tables :
    {A : Type 0} (good : A → Response) (db : Db) (x : Result A × Db)
    → IsRead db x
    → (elim x.0 as (λ _. Response × Db) [
      | err e ↦ (write_error 500 e, x.1)
      | ok a ↦ (good a, x.1)
    ]).1.tables
      ≡ db.tables
shown_tables good db (ok a, s) h = h.same
shown_tables good db (err e, s) h = h.same

balance_answer_tables :
    (user : String) (x : Result ℤ × Db) → (balance_answer user x).1.tables ≡ x.1.tables
balance_answer_tables user (ok b, s) = refl
balance_answer_tables user (err e, s) = refl

new_balance_answer_tables :
    (user : String) (x : Result ℤ × Db) → (new_balance_answer user x).1.tables ≡ x.1.tables
new_balance_answer_tables user (ok b, s) = refl
new_balance_answer_tables user (err e, s) = refl

get_balance_tables :
    (user : String) (r : Request) (db : Db) → (get_balance user r db).1.tables ≡ db.tables
unfolding get_balance
get_balance_tables user r db = balance_answer_tables user _ ∙ (balance-IsRead user db).same

get_usage_tables : (r : Request) (db : Db) → (get_usage r db).1.tables ≡ db.tables
unfolding get_usage
get_usage_tables r db =
    shown_tables (λ summary. write_json 200 (usage_json summary)) db _
      (usage-IsRead (r.query "user_id") _ db)

get_transactions_tables :
    (format_time : ℕ → String) (user : String) (r : Request) (db : Db)
    → (get_transactions format_time user r db).1.tables ≡ db.tables
unfolding get_transactions
get_transactions_tables format_time user r db =
    shown_tables (λ ts. write_json 200 (transactions_json format_time ts)) db _
      (transactions-IsRead user db)

module _ (Rel : Tables → Tables → Type 0) (h : IsKept Rel) where
  deposited-Rel :
      (user : String) (t : Tables) (x : Result (Unit {0}) × Db)
      → Rel t x.1.tables
      → Rel t (deposited user x).1.tables
  deposited-Rel user t (err e, s) before = before
  deposited-Rel user t (ok _, s) before =
      h.chain before (h.same (new_balance_answer_tables user _ ∙ (balance-IsRead user s).same))

  deposit-Rel : (r : Request) (db : Db) → Rel db.tables (deposit r db).1.tables
  unfolding deposit
  deposit-Rel r db = by_body (decode_deposit r.body)
    where
      by_body :
          (o : Option (String × ℤ))
          → Rel db.tables
              (elim o as (λ _. Response × Db) [
                | none ↦ (write_error 400 "invalid body", db)
                | some (user, amount) ↦ deposited user (Service.deposit user amount db)
              ]).1.tables
      by_body none = h.same refl
      by_body (some (user, amount)) =
          deposited-Rel user db.tables _ (deposit-Leaves Rel h user amount db)

  -- What a route leaves: related tables, and the statistics as they were.
  pub record KeepsIn (st : Stats) (db : Db) (x : Response × (Stats × Db)) : Type 0 where
    pub later : Rel db.tables x.1.1.tables
    pub counts : x.1.0 ≡ st

  module _ (format_time : ℕ → String) (r : Request) (st : Stats) (db : Db) where
    kept : {x : Response × Db} → x.1.tables ≡ db.tables → KeepsIn st db (x.0, (st, x.1))
    kept same = record { later = h.same same; counts = refl }

    Routed-KeepsIn : {x : Response × (Stats × Db)} → Routed format_time r st db x → KeepsIn st db x
    unfolding stats_handler
    Routed-KeepsIn missing = kept refl
    Routed-KeepsIn other_method = kept refl
    Routed-KeepsIn (statistics _ _) = kept refl
    Routed-KeepsIn (measured _ _) = kept refl
    Routed-KeepsIn (healthy _ _) = kept refl
    Routed-KeepsIn (deposits _ _) = record { later = deposit-Rel r db; counts = refl }
    Routed-KeepsIn (balances user _ _) = kept (get_balance_tables user r db)
    Routed-KeepsIn (usages _ _) = kept (get_usage_tables r db)
    Routed-KeepsIn (histories user _ _) = kept (get_transactions_tables format_time user r db)

  pub route-KeepsIn :
      (format_time : ℕ → String) (r : Request) (st : Stats) (db : Db)
      → KeepsIn st db (route format_time r (st, db))
  route-KeepsIn format_time r st db =
      Routed-KeepsIn format_time r st db (route-Routed format_time r st db)

  -- A request to the billing service, whatever it is, leaves related tables.
  pub router-Rel :
      (format_time : ℕ → String) (r : Request) (s : Stats × Db)
      → Rel s.1.tables (router format_time r s).1.1.tables
  unfolding router middleware
  router-Rel format_time r (st, db) = (route-KeepsIn format_time r st db).later

module _ (format_time : ℕ → String) (r : Request) (st : Stats) (db : Db) where
  Routed_get :
      {x : Response × (Stats × Db)}
      → Routed format_time r st db x
      → r.method ≡ "GET"
      → x.1.1.tables ≡ db.tables
  unfolding stats_handler
  Routed_get missing get = refl
  Routed_get other_method get = refl
  Routed_get (statistics _ _) get = refl
  Routed_get (measured _ _) get = refl
  Routed_get (healthy _ _) get = refl
  Routed_get (deposits post _) get = not_both r.method "POST" "GET" refl post get
  Routed_get (balances user _ _) get = get_balance_tables user r db
  Routed_get (usages _ _) get = get_usage_tables r db
  Routed_get (histories user _ _) get = get_transactions_tables format_time user r db

-- A GET request to the billing service changes no table.
pub router_get :
    (format_time : ℕ → String) (r : Request) (s : Stats × Db)
    → r.method ≡ "GET"
    → (router format_time r s).1.1.tables ≡ s.1.tables
unfolding router middleware
router_get format_time r (st, db) get =
    Routed_get format_time r st db (route-Routed format_time r st db) get
