-- ===== src/Billing/Service/Keeping.antt =====
-- Relations between tables that every statement of the billing store keeps are kept by the service.
use llm_proxy_study_project.Prelude.{String, List, Bool, true, false, ◌≡◌, refl, sym, subst}
use llm_proxy_study_project.Prelude.Int.{ℤ, pos}
use llm_proxy_study_project.Go.Effect.{Result, ok, err, Op, then_run}
use llm_proxy_study_project.Go.Float.{Float64}
use llm_proxy_study_project.Billing.Store.{Tables, Db}
use llm_proxy_study_project.Billing.Store
use llm_proxy_study_project.Billing.Store.Extended.{
  IsRead, get_balance-IsRead, get_usage-IsRead, get_transactions-IsRead,
}
use llm_proxy_study_project.Billing.Service.Posting.{post}
use llm_proxy_study_project.Billing.Service.Charge.{charge, record_usage_lem}
use llm_proxy_study_project.Go.Postgres.{sent_with}
use llm_proxy_study_project.Billing.Service.{
  get_balance, deposit, get_usage, get_transactions, record_usage,
}

-- A relation from the tables before to the tables after, which each statement keeps.
pub record IsKept (Rel : Tables → Tables → Type 0) : Type 0 where
  pub same : {t t' : Tables} → t' ≡ t → Rel t t'
  pub chain : {t u v : Tables} → Rel t u → Rel u v → Rel t v
  pub update_balance :
      (user : String) (delta : ℤ) (db : Db)
      → Rel db.tables (Store.update_balance user delta db).1.tables
  pub create_transaction :
      (user tx_type : String) (amount : ℤ) (model : String) (tokens : ℤ) (db : Db)
      → Rel db.tables (Store.create_transaction user tx_type amount model tokens db).1.tables

-- The reading operations change no table.
pub balance-IsRead : (user : String) (db : Db) → IsRead db (get_balance user db)
unfolding get_balance
balance-IsRead user db = get_balance-IsRead user db

pub usage-IsRead : (user period : String) (db : Db) → IsRead db (get_usage user period db)
unfolding get_usage
usage-IsRead user period db = get_usage-IsRead user period db

pub transactions-IsRead : (user : String) (db : Db) → IsRead db (get_transactions user db)
unfolding get_transactions
transactions-IsRead user db = get_transactions-IsRead user db

module _ (Rel : Tables → Tables → Type 0) (h : IsKept Rel) where
  -- What an operation leaves, whatever it returns.
  abbrev pub Leaves : {A : Type 0} → Tables → Result A × Db → Type 0
  Leaves t x = Rel t x.1.tables

  then-Leaves :
      {A B : Type 0} (k : A → Op Db B) (t : Tables) (x : Result A × Db)
      → Leaves t x
      → ((a : A) (s : Db) → Leaves s.tables (k a s))
      → Leaves t (then_run k x)
  then-Leaves k t (ok a, s) before next = h.chain before (next a s)
  then-Leaves k t (err e, s) before next = before

  post-Leaves :
      (user : String) (delta : ℤ) (tx_type : String) (amount : ℤ) (model : String) (tokens : ℤ)
      (db : Db)
      → Leaves db.tables (post user delta tx_type amount model tokens db)
  post-Leaves user delta tx_type amount model tokens db =
      then-Leaves (λ _. Store.create_transaction user tx_type amount model tokens) db.tables
        (Store.update_balance user delta db) (h.update_balance user delta db)
        (λ _ s. h.create_transaction user tx_type amount model tokens s)

  pub deposit-Leaves :
      (user : String) (amount : ℤ) (db : Db) → Leaves db.tables (deposit user amount db)
  unfolding deposit
  deposit-Leaves user amount db = post-Leaves user amount "deposit" amount "" (pos 0) db

  module _ (fl : Float64) (prices : List (String × fl.Carrier)) where
    charge-Leaves :
        (user model : String) (tokens : ℤ) (short : Bool) (db : Db)
        → Leaves db.tables (charge fl prices user model tokens short db)
    charge-Leaves user model tokens true db = h.same refl
    charge-Leaves user model tokens false db = post-Leaves user _ "usage" _ model tokens db

    pub record_usage-Leaves :
        (user model : String) (tokens : ℤ) (db : Db)
        → Leaves db.tables (record_usage fl prices user model tokens db)
    record_usage-Leaves user model tokens db =
        subst (Leaves db.tables) (sym (record_usage_lem fl prices user model tokens db))
          (h.chain (h.same refl) (charge-Leaves user model tokens _ (sent_with db db.tables)))
