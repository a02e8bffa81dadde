-- ===== src/Billing/Service/History.antt =====
-- The ledger that no statement of the billing store takes from.
use llm_proxy_study_project.Prelude.{String, [], ◌∷◌, ap}
use llm_proxy_study_project.Prelude.Int.{ℤ}
use llm_proxy_study_project.Go.Effect.{Result}
use llm_proxy_study_project.Billing.Store.{Tables, Db, update_balance, create_transaction}
use llm_proxy_study_project.Billing.Store.Laws.{Updated, moved, kept, update_balance-Updated}
use llm_proxy_study_project.Billing.Store.Entries.{
  Created, logged, dropped, create_transaction-Created,
}
use llm_proxy_study_project.Billing.Store.Extended.{IsExtended, IsExtended-same, IsExtended-trans}
use llm_proxy_study_project.Billing.Service.Keeping.{IsKept}

-- The ledger after extends the one before.
abbrev pub Extends : Tables → Tables → Type 0
Extends t t' = IsExtended t.transactions t'.transactions

update_balance-Extends :
    (user : String) (delta : ℤ) (db : Db)
    → Extends db.tables (update_balance user delta db).1.tables
update_balance-Extends user delta db = by_outcome (update_balance-Updated user delta db)
  where
    by_outcome :
        {x : Result (Unit {0}) × Db} → Updated user delta db x → Extends db.tables x.1.tables
    by_outcome (moved m _) = IsExtended-same m.transactions
    by_outcome (kept same _) = IsExtended-same (ap (λ (t : Tables). t.transactions) same)

create_transaction-Extends :
    (user tx_type : String) (amount : ℤ) (model : String) (tokens : ℤ) (db : Db)
    → Extends db.tables (create_transaction user tx_type amount model tokens db).1.tables
create_transaction-Extends user tx_type amount model tokens db =
    by_outcome (create_transaction-Created user tx_type amount model tokens db)
  where
    by_outcome :
        {x : Result (Unit {0}) × Db}
        → Created user tx_type amount model tokens db x
        → Extends db.tables x.1.tables
    by_outcome (logged l _) = record { added = _ ∷ []; grown = l.transactions }
    by_outcome (dropped same _) = IsExtended-same (ap (λ (t : Tables). t.transactions) same)

pub Extends-IsKept : IsKept Extends
Extends-IsKept = record {
  same = λ same. IsExtended-same (ap (λ (t : Tables). t.transactions) same);
  chain = IsExtended-trans;
  update_balance = update_balance-Extends;
  create_transaction = create_transaction-Extends;
}
