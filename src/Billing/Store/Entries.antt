-- ===== src/Billing/Store/Entries.antt =====
-- What the insertion of a transaction does to the tables of the billing service.
use llm_proxy_study_project.Prelude.{String, some, ◌∷◌, ◌≡◌, refl, false, arith}
use llm_proxy_study_project.Prelude.Int.{ℤ}
use llm_proxy_study_project.Go.Effect.{Result, ok, err, Error}
use llm_proxy_study_project.Go.Postgres.{
  Reply, Answers, sent_with, reply, Ran, faulted, refused, ran, statement-Ran, statement_faulted,
  statement-eq-ok, Sent,
}
use llm_proxy_study_project.Billing.Store.{
  Tables, Db, entry, insert_transaction, has_id, create_transaction,
}

-- A transaction has been added in front, with the given content, and no balance has moved.
pub record Logged (user tx_type : String) (amount : ℤ) (model : String) (tokens : ℤ) (db db' : Db)
    : Type 0 where
  pub balances : db'.tables.balances ≡ db.tables.balances
  pub transactions :
      db'.tables.transactions
      ≡ entry user tx_type amount model tokens (reply db) ∷ db.tables.transactions

pub data Created (user tx_type : String) (amount : ℤ) (model : String) (tokens : ℤ) (db : Db)
    : Result (Unit {0}) × Db → Type 0 where
  logged :
      {db' : Db}
      → Logged user tx_type amount model tokens db db'
      → Sent db db'
      → Created user tx_type amount model tokens db (ok tt, db')
  dropped :
      {e : Error} {db' : Db}
      → db'.tables ≡ db.tables
      → Sent db db'
      → Created user tx_type amount model tokens db (err e, db')

insert_transaction-eq-ok :
    (user tx_type : String) (amount : ℤ) (model : String) (tokens : ℤ) (r : Reply) (t u : Tables)
    (a : Unit {0})
    → insert_transaction user tx_type amount model tokens r t ≡ ok (a, u)
    → (u.balances ≡ t.balances)
      × (u.transactions ≡ entry user tx_type amount model tokens r ∷ t.transactions)
unfolding insert_transaction
insert_transaction-eq-ok user tx_type amount model tokens r t u a h = ground arith

insert_transaction-Created :
    (user tx_type : String) (amount : ℤ) (model : String) (tokens : ℤ) (db : Db)
    {r : Result (Unit {0}) × Db}
    → Ran (insert_transaction user tx_type amount model tokens) db r
    → Created user tx_type amount model tokens db r
insert_transaction-Created user tx_type amount model tokens db (faulted _) =
    dropped refl (record { sent = refl; replies = refl })
insert_transaction-Created user tx_type amount model tokens db (refused _ _) =
    dropped refl (record { sent = refl; replies = refl })
insert_transaction-Created user tx_type amount model tokens db (ran {a} {t} _ h) =
    let (balances, transactions) =
      insert_transaction-eq-ok user tx_type amount model tokens (reply db) db.tables t a h in
    logged (record { balances = balances; transactions = transactions })
      (record { sent = refl; replies = refl })

-- On every branch: the row is added, or the tables are as they were.
pub create_transaction-Created :
    (user tx_type : String) (amount : ℤ) (model : String) (tokens : ℤ) (db : Db)
    → Created user tx_type amount model tokens db
        (create_transaction user tx_type amount model tokens db)
unfolding create_transaction
create_transaction-Created user tx_type amount model tokens db =
    insert_transaction-Created user tx_type amount model tokens db
      (statement-Ran (insert_transaction user tx_type amount model tokens) db)

-- From a server that answers, an insertion whose id is new takes effect.
pub create_transaction_ok :
    (user tx_type : String) (amount : ℤ) (model : String) (tokens : ℤ) (db : Db)
    → Answers db
    → has_id (reply db).id db.tables.transactions ≡ false
    → create_transaction user tx_type amount model tokens db ≡ (
      ok tt,
      sent_with db (record (db.tables) {
        transactions = entry user tx_type amount model tokens (reply db) ∷ db.tables.transactions;
      }),
    )
unfolding create_transaction insert_transaction
create_transaction_ok user tx_type amount model tokens db fine fresh =
    statement-eq-ok (insert_transaction user tx_type amount model tokens) db fine (rw fresh refl)

pub create_transaction_faulted :
    (user tx_type : String) (amount : ℤ) (model : String) (tokens : ℤ) (db : Db) {e : Error}
    → (reply db).fault ≡ some e
    → create_transaction user tx_type amount model tokens db ≡ (err e, sent_with db db.tables)
unfolding create_transaction
create_transaction_faulted user tx_type amount model tokens db fault =
    statement_faulted (insert_transaction user tx_type amount model tokens) db fault
