-- ===== src/Billing/Service/Posting.antt =====
-- The part that Deposit and RecordUsage share: an UPDATE of the balance, then an INSERT of a
-- transaction, as two statements outside a database transaction.
use llm_proxy_study_project.Prelude.{String, ◌∷◌, ◌≡◌, ◌∙◌, ap, ◌==◌, if◌then◌else◌}
use llm_proxy_study_project.Prelude.Int.{ℤ, pos, ◌+ℤ◌}
use llm_proxy_study_project.Go.Effect.{Error, Result, ok, err, Op, ◌>>◌, then_run}
use llm_proxy_study_project.Go.Postgres.{Reply, reply}
use llm_proxy_study_project.Billing.Store.{
  Db, Tables, entry, update_balance, create_transaction, amount_of, or_zero,
}
use llm_proxy_study_project.Billing.Store.Laws.{
  balance_of, Moved, Updated, moved, kept, update_balance-Updated,
}
use llm_proxy_study_project.Billing.Store.Entries.{
  Created, logged, dropped, create_transaction-Created,
}
use llm_proxy_study_project.Billing.Service.{deposit}

abbrev pub post : String → ℤ → String → ℤ → String → ℤ → Op Db (Unit {0})
post user delta tx_type amount model tokens =
    update_balance user delta >> create_transaction user tx_type amount model tokens

-- What a posting can come to: all of it, none of it, or the balance without the transaction.
pub data Posted (user : String) (delta : ℤ) (tx_type : String) (amount : ℤ) (model : String)
    (tokens : ℤ) (db : Db) : Result (Unit {0}) × Db → Type 0 where
  posted :
      {db' : Db} (r : Reply)
      → ((j : String)
          → balance_of j db' ≡ (if user == j then balance_of user db +ℤ delta else balance_of j db))
      → db'.tables.transactions ≡ entry user tx_type amount model tokens r ∷ db.tables.transactions
      → Posted user delta tx_type amount model tokens db (ok tt, db')
  untouched :
      {e : Error} {db' : Db}
      → db'.tables ≡ db.tables
      → Posted user delta tx_type amount model tokens db (err e, db')
  unlogged :
      {e : Error} {db' : Db}
      → Moved user delta db db'
      → Posted user delta tx_type amount model tokens db (err e, db')

after_update :
    (user : String) (delta : ℤ) (tx_type : String) (amount : ℤ) (model : String) (tokens : ℤ)
    (db : Db) {db' : Db} {r : Result (Unit {0}) × Db}
    → Moved user delta db db'
    → Created user tx_type amount model tokens db' r
    → Posted user delta tx_type amount model tokens db r
after_update user delta tx_type amount model tokens db {db'} m (logged l _) =
    posted (reply db') (λ j. ap (λ bs. or_zero (amount_of j bs)) l.balances ∙ m.balance j)
      (l.transactions
        ∙ ap (λ ts. entry user tx_type amount model tokens (reply db') ∷ ts) m.transactions)
after_update user delta tx_type amount model tokens db m (dropped same _) = unlogged (record {
  balance = λ j. ap (λ (t : Tables). or_zero (amount_of j t.balances)) same ∙ m.balance j;
  transactions = ap (λ (t : Tables). t.transactions) same ∙ m.transactions;
  fits = m.fits;
})

post_of_Updated :
    (user : String) (delta : ℤ) (tx_type : String) (amount : ℤ) (model : String) (tokens : ℤ)
    (db : Db) {r : Result (Unit {0}) × Db}
    → Updated user delta db r
    → Posted user delta tx_type amount model tokens db
        (then_run (λ _. create_transaction user tx_type amount model tokens) r)
post_of_Updated user delta tx_type amount model tokens db (moved {db'} m _) =
    after_update user delta tx_type amount model tokens db m
      (create_transaction-Created user tx_type amount model tokens db')
post_of_Updated user delta tx_type amount model tokens db (kept same _) = untouched same

pub post-Posted :
    (user : String) (delta : ℤ) (tx_type : String) (amount : ℤ) (model : String) (tokens : ℤ)
    (db : Db)
    → Posted user delta tx_type amount model tokens db
        (post user delta tx_type amount model tokens db)
post-Posted user delta tx_type amount model tokens db =
    post_of_Updated user delta tx_type amount model tokens db (update_balance-Updated user delta db)

-- Deposit on every branch: on success the user's balance alone has risen by the amount and one
-- deposit of it is recorded; on an error either no table has changed, or the balance has risen and
-- no transaction is recorded.
pub deposit-Posted :
    (user : String) (amount : ℤ) (db : Db)
    → Posted user amount "deposit" amount "" (pos 0) db (deposit user amount db)
unfolding deposit
deposit-Posted user amount db = post-Posted user amount "deposit" amount "" (pos 0) db
