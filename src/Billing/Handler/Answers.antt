-- ===== src/Billing/Handler/Answers.antt =====
-- What the billing endpoints answer, and what they leave of the tables.
use llm_proxy_study_project.Prelude.{
  ℕ, suc, eq_refl, String, ◌==◌, none, some, false, [], ◌∷◌, ◌≡◌, refl, sym, ap, ◌∙◌, if◌then◌else◌,
}
use llm_proxy_study_project.Prelude.Int.{ℤ, pos, ◌+ℤ◌}
use llm_proxy_study_project.Go.Effect.{ok, then_run}
use llm_proxy_study_project.Go.Int64.{IsInt64}
use llm_proxy_study_project.Go.Http.{Request, write_json}
use llm_proxy_study_project.Go.Postgres.{reply, sent_with}
use llm_proxy_study_project.Stats.{Stats, record_status, middleware}
use llm_proxy_study_project.Billing.Store.{Tables, Db, has_id, entry, upsert, create_transaction}
use llm_proxy_study_project.Billing.Store.Laws.{
  balance_of, read_balance, get_balance_lem, update_balance_ok, balance-upsert,
}
use llm_proxy_study_project.Billing.Store.Entries.{create_transaction_ok}
use llm_proxy_study_project.Billing.Service
use llm_proxy_study_project.Billing.Handler.{
  balance_json, balance_answer, new_balance_answer, get_balance, deposit, deposited, decode_deposit,
  router, route,
}

get_balance_answer :
    (user : String) (r : Request) (db : Db)
    → get_balance user r db
      ≡ (write_json 200 (balance_json user (read_balance user db)), sent_with db db.tables)
unfolding get_balance Service.get_balance
get_balance_answer user r db = ap (balance_answer user) (get_balance_lem user db)

-- The tables once a deposit of the amount has been made.
abbrev deposit_tables : String → ℤ → Db → Tables
deposit_tables user amount db = record (db.tables) {
  balances = upsert user amount (reply db).now db.tables.balances;
  transactions =
      entry user "deposit" amount "" (pos 0) (db.replies (suc db.sent)) ∷ db.tables.transactions;
}

abbrev deposit_pool : String → ℤ → Db → Db
deposit_pool user amount db = sent_with (sent_with db db.tables) (deposit_tables user amount db)

-- The server answers a deposit of the amount and the query after it, has a new id for the
-- transaction, and the new balance is an int64.
pub record IsTakingDeposit (user : String) (amount : ℤ) (db : Db) : Type 0 where
  pub answers : (n : ℕ) → (db.replies n).fault ≡ none
  pub fits : IsInt64 (balance_of user db +ℤ amount)
  pub fresh : has_id (db.replies (suc db.sent)).id db.tables.transactions ≡ false

deposit_lem :
    (user : String) (amount : ℤ) (db : Db)
    → IsTakingDeposit user amount db
    → Service.deposit user amount db ≡ (ok tt, deposit_pool user amount db)
unfolding Service.deposit
deposit_lem user amount db h =
    ap (then_run (λ _. create_transaction user "deposit" amount "" (pos 0)))
      (update_balance_ok user amount db (h.answers db.sent) h.fits)
    ∙ create_transaction_ok user "deposit" amount "" (pos 0) _ (h.answers (suc db.sent)) h.fresh

balance_deposited :
    (user : String) (amount : ℤ) (db : Db)
    → balance_of user (deposit_pool user amount db) ≡ balance_of user db +ℤ amount
balance_deposited user amount db =
    balance-upsert user user amount (reply db).now db.tables.balances
    ∙ ap (λ b. if b then balance_of user db +ℤ amount else balance_of user db) (eq_refl user)

read_deposited :
    (user : String) (amount : ℤ) (db : Db)
    → IsTakingDeposit user amount db
    → read_balance user (deposit_pool user amount db) ≡ balance_of user db +ℤ amount
read_deposited user amount db h =
    rw (h.answers (suc (suc db.sent)), read_balance) (balance_deposited user amount db)

deposit_answer :
    (user : String) (amount : ℤ) (r : Request) (db : Db)
    → decode_deposit r.body ≡ some (user, amount)
    → IsTakingDeposit user amount db
    → deposit r db ≡ (
      write_json 200 (balance_json user (balance_of user db +ℤ amount)),
      sent_with (deposit_pool user amount db) (deposit_tables user amount db),
    )
unfolding deposit Service.get_balance
deposit_answer user amount r db body h =
    let made = deposit_lem user amount db h in
    rw (deposit, body)
      (ap (deposited user) made
        ∙ ap (new_balance_answer user) (get_balance_lem user (deposit_pool user amount db))
        ∙ ap
            (λ b. (
              write_json 200 (balance_json user b),
              sent_with (deposit_pool user amount db) (deposit_tables user amount db),
            ))
            (read_deposited user amount db h))

-- The deposit endpoint, for a body that decodes, takes an amount of either sign, from a server
-- that answers, has a new id for the transaction, and holds the new balance in a BIGINT: the
-- response has status 200, and the balance that it shows is the one that the tables then hold, the
-- old one plus the amount.
pub deposit_any_sign :
    (user : String) (amount : ℤ) (r : Request) (db : Db)
    → decode_deposit r.body ≡ some (user, amount)
    → IsTakingDeposit user amount db
    → let (response, db') = deposit r db in
      (response ≡ write_json 200 (balance_json user (balance_of user db')))
      × (balance_of user db' ≡ balance_of user db +ℤ amount)
deposit_any_sign user amount r db body h = rw (deposit_answer user amount r db body h) (
  ap (λ b. write_json 200 (balance_json user b)) (sym (balance_deposited user amount db)),
  balance_deposited user amount db,
)

module _ (format_time : ℕ → String) where
  -- GET /billing/balance/{user_id} is answered with status 200 whatever the database does, with the
  -- balance, or zero if the query failed; the tables stay as they are.
  pub router_balance :
      (user : String) (r : Request) (st : Stats) (db : Db)
      → r.method ≡ "GET"
      → r.path ≡ "billing" ∷ "balance" ∷ user ∷ []
      → (user == "") ≡ false
      → router format_time r (st, db) ≡ (
        write_json 200 (balance_json user (read_balance user db)),
        (record_status 200 st, sent_with db db.tables),
      )
  unfolding router route middleware
  router_balance user r st db get path named =
      rw (router, get, path, named, get_balance_answer user r db) refl
