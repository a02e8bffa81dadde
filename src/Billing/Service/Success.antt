-- ===== src/Billing/Service/Success.antt =====
-- When the server answers and the balance covers the cost, a usage is recorded.
use llm_proxy_study_project.Prelude.{
  String, List, ◌∷◌, ◌≡◌, refl, sym, ap, ◌∙◌, false, if◌then◌else◌, arith, some, eq_refl,
}
use llm_proxy_study_project.Prelude.Int.{ℤ, pos, ◌+ℤ◌, ◌-ℤ◌, ◌≤ℤ◌, ltb_ℤ}
use llm_proxy_study_project.Go.Effect.{Error, ok, err, then_run}
use llm_proxy_study_project.Go.Int64.{IsInt64, neg64, neg64_of_nonneg}
use llm_proxy_study_project.Go.Float.{Float64}
use llm_proxy_study_project.Go.Postgres.{Answers, reply, sent_with}
use llm_proxy_study_project.Billing.Store.{Db, entry, upsert, has_id, create_transaction}
use llm_proxy_study_project.Billing.Store.Laws.{
  balance_of, read_balance, update_balance_ok, balance-upsert, zero-+ℤ,
}
use llm_proxy_study_project.Billing.Store.Entries.{
  create_transaction_ok, create_transaction_faulted,
}
use llm_proxy_study_project.Billing.Service.{cost_of, record_usage}
use llm_proxy_study_project.Billing.Service.Charge.{record_usage_lem, charge}
use llm_proxy_study_project.Billing.Service.Ledger.{net, net_of}

-- The pool once the balance has been read, and once it has been changed.
abbrev pub read_pool : Db → Db
read_pool db = sent_with db db.tables

abbrev pub updated_pool : String → ℤ → Db → Db
updated_pool user delta db =
    let p = read_pool db in
    sent_with p
      (record (db.tables) { balances = upsert user delta (reply p).now db.tables.balances })

-- The server answers the query and the update of a usage that the balance covers.
pub record IsCovered (user : String) (cost : ℤ) (db : Db) : Type 0 where
  pub reads : Answers db
  pub updates : Answers (read_pool db)
  pub cost_fits : IsInt64 cost
  pub cost_nonneg : pos 0 ≤ℤ cost
  pub balance_fits : IsInt64 (balance_of user db)
  pub enough : cost ≤ℤ balance_of user db

-- It answers the insertion too, with an id that no transaction has.
pub record IsLogging (user : String) (cost : ℤ) (db : Db) : Type 0 where
  pub answers : Answers (updated_pool user (neg64 cost) db)
  pub fresh : has_id (reply (updated_pool user (neg64 cost) db)).id db.tables.transactions ≡ false

covered_test :
    (user : String) (cost : ℤ) (db : Db)
    → IsCovered user cost db
    → ltb_ℤ (read_balance user db) cost ≡ false
covered_test user cost db h = rw (h.reads, read_balance) (ground arith)

left_IsInt64 :
    (balance cost : ℤ)
    → IsInt64 cost
    → pos 0 ≤ℤ cost
    → IsInt64 balance
    → cost ≤ℤ balance
    → IsInt64 (balance +ℤ neg64 cost)
unfolding ◌+ℤ◌ ◌-ℤ◌
left_IsInt64 balance cost fits nonneg balance_fits enough =
    rw (neg64_of_nonneg cost fits nonneg) (ground arith)

balance_of-updated :
    (user : String) (delta : ℤ) (db : Db)
    → balance_of user (updated_pool user delta db) ≡ balance_of user db +ℤ delta
balance_of-updated user delta db =
    balance-upsert user user delta _ db.tables.balances
    ∙ ap (λ b. if b then balance_of user db +ℤ delta else balance_of user db) (eq_refl user)

-- The pool once the transaction has been added too.
abbrev pub logged_pool : String → ℤ → String → ℤ → Db → Db
logged_pool user cost model tokens db =
    let p = updated_pool user (neg64 cost) db in
    sent_with p (record (p.tables) {
      transactions = entry user "usage" cost model tokens (reply p) ∷ db.tables.transactions;
    })

net-logged :
    (user : String) (cost : ℤ) (model : String) (tokens : ℤ) (db : Db)
    → IsInt64 cost
    → pos 0 ≤ℤ cost
    → net_of user (logged_pool user cost model tokens db) ≡ neg64 cost +ℤ net_of user db
unfolding net
net-logged user cost model tokens db fits nonneg =
    ap (λ b. if b then (pos 0 -ℤ cost) +ℤ net_of user db else net_of user db) (eq_refl user)
    ∙ ap (λ d. d +ℤ net_of user db) (sym (neg64_of_nonneg cost fits nonneg))

-- A usage has been charged to its user, and recorded or not.
pub record IsTaken (user : String) (cost : ℤ) (added : ℤ) (db db' : Db) : Type 0 where
  pub balance : balance_of user db' ≡ balance_of user db +ℤ neg64 cost
  pub recorded : net_of user db' ≡ added +ℤ net_of user db

module _ (fl : Float64) (prices : List (String × fl.Carrier)) where
  covered_lem :
      (user model : String) (tokens : ℤ) (db : Db)
      → IsCovered user (cost_of fl prices model tokens) db
      → record_usage fl prices user model tokens db
        ≡ create_transaction user "usage"
            (cost_of fl prices model tokens)
            model
            tokens
            (updated_pool user (neg64 (cost_of fl prices model tokens)) db)
  covered_lem user model tokens db h =
      let cost = cost_of fl prices model tokens in
      record_usage_lem fl prices user model tokens db
      ∙ ap (λ b. charge fl prices user model tokens b (read_pool db)) (covered_test user cost db h)
      ∙ ap (then_run (λ _. create_transaction user "usage" cost model tokens)) (
          update_balance_ok user (neg64 cost) (read_pool db) h.updates (
            left_IsInt64 (balance_of user db) cost h.cost_fits h.cost_nonneg h.balance_fits
              h.enough))

  pub logged_lem :
      (user model : String) (tokens : ℤ) (db : Db)
      → IsCovered user (cost_of fl prices model tokens) db
      → IsLogging user (cost_of fl prices model tokens) db
      → record_usage fl prices user model tokens db
        ≡ (ok tt, logged_pool user (cost_of fl prices model tokens) model tokens db)
  logged_lem user model tokens db h k =
      let cost = cost_of fl prices model tokens in
      covered_lem user model tokens db h
      ∙ create_transaction_ok user "usage" cost model tokens (updated_pool user (neg64 cost) db)
          k.answers k.fresh

  -- When the server answers all three statements, with a new id for the transaction, a usage whose
  -- cost is zero or more and covered by the balance, both int64 values, succeeds: the cost has
  -- left the balance and is recorded.
  pub record_usage_succeeds :
      (user model : String) (tokens : ℤ) (db : Db)
      → IsCovered user (cost_of fl prices model tokens) db
      → IsLogging user (cost_of fl prices model tokens) db
      → let cost = cost_of fl prices model tokens in
        let (r, db') = record_usage fl prices user model tokens db in
        (r ≡ ok tt) × IsTaken user cost (neg64 cost) db db'
  record_usage_succeeds user model tokens db h k =
      let cost = cost_of fl prices model tokens in
      rw (logged_lem user model tokens db h k) (
        refl,
        record {
          balance = balance_of-updated user (neg64 cost) db;
          recorded = net-logged user cost model tokens db h.cost_fits h.cost_nonneg;
        },
      )

  -- Where the balance covers the cost and the server answers the query and the update, but the
  -- insertion of the transaction fails, RecordUsage fails with that error, and the cost has left
  -- the balance all the same, without being recorded.
  pub record_usage_unlogged :
      (user model : String) (tokens : ℤ) (db : Db) {e : Error}
      → IsCovered user (cost_of fl prices model tokens) db
      → (reply (updated_pool user (neg64 (cost_of fl prices model tokens)) db)).fault ≡ some e
      → let (r, db') = record_usage fl prices user model tokens db in
        (r ≡ err e) × IsTaken user (cost_of fl prices model tokens) (pos 0) db db'
  record_usage_unlogged user model tokens db h fault =
      let cost = cost_of fl prices model tokens in
      rw
        (covered_lem user model tokens db h
          ∙ create_transaction_faulted user "usage" cost model tokens
              (updated_pool user (neg64 cost) db) fault)
        (
          refl,
          record { balance = balance_of-updated user (neg64 cost) db; recorded = sym (zero-+ℤ _) },
        )
