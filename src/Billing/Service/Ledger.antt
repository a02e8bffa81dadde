-- ===== src/Billing/Service/Ledger.antt =====
-- The ledger: each balance against the transactions that are recorded for it.
use llm_proxy_study_project.Prelude.{
  String, List, [], ◌∷◌, ◌≡◌, refl, sym, ap, ◌∙◌, false, if◌then◌else◌, ◌==◌, eq_iff, arith,
  Bool-cases, inl, inr, subst,
}
use llm_proxy_study_project.Prelude.Int.{ℤ, pos, ◌+ℤ◌, ◌-ℤ◌, ◌≤ℤ◌, ltb_ℤ, int_laws, +ℤ_comm}
use llm_proxy_study_project.Go.Effect.{Result, ok}
use llm_proxy_study_project.Go.Int64.{IsInt64, neg64, neg64_of_nonneg}
use llm_proxy_study_project.Go.Float.{Float64}
use llm_proxy_study_project.Go.Postgres.{Reply, sent_with}
use llm_proxy_study_project.Billing.Store.{Db, Transaction, Tables, entry, amount_of, or_zero}
use llm_proxy_study_project.Billing.Store.Laws.{balance_of, read_balance, read_balance-le}
use llm_proxy_study_project.Billing.Service.{deposit, cost_of, record_usage}
use llm_proxy_study_project.Billing.Service.Posting.{
  Posted, posted, untouched, unlogged, deposit-Posted,
}
use llm_proxy_study_project.Billing.Service.Charge.{Charged, refused, charged, record_usage-Charged}

-- What a transaction adds to the balance of its user.
abbrev pub signed : Transaction → ℤ
signed t = if t.tx_type == "usage" then pos 0 -ℤ t.amount else t.amount

-- The sum of a user's transactions.
unfoldable pub net : String → List Transaction → ℤ
net user [] = pos 0
net user (t ∷ ts) = if t.user_id == user then signed t +ℤ net user ts else net user ts

abbrev pub net_of : String → Db → ℤ
net_of user db = net user db.tables.transactions

-- Every balance is the sum of what is recorded for it.
abbrev pub IsReconciled : Db → Type 0
IsReconciled db = (user : String) → balance_of user db ≡ net_of user db

-- No balance is negative.
abbrev pub IsSolvent : Db → Type 0
IsSolvent db = (user : String) → pos 0 ≤ℤ balance_of user db

-- A successful posting moves the balance and the sum of the transactions by the same amount, for
-- every user.
posted-IsReconciled :
    (user tx_type model : String) (delta amount tokens : ℤ) (db db' : Db) (r : Reply)
    → signed (entry user tx_type amount model tokens r) ≡ delta
    → ((j : String)
        → balance_of j db' ≡ (if user == j then balance_of user db +ℤ delta else balance_of j db))
    → db'.tables.transactions ≡ entry user tx_type amount model tokens r ∷ db.tables.transactions
    → IsReconciled db
    → IsReconciled db'
unfolding net
posted-IsReconciled user tx_type model delta amount tokens db db' r worth balance added old j =
    rw (balance j, added)
      (elim (Bool-cases (user == j)) [
        | inl same ↦
            let e : user ≡ j = (eq_iff user j).0 same in
            rw same (
              ap (λ a. a +ℤ delta) (old user ∙ ap (λ u. net_of u db) e)
              ∙ +ℤ_comm (net_of j db) delta
              ∙ ap (λ d. d +ℤ net_of j db) (sym worth))
        | inr other ↦ rw other (old j)
      ])

tables-IsReconciled : (db db' : Db) → db'.tables ≡ db.tables → IsReconciled db → IsReconciled db'
tables-IsReconciled db db' same h user =
    ap (λ (t : Tables). or_zero (amount_of user t.balances)) same
    ∙ h user
    ∙ sym (ap (λ (t : Tables). net user t.transactions) same)

Posted-IsReconciled :
    (user tx_type model : String) (delta amount tokens : ℤ) (db : Db) {db' : Db}
    → ((r : Reply) → signed (entry user tx_type amount model tokens r) ≡ delta)
    → IsReconciled db
    → Posted user delta tx_type amount model tokens db (ok tt, db')
    → IsReconciled db'
Posted-IsReconciled user tx_type model delta amount tokens db {db'} worth old
      (posted r balance added) =
    posted-IsReconciled user tx_type model delta amount tokens db db' r (worth r) balance added old

-- A deposit that reports success keeps every balance equal to the sum of its transactions.
pub deposit-IsReconciled :
    (user : String) (amount : ℤ) (db db' : Db)
    → IsReconciled db
    → deposit user amount db ≡ (ok tt, db')
    → IsReconciled db'
deposit-IsReconciled user amount db db' old h =
    Posted-IsReconciled user "deposit" "" amount amount (pos 0) db (λ r. refl) old
      (subst (Posted user amount "deposit" amount "" (pos 0) db) h (deposit-Posted user amount db))

usage_worth :
    (user model : String) (cost tokens : ℤ) (r : Reply)
    → IsInt64 cost
    → pos 0 ≤ℤ cost
    → signed (entry user "usage" cost model tokens r) ≡ neg64 cost
usage_worth user model cost tokens r fits nonneg = sym (neg64_of_nonneg cost fits nonneg)

Charged-IsReconciled :
    (user model : String) (cost tokens : ℤ) (db : Db) {db' : Db}
    → IsInt64 cost
    → pos 0 ≤ℤ cost
    → IsReconciled db
    → Charged user cost model tokens db (ok tt, db')
    → IsReconciled db'
Charged-IsReconciled user model cost tokens db fits nonneg old (charged _ p) =
    Posted-IsReconciled user "usage" model (neg64 cost) cost tokens (sent_with db db.tables)
      (λ r. usage_worth user model cost tokens r fits nonneg) old p

-- The balance that is left after a usage that the balance read covers.
covered_nonneg :
    (read balance cost : ℤ)
    → IsInt64 cost
    → pos 0 ≤ℤ cost
    → read ≤ℤ balance
    → ltb_ℤ read cost ≡ false
    → pos 0 ≤ℤ balance +ℤ neg64 cost
covered_nonneg read balance cost fits nonneg le covered =
    let enough : cost ≤ℤ read = ground arith in
    rw (neg64_of_nonneg cost fits nonneg) (omega int_laws)

Moved-IsSolvent :
    (user : String) (delta : ℤ) (db db' : Db)
    → ((j : String)
        → balance_of j db' ≡ (if user == j then balance_of user db +ℤ delta else balance_of j db))
    → pos 0 ≤ℤ balance_of user db +ℤ delta
    → IsSolvent db
    → IsSolvent db'
Moved-IsSolvent user delta db db' balance left solvent j =
    rw (balance j)
      (elim (Bool-cases (user == j)) [ inl same ↦ rw same left | inr other ↦ rw other (solvent j) ])

tables-IsSolvent : (db db' : Db) → db'.tables ≡ db.tables → IsSolvent db → IsSolvent db'
tables-IsSolvent db db' same solvent user =
    subst (λ (t : Tables). pos 0 ≤ℤ or_zero (amount_of user t.balances)) (sym same) (solvent user)

Charged-IsSolvent :
    (user model : String) (cost tokens : ℤ) (db : Db) {r : Result (Unit {0}) × Db}
    → IsInt64 cost
    → pos 0 ≤ℤ cost
    → IsSolvent db
    → Charged user cost model tokens db r
    → IsSolvent r.1
Charged-IsSolvent user model cost tokens db fits nonneg solvent (refused _) = solvent
Charged-IsSolvent user model cost tokens db fits nonneg solvent (charged covered p) =
    Posted-IsSolvent p
  where
    left : pos 0 ≤ℤ balance_of user db +ℤ neg64 cost
    left =
        covered_nonneg (read_balance user db) (balance_of user db) cost fits nonneg
          (read_balance-le user db (solvent user)) covered

    Posted-IsSolvent :
        {r : Result (Unit {0}) × Db}
        → Posted user (neg64 cost) "usage" cost model tokens (sent_with db db.tables) r
        → IsSolvent r.1
    Posted-IsSolvent (posted {db'} _ balance _) =
        Moved-IsSolvent user (neg64 cost) db db' balance left solvent
    Posted-IsSolvent (untouched {db'} same) =
        tables-IsSolvent (sent_with db db.tables) db' same solvent
    Posted-IsSolvent (unlogged {db'} m) =
        Moved-IsSolvent user (neg64 cost) db db' m.balance left solvent

module _ (fl : Float64) (prices : List (String × fl.Carrier)) where
  -- A RecordUsage that reports success, at a cost that is an int64 value of zero or more, keeps
  -- every balance equal to the sum of its transactions.
  pub record_usage-IsReconciled :
      (user model : String) (tokens : ℤ) (db db' : Db)
      → IsInt64 (cost_of fl prices model tokens)
      → pos 0 ≤ℤ cost_of fl prices model tokens
      → IsReconciled db
      → record_usage fl prices user model tokens db ≡ (ok tt, db')
      → IsReconciled db'
  record_usage-IsReconciled user model tokens db db' fits nonneg old h =
      Charged-IsReconciled user model (cost_of fl prices model tokens) tokens db fits nonneg old (
        subst (Charged user (cost_of fl prices model tokens) model tokens db) h
          (record_usage-Charged fl prices user model tokens db))

  -- RecordUsage at a cost of zero or more takes no balance below zero, whichever of its statements
  -- fail.
  pub record_usage-IsSolvent :
      (user model : String) (tokens : ℤ) (db : Db)
      → IsInt64 (cost_of fl prices model tokens)
      → pos 0 ≤ℤ cost_of fl prices model tokens
      → IsSolvent db
      → IsSolvent (record_usage fl prices user model tokens db).1
  record_usage-IsSolvent user model tokens db fits nonneg solvent =
      Charged-IsSolvent user model (cost_of fl prices model tokens) tokens db fits nonneg solvent
        (record_usage-Charged fl prices user model tokens db)
