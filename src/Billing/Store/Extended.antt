-- ===== src/Billing/Store/Extended.antt =====
-- The ledger of the billing store only grows: rows are put before the old ones.
use llm_proxy_study_project.Prelude.{String, List, [], ◌∷◌, ◌++◌, ◌≡◌, refl, ap, ◌∙◌, arith}
use llm_proxy_study_project.Prelude.Int.{ℤ}
use llm_proxy_study_project.Go.Effect.{Result, ok}
use llm_proxy_study_project.Go.Postgres.{
  Reply, Ran, faulted, refused, ran, statement, statement-Ran,
}
use llm_proxy_study_project.Billing.Store.{
  Db, Tables, Transaction, get_balance, get_usage, get_transactions, select_usage,
  select_transactions,
}
use llm_proxy_study_project.Billing.Store.Laws.{get_balance_lem}

-- Transactions that come after others: newer ones have been put before them.
pub record IsExtended (ts ts' : List Transaction) : Type 0 where
  pub added : List Transaction
  pub grown : ts' ≡ added ++ ts

pub IsExtended-refl : (ts : List Transaction) → IsExtended ts ts
IsExtended-refl ts = record { added = []; grown = refl }

pub IsExtended-same : {ts ts' : List Transaction} → ts' ≡ ts → IsExtended ts ts'
IsExtended-same same = record { added = []; grown = same }

append_assoc : (xs ys zs : List Transaction) → xs ++ (ys ++ zs) ≡ (xs ++ ys) ++ zs
append_assoc [] ys zs = refl
append_assoc (x ∷ xs) ys zs = ap (λ l. x ∷ l) (append_assoc xs ys zs)

pub IsExtended-trans :
    {ts us vs : List Transaction} → IsExtended ts us → IsExtended us vs → IsExtended ts vs
IsExtended-trans {ts} a b = record {
  added = b.added ++ a.added;
  grown = b.grown ∙ ap (λ l. b.added ++ l) a.grown ∙ append_assoc b.added a.added ts;
}

-- An operation that leaves the tables as they are.
pub record IsRead {A : Type 0} (db : Db) (x : Result A × Db) : Type 0 where
  pub same : x.1.tables ≡ db.tables

pub get_balance-IsRead : (user : String) (db : Db) → IsRead db (get_balance user db)
get_balance-IsRead user db = record {
  same = ap (λ (x : Result ℤ × Db). x.1.tables) (get_balance_lem user db);
}

query-IsRead :
    {A : Type 0} (run : Reply → Tables → Result (A × Tables)) (db : Db)
    → ((r : Reply) (a : A) (t : Tables) → run r db.tables ≡ ok (a, t) → t ≡ db.tables)
    → IsRead db (statement run db)
query-IsRead {A} run db same = by_outcome (statement-Ran run db)
  where
    by_outcome : {x : Result A × Db} → Ran run db x → IsRead db x
    by_outcome (faulted _) = record { same = refl }
    by_outcome (refused _ _) = record { same = refl }
    by_outcome (ran {a} {t} _ h) = record { same = same _ a t h }

pub get_transactions-IsRead : (user : String) (db : Db) → IsRead db (get_transactions user db)
unfolding get_transactions select_transactions
get_transactions-IsRead user db =
    query-IsRead (select_transactions user) db (λ r a t h. ground arith)

pub get_usage-IsRead : (user period : String) (db : Db) → IsRead db (get_usage user period db)
unfolding get_usage select_usage
get_usage-IsRead user period db =
    query-IsRead (select_usage user period) db (λ r a t h. ground arith)
