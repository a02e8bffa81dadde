-- ===== src/Billing/Store/History.antt =====
-- GetTransactions: the history of a user, newest first.
use mathlib.Core.List.{Perm}
use mathlib.Core.List.Perm
use llm_proxy_study_project.Prelude.{
  ℕ, ◌≤◌, String, List, [], ◌∷◌, ◌≡◌, refl, leb, All, select, arith, Bool-cases, inl, inr,
}
use llm_proxy_study_project.Go.Effect.{ok}
use llm_proxy_study_project.Go.Postgres.{Answers, sent_with, statement-eq-ok}
use llm_proxy_study_project.Billing.Store.{
  Db, Transaction, insert_desc, order_desc, is_of, get_transactions, select_transactions,
}

-- No row is newer than one before it.
abbrev pub IsNewestFirst : List Transaction → Type 0
IsNewestFirst [] = Unit
IsNewestFirst (t ∷ ts) =
    All (λ (x : Transaction). x.created_at ≤ t.created_at) ts × IsNewestFirst ts

All-older :
    (m n : ℕ) (ts : List Transaction)
    → m ≤ n
    → All (λ (x : Transaction). x.created_at ≤ m) ts
    → All (λ (x : Transaction). x.created_at ≤ n) ts
All-older m n [] le h = tt
All-older m n (t ∷ ts) le (here, later) = (omega arith, All-older m n ts le later)

All-insert :
    (n : ℕ) (t : Transaction) (ts : List Transaction)
    → t.created_at ≤ n
    → All (λ (x : Transaction). x.created_at ≤ n) ts
    → All (λ (x : Transaction). x.created_at ≤ n) (insert_desc t ts)
unfolding insert_desc
All-insert n t [] le h = (le, tt)
All-insert n t (x ∷ xs) le (here, later) = elim (Bool-cases (leb x.created_at t.created_at)) [
  | inl older ↦ rw older (le, (here, later))
  | inr newer ↦ rw newer (here, All-insert n t xs le later)
]

insert_desc-IsNewestFirst :
    (t : Transaction) (ts : List Transaction) → IsNewestFirst ts → IsNewestFirst (insert_desc t ts)
unfolding insert_desc
insert_desc-IsNewestFirst t [] h = (tt, tt)
insert_desc-IsNewestFirst t (x ∷ xs) (here, later) =
    elim (Bool-cases (leb x.created_at t.created_at)) [
      | inl older ↦
          let le : x.created_at ≤ t.created_at = ground arith in
          rw older ((le, All-older x.created_at t.created_at xs le here), (here, later))
      | inr newer ↦
          let le : t.created_at ≤ x.created_at = ground arith in
          rw newer (All-insert x.created_at t xs le here, insert_desc-IsNewestFirst t xs later)
    ]

insert_desc-perm : (t : Transaction) (ts : List Transaction) → Perm (insert_desc t ts) (t ∷ ts)
unfolding insert_desc
insert_desc-perm t [] = Perm.refl (t ∷ [])
insert_desc-perm t (x ∷ xs) = elim (Bool-cases (leb x.created_at t.created_at)) [
  | inl older ↦ rw older (Perm.refl (t ∷ x ∷ xs))
  | inr newer ↦ rw newer (Perm.trans (Perm.cons x (insert_desc-perm t xs)) (Perm.swap t x xs))
]

order_desc-IsNewestFirst : (ts : List Transaction) → IsNewestFirst (order_desc ts)
unfolding order_desc
order_desc-IsNewestFirst [] = tt
order_desc-IsNewestFirst (t ∷ ts) =
    insert_desc-IsNewestFirst t (order_desc ts) (order_desc-IsNewestFirst ts)

order_desc-perm : (ts : List Transaction) → Perm (order_desc ts) ts
unfolding order_desc
order_desc-perm [] = Perm.refl []
order_desc-perm (t ∷ ts) =
    Perm.trans (insert_desc-perm t (order_desc ts)) (Perm.cons t (order_desc-perm ts))

-- From a server that answers, GetTransactions returns a list that is newest first and that holds
-- the user's transactions, all of them and as often; no table changes.
pub get_transactions_lem :
    (user : String) (db : Db)
    → Answers db
    → (rows : List Transaction) × (get_transactions user db ≡ (ok rows, sent_with db db.tables))
      × IsNewestFirst rows
      × Perm rows (select (is_of user) db.tables.transactions)
unfolding get_transactions select_transactions
get_transactions_lem user db fine = (
  order_desc (select (is_of user) db.tables.transactions),
  statement-eq-ok (select_transactions user) db fine refl,
  order_desc-IsNewestFirst _,
  order_desc-perm _,
)
