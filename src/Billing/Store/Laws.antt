-- ===== src/Billing/Store/Laws.antt =====
-- What the statements of the billing store do to the balance of each user.
use llm_proxy_study_project.Prelude.{
  String, Option, none, some, List, [], ◌∷◌, ◌≡◌, refl, ap, true, ◌==◌, eq_iff, arith, ℕ,
  if◌then◌else◌, Option-cases, inl, inr,
}
use llm_proxy_study_project.Prelude.Int.{ℤ, pos, ◌+ℤ◌, ◌≤ℤ◌, int_laws}
use llm_proxy_study_project.Go.Int64.{IsInt64, is_int64}
use llm_proxy_study_project.Go.Effect.{Result, ok, err, Error, on_error}
use llm_proxy_study_project.Go.Postgres.{
  Reply, Answers, sent_with, reply, Ran, faulted, refused, ran, statement-Ran, statement_faulted,
  statement-eq-ok, Sent,
}
use llm_proxy_study_project.Billing.Store.{
  Balance, Tables, Db, amount_of, or_zero, upsert, insert_balance, get_balance, select_amount,
  update_balance,
}

-- The balance of a user: zero for one with no row.
abbrev pub balance_of : String → Db → ℤ
balance_of user db = or_zero (amount_of user db.tables.balances)

pub zero-+ℤ : (a : ℤ) → pos 0 +ℤ a ≡ a
zero-+ℤ a = omega int_laws

pub amount_of-upsert :
    (j user : String) (delta : ℤ) (now : ℕ) (bs : List Balance)
    → amount_of j (upsert user delta now bs)
      ≡ (if user == j then some (or_zero (amount_of user bs) +ℤ delta) else amount_of j bs)
unfolding amount_of upsert
amount_of-upsert j user delta now [] = rw (zero-+ℤ delta) refl
amount_of-upsert j user delta now (b ∷ bs) = ground (
  arith,
  eq_iff b.user_id user,
  eq_iff b.user_id j,
  eq_iff user j,
  amount_of-upsert j user delta now bs,
)

pub IsInt64-of_test : (a : ℤ) → is_int64 a ≡ true → IsInt64 a
IsInt64-of_test a h = ground arith

pub test_of_IsInt64 : (a : ℤ) → IsInt64 a → is_int64 a ≡ true
test_of_IsInt64 a h = ground arith

-- One balance has moved by an amount, and no other balance and no transaction.
pub record Moved (user : String) (delta : ℤ) (db db' : Db) : Type 0 where
  pub balance :
      (j : String)
      → balance_of j db' ≡ (if user == j then balance_of user db +ℤ delta else balance_of j db)
  pub transactions : db'.tables.transactions ≡ db.tables.transactions
  pub fits : IsInt64 (balance_of user db +ℤ delta)

pub data Updated (user : String) (delta : ℤ) (db : Db) : Result (Unit {0}) × Db → Type 0 where
  moved : {db' : Db} → Moved user delta db db' → Sent db db' → Updated user delta db (ok tt, db')
  kept :
      {e : Error} {db' : Db}
      → db'.tables ≡ db.tables
      → Sent db db'
      → Updated user delta db (err e, db')

pub balance-upsert :
    (j user : String) (delta : ℤ) (now : ℕ) (bs : List Balance)
    → or_zero (amount_of j (upsert user delta now bs))
      ≡ (if user == j then or_zero (amount_of user bs) +ℤ delta else or_zero (amount_of j bs))
balance-upsert j user delta now bs = rw (amount_of-upsert j user delta now bs) (ground arith)

insert_balance-eq-ok :
    (user : String) (delta : ℤ) (r : Reply) (t u : Tables) (a : Unit {0})
    → insert_balance user delta r t ≡ ok (a, u)
    → (is_int64 (or_zero (amount_of user t.balances) +ℤ delta) ≡ true)
      × (u.balances ≡ upsert user delta r.now t.balances)
      × (u.transactions ≡ t.transactions)
unfolding insert_balance
insert_balance-eq-ok user delta r t u a h = ground arith

insert_balance-Updated :
    (user : String) (delta : ℤ) (db : Db) {r : Result (Unit {0}) × Db}
    → Ran (insert_balance user delta) db r
    → Updated user delta db r
insert_balance-Updated user delta db (faulted _) =
    kept refl (record { sent = refl; replies = refl })
insert_balance-Updated user delta db (refused _ _) =
    kept refl (record { sent = refl; replies = refl })
insert_balance-Updated user delta db (ran {a} {t} _ h) =
    let (fits, balances, transactions) =
      insert_balance-eq-ok user delta (reply db) db.tables t a h in
    moved
      (record {
        balance = λ j. rw balances (balance-upsert j user delta (reply db).now db.tables.balances);
        transactions = transactions;
        fits = IsInt64-of_test _ fits;
      })
      (record { sent = refl; replies = refl })

-- On every branch: a statement that fails changes no table.
pub update_balance-Updated :
    (user : String) (delta : ℤ) (db : Db) → Updated user delta db (update_balance user delta db)
unfolding update_balance
update_balance-Updated user delta db =
    insert_balance-Updated user delta db (statement-Ran (insert_balance user delta) db)

-- What GetBalance returns: the balance, or zero if the query failed.
abbrev pub read_balance : String → Db → ℤ
read_balance user db = elim (reply db).fault [ none ↦ balance_of user db | some _ ↦ pos 0 ]

select_amount_lem :
    (user : String) (db : Db) (found : Option ℤ)
    → Answers db
    → amount_of user db.tables.balances ≡ found
    → get_balance user db ≡ (ok (or_zero found), sent_with db db.tables)
unfolding get_balance select_amount
select_amount_lem user db none fine h = ground (arith)
select_amount_lem user db (some a) fine h = ground (arith)

select_amount_faulted :
    (user : String) (db : Db) {e : Error}
    → (reply db).fault ≡ some e
    → get_balance user db ≡ (ok (pos 0), sent_with db db.tables)
unfolding get_balance
select_amount_faulted user db fault =
    ap (on_error (λ _. ok (pos 0))) (statement_faulted (select_amount user) db fault)

-- GetBalance never fails and changes no table.
pub get_balance_lem :
    (user : String) (db : Db)
    → get_balance user db ≡ (ok (read_balance user db), sent_with db db.tables)
get_balance_lem user db = elim (Option-cases (reply db).fault) [
  | inl fine ↦ rw (fine, read_balance) (select_amount_lem user db _ fine refl)
  | inr (e, fault) ↦ rw (fault, read_balance) (select_amount_faulted user db fault)
]

-- Of a balance that is not negative, no more than all is read.
pub read_balance-le :
    (user : String) (db : Db)
    → pos 0 ≤ℤ balance_of user db
    → read_balance user db ≤ℤ balance_of user db
read_balance-le user db solvent = elim (Option-cases (reply db).fault) [
  | inl fine ↦ rw (fine, read_balance) (omega arith)
  | inr (e, fault) ↦ rw (fault, read_balance) solvent
]

-- From a server that answers, an update whose sum is a BIGINT takes effect.
pub update_balance_ok :
    (user : String) (delta : ℤ) (db : Db)
    → Answers db
    → IsInt64 (balance_of user db +ℤ delta)
    → update_balance user delta db ≡ (
      ok tt,
      sent_with db
          (record (db.tables) { balances = upsert user delta (reply db).now db.tables.balances }),
    )
unfolding update_balance insert_balance
update_balance_ok user delta db fine fits =
    statement-eq-ok (insert_balance user delta) db fine (rw (test_of_IsInt64 _ fits) refl)
