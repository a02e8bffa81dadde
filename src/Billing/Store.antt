-- ===== src/Billing/Store.antt =====
-- internal/billing/store/store.go over the tables of migrations/billing/001_init.sql. Times are
-- microseconds; user ids are compared as the UUID texts that the server gives out.
pub mod Laws
pub mod Entries
pub mod History
pub mod Extended
pub mod Reports
use llm_proxy_study_project.Prelude.{
  ℕ, ◌+◌, ◌*◌, String, Option, none, some, Bool, false, ◌&&◌, ◌||◌, List, [], ◌∷◌, leb, ◌==◌,
  if◌then◌else◌, select, length,
}
use llm_proxy_study_project.Prelude.Int.{ℤ, pos, ◌+ℤ◌}
use llm_proxy_study_project.Go.Effect.{Result, ok, err, Op, or_value}
use llm_proxy_study_project.Go.Int64.{is_int64}
use llm_proxy_study_project.Go.Postgres.{
  Reply, Pool, statement, no_rows, out_of_range, unique_violation,
}

-- A row of `balances`.
pub record Balance : Type 0 where
  pub user_id : String
  pub amount : ℤ
  pub updated_at : ℕ

-- A row of `transactions`.
pub record Transaction : Type 0 where
  pub id : String
  pub user_id : String
  pub tx_type : String
  pub amount : ℤ
  pub model : String
  pub tokens : ℤ
  pub created_at : ℕ

pub record UsageSummary : Type 0 where
  pub user_id : String
  pub period : String
  pub total_tokens : ℤ
  pub total_amount : ℤ
  pub requests : ℕ

pub record Tables : Type 0 where
  pub balances : List Balance
  pub transactions : List Transaction

abbrev pub Db : Type 0
Db = Pool Tables

-- SELECT amount FROM balances WHERE user_id = $1
unfoldable pub amount_of : String → List Balance → Option ℤ
amount_of user [] = none
amount_of user (b ∷ bs) = if b.user_id == user then some b.amount else amount_of user bs

abbrev pub or_zero : Option ℤ → ℤ
or_zero none = pos 0
or_zero (some a) = a

select_amount : String → Reply → Tables → Result (ℤ × Tables)
select_amount user r t = elim (amount_of user t.balances) [
  | none ↦ err no_rows
  | some a ↦ ok (a, t)
]

-- Whatever the error is, the balance read is zero.
unfoldable pub get_balance : String → Op Db ℤ
unfolding select_amount
get_balance user = or_value (statement (select_amount user)) (pos 0)

-- INSERT ... ON CONFLICT (user_id) DO UPDATE SET amount = balances.amount + $2, updated_at = NOW()
unfoldable pub upsert : String → ℤ → ℕ → List Balance → List Balance
upsert user delta now [] = record { user_id = user; amount = delta; updated_at = now } ∷ []
upsert user delta now (b ∷ bs) =
    if b.user_id == user
    then (record b { amount = b.amount +ℤ delta; updated_at = now }) ∷ bs
    else b ∷ upsert user delta now bs

-- The sum is a BIGINT.
insert_balance : String → ℤ → Reply → Tables → Result (Unit {0} × Tables)
insert_balance user delta r t =
    if is_int64 (or_zero (amount_of user t.balances) +ℤ delta)
    then ok (tt, record t { balances = upsert user delta r.now t.balances })
    else err out_of_range

unfoldable pub update_balance : String → ℤ → Op Db (Unit {0})
unfolding insert_balance
update_balance user delta = statement (insert_balance user delta)

unfoldable pub has_id : String → List Transaction → Bool
has_id id [] = false
has_id id (x ∷ xs) = x.id == id || has_id id xs

abbrev pub entry : String → String → ℤ → String → ℤ → Reply → Transaction
entry user tx_type amount model tokens r = record {
  id = r.id;
  user_id = user;
  tx_type = tx_type;
  amount = amount;
  model = model;
  tokens = tokens;
  created_at = r.now;
}

-- INSERT INTO transactions ...; `id` is the primary key.
insert_transaction : String → String → ℤ → String → ℤ → Reply → Tables → Result (Unit {0} × Tables)
insert_transaction user tx_type amount model tokens r t =
    if has_id r.id t.transactions
    then err (unique_violation "transactions_pkey")
    else ok
        (tt, record t { transactions = entry user tx_type amount model tokens r ∷ t.transactions })

unfoldable pub create_transaction : String → String → ℤ → String → ℤ → Op Db (Unit {0})
unfolding insert_transaction has_id
create_transaction user tx_type amount model tokens =
    statement (insert_transaction user tx_type amount model tokens)

-- ORDER BY created_at DESC; the server may list rows of one time in any order, this one is stable.
unfoldable pub insert_desc : Transaction → List Transaction → List Transaction
insert_desc t [] = t ∷ []
insert_desc t (x ∷ xs) = if leb x.created_at t.created_at then t ∷ x ∷ xs else x ∷ insert_desc t xs

unfoldable pub order_desc : List Transaction → List Transaction
unfolding insert_desc
order_desc [] = []
order_desc (x ∷ xs) = insert_desc x (order_desc xs)

abbrev pub is_of : String → Transaction → Bool
is_of user t = t.user_id == user

select_transactions : String → Reply → Tables → Result (List Transaction × Tables)
select_transactions user r t = ok (order_desc (select (is_of user) t.transactions), t)

unfoldable pub get_transactions : String → Op Db (List Transaction)
unfolding select_transactions
get_transactions user = statement (select_transactions user)

-- The interval of a period, in microseconds: any other word means a day.
unfoldable pub interval : String → ℕ
interval period =
    if period == "week"
    then 7 * 86400000000
    else if period == "month"
    then 30 * 86400000000
    else 86400000000

-- WHERE user_id = $1 AND type = 'usage' AND created_at >= NOW() - INTERVAL '...'
abbrev pub is_recent_usage : String → ℕ → ℕ → Transaction → Bool
is_recent_usage user span now t =
    t.user_id == user && (t.tx_type == "usage" && leb now (t.created_at + span))

unfoldable pub sum_tokens : List Transaction → ℤ
sum_tokens [] = pos 0
sum_tokens (t ∷ ts) = t.tokens +ℤ sum_tokens ts

unfoldable pub sum_amount : List Transaction → ℤ
sum_amount [] = pos 0
sum_amount (t ∷ ts) = t.amount +ℤ sum_amount ts

-- The sums are NUMERIC, and are scanned into int64.
select_usage : String → String → Reply → Tables → Result (UsageSummary × Tables)
select_usage user period r t =
    let rows = select (is_recent_usage user (interval period) r.now) t.transactions in
    if is_int64 (sum_tokens rows) && is_int64 (sum_amount rows)
    then ok (
      record {
        user_id = user;
        period = period;
        total_tokens = sum_tokens rows;
        total_amount = sum_amount rows;
        requests = length rows;
      },
      t,
    )
    else err "can't scan into dest"

unfoldable pub get_usage : String → String → Op Db UsageSummary
unfolding select_usage
get_usage user period = statement (select_usage user period)
