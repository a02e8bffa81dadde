-- ===== src/Billing/Handler.antt =====
-- internal/billing/handler/handler.go. `format_time` is the JSON text of a time.
pub mod Answers
pub mod Counting
pub mod Routes
pub mod Shapes
pub mod Keeping
use llm_proxy_study_project.Prelude.{
  ℕ, String, ◌==◌, Option, none, some, Bool, ◌||◌, List, [], ◌∷◌, if◌then◌else◌,
}
use llm_proxy_study_project.Prelude.Int.{ℤ, pos}
use llm_proxy_study_project.Go.Effect.{Result, ok, err}
use llm_proxy_study_project.Go.Json.{
  ◌>>=◌, Json, Items, Fields, null, str, num, arr, obj, nil, cons, field, end, Payload, fields_of,
  text_field, int_field,
}
use llm_proxy_study_project.Go.Http.{
  Request, Response, Handler, metrics, write_json, write_error, health, not_found, not_allowed,
}
use llm_proxy_study_project.Stats.Routes.{at, known, shared}
use llm_proxy_study_project.Stats.{Stats, middleware, stats_handler}
use llm_proxy_study_project.Billing.Store.{Db, Transaction, UsageSummary}
use llm_proxy_study_project.Billing.Service

abbrev pub DepositRequest : Type 0
DepositRequest = String × ℤ

unfoldable pub decode_deposit : Payload → Option DepositRequest
unfolding fields_of text_field int_field
decode_deposit body = do
  doc ← body
  fs ← fields_of doc
  user ← text_field "user_id" fs
  amount ← int_field "amount" fs
  some (user, amount)

abbrev pub balance_json : String → ℤ → Json
balance_json user balance = obj (field "balance" (num balance) (field "user_id" (str user) end))

abbrev pub balance_answer : String → Result ℤ × Db → Response × Db
balance_answer user (err e, db) = (write_error 500 e, db)
balance_answer user (ok balance, db) = (write_json 200 (balance_json user balance), db)

unfoldable pub get_balance : String → Handler Db
get_balance user r db = balance_answer user (Service.get_balance user db)

-- `balance, _ := GetBalance`: the zero value beside an error.
abbrev pub new_balance_answer : String → Result ℤ × Db → Response × Db
new_balance_answer user (ok balance, db) = (write_json 200 (balance_json user balance), db)
new_balance_answer user (err _, db) = (write_json 200 (balance_json user (pos 0)), db)

abbrev pub deposited : String → Result (Unit {0}) × Db → Response × Db
deposited user (err e, db) = (write_error 500 e, db)
deposited user (ok _, db) = new_balance_answer user (Service.get_balance user db)

unfoldable pub deposit : Handler Db
unfolding decode_deposit
deposit r db = elim (decode_deposit r.body) [
  | none ↦ (write_error 400 "invalid body", db)
  | some (user, amount) ↦ deposited user (Service.deposit user amount db)
]

unfoldable pub usage_json : UsageSummary → Json
usage_json s = obj (
    field "UserID" (str s.user_id) (
      field "Period" (str s.period) (
        field "TotalTokens" (num s.total_tokens) (
          field "TotalAmount" (num s.total_amount) (field "Requests" (num (pos s.requests)) end)))))

unfoldable pub get_usage : Handler Db
unfolding usage_json
get_usage r db =
    let asked = r.query "period" in
    let (res, db') =
      Service.get_usage (r.query "user_id") (if asked == "" then "day" else asked) db in
    elim res [
      | err e ↦ (write_error 500 e, db')
      | ok summary ↦ (write_json 200 (usage_json summary), db')
    ]

module _ (format_time : ℕ → String) where
  transaction_json : Transaction → Json
  transaction_json t = obj (
      field "ID" (str t.id) (
        field "UserID" (str t.user_id) (
          field "Type" (str t.tx_type) (
            field "Amount" (num t.amount) (
              field "Model" (str t.model) (
                field "Tokens" (num t.tokens)
                  (field "CreatedAt" (str (format_time t.created_at)) end)))))))

  transaction_items : List Transaction → Items
  transaction_items [] = nil
  transaction_items (t ∷ ts) = cons (transaction_json t) (transaction_items ts)

  -- The slice is nil when no row was appended, and nil is written as null.
  unfoldable pub transactions_json : List Transaction → Json
  unfolding transaction_json transaction_items
  transactions_json [] = null
  transactions_json (t ∷ ts) = arr (transaction_items (t ∷ ts))

  unfoldable pub get_transactions : String → Handler Db
  unfolding transactions_json
  get_transactions user r db =
      let (res, db') = Service.get_transactions user db in
      elim res [
        | err e ↦ (write_error 500 e, db')
        | ok ts ↦ (write_json 200 (transactions_json ts), db')
      ]

  -- A parameter of a route is never empty.
  abbrev pub with_param : String → (String → Handler Db) → Handler (Stats × Db)
  with_param user handler r s = if user == "" then (not_found, s) else at "GET" (handler user) r s

  unfoldable pub route : Handler (Stats × Db)
  unfolding get_balance deposit get_usage get_transactions stats_handler
  route r s = elim r.path [
    | name ∷ [] ↦ if known name then shared format_time name r s else (not_found, s)
    | top ∷ name ∷ [] ↦
        if top == "billing"
        then if name == "deposit"
          then at "POST" deposit r s
          else if name == "usage"
          then at "GET" get_usage r s
          else (not_found, s)
        else (not_found, s)
    | top ∷ name ∷ user ∷ [] ↦
        if top == "billing"
        then if name == "balance"
          then with_param user get_balance r s
          else if name == "transactions"
          then with_param user get_transactions r s
          else (not_found, s)
        else (not_found, s)
    | _ ↦ (not_found, s)
  ]

  unfoldable pub router : Handler (Stats × Db)
  unfolding route middleware
  router = middleware route
