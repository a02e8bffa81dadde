-- ===== src/Billing/Handler/Shapes.antt =====
-- The answers of the billing service's endpoints, by the shapes of their documents.
use llm_proxy_study_project.Prelude.{
  ℕ, String, Option, none, some, List, [], ◌∷◌, ◌≡◌, refl, true, arith,
}
use llm_proxy_study_project.Prelude.Int.{ℤ}
use llm_proxy_study_project.Go.Effect.{Result, ok, err}
use llm_proxy_study_project.Go.Json.{Json}
use llm_proxy_study_project.Go.Shape.{
  Shape, text, whole, list_of, struct, nullable, no_more, member, has_shape, HasShape, all_items,
  IsTyped, fine, failed, health_shape, stats_shape,
}
use llm_proxy_study_project.Go.Http.{
  Request, Response, metrics, write_json, write_error, not_found, not_allowed,
}
use llm_proxy_study_project.Stats.{Stats, middleware}
use llm_proxy_study_project.Stats.Shapes.{stats-IsTyped}
use llm_proxy_study_project.Billing.Store.{Db, Transaction}
use llm_proxy_study_project.Billing.Service
use llm_proxy_study_project.Billing.Handler.{
  decode_deposit, balance_answer, new_balance_answer, deposited, get_balance, deposit, usage_json,
  get_usage, transaction_json, transaction_items, transactions_json, get_transactions, router,
}
use llm_proxy_study_project.Billing.Handler.Routes.{
  Routed, missing, other_method, statistics, measured, healthy, deposits, balances, usages,
  histories, route-Routed,
}

abbrev balance_shape : Shape
balance_shape = struct (member "balance" whole (member "user_id" text no_more))

abbrev usage_shape : Shape
usage_shape = struct (
    member "UserID" text (
      member "Period" text (
        member "TotalTokens" whole (member "TotalAmount" whole (member "Requests" whole no_more)))))

abbrev row_shape : Shape
row_shape = struct (
    member "ID" text (
      member "UserID" text (
        member "Type" text (
          member "Amount" whole
            (member "Model" text (member "Tokens" whole (member "CreatedAt" text no_more)))))))

-- A history is null where there is none.
abbrev history_shape : Shape
history_shape = nullable (list_of row_shape)

-- The endpoints: method, path and the shape of what they answer with status 200.
pub data Endpoint (r : Request) : Shape → Type 0 where
  deposit_endpoint :
      r.method ≡ "POST" → r.path ≡ "billing" ∷ "deposit" ∷ [] → Endpoint r balance_shape
  balance_endpoint :
      (user : String)
      → r.method ≡ "GET"
      → r.path ≡ "billing" ∷ "balance" ∷ user ∷ []
      → Endpoint r balance_shape
  usage_endpoint : r.method ≡ "GET" → r.path ≡ "billing" ∷ "usage" ∷ [] → Endpoint r usage_shape
  history_endpoint :
      (user : String)
      → r.method ≡ "GET"
      → r.path ≡ "billing" ∷ "transactions" ∷ user ∷ []
      → Endpoint r history_shape
  stats_endpoint : r.method ≡ "GET" → r.path ≡ "stats" ∷ [] → Endpoint r stats_shape
  health_endpoint : r.method ≡ "GET" → r.path ≡ "health" ∷ [] → Endpoint r health_shape

-- An answer that the API has.
pub data IsAnswer (r : Request) : Response → Type 0 where
  typed : {s : Shape} {resp : Response} → Endpoint r s → IsTyped 200 s resp → IsAnswer r resp
  page :
      r.method ≡ "GET"
      → r.path ≡ "metrics" ∷ []
      → IsAnswer r (record { status = 200; content = metrics })
  unknown_path : IsAnswer r not_found
  unknown_method : IsAnswer r not_allowed

balance_answer-IsTyped :
    (user : String) (x : Result ℤ × Db) → IsTyped 200 balance_shape (balance_answer user x).0
unfolding has_shape
balance_answer-IsTyped user (ok b, db) = fine refl
balance_answer-IsTyped user (err e, db) = failed (omega arith)

new_balance_answer-IsTyped :
    (user : String) (x : Result ℤ × Db) → IsTyped 200 balance_shape (new_balance_answer user x).0
unfolding has_shape
new_balance_answer-IsTyped user (ok b, db) = fine refl
new_balance_answer-IsTyped user (err e, db) = fine refl

get_balance-IsTyped :
    (user : String) (r : Request) (db : Db) → IsTyped 200 balance_shape (get_balance user r db).0
unfolding get_balance
get_balance-IsTyped user r db = balance_answer-IsTyped user _

deposited-IsTyped :
    (user : String) (x : Result (Unit {0}) × Db) → IsTyped 200 balance_shape (deposited user x).0
deposited-IsTyped user (ok _, db) = new_balance_answer-IsTyped user _
deposited-IsTyped user (err e, db) = failed (omega arith)

deposit-IsTyped : (r : Request) (db : Db) → IsTyped 200 balance_shape (deposit r db).0
unfolding deposit
deposit-IsTyped r db = by_body (decode_deposit r.body)
  where
    by_body :
        (o : Option (String × ℤ))
        → IsTyped 200 balance_shape
            (elim o as (λ _. Response × Db) [
              | none ↦ (write_error 400 "invalid body", db)
              | some (user, amount) ↦ deposited user (Service.deposit user amount db)
            ]).0
    by_body none = failed (omega arith)
    by_body (some (user, amount)) = deposited-IsTyped user _

-- An answer that is written from a result.
shown-IsTyped :
    {A : Type 0} (s : Shape) (write : A → Json) (x : Result A × Db)
    → ((a : A) → HasShape s (write a))
    → IsTyped 200 s
        (elim x.0 as (λ _. Response × Db) [
          | err e ↦ (write_error 500 e, x.1)
          | ok a ↦ (write_json 200 (write a), x.1)
        ]).0
shown-IsTyped s write (ok a, db) h = fine (h a)
shown-IsTyped s write (err e, db) h = failed (omega arith)

get_usage-IsTyped : (r : Request) (db : Db) → IsTyped 200 usage_shape (get_usage r db).0
unfolding get_usage usage_json has_shape
get_usage-IsTyped r db = shown-IsTyped usage_shape (λ u. usage_json u) _ (λ u. refl)

module _ (format_time : ℕ → String) where
  all_rows :
      (ts : List Transaction)
      → all_items (has_shape row_shape) (transaction_items format_time ts) ≡ true
  unfolding transaction_items transaction_json has_shape all_items
  all_rows [] = refl
  all_rows (t ∷ ts) = all_rows ts

  transactions-HasShape :
      (ts : List Transaction) → HasShape history_shape (transactions_json format_time ts)
  unfolding transactions_json has_shape
  transactions-HasShape [] = refl
  transactions-HasShape (t ∷ ts) = all_rows (t ∷ ts)

  get_transactions-IsTyped :
      (user : String) (r : Request) (db : Db)
      → IsTyped 200 history_shape (get_transactions format_time user r db).0
  unfolding get_transactions
  get_transactions-IsTyped user r db =
      shown-IsTyped history_shape (transactions_json format_time) (Service.get_transactions user db)
        transactions-HasShape

  Routed-IsAnswer :
      {r : Request} {st : Stats} {db : Db} {x : Response × (Stats × Db)}
      → Routed format_time r st db x
      → IsAnswer r x.0
  unfolding has_shape
  Routed-IsAnswer missing = unknown_path
  Routed-IsAnswer other_method = unknown_method
  Routed-IsAnswer {r} {st} {db} (statistics m p) =
      typed (stats_endpoint m p) (stats-IsTyped format_time r (st, db))
  Routed-IsAnswer (measured m p) = page m p
  Routed-IsAnswer (healthy m p) = typed (health_endpoint m p) (fine refl)
  Routed-IsAnswer {r} {st} {db} (deposits m p) = typed (deposit_endpoint m p) (deposit-IsTyped r db)
  Routed-IsAnswer {r} {st} {db} (balances user m p) =
      typed (balance_endpoint user m p) (get_balance-IsTyped user r db)
  Routed-IsAnswer {r} {st} {db} (usages m p) = typed (usage_endpoint m p) (get_usage-IsTyped r db)
  Routed-IsAnswer {r} {st} {db} (histories user m p) =
      typed (history_endpoint user m p) (get_transactions-IsTyped user r db)

  -- Every answer of the billing service, whatever the request and whatever the database does, is
  -- one that its API has: at one of its endpoints, with its method, status 200 with a document of
  -- the endpoint's shape, or a status of 400 or more with {"error": text}; the metrics; 404 without
  -- a document; or 405 without one.
  pub billing-IsAnswer : (r : Request) (s : Stats × Db) → IsAnswer r (router format_time r s).0
  unfolding router middleware
  billing-IsAnswer r (st, db) = Routed-IsAnswer (route-Routed format_time r st db)
