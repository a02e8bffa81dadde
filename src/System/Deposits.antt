-- ===== src/System/Deposits.antt =====
-- A deposit through the HTTP client of pkg/client and the billing router.
use llm_proxy_study_project.Prelude.{
  suc, String, Option, none, some, [], ◌∷◌, ◌≡◌, refl, sym, ap, ◌∙◌, subst, arith,
}
use llm_proxy_study_project.Prelude.Int.{ℤ}
use llm_proxy_study_project.Go.Effect.{Error, Result, ok, err}
use llm_proxy_study_project.Go.Int64.{IsInt64}
use llm_proxy_study_project.Go.Decimal.{decimal}
use llm_proxy_study_project.Go.Json.{Json, obj, field, num, str, end}
use llm_proxy_study_project.Go.Url.{parse, get}
use llm_proxy_study_project.Go.Http.{Request, Response, write_error}
use llm_proxy_study_project.Stats.{Stats, middleware, record_status}
use llm_proxy_study_project.Billing.Store.{Db}
use llm_proxy_study_project.Billing.Service
use llm_proxy_study_project.Billing.Service.{deposit}
use llm_proxy_study_project.Billing.Service.Keeping.{balance-IsRead}
use llm_proxy_study_project.Billing.Handler.{decode_deposit, deposited, new_balance_answer}
use llm_proxy_study_project.Billing.Handler as Billing
use llm_proxy_study_project.Client.{post_request, answer}
use llm_proxy_study_project.Client.Keeping.{answer_keeps}
use llm_proxy_study_project.Client
use llm_proxy_study_project.System.{
  World, Setting, Fault, unsent, unanswered, received, exchange, billing_router, billing_http,
}

abbrev deposit_body : String → ℤ → Json
deposit_body user amount = obj (field "amount" (num amount) (field "user_id" (str user) end))

decode-deposit_body :
    (user : String) (amount : ℤ)
    → IsInt64 amount
    → decode_deposit (some (deposit_body user amount)) ≡ some (user, amount)
unfolding decode_deposit
decode-deposit_body user amount fits = ground arith

-- What the client makes of a result of Deposit.
abbrev pub reported : Result (Unit {0}) → Result (Unit {0})
reported (ok _) = ok tt
reported (err _) = err "billing deposit: status 500"

-- What a deposit over the network can come to, by what the network does.
pub data DepositOutcome {V : Type 0} (user : String) (amount : ℤ) (w : World V)
    : Option Fault → Result (Unit {0}) × World V → Type 0 where
  carried :
      {res : Result (Unit {0})} {w' : World V}
      → res ≡ reported (deposit user amount w.billing.1).0
      → w'.billing.1.tables ≡ (deposit user amount w.billing.1).1.tables
      → DepositOutcome user amount w none (res, w')
  lost :
      {msg : Error} {w' : World V}
      → w'.billing.1.tables ≡ (deposit user amount w.billing.1).1.tables
      → DepositOutcome user amount w (some (unanswered msg)) (err msg, w')
  not_sent :
      {msg : Error} {w' : World V}
      → w'.billing ≡ w.billing
      → DepositOutcome user amount w (some (unsent msg)) (err msg, w')

-- An answer of a handler of the billing service, as the router passes it on.
abbrev passed : Stats → Response × Db → Response × (Stats × Db)
passed st x = (x.0, (record_status (x.0).status st, x.1))

deposited_tables :
    (user : String) (x : Result (Unit {0}) × Db) → (deposited user x).1.tables ≡ x.1.tables
deposited_tables user (err msg, db) = refl
deposited_tables user (ok _, db) =
    shown (Service.get_balance user db) ∙ (balance-IsRead user db).same
  where
    shown : (x : Result ℤ × Db) → (new_balance_answer user x).1.tables ≡ x.1.tables
    shown (ok b, s) = refl
    shown (err msg, s) = refl

module _ {V : Type 0} (e : Setting) where
  abbrev request : World V → String → ℤ → Request
  request w user amount = received (e.clock w.calls) (
      post_request (record { path = "billing" ∷ "deposit" ∷ []; query = get [] })
        (deposit_body user amount))

  routed_deposit :
      (user : String) (amount : ℤ) (w : World V)
      → IsInt64 amount
      → billing_router e (request w user amount) w.billing
        ≡ passed w.billing.0 (deposited user (deposit user amount w.billing.1))
  unfolding Billing.router Billing.route Billing.deposit middleware
  routed_deposit user amount w fits =
      ap
        (λ (o : Option (String × ℤ)). passed w.billing.0 (elim o as (λ _. Response × Db) [
          | none ↦ (write_error 400 "invalid body", w.billing.1)
          | some (u, n) ↦ deposited u (deposit u n w.billing.1)
        ]))
        (decode-deposit_body user amount fits)

  -- What the client makes of the handler's answer.
  read_deposited :
      (user : String) (x : Result (Unit {0}) × Db) (w : World V)
      → (answer (billing_http e) "billing deposit" (λ _. some tt) (ok (deposited user x).0, w)).0
        ≡ reported x.0
  unfolding decimal
  read_deposited user (err msg, db) w = refl
  read_deposited user (ok _, db) w = shown (Service.get_balance user db)
    where
      shown :
          (x : Result ℤ × Db)
          → (answer
              (billing_http e)
              "billing deposit"
              (λ _. some tt)
              (ok (new_balance_answer user x).0, w)).0
            ≡ ok tt
      shown (ok b, s) = refl
      shown (err msg, s) = refl

  exchange-Outcome :
      (user : String) (amount : ℤ) (w : World V) (fault : Option Fault)
      → IsInt64 amount
      → DepositOutcome user amount w fault (
          answer
            (billing_http e)
            "billing deposit"
            (λ _. some tt)
            (let (res, billing) =
                exchange fault (billing_router e) (request w user amount) w.billing in
              (res, record w { billing = billing; calls = suc w.calls })))
  exchange-Outcome user amount w none fits =
      let x = deposited user (deposit user amount w.billing.1) in
      let v = record w { billing = (passed w.billing.0 x).1; calls = suc w.calls } in
      subst
        (λ (x : Response × (Stats × Db)). DepositOutcome user amount w none (
          answer (billing_http e) "billing deposit" (λ _. some tt)
            (ok x.0, record w { billing = x.1; calls = suc w.calls })))
        (sym (routed_deposit user amount w fits))
        (carried (read_deposited user (deposit user amount w.billing.1) v) (
          answer_keeps
            (λ (u : World V). u.billing.1.tables ≡ (deposit user amount w.billing.1).1.tables)
            (billing_http e) "billing deposit" (λ _. some tt) (ok x.0, v)
            (deposited_tables user (deposit user amount w.billing.1))))
  exchange-Outcome user amount w (some (unsent msg)) fits = not_sent refl
  exchange-Outcome user amount w (some (unanswered msg)) fits = lost (
      ap (λ (x : Response × (Stats × Db)). x.1.1.tables) (routed_deposit user amount w fits)
      ∙ deposited_tables user (deposit user amount w.billing.1))

  -- Deposit of the HTTP client, on every branch, for an amount that is an int64 value: where the
  -- network carries the call, the tables are those that Deposit of the billing service leaves, and
  -- the client succeeds exactly if that did; where the answer is lost, the client has an error
  -- although the tables are those after the deposit; where the call is not sent, the client has an
  -- error and nothing of the billing service has changed.
  pub deposit-DepositOutcome :
      (user : String) (amount : ℤ) (w : World V)
      → IsInt64 amount
      → DepositOutcome user amount w
          (e.network w.calls)
          (Client.deposit (billing_http e) user amount w)
  unfolding Client.deposit parse
  deposit-DepositOutcome user amount w fits =
      exchange-Outcome user amount w (e.network w.calls) fits
