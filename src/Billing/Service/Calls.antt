-- ===== src/Billing/Service/Calls.antt =====
-- Calls of RecordUsage (internal/billing/service/service.go) that run at the same time over one
-- database: each step is one statement of one call, with what the call computes from its answer.
pub mod Debts
pub mod Overdraft
use llm_proxy_study_project.Prelude.{
  ℕ, zero, suc, String, Option, none, some, List, [], ◌∷◌, ◌≡◌, refl, sym, ap, ◌∙◌, if◌then◌else◌,
  Bool, true, false,
}
use llm_proxy_study_project.Prelude.Int.{ℤ, ltb_ℤ}
use llm_proxy_study_project.Go.Effect.{Error, Result, ok, err, fail, then_run}
use llm_proxy_study_project.Go.Int64.{neg64}
use llm_proxy_study_project.Go.Float.{Float64}
use llm_proxy_study_project.Billing.Store.{Db, get_balance, update_balance, create_transaction}
use llm_proxy_study_project.Billing.Service.{cost_of, record_usage}

-- The statement that a call sends next, or how it has ended; `unlogged` is the end with the error of
-- the insertion.
pub data Stage : Type 0 where
  reading : Stage
  updating : Stage
  logging : Stage
  finished : Result (Unit {0}) → Stage
  unlogged : Error → Stage

pub record Call : Type 0 where
  pub user : String
  pub model : String
  pub tokens : ℤ
  pub stage : Stage

abbrev pub result_of : Stage → Option (Result (Unit {0}))
result_of (finished r) = some r
result_of (unlogged e) = some (err e)
result_of _ = none

abbrev pub after_read : ℤ → Result ℤ → Stage
after_read cost (err e) = finished (err e)
after_read cost (ok balance) =
    if ltb_ℤ balance cost then finished (err "insufficient balance") else updating

abbrev pub after_update : Result (Unit {0}) → Stage
after_update (err e) = finished (err e)
after_update (ok _) = logging

abbrev pub after_insert : Result (Unit {0}) → Stage
after_insert (err e) = unlogged e
after_insert (ok _) = finished (ok tt)

-- The result of a call that has ended, and its database.
abbrev pub outcome : Call × Db → Option (Result (Unit {0})) × Db
outcome x = (result_of x.0.stage, x.1)

-- What a returned result and its database are as an outcome.
abbrev pub returned : Result (Unit {0}) × Db → Option (Result (Unit {0})) × Db
returned x = (some x.0, x.1)

module _ (fl : Float64) (prices : List (String × fl.Carrier)) where
  abbrev pub cost : Call → ℤ
  cost c = cost_of fl prices c.model c.tokens

  abbrev pub next_stage : Stage → Call → Db → Stage × Db
  next_stage reading c db = let (r, db') = get_balance c.user db in (after_read (cost c) r, db')
  next_stage updating c db =
      let (r, db') = update_balance c.user (neg64 (cost c)) db in (after_update r, db')
  next_stage logging c db =
      let (r, db') = create_transaction c.user "usage" (cost c) c.model c.tokens db in
      (after_insert r, db')
  next_stage (finished r) c db = (finished r, db)
  next_stage (unlogged e) c db = (unlogged e, db)

  unfoldable pub advance : Call → Db → Call × Db
  advance c db = let (stage, db') = next_stage c.stage c db in (record c { stage = stage }, db')

  -- The call at an index takes its next step.
  unfoldable pub advance_at : ℕ → List Call → Db → List Call × Db
  advance_at i [] db = ([], db)
  advance_at zero (c ∷ cs) db = let (c', db') = advance c db in (c' ∷ cs, db')
  advance_at (suc i) (c ∷ cs) db = let (cs', db') = advance_at i cs db in (c ∷ cs', db')

  -- A schedule is the list of the calls that take the steps.
  unfoldable pub interleave : List ℕ → List Call → Db → List Call × Db
  interleave [] cs db = (cs, db)
  interleave (i ∷ is) cs db = let (cs', db') = advance_at i cs db in interleave is cs' db'

  unfoldable pub run_alone : Call → Db → Call × Db
  unfolding advance
  run_alone c db = let (c1, db1) = advance c db in let (c2, db2) = advance c1 db1 in advance c2 db2

  abbrev at_stage : Call → Stage → Call
  at_stage c stage = record c { stage = stage }

  from_insert :
      (c : Call) (r : Result (Unit {0}) × Db)
      → outcome (at_stage c (after_insert r.0), r.1) ≡ returned r
  from_insert c (ok _, db) = refl
  from_insert c (err e, db) = refl

  abbrev insertion : Call → Db → Result (Unit {0}) × Db
  insertion c db = create_transaction c.user "usage" (cost c) c.model c.tokens db

  from_update :
      (c : Call) (r : Result (Unit {0}) × Db)
      → outcome (advance (at_stage c (after_update r.0)) r.1)
        ≡ returned (then_run (λ _. insertion c) r)
  unfolding advance
  from_update c (ok _, db) = from_insert c (insertion c db)
  from_update c (err e, db) = refl

  abbrev posting : Call → Db → Result (Unit {0}) × Db
  posting c db = then_run (λ _. insertion c) (update_balance c.user (neg64 (cost c)) db)

  from_test :
      (c : Call) (db : Db) (short : Bool)
      → let stage = if short then finished (err "insufficient balance") else updating in
        let (c1, db1) = advance (at_stage c stage) db in
        outcome (advance c1 db1)
        ≡ returned ((if short then fail "insufficient balance" else posting c) db)
  unfolding advance
  from_test c db true = refl
  from_test c db false = from_update c (update_balance c.user (neg64 (cost c)) db)

  from_read :
      (c : Call) (r : Result ℤ × Db)
      → let (c1, db1) = advance (at_stage c (after_read (cost c) r.0)) r.1 in
        outcome (advance c1 db1)
        ≡ returned (
            then_run
              (λ balance. if ltb_ℤ balance (cost c) then fail "insufficient balance" else posting c)
              r)
  unfolding advance
  from_read c (ok balance, db) = from_test c db (ltb_ℤ balance (cost c))
  from_read c (err e, db) = refl

  -- A call that takes three steps with no other call between them has ended with the result of
  -- RecordUsage, and has left its database.
  pub run_alone-record_usage :
      (user model : String) (tokens : ℤ) (db : Db)
      → outcome
          (run_alone (record { user = user; model = model; tokens = tokens; stage = reading }) db)
        ≡ returned (record_usage fl prices user model tokens db)
  unfolding run_alone advance record_usage
  run_alone-record_usage user model tokens db =
      from_read (record { user = user; model = model; tokens = tokens; stage = reading })
        (get_balance user db)
