-- ===== src/Tests/Billing.antt =====
-- Runs of the billing service.
use llm_proxy_study_project.Prelude.{
  ℕ, String, none, some, false, List, [], ◌∷◌, ◌≡◌, refl, ◌+◌, arith, eqb, if◌then◌else◌,
}
use llm_proxy_study_project.Prelude.Int.{pos, ◌≤ℤ◌, ◌+ℤ◌, ◌-ℤ◌}
use llm_proxy_study_project.Go.Effect.{ok}
use llm_proxy_study_project.Go.Int64.{IsInt64, neg64, wrap64}
use llm_proxy_study_project.Go.Postgres.{Reply}
use llm_proxy_study_project.Billing.Store.{Balance, Transaction, Tables, Db, has_id, entry}
use llm_proxy_study_project.Billing.Store
use llm_proxy_study_project.Billing.Service.{cost_of, raw_cost, price_of, lookup, record_usage}
use llm_proxy_study_project.Billing.Service.Charge.{Charged, record_usage-Charged}
use llm_proxy_study_project.Billing.Service.Ledger.{
  net, IsReconciled, IsSolvent, record_usage-IsReconciled, record_usage-IsSolvent,
}
use llm_proxy_study_project.Billing.Service.Success.{
  IsCovered, IsLogging, IsTaken, record_usage_succeeds,
}
use llm_proxy_study_project.Tests.Floats.{Fraction, fractions}

abbrev pub prices : List (String × Fraction)
prices = ("gpt-4", record { negative = false; top = 3; bottom = 100 }) ∷ []

abbrev pub tables : Tables
tables = record {
  balances = record { user_id = "u1"; amount = pos 100; updated_at = 1 } ∷ [];
  transactions =
      record {
        id = "t0";
        user_id = "u1";
        tx_type = "deposit";
        amount = pos 100;
        model = "";
        tokens = pos 0;
        created_at = 1;
      }
      ∷ [];
}

-- A server that answers every statement.
abbrev pub up : ℕ → Reply
up n = record { fault = none; id = "t1"; now = n + 2 }

-- A server that loses the third statement only.
abbrev pub flaky : ℕ → Reply
flaky n = record { fault = if eqb n 2 then some "conn closed" else none; id = "t1"; now = n + 2 }

abbrev pub db_up : Db
db_up = record { tables = tables; replies = up; sent = 0 }

abbrev pub db_flaky : Db
db_flaky = record { tables = tables; replies = flaky; sent = 0 }

pub cost_6 : cost_of fractions prices "gpt-4" (pos 2000) ≡ pos 6
unfolding cost_of raw_cost price_of lookup
cost_6 = refl

pub is_solvent : (n : ℕ → Reply) → IsSolvent (record { tables = tables; replies = n; sent = 0 })
unfolding Store.amount_of
is_solvent n user = ground arith

is_reconciled : (n : ℕ → Reply) → IsReconciled (record { tables = tables; replies = n; sent = 0 })
unfolding Store.amount_of net ◌+ℤ◌
is_reconciled n user = ground arith

record_usage-Charged_example :
    Charged "u1"
      (cost_of fractions prices "gpt-4" (pos 2000))
      "gpt-4"
      (pos 2000)
      db_up
      (record_usage fractions prices "u1" "gpt-4" (pos 2000) db_up)
record_usage-Charged_example = record_usage-Charged fractions prices "u1" "gpt-4" (pos 2000) db_up

pub fits_6 : IsInt64 (cost_of fractions prices "gpt-4" (pos 2000))
fits_6 = rw cost_6 (ground arith)

nonneg_6 : pos 0 ≤ℤ cost_of fractions prices "gpt-4" (pos 2000)
nonneg_6 = rw cost_6 (ground arith)

record_usage-IsSolvent_example :
    IsSolvent (record_usage fractions prices "u1" "gpt-4" (pos 2000) db_flaky).1
record_usage-IsSolvent_example =
    record_usage-IsSolvent fractions prices "u1" "gpt-4" (pos 2000) db_flaky fits_6 nonneg_6
      (is_solvent flaky)

charged_db : Db
charged_db = (record_usage fractions prices "u1" "gpt-4" (pos 2000) db_up).1

charged_ok : record_usage fractions prices "u1" "gpt-4" (pos 2000) db_up ≡ (ok tt, charged_db)
unfolding charged_db record_usage cost_of raw_cost price_of lookup Store.get_balance Store.amount_of
    Store.update_balance Store.create_transaction Store.has_id Store.upsert neg64 wrap64 ◌+ℤ◌ ◌-ℤ◌
charged_ok = refl

record_usage-IsReconciled_example : IsReconciled charged_db
record_usage-IsReconciled_example =
    record_usage-IsReconciled fractions prices "u1" "gpt-4" (pos 2000) db_up charged_db fits_6
      nonneg_6 (is_reconciled up) charged_ok

pub covered :
    (s : ℕ → Reply)
    → (s 0).fault ≡ none
    → (s 1).fault ≡ none
    → IsCovered "u1"
        (cost_of fractions prices "gpt-4" (pos 2000))
        (record { tables = tables; replies = s; sent = 0 })
unfolding Store.amount_of
covered s read write = record {
  reads = read;
  updates = write;
  cost_fits = fits_6;
  cost_nonneg = nonneg_6;
  balance_fits = ground arith;
  enough = rw cost_6 (ground arith);
}

pub logging : IsLogging "u1" (cost_of fractions prices "gpt-4" (pos 2000)) db_up
unfolding has_id
logging = record { answers = refl; fresh = refl }

record_usage_succeeds_example :
    let cost = cost_of fractions prices "gpt-4" (pos 2000) in
    let (r, db') = record_usage fractions prices "u1" "gpt-4" (pos 2000) db_up in
    (r ≡ ok tt) × IsTaken "u1" cost (neg64 cost) db_up db'
record_usage_succeeds_example =
    record_usage_succeeds fractions prices "u1" "gpt-4" (pos 2000) db_up (covered up refl refl)
      logging
