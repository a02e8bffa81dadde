-- ===== src/Billing/Service.antt =====
-- internal/billing/service/service.go over the store. The prices are a Go map from model names to
-- float64 values; the arithmetic of floats is an argument (Go/Float.antt).
pub mod Posting
pub mod Charge
pub mod Ledger
pub mod Success
pub mod Contract
pub mod Calls
pub mod Keeping
pub mod History
pub mod Usage
use llm_proxy_study_project.Prelude.{String, Option, none, some, List, [], ◌∷◌, ◌==◌, if◌then◌else◌}
use llm_proxy_study_project.Prelude.Int.{ℤ, pos, ltb_ℤ}
use llm_proxy_study_project.Go.Effect.{Op, fail, ◌>>=◌, ◌>>◌}
use llm_proxy_study_project.Go.Int64.{neg64}
use llm_proxy_study_project.Go.Float.{Float64}
use llm_proxy_study_project.Billing.Store.{Db, Transaction, UsageSummary}
use llm_proxy_study_project.Billing.Store

unfoldable pub get_balance : String → Op Db ℤ
get_balance user = Store.get_balance user

unfoldable pub deposit : String → ℤ → Op Db (Unit {0})
deposit user amount = do
  Store.update_balance user amount
  Store.create_transaction user "deposit" amount "" (pos 0)

unfoldable pub get_transactions : String → Op Db (List Transaction)
get_transactions user = Store.get_transactions user

unfoldable pub get_usage : String → String → Op Db UsageSummary
get_usage user period = Store.get_usage user period

-- `m[key]` and whether the key is there.
unfoldable pub lookup : {V : Type 0} → String → List (String × V) → Option V
lookup key [] = none
lookup key ((k, v) ∷ m) = if k == key then some v else lookup key m

-- `price = s.prices["default"]`, a missing key reading as zero, and 0.03 if that is zero.
unfoldable pub default_price : (fl : Float64) → Option fl.Carrier → fl.Carrier
default_price fl none = if fl.is_zero (fl.literal 0 0) then fl.literal 3 2 else fl.literal 0 0
default_price fl (some p) = if fl.is_zero p then fl.literal 3 2 else p

module _ (fl : Float64) (prices : List (String × fl.Carrier)) where
  unfoldable pub price_of : String → fl.Carrier
  price_of model = elim (lookup model prices) [
    | some price ↦ price
    | none ↦ default_price fl (lookup "default" prices)
  ]

  -- int64(math.Ceil(float64(tokens) / 1000.0 * price * 100))
  unfoldable pub raw_cost : String → ℤ → fl.Carrier
  raw_cost model tokens = fl.ceil (
      fl.mul (fl.mul (fl.div (fl.of_int64 tokens) (fl.literal 1000 0)) (price_of model))
        (fl.literal 100 0))

  unfoldable pub cost_of : String → ℤ → ℤ
  cost_of model tokens = fl.to_int64 (raw_cost model tokens)

  unfoldable pub record_usage : String → String → ℤ → Op Db (Unit {0})
  record_usage user model tokens = do
    let cost = cost_of model tokens
    balance ← Store.get_balance user
    if ltb_ℤ balance cost then fail "insufficient balance" else do
      Store.update_balance user (neg64 cost)
      Store.create_transaction user "usage" cost model tokens
