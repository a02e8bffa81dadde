-- ===== src/Tests/Calls.antt =====
-- Runs of calls that interleave.
use llm_proxy_study_project.Prelude.{true, [], ◌∷◌, ◌≡◌, refl, arith}
use llm_proxy_study_project.Prelude.Int.{pos, ltb_ℤ, ◌+ℤ◌, ◌-ℤ◌}
use llm_proxy_study_project.Go.Int64.{neg64, wrap64}
use llm_proxy_study_project.Billing.Store.{amount_of}
use llm_proxy_study_project.Billing.Store.Laws.{balance_of}
use llm_proxy_study_project.Billing.Service.{cost_of, raw_cost, price_of, lookup}
use llm_proxy_study_project.Billing.Service.Ledger.{net}
use llm_proxy_study_project.Billing.Service.Calls.{Call, reading, logging, interleave}
use llm_proxy_study_project.Billing.Service.Calls.Debts.{
  IsPricedCall, IsAccounted, owed_all, interleave-IsAccounted,
}
use llm_proxy_study_project.Billing.Service.Calls.Overdraft.{IsRacing, race, race_overdraws}
use llm_proxy_study_project.Tests.Floats.{fractions}
use llm_proxy_study_project.Tests.Billing.{prices, db_up, db_flaky}

abbrev large : Call
large = record { user = "u1"; model = "gpt-4"; tokens = pos 20000; stage = reading }

cost_60 : cost_of fractions prices "gpt-4" (pos 20000) ≡ pos 60
unfolding cost_of raw_cost price_of lookup
cost_60 = refl

large-IsPricedCall : IsPricedCall fractions prices large
large-IsPricedCall = rw cost_60 (ground arith, ground arith)

large-IsAccounted : IsAccounted fractions prices (large ∷ large ∷ []) db_flaky
unfolding amount_of net owed_all ◌+ℤ◌
large-IsAccounted j = ground arith

interleave-IsAccounted_example :
    let (cs', db') = interleave fractions prices race (large ∷ large ∷ []) db_flaky in
    IsAccounted fractions prices cs' db'
interleave-IsAccounted_example =
    interleave-IsAccounted fractions prices race (large ∷ large ∷ []) db_flaky
      (large-IsPricedCall, (large-IsPricedCall, tt)) large-IsAccounted

large-IsRacing : IsRacing fractions prices "u1" "gpt-4" (pos 20000) db_up
unfolding amount_of
large-IsRacing = record {
  answers = λ n. refl;
  fits = large-IsPricedCall.0;
  nonneg = large-IsPricedCall.1;
  balance_fits = ground arith;
  enough = rw cost_60 refl;
}

too_little :
    ltb_ℤ
      (balance_of "u1" db_up +ℤ neg64 (cost_of fractions prices "gpt-4" (pos 20000)))
      (cost_of fractions prices "gpt-4" (pos 20000))
    ≡ true
unfolding amount_of neg64 wrap64 ◌+ℤ◌ ◌-ℤ◌
too_little = rw cost_60 refl

race_overdraws_example :
    let (cs, db') = interleave fractions prices race (large ∷ large ∷ []) db_up in
    (cs ≡ record large { stage = logging } ∷ record large { stage = logging } ∷ [])
    × (balance_of "u1" db'
        ≡ balance_of "u1" db_up
          +ℤ neg64 (cost_of fractions prices "gpt-4" (pos 20000))
          +ℤ neg64 (cost_of fractions prices "gpt-4" (pos 20000)))
    × (ltb_ℤ (balance_of "u1" db') (pos 0) ≡ true)
race_overdraws_example =
    race_overdraws fractions prices "u1" "gpt-4" (pos 20000) db_up large-IsRacing too_little
