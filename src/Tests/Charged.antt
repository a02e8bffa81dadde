-- ===== src/Tests/Charged.antt =====
-- A run from a completion to its charge.
use llm_proxy_study_project.Prelude.{
  ℕ, String, some, none, ◌≡◌, refl, ◌⊎◌, arith, ◌==◌, if◌then◌else◌, Option,
}
use llm_proxy_study_project.Prelude.Int.{pos, ◌≤ℤ◌, ◌+ℤ◌}
use llm_proxy_study_project.Go.Int64.{IsInt64, add64, wrap64}
use llm_proxy_study_project.Billing.Store.{has_id}
use llm_proxy_study_project.Billing.Store
use llm_proxy_study_project.Billing.Service.{cost_of, raw_cost, price_of, lookup}
use llm_proxy_study_project.Billing.Service.Success.{IsCovered, IsLogging}
use llm_proxy_study_project.LlmProxy.Service.Flow.{FromCache}
use llm_proxy_study_project.System.Charged.{cost, IsCharged, complete-IsCharged}
use llm_proxy_study_project.Tests.Floats.{fractions}
use llm_proxy_study_project.Tests.Billing.{prices, db_up}
use llm_proxy_study_project.Tests.Proxy.{World, service, hello, start, answer, served, answered}

abbrev pub parse_time : String → Option ℕ
parse_time s = if s == "2026-01-01T00:00:00Z" then some 7 else none

-- 83 tokens at 0.03 for a thousand
cost_1 : cost service parse_time fractions prices hello answer ≡ pos 1
unfolding cost_of raw_cost price_of lookup add64 wrap64 ◌+ℤ◌
cost_1 = refl

fits_1 : IsInt64 (cost service parse_time fractions prices hello answer)
fits_1 = rw cost_1 (ground arith)

nonneg_1 : pos 0 ≤ℤ cost service parse_time fractions prices hello answer
nonneg_1 = rw cost_1 (ground arith)

enough_1 : cost service parse_time fractions prices hello answer ≤ℤ pos 100
enough_1 = rw cost_1 (ground arith)

covered : IsCovered "u1" (cost service parse_time fractions prices hello answer) db_up
unfolding Store.amount_of
covered = record {
  reads = refl;
  updates = refl;
  cost_fits = fits_1;
  cost_nonneg = nonneg_1;
  balance_fits = ground arith;
  enough = enough_1;
}

logging : IsLogging "u1" (cost service parse_time fractions prices hello answer) db_up
unfolding has_id
logging = record { answers = refl; fresh = refl }

complete-IsCharged_example :
    ((paid : World) × FromCache service hello paid answer served)
    ⊎ IsCharged service parse_time fractions prices "u1" hello answer served db_up
complete-IsCharged_example =
    complete-IsCharged service parse_time fractions prices "good" hello start served start answer
      (record { user_id = "u1"; role = "user" }) db_up (λ v. (7, refl)) (ground arith)
      (ground arith) refl covered logging answered
