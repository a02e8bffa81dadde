-- ===== src/Tests/Usage.antt =====
-- A usage and the report after it.
use llm_proxy_study_project.Prelude.{◌≡◌, refl, arith}
use llm_proxy_study_project.Prelude.Int.{pos, ◌+ℤ◌}
use llm_proxy_study_project.Go.Effect.{ok}
use llm_proxy_study_project.Billing.Store
use llm_proxy_study_project.Billing.Service.{cost_of, get_usage, record_usage}
use llm_proxy_study_project.Billing.Service.Usage.{
  IsReported, old_report, with_usage, usage_after_charge,
}
use llm_proxy_study_project.Tests.Floats.{fractions}
use llm_proxy_study_project.Tests.Billing.{prices, up, db_up, cost_6, covered, logging}

reported :
    IsReported "u1" "day" (cost_of fractions prices "gpt-4" (pos 2000)) "gpt-4" (pos 2000) db_up
unfolding Store.interval Store.sum_tokens Store.sum_amount ◌+ℤ◌
reported = record {
  answers = refl;
  recent = omega arith;
  tokens_fit = ground arith;
  amount_fits = rw cost_6 (ground arith);
}

usage_after_charge_example :
    (get_usage "u1" "day" (record_usage fractions prices "u1" "gpt-4" (pos 2000) db_up).1).0
    ≡ ok (
        with_usage (pos 2000) (cost_of fractions prices "gpt-4" (pos 2000)) (
          old_report "u1" "day"
            (cost_of fractions prices "gpt-4" (pos 2000))
            "gpt-4"
            (pos 2000)
            db_up))
usage_after_charge_example =
    usage_after_charge fractions prices "u1" "gpt-4" "day" (pos 2000) db_up (covered up refl refl)
      logging reported
