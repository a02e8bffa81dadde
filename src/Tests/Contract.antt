-- ===== src/Tests/Contract.antt =====
-- Runs of the billing service against its contract, and of the consumer until it returns.
use llm_proxy_study_project.Prelude.{
  ℕ, String, Option, none, some, List, [], ◌∷◌, ◌≡◌, ◌==◌, if◌then◌else◌,
}
use llm_proxy_study_project.Prelude.Int.{pos}
use llm_proxy_study_project.Billing.Service.Contract.{
  Order, paying_in, using, perform_all, accounts, Steps, perform_all-Steps,
}
use llm_proxy_study_project.Billing.Consumer.{
  billing_service, Setup, delivery, channel_closed, start,
}
use llm_proxy_study_project.Billing.Consumer.Ending.{
  Round, first_done, received, handled, start_lem,
}
use llm_proxy_study_project.LlmProxy.Service.{encode_usage}
use llm_proxy_study_project.Tests.Floats.{fractions}
use llm_proxy_study_project.Tests.Billing.{prices, db_up, db_flaky}

-- A deposit, a usage and a usage that is too dear; the server loses the third statement.
abbrev orders : List Order
orders =
    paying_in "u1" (pos 5) ∷ using "u1" "gpt-4" (pos 2000) ∷ using "u1" "gpt-4" (pos 900000) ∷ []

perform_all-Steps_example :
    let (rs, db') = perform_all fractions prices orders db_flaky in
    Steps fractions prices orders (accounts db_flaky.tables) rs (accounts db'.tables)
perform_all-Steps_example = perform_all-Steps fractions prices orders db_flaky

abbrev parse_time : String → Option ℕ
parse_time s = if s == "2026-01-01T00:00:00Z" then some 7 else none

abbrev reachable : Setup
reachable = record { dial = none; channel = none; queue_declare = none; consume = none }

-- A session that gets nowhere, and one with a message, after which the context is done.
abbrev rounds : List Round
rounds =
    (record reachable { dial = some "connection refused" }, [], none)
    ∷ (
      reachable,
      delivery (some (encode_usage "u1" "gpt-4" (pos 1500) (pos 500) "2026-01-01T00:00:00Z"))
          ∷ channel_closed
          ∷ [],
      some "context canceled",
    )
    ∷ []

start_example :
    start parse_time (billing_service fractions prices) rounds db_up
    ≡ handled parse_time
        (billing_service fractions prices)
        (first_done rounds)
        (received rounds)
        db_up
start_example = start_lem parse_time (billing_service fractions prices) rounds db_up
