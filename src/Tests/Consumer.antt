-- ===== src/Tests/Consumer.antt =====
-- Runs of the billing consumer.
use llm_proxy_study_project.Prelude.{
  ℕ, String, Option, none, some, true, [], ◌∷◌, ◌≡◌, refl, arith, ◌==◌, if◌then◌else◌, subst,
}
use llm_proxy_study_project.Prelude.Int.{pos, ◌≤ℤ◌, ◌+ℤ◌, ◌-ℤ◌}
use llm_proxy_study_project.Go.Int64.{IsInt64, neg64, wrap64, add64}
use llm_proxy_study_project.Go.Json.{Payload}
use llm_proxy_study_project.Billing.Store.{Tables, Db, has_id}
use llm_proxy_study_project.Billing.Store
use llm_proxy_study_project.Billing.Store.Laws.{balance_of}
use llm_proxy_study_project.Billing.Service.{cost_of, raw_cost, price_of, lookup, record_usage}
use llm_proxy_study_project.Billing.Service.Ledger.{net_of, IsSolvent}
use llm_proxy_study_project.Billing.Service.Success.{IsCovered, IsLogging}
use llm_proxy_study_project.Billing.Consumer.{
  billing_service, UsageEvent, decode_event, handle, receive, ack, nack, delivery, channel_closed,
}
use llm_proxy_study_project.Billing.Consumer.Deliveries.{
  cost_of_event, after, receive-IsSolvent, IsPriced,
}
use llm_proxy_study_project.Billing.Consumer.Redelivery.{redelivery_charges_twice}
use llm_proxy_study_project.LlmProxy.Service.{encode_usage}
use llm_proxy_study_project.LlmProxy.Service.Encoding.{decode-encode_usage}
use llm_proxy_study_project.Tests.Floats.{fractions}
use llm_proxy_study_project.Tests.Billing.{prices, tables, flaky, db_flaky, is_solvent}

abbrev parse_time : String → Option ℕ
parse_time s = if s == "2026-01-01T00:00:00Z" then some 7 else none

abbrev event_of : String → UsageEvent
event_of user = record {
  user_id = user;
  model = "gpt-4";
  prompt_tokens = pos 1500;
  completion_tokens = pos 500;
  timestamp = 7;
}

abbrev body_of : String → Payload
body_of user = some (encode_usage user "gpt-4" (pos 1500) (pos 500) "2026-01-01T00:00:00Z")

decoded : (user : String) → decode_event parse_time (body_of user) ≡ some (event_of user)
decoded user =
    decode-encode_usage parse_time user "gpt-4" (pos 1500) (pos 500) "2026-01-01T00:00:00Z" 7
      (ground arith) (ground arith) refl

event_cost : (user : String) → cost_of_event parse_time fractions prices (event_of user) ≡ pos 6
unfolding cost_of raw_cost price_of lookup add64 wrap64 ◌+ℤ◌
event_cost user = refl

is_priced : (user : String) → IsPriced parse_time fractions prices (delivery (body_of user))
is_priced user e h =
    let same : event_of user ≡ e = ground (arith, decoded user) in
    subst
      (λ e.
        IsInt64 (cost_of_event parse_time fractions prices e)
        × (pos 0 ≤ℤ cost_of_event parse_time fractions prices e))
      same (rw (event_cost user) (ground arith, ground arith))

receive-IsSolvent_example :
    IsSolvent
      (receive parse_time
        (billing_service fractions prices)
        (delivery (body_of "u1") ∷ delivery (body_of "u2") ∷ channel_closed ∷ [])
        db_flaky).2
receive-IsSolvent_example =
    receive-IsSolvent parse_time fractions prices
      (delivery (body_of "u1") ∷ delivery (body_of "u2") ∷ channel_closed ∷ []) db_flaky
      (is_priced "u1", (is_priced "u2", (tt, tt))) (is_solvent flaky)

-- The pool after the first delivery: the cost has gone, and nothing is recorded.
abbrev charged_once : Db
charged_once = record {
  tables = record tables {
    balances = record { user_id = "u1"; amount = pos 94; updated_at = 3 } ∷ [];
  };
  replies = flaky;
  sent = 3;
}

after_first : after parse_time fractions prices (body_of "u1") db_flaky ≡ charged_once
unfolding handle decode_event encode_usage record_usage cost_of raw_cost price_of lookup
    Store.get_balance Store.amount_of Store.update_balance Store.create_transaction Store.has_id
    Store.upsert neg64 wrap64 add64 ◌+ℤ◌ ◌-ℤ◌
after_first = refl

still-IsCovered :
    IsCovered "u1"
      (cost_of_event parse_time fractions prices (event_of "u1"))
      (after parse_time fractions prices (body_of "u1") db_flaky)
unfolding Store.amount_of
still-IsCovered = rw after_first (record {
  reads = refl;
  updates = refl;
  cost_fits = rw (event_cost "u1") (ground arith);
  cost_nonneg = rw (event_cost "u1") (ground arith);
  balance_fits = ground arith;
  enough = rw (event_cost "u1") (ground arith);
})

then_logged :
    IsLogging "u1"
      (cost_of_event parse_time fractions prices (event_of "u1"))
      (after parse_time fractions prices (body_of "u1") db_flaky)
unfolding has_id
then_logged = rw after_first (record { answers = refl; fresh = refl })

first-IsCovered :
    IsCovered "u1" (cost_of_event parse_time fractions prices (event_of "u1")) db_flaky
unfolding Store.amount_of
first-IsCovered = record {
  reads = refl;
  updates = refl;
  cost_fits = rw (event_cost "u1") (ground arith);
  cost_nonneg = rw (event_cost "u1") (ground arith);
  balance_fits = ground arith;
  enough = rw (event_cost "u1") (ground arith);
}

abbrev twice : Db
twice =
    after parse_time fractions prices (body_of "u1")
      (after parse_time fractions prices (body_of "u1") db_flaky)

redelivery_charges_twice_example :
    ((handle parse_time (billing_service fractions prices) (body_of "u1") db_flaky).0 ≡ nack true)
    × ((handle parse_time
          (billing_service fractions prices)
          (body_of "u1")
          (after parse_time fractions prices (body_of "u1") db_flaky)).0
        ≡ ack)
    × (balance_of "u1" twice
        ≡ balance_of "u1" db_flaky
          +ℤ neg64 (cost_of_event parse_time fractions prices (event_of "u1"))
          +ℤ neg64 (cost_of_event parse_time fractions prices (event_of "u1")))
    × (net_of "u1" twice
        ≡ neg64 (cost_of_event parse_time fractions prices (event_of "u1")) +ℤ net_of "u1" db_flaky)
redelivery_charges_twice_example =
    redelivery_charges_twice parse_time fractions prices (body_of "u1") (event_of "u1") db_flaky
      (decoded "u1") first-IsCovered refl still-IsCovered then_logged
