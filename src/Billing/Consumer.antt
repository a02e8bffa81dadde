-- ===== src/Billing/Consumer.antt =====
-- internal/billing/consumer/consumer.go. The broker is an argument: the connection attempts, and
-- what the select of the loop receives, come as lists; each delivery is answered with one verdict.
pub mod Deliveries
pub mod Redelivery
pub mod Ending
pub mod Keeping
use llm_proxy_study_project.Prelude.{
  ℕ, String, Option, none, some, Bool, true, false, List, [], ◌∷◌, ◌++◌,
}
use llm_proxy_study_project.Prelude.Int.{ℤ, pos}
use llm_proxy_study_project.Go.Effect.{Error, Result, ok, err, Op}
use llm_proxy_study_project.Go.Int64.{add64}
use llm_proxy_study_project.Go.Float.{Float64}
use llm_proxy_study_project.Go.Json.{
  ◌>>=◌, Json, Fields, str, null, Payload, fields_of, text_field, int_field, read_field,
}
use llm_proxy_study_project.Billing.Store.{Db}
use llm_proxy_study_project.Billing.Service

pub record UsageEvent : Type 0 where
  pub user_id : String
  pub model : String
  pub prompt_tokens : ℤ
  pub completion_tokens : ℤ
  pub timestamp : ℕ

-- consumer.BillingService, over the state of the service
pub record BillingService (S : Type 0) : Type 0 where
  pub record_usage : String → String → ℤ → Op S (Unit {0})

-- The service that the main gives to the consumer.
abbrev pub billing_service : (fl : Float64) → List (String × fl.Carrier) → BillingService Db
billing_service fl prices = record { record_usage = Service.record_usage fl prices }

-- msg.Ack(false), msg.Nack(false, requeue)
pub data Verdict : Type 0 where
  ack : Verdict
  nack : Bool → Verdict

-- How a session with the broker ends: with an error, or with none when the channel is closed.
pub data Exit : Type 0 where
  failed : Error → Exit
  closed : Exit

-- What the select receives.
pub data Arrival : Type 0 where
  cancelled : Error → Arrival
  connection_lost : Error → Arrival
  channel_closed : Arrival
  delivery : Payload → Arrival

-- The calls that open a session: their errors, in the order of the calls.
pub record Setup : Type 0 where
  pub dial : Option Error
  pub channel : Option Error
  pub queue_declare : Option Error
  pub consume : Option Error

module _ (parse_time : String → Option ℕ) where
  unfoldable pub assign_time : Json → ℕ → Option ℕ
  assign_time (str s) old = parse_time s
  assign_time null old = some old
  assign_time _ old = none

  -- json.Unmarshal(msg.Body, &event); the zero time is 0 here.
  unfoldable pub decode_event : Payload → Option UsageEvent
  unfolding fields_of text_field int_field read_field assign_time
  decode_event body = do
    doc ← body
    fs ← fields_of doc
    user ← text_field "user_id" fs
    model ← text_field "model" fs
    prompt ← int_field "prompt_tokens" fs
    completion ← int_field "completion_tokens" fs
    time ← read_field assign_time "timestamp" (some 0) fs
    some (record {
      user_id = user;
      model = model;
      prompt_tokens = prompt;
      completion_tokens = completion;
      timestamp = time;
    })

  module _ {S : Type 0} (billing : BillingService S) where
    abbrev pub answer : Result (Unit {0}) × S → Verdict × S
    answer (ok _, s) = (ack, s)
    answer (err _, s) = (nack true, s)

    -- The body of the case for a message.
    unfoldable pub handle : Payload → S → Verdict × S
    unfolding decode_event
    handle body s = elim (decode_event body) [
      | none ↦ (nack false, s)
      | some e ↦
          answer
            (billing.record_usage e.user_id e.model (add64 e.prompt_tokens e.completion_tokens) s)
    ]

    -- The loop of `run`; a list that ends stands for a select that still waits.
    unfoldable pub receive : List Arrival → S → Option Exit × List Verdict × S
    receive [] s = (none, [], s)
    receive (cancelled e ∷ _) s = (some (failed e), [], s)
    receive (connection_lost e ∷ _) s = (some (failed e), [], s)
    receive (channel_closed ∷ _) s = (some closed, [], s)
    receive (delivery body ∷ rest) s =
        let (verdict, s') = handle body s in
        let (exit, verdicts, s'') = receive rest s' in (exit, verdict ∷ verdicts, s'')

    abbrev first_error : Option Error → Option Error → Option Error
    first_error (some e) _ = some e
    first_error none next = next

    unfoldable pub run : Setup → List Arrival → S → Option Exit × List Verdict × S
    run setup arrivals s =
        elim (first_error setup.dial
          (first_error setup.channel (first_error setup.queue_declare setup.consume))) [
            | some e ↦ (some (failed e), [], s)
            | none ↦ receive arrivals s
          ]

    -- Each round of `Start` is a session and, once its `run` has returned, the wait after it, which
    -- ends with the error of a context that is done, or after five seconds. There is no result
    -- while a session or, at the end of the list, the next round is under way.
    unfoldable pub start :
        List (Setup × List Arrival × Option Error) → S → Option Error × List Verdict × S
    unfolding run receive
    start [] s = (none, [], s)
    start ((setup, arrivals, done) ∷ rounds) s =
        let (exit, verdicts, s') = run setup arrivals s in
        let (result, later, s'') = start rounds s' in
        elim exit [
          | none ↦ (none, verdicts, s')
          | some _ ↦ elim done [
            | some e ↦ (some e, verdicts, s')
            | none ↦ (result, verdicts ++ later, s'')
          ]
        ]
