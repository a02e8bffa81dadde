-- ===== src/Billing/Consumer/Keeping.antt =====
-- What a message leaves of the tables.
use llm_proxy_study_project.Prelude.{String, Option, none, some, ℕ, false, refl, List}
use llm_proxy_study_project.Go.Effect.{Result, ok, err}
use llm_proxy_study_project.Go.Int64.{add64}
use llm_proxy_study_project.Go.Float.{Float64}
use llm_proxy_study_project.Go.Json.{Payload}
use llm_proxy_study_project.Billing.Store.{Tables, Db}
use llm_proxy_study_project.Billing.Service.{record_usage}
use llm_proxy_study_project.Billing.Service.Keeping.{IsKept, record_usage-Leaves}
use llm_proxy_study_project.Billing.Consumer.{
  billing_service, UsageEvent, Verdict, nack, answer, decode_event, handle,
}

module _ (Rel : Tables → Tables → Type 0) (h : IsKept Rel) (parse_time : String → Option ℕ)
    (fl : Float64) (prices : List (String × fl.Carrier)) where
  -- A message, whatever it holds, leaves related tables.
  pub handle-Rel :
      (body : Payload) (db : Db)
      → Rel db.tables (handle parse_time (billing_service fl prices) body db).1.tables
  unfolding handle
  handle-Rel body db = by_event (decode_event parse_time body)
    where
      by_result :
          (x : Result (Unit {0}) × Db)
          → Rel db.tables x.1.tables
          → Rel db.tables (answer parse_time (billing_service fl prices) x).1.tables
      by_result (ok _, db') left = left
      by_result (err e, db') left = left

      by_event :
          (o : Option UsageEvent)
          → Rel db.tables
              (elim o as (λ _. Verdict × Db) [
                | none ↦ (nack false, db)
                | some e ↦ answer parse_time (billing_service fl prices) (
                    record_usage fl prices e.user_id e.model
                      (add64 e.prompt_tokens e.completion_tokens)
                      db)
              ]).1.tables
      by_event none = h.same refl
      by_event (some e) = by_result _ (record_usage-Leaves Rel h fl prices e.user_id e.model _ db)
