-- ===== src/Billing/Consumer/Redelivery.antt =====
-- Messages that come back: what a requeue does to the balance, and a message that is never done.
use llm_proxy_study_project.Prelude.{
  ℕ, zero, suc, String, List, [], ◌∷◌, ◌≡◌, refl, sym, subst, ap, ◌∙◌, true, arith, Option, some,
}
use llm_proxy_study_project.Prelude.Int.{pos, ◌+ℤ◌, ◌≤ℤ◌, ltb_ℤ}
use llm_proxy_study_project.Go.Effect.{Error, Result, err}
use llm_proxy_study_project.Go.Int64.{neg64}
use llm_proxy_study_project.Go.Float.{Float64}
use llm_proxy_study_project.Go.Json.{Payload}
use llm_proxy_study_project.Go.Postgres.{reply, sent_with}
use llm_proxy_study_project.Billing.Store.{Db}
use llm_proxy_study_project.Billing.Store.Laws.{balance_of, zero-+ℤ, read_balance, read_balance-le}
use llm_proxy_study_project.Billing.Service.Charge.{record_usage_lem, charge}
use llm_proxy_study_project.Billing.Service.Ledger.{net_of}
use llm_proxy_study_project.Billing.Service.Success.{
  IsCovered, IsLogging, updated_pool, record_usage_succeeds, record_usage_unlogged,
}
use llm_proxy_study_project.Billing.Consumer.{
  billing_service, UsageEvent, Verdict, ack, nack, Arrival, delivery, decode_event, handle, receive,
}
use llm_proxy_study_project.Billing.Consumer.Deliveries.{
  tokens_of, cost_of_event, record_event, requeues, acks, after,
}

-- The same message, n times.
abbrev pub again : ℕ → Payload → List Arrival
again zero body = []
again (suc n) body = delivery body ∷ again n body

abbrev pub all_requeued : ℕ → List Verdict
all_requeued zero = []
all_requeued (suc n) = nack true ∷ all_requeued n

module _ (parse_time : String → Option ℕ) (fl : Float64) (prices : List (String × fl.Carrier)) where
  -- A message whose cost is taken but whose transaction cannot be inserted is requeued, and if the
  -- balance still covers it and its redelivery meets no fault, that is acknowledged: the balance
  -- has paid twice for one recorded usage.
  pub redelivery_charges_twice :
      (body : Payload) (e : UsageEvent) (db : Db) {f : Error}
      → decode_event parse_time body ≡ some e
      → IsCovered e.user_id (cost_of_event parse_time fl prices e) db
      → (reply (updated_pool e.user_id (neg64 (cost_of_event parse_time fl prices e)) db)).fault
        ≡ some f
      → IsCovered e.user_id
          (cost_of_event parse_time fl prices e)
          (after parse_time fl prices body db)
      → IsLogging e.user_id
          (cost_of_event parse_time fl prices e)
          (after parse_time fl prices body db)
      → ((handle parse_time (billing_service fl prices) body db).0 ≡ nack true)
        × ((handle parse_time
              (billing_service fl prices)
              body
              (after parse_time fl prices body db)).0
            ≡ ack)
        × (balance_of e.user_id
              (after parse_time fl prices body (after parse_time fl prices body db))
            ≡ balance_of e.user_id db
              +ℤ neg64 (cost_of_event parse_time fl prices e)
              +ℤ neg64 (cost_of_event parse_time fl prices e))
        × (net_of e.user_id (after parse_time fl prices body (after parse_time fl prices body db))
            ≡ neg64 (cost_of_event parse_time fl prices e) +ℤ net_of e.user_id db)
  redelivery_charges_twice body e db good covered fault again logging =
      let (failed, first_taken) =
        record_usage_unlogged fl prices e.user_id e.model (tokens_of e) db covered fault in
      let (done, second_taken) =
        record_usage_succeeds fl prices e.user_id e.model (tokens_of e)
          (after parse_time fl prices body db) again logging in
      let first = requeues parse_time fl prices body e db good failed in
      let second =
        acks parse_time fl prices body e (after parse_time fl prices body db) good done in
      (
        ap (λ (r : Verdict × Db). r.0) first,
        ap (λ (r : Verdict × Db). r.0) second,
        ap (λ (r : Verdict × Db). balance_of e.user_id r.1) second
            ∙ second_taken.balance
            ∙ ap
                (λ (r : Verdict × Db).
                  balance_of e.user_id r.1 +ℤ neg64 (cost_of_event parse_time fl prices e))
                first
            ∙ ap (λ b. b +ℤ neg64 (cost_of_event parse_time fl prices e)) first_taken.balance,
        ap (λ (r : Verdict × Db). net_of e.user_id r.1) second
            ∙ second_taken.recorded
            ∙ ap
                (λ (r : Verdict × Db).
                  neg64 (cost_of_event parse_time fl prices e) +ℤ net_of e.user_id r.1)
                first
            ∙ ap (λ b. neg64 (cost_of_event parse_time fl prices e) +ℤ b)
                (first_taken.recorded ∙ zero-+ℤ _),
      )

  refused_again :
      (e : UsageEvent) (db : Db)
      → pos 0 ≤ℤ balance_of e.user_id db
      → ltb_ℤ (balance_of e.user_id db) (cost_of_event parse_time fl prices e) ≡ true
      → record_event parse_time fl prices e db
        ≡ (err "insufficient balance", sent_with db db.tables)
  refused_again e db solvent short =
      let cost = cost_of_event parse_time fl prices e in
      let le = read_balance-le e.user_id db solvent in
      let still : ltb_ℤ (read_balance e.user_id db) cost ≡ true = ground arith in
      record_usage_lem fl prices e.user_id e.model (tokens_of e) db
      ∙ ap (λ b. charge fl prices e.user_id e.model (tokens_of e) b (sent_with db db.tables)) still

  -- A message that costs more than the balance of its user, which is zero or more, is requeued at
  -- every delivery, for as often as it comes back: it is never acknowledged, and no table changes.
  pub short_message_returns :
      (n : ℕ) (body : Payload) (e : UsageEvent) (db : Db)
      → decode_event parse_time body ≡ some e
      → pos 0 ≤ℤ balance_of e.user_id db
      → ltb_ℤ (balance_of e.user_id db) (cost_of_event parse_time fl prices e) ≡ true
      → let (exit, verdicts, db') =
          receive parse_time (billing_service fl prices) (again n body) db in
        (verdicts ≡ all_requeued n) × (db'.tables ≡ db.tables)
  unfolding receive
  short_message_returns zero body e db good solvent short = (refl, refl)
  short_message_returns (suc n) body e db good solvent short =
      let refusal = refused_again e db solvent short in
      let (verdicts, same) =
        short_message_returns n body e (sent_with db db.tables) good solvent short in
      let step =
        requeues parse_time fl prices body e db good
          (ap (λ (r : Result (Unit {0}) × Db). r.0) refusal)
        ∙ ap (λ (r : Result (Unit {0}) × Db). (nack true, r.1)) refusal in
      subst
        (λ (r : Verdict × Db).
          ((r.0 ∷ (receive parse_time (billing_service fl prices) (again n body) r.1).1)
            ≡ all_requeued (suc n))
          × ((receive parse_time (billing_service fl prices) (again n body) r.1).2.tables
              ≡ db.tables))
        (sym step) (ap (λ vs. nack true ∷ vs) verdicts, same)
