-- ===== src/Billing/Consumer/Deliveries.antt =====
-- What becomes of the messages of the queue usage.recorded.
use llm_proxy_study_project.Prelude.{
  ℕ, String, List, [], ◌∷◌, ◌≡◌, refl, sym, subst, ◌∙◌, true, false, Option, none, some, All, ◌↔◌,
  ◌≢◌, Option-cases, inl, inr,
}
use llm_proxy_study_project.Prelude.Int.{ℤ, pos, ◌≤ℤ◌}
use llm_proxy_study_project.Go.Effect.{Error, Result, ok, err}
use llm_proxy_study_project.Go.Int64.{IsInt64, add64}
use llm_proxy_study_project.Go.Float.{Float64}
use llm_proxy_study_project.Go.Json.{Payload}
use llm_proxy_study_project.Billing.Store.{Db}
use llm_proxy_study_project.Billing.Service.{cost_of, record_usage}
use llm_proxy_study_project.Billing.Service.Ledger.{IsSolvent, record_usage-IsSolvent}
use llm_proxy_study_project.Billing.Consumer.{
  billing_service, UsageEvent, Verdict, ack, nack, Arrival, cancelled, connection_lost,
  channel_closed, delivery, decode_event, handle, answer, receive,
}

abbrev pub tokens_of : UsageEvent → ℤ
tokens_of e = add64 e.prompt_tokens e.completion_tokens

module _ (parse_time : String → Option ℕ) (fl : Float64) (prices : List (String × fl.Carrier)) where
  abbrev pub cost_of_event : UsageEvent → ℤ
  cost_of_event e = cost_of fl prices e.model (tokens_of e)

  abbrev pub record_event : UsageEvent → Db → Result (Unit {0}) × Db
  record_event e = record_usage fl prices e.user_id e.model (tokens_of e)

  pub handle_decoded :
      (body : Payload) (db : Db) (e : UsageEvent)
      → decode_event parse_time body ≡ some e
      → handle parse_time (billing_service fl prices) body db
        ≡ answer parse_time (billing_service fl prices) (record_event e db)
  unfolding handle
  handle_decoded body db e h = rw (handle, h) refl

  handle_undecoded :
      (body : Payload) (db : Db)
      → decode_event parse_time body ≡ none
      → handle parse_time (billing_service fl prices) body db ≡ (nack false, db)
  unfolding handle
  handle_undecoded body db h = rw (handle, h) refl

  answer-ack_iff :
      (r : Result (Unit {0}) × Db)
      → ((answer parse_time (billing_service fl prices) r).0 ≡ ack) ↔ (r.0 ≡ ok tt)
  answer-ack_iff (ok _, db) = (λ _. refl, λ _. refl)
  answer-ack_iff (err e, db) = (λ h. cc, λ h. cc)

  answer-ne-drop :
      (r : Result (Unit {0}) × Db)
      → (answer parse_time (billing_service fl prices) r).0 ≢ nack false
  answer-ne-drop (ok _, db) h = cc
  answer-ne-drop (err e, db) h = cc

  -- A message is dropped, that is nacked without requeue, exactly when it does not decode.
  pub handle_drops_iff :
      (body : Payload) (db : Db)
      → ((handle parse_time (billing_service fl prices) body db).0 ≡ nack false)
        ↔ (decode_event parse_time body ≡ none)
  handle_drops_iff body db = (
    λ dropped. elim (Option-cases (decode_event parse_time body)) [
      | inl bad ↦ bad
      | inr (e, good) ↦
          absurd
            (answer-ne-drop (record_event e db) (rw (handle_decoded body db e good) at dropped))
    ],
    λ bad. rw (handle_undecoded body db bad),
  )

  -- A message is acknowledged exactly when it decodes and its usage is recorded without an error.
  pub handle_acks_iff :
      (body : Payload) (db : Db)
      → ((handle parse_time (billing_service fl prices) body db).0 ≡ ack) ↔ (
          (e : UsageEvent) × (decode_event parse_time body ≡ some e)
          × ((record_event e db).0 ≡ ok tt))
  handle_acks_iff body db = (
    λ acked. elim (Option-cases (decode_event parse_time body)) [
      | inl bad ↦
          let wrong : nack false ≡ ack = rw (handle_undecoded body db bad) at acked in absurd (cc)
      | inr (e, good) ↦ (
        e,
        good,
        (answer-ack_iff (record_event e db)).0 (rw (handle_decoded body db e good) at acked),
      )
    ],
    λ (e, good, recorded).
        rw (handle_decoded body db e good) ((answer-ack_iff (record_event e db)).1 recorded),
  )

  answer_state :
      (r : Result (Unit {0}) × Db)
      → answer parse_time (billing_service fl prices) r
        ≡ ((answer parse_time (billing_service fl prices) r).0, r.1)
  answer_state (ok _, db) = refl
  answer_state (err f, db) = refl

  answer_err :
      (r : Result (Unit {0}) × Db) {f : Error}
      → r.0 ≡ err f
      → answer parse_time (billing_service fl prices) r ≡ (nack true, r.1)
  answer_err (ok _, db) h = cc
  answer_err (err f, db) h = refl

  answer_ok :
      (r : Result (Unit {0}) × Db)
      → r.0 ≡ ok tt
      → answer parse_time (billing_service fl prices) r ≡ (ack, r.1)
  answer_ok (ok _, db) h = refl
  answer_ok (err f, db) h = cc

  pub requeues :
      (body : Payload) (e : UsageEvent) (db : Db) {f : Error}
      → decode_event parse_time body ≡ some e
      → (record_event e db).0 ≡ err f
      → handle parse_time (billing_service fl prices) body db ≡ (nack true, (record_event e db).1)
  requeues body e db good failed =
      handle_decoded body db e good ∙ answer_err (record_event e db) failed

  pub acks :
      (body : Payload) (e : UsageEvent) (db : Db)
      → decode_event parse_time body ≡ some e
      → (record_event e db).0 ≡ ok tt
      → handle parse_time (billing_service fl prices) body db ≡ (ack, (record_event e db).1)
  acks body e db good done = handle_decoded body db e good ∙ answer_ok (record_event e db) done

  -- The states after the first and the second delivery of a message.
  abbrev pub after : Payload → Db → Db
  after body db = (handle parse_time (billing_service fl prices) body db).1

  -- The costs of the messages that decode are zero or more.
  abbrev pub IsPriced : Arrival → Type 0
  IsPriced (delivery body) =
      (e : UsageEvent)
      → decode_event parse_time body ≡ some e
      → IsInt64 (cost_of_event e) × (pos 0 ≤ℤ cost_of_event e)
  IsPriced _ = Unit

  handle-IsSolvent :
      (body : Payload) (db : Db)
      → IsPriced (delivery body)
      → IsSolvent db
      → IsSolvent (after body db)
  handle-IsSolvent body db priced solvent = elim (Option-cases (decode_event parse_time body)) [
    | inl bad ↦
        subst (λ (r : Verdict × Db). IsSolvent r.1) (sym (handle_undecoded body db bad)) solvent
    | inr (e, good) ↦
        subst (λ (r : Verdict × Db). IsSolvent r.1)
          (sym (handle_decoded body db e good ∙ answer_state (record_event e db)))
          (record_usage-IsSolvent fl prices e.user_id e.model (tokens_of e) db (priced e good).0
            (priced e good).1 solvent)
  ]

  -- Whatever a session receives, and whichever statements fail, no balance falls below zero, if the
  -- costs of the messages are zero or more.
  pub receive-IsSolvent :
      (arrivals : List Arrival) (db : Db)
      → All IsPriced arrivals
      → IsSolvent db
      → IsSolvent (receive parse_time (billing_service fl prices) arrivals db).2
  unfolding receive
  receive-IsSolvent [] db _ solvent = solvent
  receive-IsSolvent (cancelled e ∷ rest) db _ solvent = solvent
  receive-IsSolvent (connection_lost e ∷ rest) db _ solvent = solvent
  receive-IsSolvent (channel_closed ∷ rest) db _ solvent = solvent
  receive-IsSolvent (delivery body ∷ rest) db (priced, later) solvent =
      receive-IsSolvent rest (after body db) later (handle-IsSolvent body db priced solvent)
