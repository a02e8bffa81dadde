-- ===== src/System/Charged.antt =====
-- From a completion to its charge: internal/llmproxy/service publishes what
-- internal/billing/consumer takes from the queue.
use llm_proxy_study_project.Prelude.{
  ℕ, String, List, some, ◌≡◌, refl, sym, ap, ◌∙◌, ◌⊎◌, inl, inr, subst, Option,
}
use llm_proxy_study_project.Prelude.Int.{ℤ}
use llm_proxy_study_project.Go.Effect.{Result, ok, err}
use llm_proxy_study_project.Go.Int64.{IsInt64, neg64, add64}
use llm_proxy_study_project.Go.Float.{Float64}
use llm_proxy_study_project.Go.Json.{Json}
use llm_proxy_study_project.Auth.Service.{UserInfo}
use llm_proxy_study_project.Billing.Store.{Db}
use llm_proxy_study_project.Billing.Service.{cost_of}
use llm_proxy_study_project.Billing.Service.Success.{
  IsCovered, IsLogging, IsTaken, record_usage_succeeds,
}
use llm_proxy_study_project.Billing.Consumer.{billing_service, Verdict, ack, answer, handle}
use llm_proxy_study_project.Billing.Consumer.Deliveries.{handle_decoded}
use llm_proxy_study_project.LlmProxy.Provider.{CompletionRequest, CompletionResponse}
use llm_proxy_study_project.LlmProxy.Service.{
  Service, cache_key, encode_response, encode_usage, publish_usage, keep, complete,
}
use llm_proxy_study_project.LlmProxy.Service.Encoding.{decode-encode_usage}
use llm_proxy_study_project.LlmProxy.Service.Flow.{IsPaid, FromCache, FromProvider, complete-IsPaid}

module _ {W : Type 0} (s : Service W) (parse_time : String → Option ℕ) (fl : Float64)
    (prices : List (String × fl.Carrier)) where
  -- What a request costs: the tokens are those of the answer, the model is the one asked for.
  abbrev pub cost : CompletionRequest → CompletionResponse → ℤ
  cost req resp = cost_of fl prices req.model (add64 resp.prompt_tokens resp.completion_tokens)

  -- The last thing that has been done is to publish a message; the consumer acknowledges it, which
  -- takes the cost from the balance and records it.
  pub record IsCharged (user : String) (req : CompletionRequest) (resp : CompletionResponse)
      (w' : W) (db : Db) : Type 0 where
    pub message : Json
    pub before : W
    pub published : w' ≡ (s.rabbit.publish message before).1
    pub acked : (handle parse_time (billing_service fl prices) (some message) db).0 ≡ ack
    pub taken :
        IsTaken user
          (cost req resp)
          (neg64 (cost req resp))
          db
          (handle parse_time (billing_service fl prices) (some message) db).1

  handled :
      (user : String) (sum : ℤ) (db : Db) (r : Result (Unit {0}) × Db)
      → r.0 ≡ ok tt
      → IsTaken user sum (neg64 sum) db r.1
      → ((answer parse_time (billing_service fl prices) r).0 ≡ ack)
        × IsTaken user sum (neg64 sum) db (answer parse_time (billing_service fl prices) r).1
  handled user sum db (ok _, db') h t = (refl, t)
  handled user sum db (err e, db') h t = cc

  keep-IsCharged :
      (user : String) (req : CompletionRequest) (resp : CompletionResponse) (w : W) (db : Db)
      → ((v : W) → (time : ℕ) × (parse_time (s.rabbit.timestamp v) ≡ some time))
      → IsInt64 resp.prompt_tokens
      → IsInt64 resp.completion_tokens
      → IsCovered user (cost req resp) db
      → IsLogging user (cost req resp) db
      → IsCharged user req resp (keep s user req resp w) db
  unfolding keep publish_usage
  keep-IsCharged user req resp w db times prompt completion covered logging =
      let stored = (s.redis.set (cache_key s req) (encode_response resp) s.cache_ttl w).1 in
      let (time, read) = times stored in
      let message =
        encode_usage user req.model resp.prompt_tokens resp.completion_tokens
          (s.rabbit.timestamp stored) in
      let step = handle_decoded parse_time fl prices (some message) db _ (
        decode-encode_usage parse_time user req.model resp.prompt_tokens resp.completion_tokens
          (s.rabbit.timestamp stored) time prompt completion read) in
      let (done, taken) =
        record_usage_succeeds fl prices user req.model
          (add64 resp.prompt_tokens resp.completion_tokens) db covered logging in
      let (acked, left) = handled user (cost req resp) db _ done taken in
      record {
        message = message;
        before = stored;
        published = refl;
        acked = ap (λ (x : Verdict × Db). x.0) step ∙ acked;
        taken =
            subst
              (λ (x : Verdict × Db). IsTaken user (cost req resp) (neg64 (cost req resp)) db x.1)
              (sym step) left;
      }

  -- An answer of Complete comes from the cache, or it is paid for: the last thing that the proxy
  -- has done is to publish a message, and the consumer acknowledges it, takes from the balance of
  -- the key's user the cost of the answer's tokens at the price of the model asked for, and records
  -- it; where the time that the proxy writes can be read, the counts are int64 values, the cost is
  -- an int64 value of zero or more that the balance, another one, covers, and the database answers,
  -- with a new id for the transaction.
  pub complete-IsCharged :
      (api_key : String) (req : CompletionRequest) (w w' known : W) (resp : CompletionResponse)
      (info : UserInfo) (db : Db)
      → ((v : W) → (time : ℕ) × (parse_time (s.rabbit.timestamp v) ≡ some time))
      → IsInt64 resp.prompt_tokens
      → IsInt64 resp.completion_tokens
      → s.auth_client.validate api_key w ≡ (ok info, known)
      → IsCovered info.user_id (cost req resp) db
      → IsLogging info.user_id (cost req resp) db
      → complete s api_key req w ≡ some (ok resp, w')
      → ((paid : W) × FromCache s req paid resp w') ⊎ IsCharged info.user_id req resp w' db
  complete-IsCharged api_key req w w' known resp info db times prompt completion valid covered
        logging done =
      let p = complete-IsPaid s api_key req w w' resp done in
      let same : p.info ≡ info = cc in by_origin p same p.origin
    where
      by_origin :
          (p : IsPaid s api_key req w resp w')
          → p.info ≡ info
          → FromCache s req p.paid resp w' ⊎ FromProvider s p.info.user_id req p.paid resp w'
          → ((paid : W) × FromCache s req paid resp w') ⊎ IsCharged info.user_id req resp w' db
      by_origin p same (inl cached) = inl (p.paid, cached)
      by_origin p same (inr fresh) = inr (
          subst (λ v. IsCharged info.user_id req resp v db)
            (ap (λ (i : UserInfo). keep s i.user_id req resp fresh.after_call) (sym same)
              ∙ sym fresh.left)
            (keep-IsCharged info.user_id req resp fresh.after_call db times prompt completion
              covered logging))
