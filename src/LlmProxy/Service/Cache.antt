-- ===== src/LlmProxy/Service/Cache.antt =====
-- The cache of Complete: which requests share an entry, and what a second request gets.
use llm_proxy_study_project.Prelude.{
  String, Option, none, some, false, ◌≡◌, refl, sym, ap, ◌∙◌, inl, inr, if◌then◌else◌,
}
use text.Mathlib.TextLemmas.{append_cancel_left}
use llm_proxy_study_project.Prelude.Int.{ℤ, ltb_ℤ}
use llm_proxy_study_project.Go.Effect.{Result, ok, err}
use llm_proxy_study_project.Go.Json.{Json, Payload}
use llm_proxy_study_project.Auth.Service.{UserInfo}
use llm_proxy_study_project.LlmProxy.Provider.{CompletionRequest, CompletionResponse}
use llm_proxy_study_project.LlmProxy.Service.{
  Service, min_balance, cache_key, cached, keep, publish_usage, serve_request, if_paid, if_known,
  complete, encode_request, encode_response, decode_response,
}
use llm_proxy_study_project.LlmProxy.Service.Encoding.{
  IsSized, decode-encode_response, encode_request-injective,
}
use llm_proxy_study_project.LlmProxy.Service.Flow.{IsPaid, complete-IsPaid}

-- What the cache relies on: Redis is up and keeps an entry for as long as is looked at here, and
-- no other call of the service touches it.
pub record CacheLaws {W : Type 0} (s : Service W) : Type 0 where
  pub get_set :
      (key : String) (doc : Json) (ttl : ℤ) (w : W)
      → (s.redis.get key (s.redis.set key doc ttl w).1).0 ≡ ok (some doc)
  pub get_get :
      (key other : String) (w : W)
      → (s.redis.get key (s.redis.get other w).1).0 ≡ (s.redis.get key w).0
  pub get_publish :
      (key : String) (doc : Json) (w : W)
      → (s.redis.get key (s.rabbit.publish doc w).1).0 ≡ (s.redis.get key w).0
  pub get_validate :
      (key api_key : String) (w : W)
      → (s.redis.get key (s.auth_client.validate api_key w).1).0 ≡ (s.redis.get key w).0
  pub get_balance :
      (key user : String) (w : W)
      → (s.redis.get key (s.billing_client.balance user w).1).0 ≡ (s.redis.get key w).0

module _ {W : Type 0} (s : Service W) where
  -- Requests share a cache entry only if they have the same model and the same messages, where
  -- SHA-256 tells their two documents apart.
  pub cache_key-injective :
      (a b : CompletionRequest)
      → (s.sha256_hex (encode_request a) ≡ s.sha256_hex (encode_request b)
          → encode_request a ≡ encode_request b)
      → cache_key s a ≡ cache_key s b
      → a ≡ b
  unfolding cache_key
  cache_key-injective a b apart h =
      encode_request-injective a b (apart (append_cancel_left "llm:" _ _ h))

  abbrev entry_of : Result Payload → Option CompletionResponse
  entry_of (err e) = none
  entry_of (ok body) = decode_response body

  cached_entry : (r : Result Payload × W) → cached s r ≡ entry_of r.0
  cached_entry (err e, w) = refl
  cached_entry (ok body, w) = refl

  -- The cache has this answer for this request.
  abbrev Serves : CompletionRequest → CompletionResponse → W → Type 0
  Serves req resp w = entry_of (s.redis.get (cache_key s req) w).0 ≡ some resp

  module _ (laws : CacheLaws s) where
    keep-Serves :
        (user_id : String) (req : CompletionRequest) (resp : CompletionResponse) (w : W)
        → IsSized resp
        → Serves req resp (keep s user_id req resp w)
    unfolding keep publish_usage
    keep-Serves user_id req resp w sized =
        ap entry_of (
          laws.get_publish (cache_key s req) _ _
          ∙ laws.get_set (cache_key s req) (encode_response resp) s.cache_ttl w)
        ∙ decode-encode_response resp sized

    IsPaid-Serves :
        (api_key : String) (req : CompletionRequest) (w w' : W) (resp : CompletionResponse)
        → IsSized resp
        → IsPaid s api_key req w resp w'
        → Serves req resp w'
    IsPaid-Serves api_key req w w' resp sized p = elim p.origin [
      | inl c ↦
          ap (λ v. entry_of (s.redis.get (cache_key s req) v).0) c.left
          ∙ ap entry_of (laws.get_get (cache_key s req) (cache_key s req) p.paid)
          ∙ sym (cached_entry (s.redis.get (cache_key s req) p.paid))
          ∙ c.found
      | inr c ↦
          ap (λ v. entry_of (s.redis.get (cache_key s req) v).0) c.left
          ∙ keep-Serves p.info.user_id req resp c.after_call sized
    ]

    serve_hit :
        (user_id : String) (req : CompletionRequest) (resp : CompletionResponse) (w : W)
        → Serves req resp w
        → serve_request s user_id req w ≡ some (ok resp, (s.redis.get (cache_key s req) w).1)
    unfolding serve_request
    serve_hit user_id req resp w h =
        rw (serve_request, cached_entry (s.redis.get (cache_key s req) w) ∙ h) refl

    -- Where Redis keeps what is set and no other call touches it: once a request has been
    -- answered, the same request of anyone whose key is valid and whose balance is 10 or more is
    -- answered alike from the cache, the latency_ms of the first answer included, with no call of the
    -- provider and no usage published.
    pub complete_again :
        (first second : String) (req : CompletionRequest) (w w1 known paid : W)
        (resp : CompletionResponse) (info : UserInfo) (balance : ℤ)
        → IsSized resp
        → complete s first req w ≡ some (ok resp, w1)
        → s.auth_client.validate second w1 ≡ (ok info, known)
        → s.billing_client.balance info.user_id known ≡ (ok balance, paid)
        → ltb_ℤ balance min_balance ≡ false
        → complete s second req w1 ≡ some (ok resp, (s.redis.get (cache_key s req) paid).1)
    unfolding complete
    complete_again first second req w w1 known paid resp info balance sized h is_known is_paid
          enough =
        let key = cache_key s req in
        let before : Serves req resp w1 =
          IsPaid-Serves first req w w1 resp sized (complete-IsPaid s first req w w1 resp h) in
        let still : Serves req resp paid =
          ap (λ (r : Result ℤ × W). entry_of (s.redis.get key r.1).0) (sym is_paid)
          ∙ ap entry_of (laws.get_balance key info.user_id known)
          ∙ ap (λ (r : Result UserInfo × W). entry_of (s.redis.get key r.1).0) (sym is_known)
          ∙ ap entry_of (laws.get_validate key second w1)
          ∙ before in
        ap (if_known s req) is_known
        ∙ ap (if_paid s info.user_id req) is_paid
        ∙ ap
            (λ b.
              if b
              then some (err "insufficient balance: payment required", paid)
              else serve_request s info.user_id req paid)
            enough
        ∙ serve_hit info.user_id req resp paid still
