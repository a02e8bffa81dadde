-- ===== src/LlmProxy/Service/Flow.antt =====
-- Complete: what must hold before a request is answered, and what is done about the answer.
use llm_proxy_study_project.Prelude.{
  String, Option, none, some, true, ◌≡◌, refl, ap, ◌∙◌, ◌⊎◌, inl, inr, arith, Option-cases,
  Bool-cases, if◌then◌else◌,
}
use llm_proxy_study_project.Prelude.Int.{ℤ, ltb_ℤ, ◌≤ℤ◌}
use llm_proxy_study_project.Go.Effect.{Result, ok, err}
use llm_proxy_study_project.Auth.Service.{UserInfo}
use llm_proxy_study_project.LlmProxy.Provider.{CompletionRequest, CompletionResponse}
use llm_proxy_study_project.LlmProxy.Service.{
  Service, min_balance, cache_key, cached, kept, keep, serve_request, if_paid, if_known, complete,
}

module _ {W : Type 0} (s : Service W) where
  -- The answer came from the cache, and only the GET has been done since the world `w`.
  pub record FromCache (req : CompletionRequest) (w : W) (resp : CompletionResponse) (w' : W)
      : Type 0 where
    pub found : cached s (s.redis.get (cache_key s req) w) ≡ some resp
    pub left : w' ≡ (s.redis.get (cache_key s req) w).1

  -- The provider gave the answer after a GET that found none, and `keep` has stored it and has
  -- published its usage.
  pub record FromProvider (user_id : String) (req : CompletionRequest) (w : W)
      (resp : CompletionResponse) (w' : W) : Type 0 where
    pub missed : cached s (s.redis.get (cache_key s req) w) ≡ none
    pub after_call : W
    pub answered :
        s.provider.complete req (s.redis.get (cache_key s req) w).1 ≡ some (ok resp, after_call)
    pub left : w' ≡ keep s user_id req resp after_call

  -- What has been established when a request is answered.
  pub record IsPaid (api_key : String) (req : CompletionRequest) (w : W) (resp : CompletionResponse)
      (w' : W) : Type 0 where
    pub info : UserInfo
    pub known : W
    pub is_known : s.auth_client.validate api_key w ≡ (ok info, known)
    pub balance : ℤ
    pub paid : W
    pub is_paid : s.billing_client.balance info.user_id known ≡ (ok balance, paid)
    pub enough : min_balance ≤ℤ balance
    pub origin : FromCache req paid resp w' ⊎ FromProvider info.user_id req paid resp w'

  kept_ok :
      (user_id : String) (req : CompletionRequest) (r : Option (Result CompletionResponse × W))
      (resp : CompletionResponse) (w' : W)
      → kept s user_id req r ≡ some (ok resp, w')
      → (w1 : W) × (r ≡ some (ok resp, w1)) × (w' ≡ keep s user_id req resp w1)
  kept_ok user_id req none resp w' h = absurd (ground arith)
  kept_ok user_id req (some (err e, w1)) resp w' h = absurd (ground arith)
  kept_ok user_id req (some (ok x, w1)) resp w' h = (w1, cc, cc)

  serve_ok :
      (user_id : String) (req : CompletionRequest) (w w' : W) (resp : CompletionResponse)
      → serve_request s user_id req w ≡ some (ok resp, w')
      → FromCache req w resp w' ⊎ FromProvider user_id req w resp w'
  unfolding serve_request
  serve_ok user_id req w w' resp h =
      elim (Option-cases (cached s (s.redis.get (cache_key s req) w))) [
        | inl miss ↦
            let (w1, answered, left) =
              kept_ok user_id req (s.provider.complete req (s.redis.get (cache_key s req) w).1) resp
                w' (rw (miss, serve_request) at h) in
            inr (record { missed = miss; after_call = w1; answered = answered; left = left })
        | inr (x, hit) ↦
            let e : ◌≡◌ {A = Option (Result CompletionResponse × W)}
                (some (ok x, (s.redis.get (cache_key s req) w).1)) (some (ok resp, w')) =
              rw (hit, serve_request) at h in
            inl (record { found = hit ∙ (cc); left = cc })
      ]

  -- A request is answered only if the auth service knows the key and the billing service gives its
  -- user a balance of 10 or more; the answer is then the cached one, with nothing published, or the
  -- provider's own after the cache had none, which has then been sent to the cache, and its usage to
  -- the queue, errors of both being ignored.
  pub complete-IsPaid :
      (api_key : String) (req : CompletionRequest) (w w' : W) (resp : CompletionResponse)
      → complete s api_key req w ≡ some (ok resp, w')
      → IsPaid api_key req w resp w'
  unfolding complete
  complete-IsPaid api_key req w w' resp h = known_of (s.auth_client.validate api_key w) refl h
    where
      paid_of :
          (info : UserInfo) (known : W) (r : Result ℤ × W)
          → s.auth_client.validate api_key w ≡ (ok info, known)
          → s.billing_client.balance info.user_id known ≡ r
          → if_paid s info.user_id req r ≡ some (ok resp, w')
          → IsPaid api_key req w resp w'
      paid_of info known (err e, paid) is_known is_paid h = absurd (ground arith)
      paid_of info known (ok balance, paid) is_known is_paid h =
          elim (Bool-cases (ltb_ℤ balance min_balance)) [
            | inl poor ↦ absurd (ground arith)
            | inr enough ↦ record {
              info = info;
              known = known;
              is_known = is_known;
              balance = balance;
              paid = paid;
              is_paid = is_paid;
              enough = ground arith;
              origin = serve_ok info.user_id req paid w' resp (rw enough at h);
            }
          ]

      known_of :
          (r : Result UserInfo × W)
          → s.auth_client.validate api_key w ≡ r
          → if_known s req r ≡ some (ok resp, w')
          → IsPaid api_key req w resp w'
      known_of (err e, known) is_known h = absurd (ground arith)
      known_of (ok info, known) is_known h =
          paid_of info known (s.billing_client.balance info.user_id known) is_known refl h

  -- A user with a balance below 10 gets an error, and neither the cache nor the provider nor the
  -- queue is used.
  pub complete_poor :
      (api_key : String) (req : CompletionRequest) (w known paid : W) (info : UserInfo)
      (balance : ℤ)
      → s.auth_client.validate api_key w ≡ (ok info, known)
      → s.billing_client.balance info.user_id known ≡ (ok balance, paid)
      → ltb_ℤ balance min_balance ≡ true
      → complete s api_key req w ≡ some (err "insufficient balance: payment required", paid)
  unfolding complete
  complete_poor api_key req w known paid info balance is_known is_paid poor =
      ap (if_known s req) is_known
      ∙ ap (if_paid s info.user_id req) is_paid
      ∙ ap
          (λ b.
            if b
            then some (err "insufficient balance: payment required", paid)
            else serve_request s info.user_id req paid)
          poor
