-- ===== src/LlmProxy/Service/Keeping.antt =====
-- Relations between worlds that every call of the proxy's service keeps are kept by its requests.
use llm_proxy_study_project.Prelude.{
  String, Option, none, some, Bool, true, false, ◌≡◌, refl, if◌then◌else◌,
}
use llm_proxy_study_project.Prelude.Int.{ℤ, ltb_ℤ}
use llm_proxy_study_project.Go.Effect.{Result, ok, err}
use llm_proxy_study_project.Go.Json.{Json}
use llm_proxy_study_project.Auth.Service.{UserInfo}
use llm_proxy_study_project.LlmProxy.Provider.{CompletionRequest, CompletionResponse}
use llm_proxy_study_project.LlmProxy.Service.{
  Service, min_balance, cached, cache_key, kept, keep, publish_usage, serve_request, if_paid,
  if_known, complete,
}

-- A relation from the world before to the world after, which each call keeps.
pub record IsKept {W : Type 0} (Rel : W → W → Type 0) (s : Service W) : Type 0 where
  pub stay : (w : W) → Rel w w
  pub chain : {u v w : W} → Rel u v → Rel v w → Rel u w
  pub validate : (key : String) (w : W) → Rel w (s.auth_client.validate key w).1
  pub balance : (user : String) (w : W) → Rel w (s.billing_client.balance user w).1
  pub get : (key : String) (w : W) → Rel w (s.redis.get key w).1
  pub set : (key : String) (doc : Json) (ttl : ℤ) (w : W) → Rel w (s.redis.set key doc ttl w).1
  pub flush_db : (w : W) → Rel w (s.redis.flush_db w).1
  pub publish : (doc : Json) (w : W) → Rel w (s.rabbit.publish doc w).1
  pub list_models : (w : W) → Rel w (s.provider.list_models w).1
  pub provider :
      (req : CompletionRequest) (w w' : W) (res : Result CompletionResponse)
      → s.provider.complete req w ≡ some (res, w')
      → Rel w w'

module _ {W : Type 0} (Rel : W → W → Type 0) (s : Service W) (h : IsKept Rel s) where
  -- What a run that returns leaves.
  abbrev pub Leaves : {A : Type 0} → W → Option (A × W) → Type 0
  Leaves w none = Unit
  Leaves w (some (_, w')) = Rel w w'

  keep-Rel :
      (user : String) (req : CompletionRequest) (resp : CompletionResponse) (w : W)
      → Rel w (keep s user req resp w)
  unfolding keep publish_usage
  keep-Rel user req resp w = h.chain (h.set _ _ _ w) (h.publish _ _)

  kept-Leaves :
      (user : String) (req : CompletionRequest) (u w : W)
      (r : Option (Result CompletionResponse × W))
      → Rel u w
      → s.provider.complete req w ≡ r
      → Leaves u (kept s user req r)
  kept-Leaves user req u w none before run = tt
  kept-Leaves user req u w (some (err e, w')) before run =
      h.chain before (h.provider req w w' _ run)
  kept-Leaves user req u w (some (ok resp, w')) before run =
      h.chain before (h.chain (h.provider req w w' _ run) (keep-Rel user req resp w'))

  serve-Leaves :
      (user : String) (req : CompletionRequest) (u w : W)
      → Rel u w
      → Leaves u (serve_request s user req w)
  unfolding serve_request
  serve-Leaves user req u w before = by_cache (cached s (s.redis.get (cache_key s req) w))
    where
      found : Rel u (s.redis.get (cache_key s req) w).1
      found = h.chain before (h.get _ w)

      by_cache :
          (o : Option CompletionResponse)
          → Leaves u (elim o [
            | some resp ↦ some (ok resp, (s.redis.get (cache_key s req) w).1)
            | none ↦ kept s user req (s.provider.complete req (s.redis.get (cache_key s req) w).1)
          ])
      by_cache (some resp) = found
      by_cache none = kept-Leaves user req u _ _ found refl

  paid-Leaves :
      (user : String) (req : CompletionRequest) (u : W) (x : Result ℤ × W)
      → Rel u x.1
      → Leaves u (if_paid s user req x)
  paid-Leaves user req u (err e, w) before = before
  paid-Leaves user req u (ok balance, w) before = by_test (ltb_ℤ balance min_balance)
    where
      by_test :
          (b : Bool)
          → Leaves {A = Result CompletionResponse} u (
              if b
              then some (err "insufficient balance: payment required", w)
              else serve_request s user req w)
      by_test true = before
      by_test false = serve-Leaves user req u w before

  known-Leaves :
      (req : CompletionRequest) (u : W) (x : Result UserInfo × W)
      → Rel u x.1
      → Leaves u (if_known s req x)
  known-Leaves req u (err e, w) before = before
  known-Leaves req u (ok info, w) before =
      paid-Leaves info.user_id req u (s.billing_client.balance info.user_id w)
        (h.chain before (h.balance info.user_id w))

  pub complete-Leaves :
      (key : String) (req : CompletionRequest) (w : W) → Leaves w (complete s key req w)
  unfolding complete
  complete-Leaves key req w = known-Leaves req w _ (h.validate key w)
