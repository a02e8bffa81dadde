-- ===== src/LlmProxy/Handler/Keeping.antt =====
-- What a request to the proxy leaves of the world around it.
use llm_proxy_study_project.Prelude.{
  ℕ, String, ◌==◌, Option, none, some, Bool, true, false, ◌≡◌, subst, if◌then◌else◌, trim_prefix,
}
use llm_proxy_study_project.Go.Effect.{Result, ok, err}
use llm_proxy_study_project.Go.Json.{arr}
use llm_proxy_study_project.Go.Http.{Request, Response, write_json, write_error, write_header}
use llm_proxy_study_project.Stats.{Stats, stats_handler}
use llm_proxy_study_project.LlmProxy.Provider.{CompletionRequest, CompletionResponse}
use llm_proxy_study_project.LlmProxy.Service.{Service, complete, list_models, clear_cache}
use llm_proxy_study_project.LlmProxy.Service.Keeping.{IsKept, Leaves, complete-Leaves}
use llm_proxy_study_project.LlmProxy.Handler.{
  llm_service, decode_body, written, completions, models_json, models, clear, run_route, pure_route,
  counted, router,
}
use llm_proxy_study_project.LlmProxy.Handler.Routes.{
  Routed, missing, other_method, statistics, measured, healthy, completes, lists, clears,
  route-Routed,
}

-- What an answer leaves of the world; a request that is not answered leaves nothing to relate.
abbrev LeavesIn : {W : Type 0} (Rel : W → W → Type 0) → W → Option (Response × (Stats × W)) → Type 0
LeavesIn Rel w none = Unit
LeavesIn Rel w (some (_, (_, w'))) = Rel w w'

pub record IsLeft {W : Type 0} (Rel : W → W → Type 0) (w : W) (x : Option (Response × (Stats × W)))
    : Type 0 where
  pub left : LeavesIn Rel w x

module _ {W : Type 0} (Rel : W → W → Type 0) (s : Service W) (h : IsKept Rel s) where
  written-Leaves :
      (w : W) (x : Option (Result CompletionResponse × W))
      → Leaves Rel s h w x
      → Leaves Rel s h w (written (llm_service s) x)
  written-Leaves w none left = tt
  written-Leaves w (some (err e, w')) left = left
  written-Leaves w (some (ok resp, w')) left = left

  completions-Leaves : (r : Request) (w : W) → Leaves Rel s h w (completions (llm_service s) r w)
  unfolding completions
  completions-Leaves r w = by_test (trim_prefix r.authorization "Bearer " == "")
    where
      by_body :
          (o : Option CompletionRequest)
          → Leaves Rel s h w (elim o [
            | none ↦ some (write_error 400 "invalid body", w)
            | some req ↦
                written (llm_service s) (complete s (trim_prefix r.authorization "Bearer ") req w)
          ])
      by_body none = h.stay w
      by_body (some req) = written-Leaves w _ (complete-Leaves Rel s h _ req w)

      by_test :
          (b : Bool)
          → Leaves Rel s h {A = Response} w (
              if b then some (write_error 401 "missing api key", w) else elim (decode_body r.body) [
                | none ↦ some (write_error 400 "invalid body", w)
                | some req ↦
                    written
                      (llm_service s)
                      (complete s (trim_prefix r.authorization "Bearer ") req w)
              ])
      by_test true = h.stay w
      by_test false = by_body (decode_body r.body)

  module _ (format_time : ℕ → String) (r : Request) (st : Stats) (w : W) where
    same : {resp : Response} → IsLeft Rel w (some (resp, (st, w)))
    same = record { left = h.stay w }

    run-IsLeft :
        (x : Option (Response × W))
        → Leaves Rel s h w x
        → IsLeft Rel w (run_route (llm_service s) format_time x st)
    run-IsLeft none left = record { left = tt }
    run-IsLeft (some (resp, w')) left = record { left = left }

    shown-IsLeft :
        {A : Type 0} (good : A → Response) (x : Result A × W)
        → Rel w x.1
        → IsLeft Rel w (
            pure_route
              (llm_service s)
              format_time
              (elim x.0 [ err e ↦ (write_error 500 e, x.1) | ok a ↦ (good a, x.1) ])
              st)
    shown-IsLeft good (ok a, w') left = record { left = left }
    shown-IsLeft good (err e, w') left = record { left = left }

    models-IsLeft :
        IsLeft Rel w (pure_route (llm_service s) format_time (models (llm_service s) r w) st)
    unfolding models list_models
    models-IsLeft =
        shown-IsLeft (λ ms. write_json 200 (arr (models_json ms))) (s.provider.list_models w)
          (h.list_models w)

    clear-IsLeft :
        IsLeft Rel w (pure_route (llm_service s) format_time (clear (llm_service s) r w) st)
    unfolding clear clear_cache
    clear-IsLeft = shown-IsLeft (λ _. write_header 204) (s.redis.flush_db w) (h.flush_db w)

    Routed-IsLeft :
        {x : Option (Response × (Stats × W))}
        → Routed (llm_service s) format_time r st w x
        → IsLeft Rel w x
    unfolding stats_handler
    Routed-IsLeft missing = same
    Routed-IsLeft other_method = same
    Routed-IsLeft (statistics _ _) = same
    Routed-IsLeft (measured _ _) = same
    Routed-IsLeft (healthy _ _) = same
    Routed-IsLeft (completes _ _) = run-IsLeft _ (completions-Leaves r w)
    Routed-IsLeft (lists _ _) = models-IsLeft
    Routed-IsLeft (clears _ _) = clear-IsLeft

    counted-IsLeft :
        (x : Option (Response × (Stats × W)))
        → IsLeft Rel w x
        → IsLeft Rel w (counted (llm_service s) format_time x)
    counted-IsLeft none left = left
    counted-IsLeft (some (resp, (st', w'))) left = record { left = left.left }

  -- Whatever the request, the world that an answered one leaves is related to the world before.
  pub router-Rel :
      (format_time : ℕ → String) (r : Request) (st st' : Stats) (w w' : W) (resp : Response)
      → router (llm_service s) format_time r (st, w) ≡ some (resp, (st', w'))
      → Rel w w'
  unfolding router
  router-Rel format_time r st st' w w' resp run =
      (subst (IsLeft Rel w) run (
        counted-IsLeft format_time r st w _ (
          Routed-IsLeft format_time r st w (route-Routed (llm_service s) format_time r st w)))).left
