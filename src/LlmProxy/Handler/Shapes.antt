-- ===== src/LlmProxy/Handler/Shapes.antt =====
-- The answers of the proxy's endpoints, by the shapes of their documents.
use llm_proxy_study_project.Prelude.{
  ℕ, ◌≤◌, String, ◌==◌, Option, none, some, Bool, true, false, List, [], ◌∷◌, ◌≡◌, refl, subst,
  arith, if◌then◌else◌, trim_prefix,
}
use llm_proxy_study_project.Go.Effect.{Error, Result, ok, err}
use llm_proxy_study_project.Go.Json.{arr}
use llm_proxy_study_project.Go.Shape.{
  Shape, text, whole, list_of, struct, no_more, member, has_shape, all_items, IsTyped, fine, failed,
  health_shape, stats_shape,
}
use llm_proxy_study_project.Go.Http.{
  Request, Response, metrics, write_json, write_header, write_error, not_found, not_allowed,
}
use llm_proxy_study_project.Stats.{Stats}
use llm_proxy_study_project.Stats.Shapes.{stats-IsTyped}
use llm_proxy_study_project.LlmProxy.Provider.{CompletionRequest, CompletionResponse, Model}
use llm_proxy_study_project.LlmProxy.Handler.{
  LlmService, decode_body, error_status, completion_json, models_json, written, completions, models,
  clear, run_route, counted, router,
}
use llm_proxy_study_project.LlmProxy.Handler.Routes.{
  Routed, missing, other_method, statistics, measured, healthy, completes, lists, clears,
  route-Routed,
}

abbrev completion_shape : Shape
completion_shape = struct (
    member "content" text (
      member "latency_ms" whole (
        member "model" text (
          member "usage"
            (struct (
              member "completion_tokens" whole
                (member "prompt_tokens" whole (member "total_tokens" whole no_more))))
            no_more))))

abbrev model_shape : Shape
model_shape = struct (member "id" text (member "provider" text no_more))

-- The endpoints that answer with a document: method, path and the shape.
pub data Endpoint (r : Request) : Shape → Type 0 where
  completions_endpoint :
      r.method ≡ "POST" → r.path ≡ "completions" ∷ [] → Endpoint r completion_shape
  models_endpoint : r.method ≡ "GET" → r.path ≡ "models" ∷ [] → Endpoint r (list_of model_shape)
  stats_endpoint : r.method ≡ "GET" → r.path ≡ "stats" ∷ [] → Endpoint r stats_shape
  health_endpoint : r.method ≡ "GET" → r.path ≡ "health" ∷ [] → Endpoint r health_shape

-- What clearing the cache answers: status 204 alone, or an error.
pub data IsClearing : Response → Type 0 where
  cleared : IsClearing (write_header 204)
  uncleared : {status : ℕ} {msg : String} → 400 ≤ status → IsClearing (write_error status msg)

-- An answer that the API has.
pub data IsAnswer (r : Request) : Response → Type 0 where
  typed : {s : Shape} {resp : Response} → Endpoint r s → IsTyped 200 s resp → IsAnswer r resp
  clearing :
      {resp : Response}
      → r.method ≡ "DELETE"
      → r.path ≡ "cache" ∷ []
      → IsClearing resp
      → IsAnswer r resp
  page :
      r.method ≡ "GET"
      → r.path ≡ "metrics" ∷ []
      → IsAnswer r (record { status = 200; content = metrics })
  unknown_path : IsAnswer r not_found
  unknown_method : IsAnswer r not_allowed

error_status-le : (e : Error) → 400 ≤ error_status e
unfolding error_status
error_status-le e = ground arith

all_models : (ms : List Model) → all_items (has_shape model_shape) (models_json ms) ≡ true
unfolding models_json has_shape all_items
all_models [] = refl
all_models (m ∷ ms) = all_models ms

-- An answer, if there is one.
abbrev If : {S : Type 0} → (Response → Type 0) → Option (Response × S) → Type 0
If P none = Unit
If P (some (resp, _)) = P resp

module _ {W : Type 0} (s : LlmService W) where
  written-IsTyped :
      (x : Option (Result CompletionResponse × W)) → If (IsTyped 200 completion_shape) (written s x)
  unfolding has_shape completion_json
  written-IsTyped none = tt
  written-IsTyped (some (ok resp, w)) = fine refl
  written-IsTyped (some (err e, w)) = failed (error_status-le e)

  completions-IsTyped :
      (r : Request) (w : W) → If (IsTyped 200 completion_shape) (completions s r w)
  unfolding completions
  completions-IsTyped r w = by_test (trim_prefix r.authorization "Bearer " == "")
    where
      by_body :
          (o : Option CompletionRequest)
          → If (IsTyped 200 completion_shape) (elim o [
            | none ↦ some (write_error 400 "invalid body", w)
            | some req ↦ written s (s.complete (trim_prefix r.authorization "Bearer ") req w)
          ])
      by_body none = failed (omega arith)
      by_body (some req) = written-IsTyped _

      by_test :
          (b : Bool)
          → If (IsTyped 200 completion_shape) (
              if b then some (write_error 401 "missing api key", w) else elim (decode_body r.body) [
                | none ↦ some (write_error 400 "invalid body", w)
                | some req ↦ written s (s.complete (trim_prefix r.authorization "Bearer ") req w)
              ])
      by_test true = failed (omega arith)
      by_test false = by_body (decode_body r.body)

  models-IsTyped : (r : Request) (w : W) → IsTyped 200 (list_of model_shape) (models s r w).0
  unfolding models has_shape
  models-IsTyped r w = by_result (s.list_models w)
    where
      by_result :
          (x : Result (List Model) × W)
          → IsTyped 200
              (list_of model_shape)
              (elim x.0 as (λ _. Response × W) [
                | err e ↦ (write_error 500 e, x.1)
                | ok ms ↦ (write_json 200 (arr (models_json ms)), x.1)
              ]).0
      by_result (ok ms, w') = fine (all_models ms)
      by_result (err e, w') = failed (omega arith)

  clear-IsClearing : (r : Request) (w : W) → IsClearing (clear s r w).0
  unfolding clear
  clear-IsClearing r w = by_result (s.clear_cache w)
    where
      by_result :
          (x : Result (Unit {0}) × W)
          → IsClearing
              (elim x.0 as (λ _. Response × W) [
                | err e ↦ (write_error 500 e, x.1)
                | ok _ ↦ (write_header 204, x.1)
              ]).0
      by_result (ok _, w') = cleared
      by_result (err e, w') = uncleared (omega arith)

  module _ (format_time : ℕ → String) (r : Request) (st : Stats) (w : W) where
    by_run :
        {shape : Shape} (x : Option (Response × W))
        → Endpoint r shape
        → If (IsTyped 200 shape) x
        → If (IsAnswer r) (run_route s format_time x st)
    by_run none endpoint h = tt
    by_run (some (resp, w')) endpoint h = typed endpoint h

    Routed-IsAnswer :
        {x : Option (Response × (Stats × W))} → Routed s format_time r st w x → If (IsAnswer r) x
    unfolding has_shape
    Routed-IsAnswer missing = unknown_path
    Routed-IsAnswer other_method = unknown_method
    Routed-IsAnswer (statistics m p) =
        typed (stats_endpoint m p) (stats-IsTyped format_time r (st, w))
    Routed-IsAnswer (measured m p) = page m p
    Routed-IsAnswer (healthy m p) = typed (health_endpoint m p) (fine refl)
    Routed-IsAnswer (completes m p) =
        by_run (completions s r w) (completions_endpoint m p) (completions-IsTyped r w)
    Routed-IsAnswer (lists m p) = typed (models_endpoint m p) (models-IsTyped r w)
    Routed-IsAnswer (clears m p) = clearing m p (clear-IsClearing r w)

    counted_lem :
        (x : Option (Response × (Stats × W)))
        → If (IsAnswer r) x
        → If (IsAnswer r) (counted s format_time x)
    counted_lem none h = tt
    counted_lem (some (resp, (st', w'))) h = h

  -- Every answer of the proxy, whatever the request and whatever the services behind it do, is one
  -- that its API has: at one of its endpoints, with its method, status 200 with a document of the
  -- endpoint's shape, which for a completion is the documented one, or a status of 400 or more with
  -- {"error": text}; for the cache status 204 with no document, or such an error; the metrics; 404
  -- or 405 without a document.
  pub proxy-IsAnswer :
      (format_time : ℕ → String) (r : Request) (st st' : Stats) (w w' : W) (resp : Response)
      → router s format_time r (st, w) ≡ some (resp, (st', w'))
      → IsAnswer r resp
  unfolding router
  proxy-IsAnswer format_time r st st' w w' resp run = subst (If (IsAnswer r)) run (
      counted_lem format_time r st w _
        (Routed-IsAnswer format_time r st w (route-Routed s format_time r st w)))
