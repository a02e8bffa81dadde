-- ===== src/LlmProxy/Handler.antt =====
-- internal/llmproxy/handler/handler.go. A handler whose service panics has no response: net/http
-- drops the connection, and the counter of the middleware is not reached.
pub mod Statuses
pub mod Keeping
pub mod Routes
pub mod Shapes
use llm_proxy_study_project.Prelude.{
  ℕ, String, ◌==◌, ◌<>◌, Option, none, some, Bool, true, false, ◌&&◌, List, [], ◌∷◌, if◌then◌else◌,
  trim_prefix, contains,
}
use llm_proxy_study_project.Prelude.Int.{ℤ}
use llm_proxy_study_project.Go.Effect.{Error, Result, ok, err, Op}
use llm_proxy_study_project.Go.Json.{
  ◌>>=◌, Json, Items, Fields, null, str, num, arr, obj, nil, cons, field, end, Payload, fields_of,
  text_field, read_field,
}
use llm_proxy_study_project.Go.Http.{
  Request, Response, metrics, write_json, write_error, write_header, health, not_found, not_allowed,
}
use llm_proxy_study_project.Stats.{Stats, record_status, stats_handler}
use llm_proxy_study_project.LlmProxy.Provider.{
  Message, CompletionRequest, CompletionResponse, Model, Run,
}
use llm_proxy_study_project.LlmProxy.Service.{Service, complete, list_models, clear_cache}

unfoldable pub decode_message : Json → Option Message
unfolding fields_of text_field
decode_message v = do
  fs ← fields_of v
  role ← text_field "Role" fs
  content ← text_field "Content" fs
  some (record { role = role; content = content })

unfoldable pub decode_messages : Items → Option (List Message)
unfolding decode_message
decode_messages nil = some []
decode_messages (cons v vs) = do m ← decode_message v; ms ← decode_messages vs; some (m ∷ ms)

-- The field of messages; a nil slice is `none`.
unfoldable pub assign_messages : Json → Option (List Message) → Option (Option (List Message))
unfolding decode_messages
assign_messages (arr vs) old = do ms ← decode_messages vs; some (some ms)
assign_messages null old = some old
assign_messages _ old = none

-- json.NewDecoder(r.Body).Decode(&req)
unfoldable pub decode_body : Payload → Option CompletionRequest
unfolding fields_of text_field read_field assign_messages
decode_body body = do
  doc ← body
  fs ← fields_of doc
  model ← text_field "model" fs
  messages ← read_field assign_messages "messages" (some none) fs
  some (record { model = model; messages = messages })

-- The status for an error of Complete, by its text.
unfoldable pub error_status : Error → ℕ
unfolding contains
error_status e =
    if contains e "auth" then 401 else if contains e "insufficient balance" then 402 else 500

unfoldable pub completion_json : CompletionResponse → Json
completion_json r = obj (
    field "content" (str r.content) (
      field "latency_ms" (num r.latency_ms) (
        field "model" (str r.model) (
          field "usage"
            (obj (
              field "completion_tokens" (num r.completion_tokens) (
                field "prompt_tokens" (num r.prompt_tokens)
                  (field "total_tokens" (num r.total_tokens) end))))
            end))))

unfoldable pub models_json : List Model → Items
models_json [] = nil
models_json (m ∷ ms) =
    cons (obj (field "id" (str m.id) (field "provider" (str m.provider) end))) (models_json ms)

-- handler.Service
pub record LlmService (W : Type 0) : Type 0 where
  pub complete : String → CompletionRequest → Run W CompletionResponse
  pub list_models : Op W (List Model)
  pub clear_cache : Op W (Unit {0})

-- The service that the main gives to the handlers.
abbrev pub llm_service : {W : Type 0} → Service W → LlmService W
llm_service s = record {
  complete = complete s;
  list_models = list_models s;
  clear_cache = clear_cache s;
}

module _ {W : Type 0} (s : LlmService W) where
  abbrev pub written : Option (Result CompletionResponse × W) → Option (Response × W)
  written none = none
  written (some (err e, w)) = some (write_error (error_status e) e, w)
  written (some (ok resp, w)) = some (write_json 200 (completion_json resp), w)

  unfoldable pub completions : Request → W → Option (Response × W)
  unfolding decode_body error_status completion_json trim_prefix
  completions r w =
      let api_key = trim_prefix r.authorization "Bearer " in
      if api_key == ""
      then some (write_error 401 "missing api key", w)
      else elim (decode_body r.body) [
        | none ↦ some (write_error 400 "invalid body", w)
        | some req ↦ written (s.complete api_key req w)
      ]

  unfoldable pub models : Request → W → Response × W
  unfolding models_json
  models r w =
      let (res, w') = s.list_models w in
      elim res [
        | err e ↦ (write_error 500 e, w')
        | ok ms ↦ (write_json 200 (arr (models_json ms)), w')
      ]

  unfoldable pub clear : Request → W → Response × W
  clear r w =
      let (res, w') = s.clear_cache w in
      elim res [ err e ↦ (write_error 500 e, w') | ok _ ↦ (write_header 204, w') ]

  module _ (format_time : ℕ → String) where
    abbrev pub pure_route : Response × W → Stats → Option (Response × (Stats × W))
    pure_route (resp, w) st = some (resp, (st, w))

    abbrev pub run_route : Option (Response × W) → Stats → Option (Response × (Stats × W))
    run_route none st = none
    run_route (some (resp, w)) st = some (resp, (st, w))

    abbrev by_method :
        String
        → String
        → Option (Response × (Stats × W))
        → Stats × W
        → Option (Response × (Stats × W))
    by_method method wanted answer s = if method == wanted then answer else some (not_allowed, s)

    -- The routes of the router.
    unfoldable pub route : Request → Stats × W → Option (Response × (Stats × W))
    unfolding completions models clear stats_handler
    route r (st, w) = elim r.path [
      | segment ∷ [] ↦
          if segment == "completions"
          then by_method r.method "POST" (run_route (completions r w) st) (st, w)
          else if segment == "models"
          then by_method r.method "GET" (pure_route (models r w) st) (st, w)
          else if segment == "cache"
          then by_method r.method "DELETE" (pure_route (clear r w) st) (st, w)
          else if segment == "stats"
          then by_method r.method "GET" (some (stats_handler format_time r (st, w))) (st, w)
          else if segment == "metrics"
          then by_method r.method "GET" (some (record { status = 200; content = metrics }, (st, w)))
              (st, w)
          else if segment == "health"
          then by_method r.method "GET" (some (health, (st, w))) (st, w)
          else some (not_found, (st, w))
      | _ ↦ some (not_found, (st, w))
    ]

    abbrev pub counted : Option (Response × (Stats × W)) → Option (Response × (Stats × W))
    counted none = none
    counted (some (resp, (st, w))) = some (resp, (record_status resp.status st, w))

    unfoldable pub router : Request → Stats × W → Option (Response × (Stats × W))
    unfolding route record_status
    router r s = counted (route r s)
