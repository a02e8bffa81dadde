-- ===== src/LlmProxy/Service.antt =====
-- internal/llmproxy/service/service.go. The clients of the other services, Redis and RabbitMQ are
-- arguments over a world W that they change.
pub mod Encoding
pub mod Flow
pub mod Keeping
pub mod Cache
use llm_proxy_study_project.Prelude.{
  ℕ, String, ◌<>◌, Option, none, some, Bool, List, [], ◌∷◌, if◌then◌else◌,
}
use llm_proxy_study_project.Prelude.Int.{ℤ, pos, ltb_ℤ}
use llm_proxy_study_project.Go.Effect.{Error, Result, ok, err, Op, on_error, wrap}
use llm_proxy_study_project.Go.Json.{
  ◌>>=◌, Json, Items, Fields, null, str, num, arr, obj, nil, cons, field, end, Payload, fields_of,
  text_field, int_field,
}
use llm_proxy_study_project.Auth.Service.{UserInfo}
use llm_proxy_study_project.LlmProxy.Provider.{
  Message, CompletionRequest, CompletionResponse, Model, LlmProvider, Run,
}

-- client.AuthClient
pub record AuthClient (W : Type 0) : Type 0 where
  pub validate : String → Op W UserInfo

-- client.BillingClient
pub record BillingClient (W : Type 0) : Type 0 where
  pub balance : String → Op W ℤ
  pub deposit : String → ℤ → Op W (Unit {0})

-- *redis.Client: GET, SET with a time to live in seconds, FLUSHDB
pub record Redis (W : Type 0) : Type 0 where
  pub get : String → Op W Payload
  pub set : String → Json → ℤ → Op W (Unit {0})
  pub flush_db : Op W (Unit {0})

-- *amqp.Channel: a message to the queue usage.recorded; and time.Now() as RFC 3339
pub record Broker (W : Type 0) : Type 0 where
  pub publish : Json → Op W (Unit {0})
  pub timestamp : W → String

pub record Service (W : Type 0) : Type 0 where
  pub provider : LlmProvider W
  pub auth_client : AuthClient W
  pub billing_client : BillingClient W
  pub redis : Redis W
  pub rabbit : Broker W
  -- a time.Duration, in nanoseconds
  pub cache_ttl : ℤ
  -- hex.EncodeToString of sha256.Sum256 of a document
  pub sha256_hex : Json → String

abbrev pub min_balance : ℤ
min_balance = pos 10

-- json.Marshal of a response: the struct has no tags.
unfoldable pub encode_response : CompletionResponse → Json
encode_response r = obj (
    field "Content" (str r.content) (
      field "Model" (str r.model) (
        field "PromptTokens" (num r.prompt_tokens) (
          field "CompletionTokens" (num r.completion_tokens) (
            field "TotalTokens" (num r.total_tokens) (field "LatencyMs" (num r.latency_ms) end))))))

-- json.Unmarshal of cached bytes
unfoldable pub decode_response : Payload → Option CompletionResponse
unfolding fields_of text_field int_field
decode_response body = do
  doc ← body
  fs ← fields_of doc
  content ← text_field "Content" fs
  model ← text_field "Model" fs
  prompt ← int_field "PromptTokens" fs
  completion ← int_field "CompletionTokens" fs
  total ← int_field "TotalTokens" fs
  latency ← int_field "LatencyMs" fs
  some (record {
    content = content;
    model = model;
    prompt_tokens = prompt;
    completion_tokens = completion;
    total_tokens = total;
    latency_ms = latency;
  })

unfoldable pub encode_messages : List Message → Items
encode_messages [] = nil
encode_messages (m ∷ ms) =
    cons (obj (field "Role" (str m.role) (field "Content" (str m.content) end)))
      (encode_messages ms)

abbrev pub encode_slice : Option (List Message) → Json
encode_slice none = null
encode_slice (some ms) = arr (encode_messages ms)

unfoldable pub encode_request : CompletionRequest → Json
unfolding encode_messages
encode_request req =
    obj (field "Model" (str req.model) (field "Messages" (encode_slice req.messages) end))

-- json.Marshal of the event, a map, whose keys are sorted
unfoldable pub encode_usage : String → String → ℤ → ℤ → String → Json
encode_usage user_id model prompt_tokens completion_tokens timestamp = obj (
    field "completion_tokens" (num completion_tokens) (
      field "model" (str model) (
        field "prompt_tokens" (num prompt_tokens)
          (field "timestamp" (str timestamp) (field "user_id" (str user_id) end)))))

module _ {W : Type 0} (s : Service W) where
  unfoldable pub cache_key : CompletionRequest → String
  unfolding encode_request
  cache_key req = "llm:" <> s.sha256_hex (encode_request req)

  unfoldable pub publish_usage : String → String → ℤ → ℤ → Op W (Unit {0})
  unfolding encode_usage
  publish_usage user_id model prompt completion w =
      s.rabbit.publish (encode_usage user_id model prompt completion (s.rabbit.timestamp w)) w

  -- What is done with an answer of the provider; the errors of both calls are ignored.
  unfoldable pub keep : String → CompletionRequest → CompletionResponse → W → W
  unfolding publish_usage encode_response
  keep user_id req resp w =
      let stored = (s.redis.set (cache_key req) (encode_response resp) s.cache_ttl w).1 in
      (publish_usage user_id req.model resp.prompt_tokens resp.completion_tokens stored).1

  abbrev kept :
      String
      → CompletionRequest
      → Option (Result CompletionResponse × W)
      → Option (Result CompletionResponse × W)
  kept user_id req none = none
  kept user_id req (some (err e, w)) = some (err ("provider: " <> e), w)
  kept user_id req (some (ok resp, w)) = some (ok resp, keep user_id req resp w)

  -- A cache hit is a GET without error whose bytes decode.
  abbrev cached : Result Payload × W → Option CompletionResponse
  cached (err e, w) = none
  cached (ok body, w) = decode_response body

  unfoldable pub serve_request : String → CompletionRequest → Run W CompletionResponse
  unfolding decode_response keep cache_key
  serve_request user_id req w =
      let r = s.redis.get (cache_key req) w in
      elim (cached r) [
        | some resp ↦ some (ok resp, r.1)
        | none ↦ kept user_id req (s.provider.complete req r.1)
      ]

  abbrev pub if_paid :
      String → CompletionRequest → Result ℤ × W → Option (Result CompletionResponse × W)
  if_paid user_id req (err e, w) = some (err ("billing: " <> e), w)
  if_paid user_id req (ok balance, w) =
      if ltb_ℤ balance min_balance
      then some (err "insufficient balance: payment required", w)
      else serve_request user_id req w

  abbrev pub if_known :
      CompletionRequest → Result UserInfo × W → Option (Result CompletionResponse × W)
  if_known req (err e, w) = some (err ("auth: " <> e), w)
  if_known req (ok info, w) = if_paid info.user_id req (s.billing_client.balance info.user_id w)

  unfoldable pub complete : String → CompletionRequest → Run W CompletionResponse
  unfolding serve_request
  complete api_key req w = if_known req (s.auth_client.validate api_key w)

  unfoldable pub list_models : Op W (List Model)
  list_models = s.provider.list_models

  unfoldable pub clear_cache : Op W (Unit {0})
  clear_cache = s.redis.flush_db
