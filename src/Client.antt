-- ===== src/Client.antt =====
-- pkg/client/client.go: the HTTP clients of the three services, over a transport that is an argument.
-- A base URL is a server's address, with no path of its own.
pub mod Keeping
pub mod Decoding
use llm_proxy_study_project.Prelude.{
  String, ◌<>◌, Option, none, some, List, [], ◌∷◌, if◌then◌else◌, eqb,
}
use llm_proxy_study_project.Prelude.Int.{ℤ, pos}
use llm_proxy_study_project.Go.Effect.{Error, Result, ok, err, Op}
use llm_proxy_study_project.Go.Decimal.{decimal}
use llm_proxy_study_project.Go.Url.{Target, parse}
use llm_proxy_study_project.Go.Json.{
  ◌>>=◌, Json, Items, null, str, num, arr, obj, nil, cons, field, end, Payload, fields_of,
  text_field, int_field, read_field,
}
use llm_proxy_study_project.Go.Http.{Content, json, Response}
use llm_proxy_study_project.Auth.Service.{UserInfo}
use llm_proxy_study_project.LlmProxy.Provider.{Message, CompletionRequest, Model}
use llm_proxy_study_project.LlmProxy.Service.{AuthClient, BillingClient}

-- A request that a client sends.
pub record Outgoing : Type 0 where
  pub method : String
  pub target : Target
  pub authorization : String
  pub body : Payload

-- *http.Client: Do, and the texts of the errors of http.NewRequest and of a JSON decoder.
pub record HttpClient (W : Type 0) : Type 0 where
  pub do_request : Outgoing → Op W Response
  pub url_error : String → Error
  pub body_error : Payload → Error

-- What a decoder reads of a response's body.
abbrev pub body_of : Content → Payload
body_of (json v) = some v
body_of _ = none

abbrev pub get_request : Target → Outgoing
get_request t = record { method = "GET"; target = t; authorization = ""; body = none }

abbrev pub post_request : Target → Json → Outgoing
post_request t v = record { method = "POST"; target = t; authorization = ""; body = some v }

unfoldable pub decode_info : Payload → Option UserInfo
unfolding fields_of text_field
decode_info body = do
  doc ← body
  fs ← fields_of doc
  user_id ← text_field "user_id" fs
  role ← text_field "role" fs
  some (record { user_id = user_id; role = role })

unfoldable pub decode_balance : Payload → Option ℤ
unfolding fields_of int_field
decode_balance body = do doc ← body; fs ← fields_of doc; int_field "balance" fs

pub record Usage : Type 0 where
  pub prompt_tokens : ℤ
  pub completion_tokens : ℤ
  pub total_tokens : ℤ

pub record CompletionResponse : Type 0 where
  pub content : String
  pub model : String
  pub usage : Usage
  pub latency_ms : ℤ

-- client.LLMProxyClient
pub record LlmProxyClient (W : Type 0) : Type 0 where
  pub complete : CompletionRequest → Op W CompletionResponse
  pub models : Op W (List Model)

abbrev no_usage : Usage
no_usage = record { prompt_tokens = pos 0; completion_tokens = pos 0; total_tokens = pos 0 }

unfoldable pub assign_usage : Json → Usage → Option Usage
unfolding int_field
assign_usage null old = some old
assign_usage (obj fs) old = do
  prompt ← int_field "prompt_tokens" fs
  completion ← int_field "completion_tokens" fs
  total ← int_field "total_tokens" fs
  some (record { prompt_tokens = prompt; completion_tokens = completion; total_tokens = total })
assign_usage _ old = none

unfoldable pub decode_completion : Payload → Option CompletionResponse
unfolding fields_of text_field int_field read_field assign_usage
decode_completion body = do
  doc ← body
  fs ← fields_of doc
  content ← text_field "content" fs
  model ← text_field "model" fs
  usage ← read_field assign_usage "usage" (some no_usage) fs
  latency ← int_field "latency_ms" fs
  some (record { content = content; model = model; usage = usage; latency_ms = latency })

decode_model : Json → Option Model
unfolding fields_of text_field
decode_model v = do
  fs ← fields_of v
  id ← text_field "id" fs
  provider ← text_field "provider" fs
  some (record { id = id; provider = provider })

decode_items : Items → Option (List Model)
unfolding decode_model
decode_items nil = some []
decode_items (cons v vs) = do m ← decode_model v; ms ← decode_items vs; some (m ∷ ms)

-- The nil slice of `null` is an empty one here.
unfoldable pub decode_models : Payload → Option (List Model)
unfolding decode_items
decode_models none = none
decode_models (some null) = some []
decode_models (some (arr vs)) = decode_items vs
decode_models (some _) = none

request_items : List Message → Items
request_items [] = nil
request_items (m ∷ ms) =
    cons (obj (field "role" (str m.role) (field "content" (str m.content) end))) (request_items ms)

abbrev request_slice : Option (List Message) → Json
request_slice none = null
request_slice (some ms) = arr (request_items ms)

-- json.Marshal of a client.CompletionRequest, which has the fields of the provider's.
unfoldable pub completion_body : CompletionRequest → Json
unfolding request_items
completion_body req =
    obj (field "model" (str req.model) (field "messages" (request_slice req.messages) end))

module _ {W : Type 0} (c : HttpClient W) where
  -- What a client does with the response: an error of the exchange, another status than 200, and a
  -- body that does not decode.
  abbrev pub decoded : {A : Type 0} → (Payload → Option A) → Payload → W → Result A × W
  decoded decode body w = elim (decode body) [
    | none ↦ (err (c.body_error body), w)
    | some a ↦ (ok a, w)
  ]

  abbrev pub answer :
      {A : Type 0} → String → (Payload → Option A) → Result Response × W → Result A × W
  answer what decode (err e, w) = (err e, w)
  answer what decode (ok r, w) =
      if eqb r.status 200
      then decoded decode (body_of r.content) w
      else (err (what <> ": status " <> decimal r.status), w)

  -- http.NewRequest, which fails on a URL that does not parse, and what follows it.
  abbrev pub with_url : {A : Type 0} → String → (Target → Op W A) → Op W A
  with_url url next w = elim (parse url) [ none ↦ (err (c.url_error url), w) | some t ↦ next t w ]

  -- The key stands in the URL as it is.
  unfoldable pub validate : String → Op W UserInfo
  validate api_key =
      with_url ("/auth/validate?api_key=" <> api_key)
        (λ t w. answer "auth validate" decode_info (c.do_request (get_request t) w))

  unfoldable pub balance : String → Op W ℤ
  balance user_id =
      with_url ("/billing/balance/" <> user_id)
        (λ t w. answer "billing balance" decode_balance (c.do_request (get_request t) w))

  unfoldable pub deposit : String → ℤ → Op W (Unit {0})
  deposit user_id amount = with_url "/billing/deposit" (λ t w.
      answer "billing deposit" (λ _. some tt)
        (c.do_request
          (post_request t (obj (field "amount" (num amount) (field "user_id" (str user_id) end))))
          w))

  -- No request of this client has an Authorization header.
  unfoldable pub complete : CompletionRequest → Op W CompletionResponse
  unfolding completion_body
  complete req = with_url "/completions" (λ t w.
      answer "llm complete" decode_completion
        (c.do_request (post_request t (completion_body req)) w))

  unfoldable pub models : Op W (List Model)
  models =
      with_url "/models" (λ t w. answer "llm models" decode_models (c.do_request (get_request t) w))

  unfoldable pub http_auth_client : AuthClient W
  unfolding validate
  http_auth_client = record { validate = validate }

  unfoldable pub http_billing_client : BillingClient W
  unfolding balance deposit
  http_billing_client = record { balance = balance; deposit = deposit }

  unfoldable pub http_llm_proxy_client : LlmProxyClient W
  unfolding complete models
  http_llm_proxy_client = record { complete = complete; models = models }
