-- ===== src/LlmProxy/Service/Encoding.antt =====
-- What the proxy writes to Redis and to the queue, against what is read back.
use llm_proxy_study_project.Prelude.{
  ℕ, String, Option, none, some, List, [], ◌∷◌, ◌≡◌, refl, ap, arith,
}
use llm_proxy_study_project.Prelude.Int.{ℤ}
use llm_proxy_study_project.Go.Int64.{IsInt64}
use llm_proxy_study_project.Billing.Consumer.{decode_event}
use llm_proxy_study_project.LlmProxy.Provider.{Message, CompletionRequest, CompletionResponse}
use llm_proxy_study_project.LlmProxy.Service.{
  encode_response, decode_response, encode_messages, encode_slice, encode_request, encode_usage,
}

-- The counts of a response are values of Go's integer types.
pub record IsSized (r : CompletionResponse) : Type 0 where
  pub prompt : IsInt64 r.prompt_tokens
  pub completion : IsInt64 r.completion_tokens
  pub total : IsInt64 r.total_tokens
  pub latency : IsInt64 r.latency_ms

-- A cached response whose counts are int64 values is read back as it was written.
pub decode-encode_response :
    (r : CompletionResponse) → IsSized r → decode_response (some (encode_response r)) ≡ some r
unfolding decode_response encode_response
decode-encode_response r sized = ground arith

-- The usage event that the proxy publishes, with counts that are int64 values, is the one that the
-- billing consumer decodes: the user, the model, both counts and the time, if the consumer can
-- read the time's text.
pub decode-encode_usage :
    (parse_time : String → Option ℕ) (user model : String) (prompt completion : ℤ)
    (timestamp : String) (time : ℕ)
    → IsInt64 prompt
    → IsInt64 completion
    → parse_time timestamp ≡ some time
    → decode_event parse_time (some (encode_usage user model prompt completion timestamp))
      ≡ some (record {
        user_id = user;
        model = model;
        prompt_tokens = prompt;
        completion_tokens = completion;
        timestamp = time;
      })
unfolding decode_event encode_usage
decode-encode_usage parse_time user model prompt completion timestamp time p c t = ground arith

encode_messages-injective :
    (ms ns : List Message) → encode_messages ms ≡ encode_messages ns → ms ≡ ns
unfolding encode_messages
encode_messages-injective [] [] h = refl
encode_messages-injective [] (n ∷ ns) h = cc
encode_messages-injective (m ∷ ms) [] h = cc
encode_messages-injective (m ∷ ms) (n ∷ ns) h =
    let rest : encode_messages ms ≡ encode_messages ns = cc in
    ground (arith, encode_messages-injective ms ns rest)

encode_slice-injective : (a b : Option (List Message)) → encode_slice a ≡ encode_slice b → a ≡ b
encode_slice-injective none none h = refl
encode_slice-injective none (some ns) h = cc
encode_slice-injective (some ms) none h = cc
encode_slice-injective (some ms) (some ns) h = ap some (encode_messages-injective ms ns (cc))

-- Two requests with the same document under the cache key are the same request.
pub encode_request-injective :
    (a b : CompletionRequest) → encode_request a ≡ encode_request b → a ≡ b
unfolding encode_request
encode_request-injective a b h =
    let model : a.model ≡ b.model = cc in
    let messages : encode_slice a.messages ≡ encode_slice b.messages = cc in
    ground (arith, model, encode_slice-injective a.messages b.messages messages)
