-- ===== src/Tests/Proxy.antt =====
-- Runs of the LLM proxy, over a world that holds the cache and the queue.
use llm_proxy_study_project.Prelude.{
  String, some, List, [], ◌∷◌, ◌≡◌, refl, ap, arith, ◌==◌, if◌then◌else◌, eq_refl,
}
use llm_proxy_study_project.Prelude.Int.{ℤ, pos}
use llm_proxy_study_project.Go.Effect.{Result, ok, err}
use llm_proxy_study_project.Go.Json.{Json, obj, field, str, Payload}
use llm_proxy_study_project.Auth.Service.{UserInfo}
use llm_proxy_study_project.LlmProxy.Provider.{
  CompletionRequest, CompletionResponse, mock_provider, mock_complete, last_message,
}
use llm_proxy_study_project.LlmProxy.Service.{
  Service, cache_key, keep, serve_request, complete, encode_request,
}
use llm_proxy_study_project.LlmProxy.Service.Encoding.{IsSized}
use llm_proxy_study_project.LlmProxy.Service.Flow.{IsPaid, complete-IsPaid}
use llm_proxy_study_project.LlmProxy.Service.Cache.{CacheLaws, complete_again}

abbrev pub World : Type 0
World = List (String × Json) × List Json

abbrev pub entry : String → List (String × Json) → Result Payload
entry key [] = err "redis: nil"
entry key ((k, doc) ∷ rest) = if k == key then ok (some doc) else entry key rest

abbrev pub digest : Json → String
digest (obj (field _ (str model) _)) = model
digest _ = ""

abbrev pub user_of : String → Result UserInfo
user_of api_key =
    if api_key == "good"
    then ok (record { user_id = "u1"; role = "user" })
    else if api_key == "poor"
    then ok (record { user_id = "u2"; role = "user" })
    else if api_key == "odd"
    then ok (record { user_id = "u3"; role = "user" })
    else err "connection refused"

abbrev pub balance_of : String → Result ℤ
balance_of user =
    if user == "u1" then ok (pos 100) else if user == "u2" then ok (pos 3) else err "no author"

abbrev pub service : Service World
service = record {
  provider = mock_provider (λ w k. k);
  auth_client = record { validate = λ api_key w. (user_of api_key, w) };
  billing_client = record {
    balance = λ user w. (balance_of user, w);
    deposit = λ user amount w. (ok tt, w);
  };
  redis = record {
    get = λ key w. (entry key w.0, w);
    set = λ key doc ttl w. (ok tt, ((key, doc) ∷ w.0, w.1));
    flush_db = λ w. (ok tt, ([], w.1));
  };
  rabbit = record {
    publish = λ doc w. (ok tt, (w.0, doc ∷ w.1));
    timestamp = λ w. "2026-01-01T00:00:00Z";
  };
  cache_ttl = pos 3600;
  sha256_hex = digest;
}

abbrev pub start : World
start = ([], [])

abbrev pub hello : CompletionRequest
hello = record {
  model = "gpt-4";
  messages = some (record { role = "user"; content = "hello" } ∷ []);
}

abbrev pub answer : CompletionResponse
answer = record {
  content = "Mock response for: hello";
  model = "gpt-4";
  prompt_tokens = pos 51;
  completion_tokens = pos 32;
  total_tokens = pos 83;
  latency_ms = pos 53;
}

unfoldable pub served : World
served = keep service "u1" hello answer start

pub answered : complete service "good" hello start ≡ some (ok answer, served)
unfolding served complete serve_request cache_key encode_request mock_provider mock_complete
    last_message
answered = refl

complete-IsPaid_example : IsPaid service "good" hello start answer served
complete-IsPaid_example = complete-IsPaid service "good" hello start served answer answered

same_entry :
    (key : String) (doc : Json) (rest : List (String × Json))
    → entry key ((key, doc) ∷ rest) ≡ ok (some doc)
same_entry key doc rest = ap (λ b. if b then ok (some doc) else entry key rest) (eq_refl key)

laws : CacheLaws service
laws = record {
  get_set = λ key doc ttl w. same_entry key doc w.0;
  get_get = λ key other w. refl;
  get_publish = λ key doc w. refl;
  get_validate = λ key api_key w. refl;
  get_balance = λ key user w. refl;
}

sized : IsSized answer
sized = record {
  prompt = ground arith;
  completion = ground arith;
  total = ground arith;
  latency = ground arith;
}

complete_again_example :
    complete service "good" hello served
    ≡ some (ok answer, (service.redis.get (cache_key service hello) served).1)
complete_again_example =
    complete_again service laws "good" "good" hello start served served served answer
      (record { user_id = "u1"; role = "user" }) (pos 100) sized answered refl refl refl
