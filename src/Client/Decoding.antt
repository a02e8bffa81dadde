-- ===== src/Client/Decoding.antt =====
-- The HTTP client of the proxy reads what the proxy's handlers write.
use llm_proxy_study_project.Prelude.{some, List, [], ◌∷◌, ◌≡◌, refl, arith}
use llm_proxy_study_project.Go.Json.{arr}
use llm_proxy_study_project.LlmProxy.Provider as Provider
use llm_proxy_study_project.LlmProxy.Provider.{Model}
use llm_proxy_study_project.LlmProxy.Service.Encoding.{IsSized}
use llm_proxy_study_project.LlmProxy.Handler.{completion_json, models_json}
use llm_proxy_study_project.Client.{
  CompletionResponse, decode_completion, decode_items, decode_model, decode_models,
}

-- A provider's answer as a client of the proxy sees it.
abbrev pub client_view : Provider.CompletionResponse → CompletionResponse
client_view r = record {
  content = r.content;
  model = r.model;
  usage = record {
    prompt_tokens = r.prompt_tokens;
    completion_tokens = r.completion_tokens;
    total_tokens = r.total_tokens;
  };
  latency_ms = r.latency_ms;
}

-- A completion whose counts are int64 values is read by the client as the proxy wrote it.
pub decode-completion_json :
    (r : Provider.CompletionResponse)
    → IsSized r
    → decode_completion (some (completion_json r)) ≡ some (client_view r)
unfolding decode_completion completion_json
decode-completion_json r sized = ground arith

decode-models_json : (ms : List Model) → decode_items (models_json ms) ≡ some ms
unfolding models_json decode_items decode_model
decode-models_json [] = refl
decode-models_json (m ∷ ms) = ground (arith, decode-models_json ms)

-- The list of models is read as it was written.
pub decode_models-models_json :
    (ms : List Model) → decode_models (some (arr (models_json ms))) ≡ some ms
unfolding decode_models
decode_models-models_json ms = decode-models_json ms
