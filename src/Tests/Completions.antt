-- ===== src/Tests/Completions.antt =====
-- Runs of the completions endpoint.
use llm_proxy_study_project.Prelude.{String, some, [], ◌∷◌, ◌≡◌, refl}
use llm_proxy_study_project.Go.Json.{
  obj, field, str, end, arr, nil, cons, Payload, fields_of, text_field, read_field,
}
use llm_proxy_study_project.Go.Http.{Request, write_json}
use llm_proxy_study_project.LlmProxy.Provider.{mock_provider, mock_complete, last_message}
use llm_proxy_study_project.LlmProxy.Service.{cache_key, serve_request, complete, encode_request}
use llm_proxy_study_project.LlmProxy.Handler.{
  llm_service, decode_body, decode_message, decode_messages, assign_messages, completions,
  completion_json,
}
use llm_proxy_study_project.LlmProxy.Handler.Statuses.{IsServed, completions-IsServed}
use llm_proxy_study_project.Tests.Proxy.{service, start, hello, answer, served}

abbrev pub hello_body : Payload
hello_body = some (
    obj (
      field "model" (str "gpt-4") (
        field "messages"
          (arr (cons (obj (field "role" (str "user") (field "content" (str "hello") end))) nil))
          end)))

abbrev request_with : String → Request
request_with authorization = record {
  method = "POST";
  path = "completions" ∷ [];
  query = λ _. "";
  authorization = authorization;
  body = hello_body;
  now = 0;
}

decoded : decode_body hello_body ≡ some hello
unfolding decode_body fields_of text_field read_field assign_messages decode_messages decode_message
decoded = refl

shown :
    completions (llm_service service) (request_with "Bearer good") start
    ≡ some (write_json 200 (completion_json answer), served)
unfolding completions served complete serve_request cache_key encode_request mock_provider
    mock_complete last_message decode_body fields_of text_field read_field assign_messages
    decode_messages decode_message
shown = refl

completions-IsServed_example :
    IsServed service
      (request_with "Bearer good")
      start
      (write_json 200 (completion_json answer))
      served
completions-IsServed_example =
    completions-IsServed service (request_with "Bearer good") start served
      (write_json 200 (completion_json answer)) shown refl
