-- ===== src/LlmProxy/Provider.antt =====
-- internal/llmproxy/provider/provider.go. A nil slice is `none`; a Go panic is `none` as the result
-- of a run. The HTTP exchange with OpenAI is an argument.
pub mod Choice
use llm_proxy_study_project.Prelude.{
  ℕ, ◌+◌, ◌%◌, String, ◌<>◌, ◌==◌, Option, none, some, Bool, ◌||◌, List, [], ◌∷◌, if◌then◌else◌,
  eqb,
}
use llm_proxy_study_project.Prelude.Int.{ℤ, pos}
use llm_proxy_study_project.Go.Effect.{Result, ok, err, Op, Error}
use llm_proxy_study_project.Go.Decimal.{decimal}
use llm_proxy_study_project.Go.Json.{
  Json, Items, Fields, null, str, arr, obj, nil, cons, field, end, Payload, fields_of, text_field,
  int_field, read_field,
}

pub record Message : Type 0 where
  pub role : String
  pub content : String

pub record CompletionRequest : Type 0 where
  pub model : String
  pub messages : Option (List Message)

pub record CompletionResponse : Type 0 where
  pub content : String
  pub model : String
  pub prompt_tokens : ℤ
  pub completion_tokens : ℤ
  pub total_tokens : ℤ
  pub latency_ms : ℤ

pub record Model : Type 0 where
  pub id : String
  pub provider : String

-- A call that may also panic.
abbrev pub Run : Type 0 → Type 0 → Type 0
Run W A = W → Option (Result A × W)

pub record LlmProvider (W : Type 0) : Type 0 where
  pub complete : CompletionRequest → Run W CompletionResponse
  pub list_models : Op W (List Model)

abbrev pub slice : Option (List Message) → List Message
slice none = []
slice (some ms) = ms

-- messages[len(messages)-1], which panics on an empty slice.
unfoldable pub last_message : List Message → Option Message
last_message [] = none
last_message (m ∷ []) = some m
last_message (m ∷ n ∷ ms) = last_message (n ∷ ms)

-- `draw k` is the k-th value of the global generator; rand.Intn(n) is in [0, n).
unfoldable pub mock_complete : (ℕ → ℕ) → CompletionRequest → Option CompletionResponse
unfolding last_message
mock_complete draw req = elim (last_message (slice req.messages)) [
  | none ↦ none
  | some m ↦
      let prompt = draw 1 % 150 + 50 in
      let completion = draw 2 % 100 + 30 in
      some (record {
        content = "Mock response for: " <> m.content;
        model = req.model;
        prompt_tokens = pos prompt;
        completion_tokens = pos completion;
        total_tokens = pos (prompt + completion);
        latency_ms = pos (50 + draw 3 % 200);
      })
]

unfoldable pub mock_models : List Model
mock_models =
    record { id = "mock-gpt-4"; provider = "mock" }
    ∷ record { id = "mock-claude-3"; provider = "mock" }
    ∷ []

unfoldable pub openai_models : List Model
openai_models =
    record { id = "gpt-4"; provider = "openai" }
    ∷ record { id = "gpt-4-turbo"; provider = "openai" }
    ∷ record { id = "gpt-3.5-turbo"; provider = "openai" }
    ∷ []

-- MockProvider, in a world that gives out random numbers.
unfoldable pub mock_provider : {W : Type 0} → (W → ℕ → ℕ) → LlmProvider W
unfolding mock_complete mock_models
mock_provider draws = record {
  complete = λ req w. elim (mock_complete (draws w) req) [ none ↦ none | some r ↦ some (ok r, w) ];
  list_models = λ w. (ok mock_models, w);
}

openai_messages : List Message → Items
openai_messages [] = nil
openai_messages (m ∷ ms) =
    cons (obj (field "role" (str m.role) (field "content" (str m.content) end)))
      (openai_messages ms)

-- make([]openAIMessage, len) is never nil.
unfoldable pub openai_body : CompletionRequest → Json
unfolding openai_messages
openai_body req = obj (
    field "model" (str req.model)
      (field "messages" (arr (openai_messages (slice req.messages))) end))

-- The answer of the API: its status and what its body decodes to; `choices` are the contents.
pub record OpenAiResponse : Type 0 where
  pub choices : List String
  pub prompt_tokens : ℤ
  pub completion_tokens : ℤ
  pub total_tokens : ℤ
  pub model : String

pub record Reply : Type 0 where
  pub status : ℕ
  pub decoded : Result OpenAiResponse
  pub latency_ms : ℤ

abbrev first_choice : List String → String
first_choice [] = ""
first_choice (c ∷ cs) = c

unfoldable pub openai_result : Reply → Result CompletionResponse
openai_result r =
    if eqb r.status 200
    then elim r.decoded [
      | err e ↦ err e
      | ok a ↦ ok (record {
        content = first_choice a.choices;
        model = a.model;
        prompt_tokens = a.prompt_tokens;
        completion_tokens = a.completion_tokens;
        total_tokens = a.total_tokens;
        latency_ms = r.latency_ms;
      })
    ]
    else err ("openai: status " <> decimal r.status)

-- OpenAIProvider; `post key body` sends the request with the key as bearer token.
unfoldable pub openai_provider :
    {W : Type 0} → (String → Json → Op W Reply) → String → LlmProvider W
unfolding openai_body openai_result openai_models
openai_provider post api_key = record {
  complete = λ req w.
      let (r, w') = post api_key (openai_body req) w in
      elim r [ err e ↦ some (err e, w') | ok a ↦ some (openai_result a, w') ];
  list_models = λ w. (ok openai_models, w);
}

pub data Chosen : Type 0 where
  openai : String → Chosen
  mock : Chosen

-- NewProvider; the first argument is os.Getenv("OPENAI_API_KEY").
unfoldable pub new_provider : String → String → Result Chosen
new_provider openai_key provider_type =
    if provider_type == "openai"
    then (if openai_key == "" then err "OPENAI_API_KEY not set" else ok (openai openai_key))
    else if provider_type == "mock" || provider_type == ""
    then ok mock
    else err ("unknown provider: " <> provider_type)
