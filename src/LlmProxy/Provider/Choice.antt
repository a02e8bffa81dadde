-- ===== src/LlmProxy/Provider/Choice.antt =====
-- The choice of a provider, and what the mock provider answers.
use llm_proxy_study_project.Prelude.{
  ℕ, ◌+◌, ◌<◌, ◌≤◌, String, eq_iff, none, some, List, [], ◌∷◌, ◌≡◌, ◌≢◌, ◌↔◌, refl, arith,
  Option-cases, ◌%◌, inl, inr, ◌⊎◌,
}
use llm_proxy_study_project.Prelude.Int.{pos}
use llm_proxy_study_project.Go.Effect.{ok}
use llm_proxy_study_project.LlmProxy.Provider.{
  Message, CompletionRequest, CompletionResponse, slice, last_message, mock_complete, openai, mock,
  new_provider,
}

-- OpenAI is chosen exactly by the word "openai" with a key that is not empty.
pub new_provider-openai_iff :
    (key word k : String)
    → (new_provider key word ≡ ok (openai k)) ↔ ((word ≡ "openai") × (key ≢ "") × (k ≡ key))
unfolding new_provider
new_provider-openai_iff key word k =
    ground (arith, eq_iff word "openai", eq_iff key "", eq_iff word "mock", eq_iff word "")

openai_not_mock : ◌≢◌ {A = String} "openai" "mock"
openai_not_mock = ground (arith, eq_iff "openai" "mock")

openai_not_empty : ◌≢◌ {A = String} "openai" ""
openai_not_empty = ground (arith, eq_iff "openai" "")

-- The mock is chosen exactly by the word "mock" and by the empty word.
pub new_provider-mock_iff :
    (key word : String) → (new_provider key word ≡ ok mock) ↔ ((word ≡ "mock") ⊎ (word ≡ ""))
unfolding new_provider
new_provider-mock_iff key word = ground (
  arith,
  eq_iff word "openai",
  eq_iff key "",
  eq_iff word "mock",
  eq_iff word "",
  openai_not_mock,
  openai_not_empty,
)

last_message-none_iff : (ms : List Message) → (last_message ms ≡ none) ↔ (ms ≡ [])
unfolding last_message
last_message-none_iff [] = (λ _. refl, λ _. refl)
last_message-none_iff (m ∷ []) = (λ h. cc, λ h. cc)
last_message-none_iff (m ∷ n ∷ ms) = (
  λ h. let rest : ◌≡◌ {A = List Message} (n ∷ ms) [] = (last_message-none_iff (n ∷ ms)).0 h in cc,
  λ h. cc,
)

-- MockProvider.Complete panics exactly on a request with no message.
pub mock_panics_iff :
    (draw : ℕ → ℕ) (req : CompletionRequest)
    → (mock_complete draw req ≡ none) ↔ (slice req.messages ≡ [])
unfolding mock_complete
mock_panics_iff draw req = ground (arith, last_message-none_iff (slice req.messages))

-- Each answer of the mock counts 50 to 199 prompt tokens and 30 to 129 completion tokens, has their
-- sum as its total, and names the model of the request.
pub mock_complete_bounds :
    (draw : ℕ → ℕ) (req : CompletionRequest) (r : CompletionResponse)
    → mock_complete draw req ≡ some r
    → (prompt : ℕ) × (completion : ℕ) × (r.prompt_tokens ≡ pos prompt)
      × (r.completion_tokens ≡ pos completion)
      × (50 ≤ prompt)
      × (prompt < 200)
      × (30 ≤ completion)
      × (completion < 130)
      × (r.total_tokens ≡ pos (prompt + completion))
      × (r.model ≡ req.model)
unfolding mock_complete
mock_complete_bounds draw req r h = elim (Option-cases (last_message (slice req.messages))) [
  | inl missing ↦ absurd (ground arith)
  | inr (m, found) ↦ (
    draw 1 % 150 + 50,
    draw 2 % 100 + 30,
    ground arith,
    ground arith,
    omega arith,
    omega arith,
    omega arith,
    omega arith,
    ground arith,
    ground arith,
  )
]
