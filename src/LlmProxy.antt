-- ===== src/LlmProxy.antt =====
-- The LLM proxy (internal/llmproxy): the providers, the service with its cache and its usage
-- events, and the HTTP handlers.
pub mod Provider
pub mod Service
pub mod Handler
