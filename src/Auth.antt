-- ===== src/Auth.antt =====
-- The auth service (internal/auth): users and API keys, passwords and tokens, the HTTP handlers.
pub mod Store
pub mod Service
pub mod Handler
