-- ===== src/Go/Http.antt =====
-- net/http and the chi router as the handlers use them. A path is the list of its segments; the
-- body of a request is what encoding/json reads from it.
use llm_proxy_study_project.Prelude.{ℕ, String, List}
use llm_proxy_study_project.Go.Json.{Json, Payload, str, obj, field, end}

pub record Request : Type 0 where
  pub method : String
  pub path : List String
  -- r.URL.Query().Get
  pub query : String → String
  -- r.Header.Get("Authorization")
  pub authorization : String
  pub body : Payload
  -- The time at which the handler runs, in microseconds.
  pub now : ℕ

pub data Content : Type 0 where
  empty : Content
  json : Json → Content
  plain : String → Content
  -- What promhttp.Handler() writes.
  metrics : Content

pub record Response : Type 0 where
  pub status : ℕ
  pub content : Content

-- A handler over the state of its service.
abbrev pub Handler : Type 0 → Type 0
Handler S = Request → S → Response × S

abbrev pub write_json : ℕ → Json → Response
write_json status v = record { status = status; content = json v }

abbrev pub write_error : ℕ → String → Response
write_error status msg = write_json status (obj (field "error" (str msg) end))

-- w.WriteHeader(status) alone.
abbrev pub write_header : ℕ → Response
write_header status = record { status = status; content = empty }

-- The handler of /health.
abbrev pub health : Response
health = write_json 200 (obj (field "status" (str "ok") end))

-- The answers of chi to a path that it does not know, and to a known path with another method.
abbrev pub not_found : Response
not_found = record { status = 404; content = plain "404 page not found" }

abbrev pub not_allowed : Response
not_allowed = write_header 405
