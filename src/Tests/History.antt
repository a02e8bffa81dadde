-- ===== src/Tests/History.antt =====
-- Runs of sequences of requests to the auth service.
use llm_proxy_study_project.Prelude.{
  ℕ, String, Option, none, some, true, List, [], ◌∷◌, ◌≡◌, refl, arith, ◌&&◌, ◌==◌, eqb, eq_iff,
  if◌then◌else◌, ap, sym, ◌∙◌,
}
use llm_proxy_study_project.Go.Effect.{Result, ok, err}
use llm_proxy_study_project.Go.Json.{Json, Payload, str, obj, field, end}
use llm_proxy_study_project.Go.Http.{Request, write_json}
use llm_proxy_study_project.Stats.{Stats, new_stats}
use llm_proxy_study_project.Stats.Counting.{IsTally, serve}
use llm_proxy_study_project.Stats.Reports.{Reports}
use llm_proxy_study_project.Auth.Store
use llm_proxy_study_project.Auth.Store.{User, ApiKey, Tables, Db, find, has_email}
use llm_proxy_study_project.Auth.Service.{Crypto, Claims, login}
use llm_proxy_study_project.Auth.Service.Tokens.{IsReadable}
use llm_proxy_study_project.Auth.Handler
use llm_proxy_study_project.Auth.Handler.{user_json}
use llm_proxy_study_project.Auth.Handler.History.{auth_counts, auth_stats}
use llm_proxy_study_project.Auth.Handler.Session.{token_json, login_then_me}
use llm_proxy_study_project.Tests.Auth.{crypto, ann, db, first_key}

abbrev text_of : ℕ → String
text_of n = "2026-01-01T00:00:00Z"

abbrev request : String → List String → String → Payload → Request
request method path authorization body = record {
  method = method;
  path = path;
  query = λ _. "";
  authorization = authorization;
  body = body;
  now = 0;
}

abbrev stats : Stats
stats = new_stats "auth-service" "1.0.0" 0

abbrev credentials : Payload
credentials = some (obj (field "email" (str "ann@example.org") (field "password" (str "a") end)))

-- Someone registers, then the first key is revoked, then a path that does not exist is asked for.
abbrev requests : List Request
requests =
    request "POST" ("auth" ∷ "register" ∷ []) "" credentials
    ∷ request "DELETE" ("auth" ∷ "keys" ∷ "k1" ∷ []) "Bearer token" none
    ∷ request "GET" ("nothing" ∷ []) "" none
    ∷ []

-- The same tables, with the first key revoked.
abbrev db_revoked : Db
db_revoked = record db {
  tables = record { users = ann ∷ []; api_keys = record first_key { revoked = true } ∷ [] };
}

auth_counts_example :
    let (responses, s) =
      serve
        (Handler.route crypto "s" text_of)
        requests
        []
        (new_stats "auth-service" "1.0.0" 0, db) in
    IsTally responses s.0.counter
auth_counts_example =
    auth_counts crypto "s" text_of requests "auth-service" "1.0.0" 0 db (ground arith)

abbrev stats_request : Request
stats_request = request "GET" ("stats" ∷ []) "" none

auth_stats_example :
    let (responses, s) =
      serve
        (Handler.route crypto "s" text_of)
        requests
        []
        (new_stats "auth-service" "1.0.0" 0, db) in
    (v : Json) × ((Handler.router crypto "s" text_of stats_request s).0 ≡ write_json 200 v)
    × Reports responses v
auth_stats_example =
    auth_stats crypto "s" text_of requests "auth-service" "1.0.0" 0 db stats_request (ground arith)
      refl refl

abbrev ann_claims : Claims
ann_claims = record { user_id = some "u1"; role = some "admin"; exp = 86400 }

-- A library that signs no claims but these.
abbrev signed : Option String → Option String → ℕ → Result String
signed (some user) (some role) exp =
    if user == "u1" && (role == "admin" && eqb exp 86400) then ok "token" else err "unknown"
signed _ _ exp = err "unknown"

abbrev jwt : Crypto
jwt = record crypto {
  sign = λ claims secret. signed claims.user_id claims.role claims.exp;
  is_hmac = λ token. token == "token";
  verify = λ token secret now. if token == "token" then some ann_claims else none;
}

signed_lem :
    (user role : Option String) (exp : ℕ) (token : String)
    → signed user role exp ≡ ok token
    → (token ≡ "token") × (record { user_id = user; role = role; exp = exp } ≡ ann_claims)
signed_lem none role exp token h = cc
signed_lem (some user) none exp token h = cc
signed_lem (some user) (some role) exp token h =
    ground (arith, eq_iff user "u1", eq_iff role "admin")

jwt-IsReadable : IsReadable jwt
jwt-IsReadable = record {
  hmac = λ claims secret token h.
      ap (λ t. t == "token") (signed_lem claims.user_id claims.role claims.exp token h).0;
  claims_back = λ claims secret token now h soon.
      (let (same, read) = signed_lem claims.user_id claims.role claims.exp token h in
        ap (λ t. if t == "token" then some ann_claims else none) same ∙ ap some (sym read));
}

abbrev login_request : Request
login_request = request "POST" ("auth" ∷ "login" ∷ []) "" credentials

abbrev me_request : Request
me_request = request "GET" ("auth" ∷ "users" ∷ "me" ∷ []) "Bearer token" none

abbrev logged_state : Stats × Db
logged_state = (Handler.router jwt "s" text_of login_request (stats, db)).1

logged :
    Handler.router jwt "s" text_of login_request (stats, db)
    ≡ (write_json 200 (token_json "token"), (logged_state.0, logged_state.1))
unfolding Handler.router login Store.get_user_by_email
logged = refl

login_then_me_example :
    (Handler.router jwt "s" text_of me_request (logged_state.0, logged_state.1)).0
    ≡ write_json 200 (user_json jwt "s" text_of ann)
unfolding Handler.decode_credentials find Handler.router login Store.get_user_by_email
login_then_me_example =
    login_then_me jwt "s" text_of login_request me_request stats logged_state.0 db logged_state.1
      "ann@example.org" "a" "token" ann jwt-IsReadable refl refl refl logged refl refl refl refl
      refl (ground arith) refl

issued : login jwt "s" 0 "ann@example.org" "a" db ≡ (ok "token", logged_state.1)
unfolding Handler.router login Store.get_user_by_email
issued = refl
