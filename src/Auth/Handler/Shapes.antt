-- ===== src/Auth/Handler/Shapes.antt =====
-- The answers of the auth service's endpoints, by the shapes of their documents.
use llm_proxy_study_project.Prelude.{
  ℕ, ◌/◌, ◌≤◌, String, Option, none, some, [], ◌∷◌, ◌≡◌, refl, arith, if_lem, has_prefix,
  trim_prefix,
}
use llm_proxy_study_project.Go.Effect.{Result, ok, err}
use llm_proxy_study_project.Go.Shape.{
  Shape, text, struct, no_more, member, has_shape, IsTyped, fine, failed, health_shape, stats_shape,
}
use llm_proxy_study_project.Go.Http.{
  Request, Response, Handler, metrics, write_header, write_error, not_found, not_allowed,
}
use llm_proxy_study_project.Stats.{Stats, middleware}
use llm_proxy_study_project.Stats.Shapes.{stats-IsTyped}
use llm_proxy_study_project.Auth.Store.{Db, User}
use llm_proxy_study_project.Auth.Service.{
  Crypto, RegisterResult, UserInfo, login, parse_jwt, get_me,
}
use llm_proxy_study_project.Auth.Service
use llm_proxy_study_project.Auth.Handler.{
  registered_answer, token_answer, validated_answer, key_answer, revoked_answer, me_answer,
  decode_credentials, decode_name, shown_key, register, log_in, validate, create_api_key,
  revoke_api_key, me, jwt_middleware, router,
}
use llm_proxy_study_project.Auth.Handler.Routes.{
  Routed, missing, other_method, statistics, measured, healthy, registers, logs_in, validates,
  creates, revokes, profiles, route-Routed,
}

-- A user, with the hash of the password.
abbrev user_shape : Shape
user_shape = struct (
    member "ID" text (
      member "Email" text
        (member "PasswordHash" text (member "Role" text (member "CreatedAt" text no_more)))))

abbrev registered_shape : Shape
registered_shape = struct (member "api_key" text (member "user" user_shape no_more))

abbrev token_shape : Shape
token_shape = struct (member "jwt_token" text no_more)

abbrev info_shape : Shape
info_shape = struct (member "user_id" text (member "role" text no_more))

abbrev key_shape : Shape
key_shape = struct (member "api_key" text no_more)

-- The endpoints that answer with a document: method, path, the status of success and the shape.
pub data Endpoint (r : Request) : ℕ → Shape → Type 0 where
  register_endpoint :
      r.method ≡ "POST" → r.path ≡ "auth" ∷ "register" ∷ [] → Endpoint r 201 registered_shape
  login_endpoint : r.method ≡ "POST" → r.path ≡ "auth" ∷ "login" ∷ [] → Endpoint r 200 token_shape
  validate_endpoint :
      r.method ≡ "GET" → r.path ≡ "auth" ∷ "validate" ∷ [] → Endpoint r 200 info_shape
  key_endpoint : r.method ≡ "POST" → r.path ≡ "auth" ∷ "keys" ∷ [] → Endpoint r 201 key_shape
  me_endpoint : r.method ≡ "GET" → r.path ≡ "auth" ∷ "users" ∷ "me" ∷ [] → Endpoint r 200 user_shape
  stats_endpoint : r.method ≡ "GET" → r.path ≡ "stats" ∷ [] → Endpoint r 200 stats_shape
  health_endpoint : r.method ≡ "GET" → r.path ≡ "health" ∷ [] → Endpoint r 200 health_shape

-- What a revocation answers: status 204 alone, or an error.
pub data IsRevocation : Response → Type 0 where
  gone : IsRevocation (write_header 204)
  refused : {status : ℕ} {msg : String} → 400 ≤ status → IsRevocation (write_error status msg)

-- An answer that the API has.
pub data IsAnswer (r : Request) : Response → Type 0 where
  typed :
      {good : ℕ} {s : Shape} {resp : Response}
      → Endpoint r good s
      → IsTyped good s resp
      → IsAnswer r resp
  revocation :
      (key_id : String) {resp : Response}
      → r.method ≡ "DELETE"
      → r.path ≡ "auth" ∷ "keys" ∷ key_id ∷ []
      → IsRevocation resp
      → IsAnswer r resp
  page :
      r.method ≡ "GET"
      → r.path ≡ "metrics" ∷ []
      → IsAnswer r (record { status = 200; content = metrics })
  unknown_path : IsAnswer r not_found
  unknown_method : IsAnswer r not_allowed

module _ (crypto : Crypto) (jwt_secret : String) (format_time : ℕ → String) where
  registered-IsTyped :
      (x : Result RegisterResult × Db)
      → IsTyped 201 registered_shape (registered_answer crypto jwt_secret format_time x).0
  unfolding has_shape
  registered-IsTyped (ok res, db) = fine refl
  registered-IsTyped (err e, db) = failed (omega arith)

  token-IsTyped :
      (x : Result String × Db)
      → IsTyped 200 token_shape (token_answer crypto jwt_secret format_time x).0
  unfolding has_shape
  token-IsTyped (ok token, db) = fine refl
  token-IsTyped (err e, db) = failed (omega arith)

  validated-IsTyped :
      (x : Result UserInfo × Db)
      → IsTyped 200 info_shape (validated_answer crypto jwt_secret format_time x).0
  unfolding has_shape
  validated-IsTyped (ok info, db) = fine refl
  validated-IsTyped (err e, db) = failed (omega arith)

  key-IsTyped :
      (x : Result String × Db)
      → IsTyped 201 key_shape (key_answer crypto jwt_secret format_time x).0
  unfolding has_shape
  key-IsTyped (ok key, db) = fine refl
  key-IsTyped (err e, db) = failed (omega arith)

  me-IsTyped :
      (x : Result User × Db) → IsTyped 200 user_shape (me_answer crypto jwt_secret format_time x).0
  unfolding has_shape
  me-IsTyped (ok user, db) = fine refl
  me-IsTyped (err e, db) = failed (omega arith)

  revoked-IsRevocation :
      (x : Result (Unit {0}) × Db) → IsRevocation (revoked_answer crypto jwt_secret format_time x).0
  revoked-IsRevocation (ok _, db) = gone
  revoked-IsRevocation (err e, db) = refused (omega arith)

  -- A handler that decodes its body first.
  body_lem :
      {A : Type 0} (P : Response → Type 0) (o : Option A) (f : A → Response × Db) (db : Db)
      → P (write_error 400 "invalid body")
      → ((a : A) → P (f a).0)
      → P
          (elim o as (λ _. Response × Db) [
            | none ↦ (write_error 400 "invalid body", db)
            | some a ↦ f a
          ]).0
  body_lem P none f db bad good = bad
  body_lem P (some a) f db bad good = good a

  guarded_lem :
      (P : Response → Type 0) (next : String → Handler Db) (r : Request) (db : Db)
      → ((msg : String) → P (write_error 401 msg))
      → ((user : String) → P (next user r db).0)
      → P (jwt_middleware crypto jwt_secret format_time next r db).0
  unfolding jwt_middleware
  guarded_lem P next r db bad good =
      if_lem (λ (x : Response × Db). P x.0) (has_prefix r.authorization "Bearer ")
        (by_token
          (parse_jwt crypto jwt_secret (r.now / 1000000) (trim_prefix r.authorization "Bearer ")))
        (bad "missing token")
    where
      by_token :
          (x : Result (String × String))
          → P
              (elim x as (λ _. Response × Db) [
                | err _ ↦ (write_error 401 "invalid token", db)
                | ok (user, role) ↦ next user r db
              ]).0
      by_token (err _) = bad "invalid token"
      by_token (ok (user, role)) = good user

  Routed-IsAnswer :
      {r : Request} {st : Stats} {db : Db} {x : Response × (Stats × Db)}
      → Routed crypto jwt_secret format_time r st db x
      → IsAnswer r x.0
  unfolding has_shape register log_in validate create_api_key revoke_api_key me
  Routed-IsAnswer missing = unknown_path
  Routed-IsAnswer other_method = unknown_method
  Routed-IsAnswer {r} {st} {db} (statistics m p) =
      typed (stats_endpoint m p) (stats-IsTyped format_time r (st, db))
  Routed-IsAnswer (measured m p) = page m p
  Routed-IsAnswer (healthy m p) = typed (health_endpoint m p) (fine refl)
  Routed-IsAnswer {r} {st} {db} (registers m p) = typed (register_endpoint m p) (
      body_lem (IsTyped 201 registered_shape) (decode_credentials r.body)
        (λ (email, password).
          registered_answer crypto jwt_secret format_time
            (Service.register crypto email password db))
        db (failed (omega arith))
        λ (email, password). registered-IsTyped (Service.register crypto email password db))
  Routed-IsAnswer {r} {st} {db} (logs_in m p) = typed (login_endpoint m p) (
      body_lem (IsTyped 200 token_shape) (decode_credentials r.body)
        (λ (email, password).
          token_answer crypto jwt_secret format_time
            (login crypto jwt_secret (r.now / 1000000) email password db))
        db (failed (omega arith))
        λ (email, password).
          token-IsTyped (login crypto jwt_secret (r.now / 1000000) email password db))
  Routed-IsAnswer {r} {st} {db} (validates m p) =
      typed (validate_endpoint m p)
        (validated-IsTyped (Service.validate_api_key crypto (shown_key r) db))
  Routed-IsAnswer {r} {st} {db} (creates m p) = typed (key_endpoint m p) (
      guarded_lem (IsTyped 201 key_shape) (create_api_key crypto jwt_secret format_time) r db
        (λ msg. failed (omega arith))
        (λ user.
          body_lem (IsTyped 201 key_shape) (decode_name r.body)
            (λ name.
              key_answer crypto jwt_secret format_time (Service.create_api_key crypto user name db))
            db (failed (omega arith))
            (λ name. key-IsTyped (Service.create_api_key crypto user name db))))
  Routed-IsAnswer {r} {st} {db} (revokes key_id m p) = revocation key_id m p (
      guarded_lem IsRevocation (revoke_api_key crypto jwt_secret format_time key_id) r db
        (λ msg. refused (omega arith))
        (λ user. revoked-IsRevocation (Service.revoke_api_key crypto key_id db)))
  Routed-IsAnswer {r} {st} {db} (profiles m p) = typed (me_endpoint m p) (
      guarded_lem (IsTyped 200 user_shape) (me crypto jwt_secret format_time) r db
        (λ msg. failed (omega arith)) (λ user. me-IsTyped (get_me crypto user db)))

  -- Every answer of the auth service, whatever the request and whatever the database does, is one
  -- that its API has: at one of its endpoints, with its method, the endpoint's status of success
  -- with a document of its shape, or a status of 400 or more with {"error": text}; for a revocation
  -- status 204 with no document, or such an error; the metrics; 404 or 405 without a document.
  pub auth-IsAnswer :
      (r : Request) (s : Stats × Db) → IsAnswer r (router crypto jwt_secret format_time r s).0
  unfolding router middleware
  auth-IsAnswer r (st, db) = Routed-IsAnswer (route-Routed crypto jwt_secret format_time r st db)
