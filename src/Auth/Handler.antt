-- ===== src/Auth/Handler.antt =====
-- internal/auth/handler/handler.go. `format_time` is the JSON text of a time; `jwt_secret` is the
-- service's.
pub mod Guards
pub mod Keeping
pub mod History
pub mod Session
pub mod Routes
pub mod Shapes
pub mod Reading
use llm_proxy_study_project.Prelude.{
  ℕ, ◌/◌, String, ◌==◌, Option, none, some, Bool, ◌||◌, List, [], ◌∷◌, if◌then◌else◌, has_prefix,
  trim_prefix,
}
use llm_proxy_study_project.Go.Effect.{Result, ok, err}
use llm_proxy_study_project.Go.Json.{
  ◌>>=◌, Json, str, obj, field, end, Payload, fields_of, text_field,
}
use llm_proxy_study_project.Go.Http.{
  Request, Response, Handler, metrics, write_json, write_error, write_header, health, not_found,
  not_allowed,
}
use llm_proxy_study_project.Stats.Routes.{at, known, shared}
use llm_proxy_study_project.Stats.{Stats, middleware, stats_handler}
use llm_proxy_study_project.Auth.Store.{Db, User}
use llm_proxy_study_project.Auth.Service.{
  Crypto, RegisterResult, UserInfo, login, validate_api_key, get_me, parse_jwt,
}
use llm_proxy_study_project.Auth.Service

-- The bodies of register and login: an email and a password.
unfoldable pub decode_credentials : Payload → Option (String × String)
unfolding fields_of text_field
decode_credentials body = do
  doc ← body
  fs ← fields_of doc
  email ← text_field "email" fs
  password ← text_field "password" fs
  some (email, password)

unfoldable pub decode_name : Payload → Option String
unfolding fields_of text_field
decode_name body = do doc ← body; fs ← fields_of doc; text_field "name" fs

-- The key that a request shows: the parameter api_key, or the header.
unfoldable pub shown_key : Request → String
unfolding trim_prefix
shown_key r =
    if r.query "api_key" == "" then trim_prefix r.authorization "Bearer " else r.query "api_key"

abbrev pub info_json : UserInfo → Json
info_json info = obj (field "user_id" (str info.user_id) (field "role" (str info.role) end))

module _ (crypto : Crypto) (jwt_secret : String) (format_time : ℕ → String) where
  -- store.User has no tags.
  abbrev pub user_json : User → Json
  user_json u = obj (
      field "ID" (str u.id) (
        field "Email" (str u.email) (
          field "PasswordHash" (str u.password_hash)
            (field "Role" (str u.role) (field "CreatedAt" (str (format_time u.created_at)) end)))))

  -- time.Now() in seconds
  abbrev pub seconds : Request → ℕ
  seconds r = r.now / 1000000

  abbrev pub registered_answer : Result RegisterResult × Db → Response × Db
  registered_answer (err e, db) = (write_error 500 e, db)
  registered_answer (ok res, db) = (
    write_json 201
        (obj (field "api_key" (str res.api_key) (field "user" (user_json res.user) end))),
    db,
  )

  unfoldable pub register : Handler Db
  unfolding decode_credentials
  register r db = elim (decode_credentials r.body) [
    | none ↦ (write_error 400 "invalid body", db)
    | some (email, password) ↦ registered_answer (Service.register crypto email password db)
  ]

  abbrev pub token_answer : Result String × Db → Response × Db
  token_answer (err e, db) = (write_error 401 e, db)
  token_answer (ok token, db) = (write_json 200 (obj (field "jwt_token" (str token) end)), db)

  unfoldable pub log_in : Handler Db
  unfolding decode_credentials
  log_in r db = elim (decode_credentials r.body) [
    | none ↦ (write_error 400 "invalid body", db)
    | some (email, password) ↦ token_answer (login crypto jwt_secret (seconds r) email password db)
  ]

  abbrev pub validated_answer : Result UserInfo × Db → Response × Db
  validated_answer (err e, db) = (write_error 401 e, db)
  validated_answer (ok info, db) = (write_json 200 (info_json info), db)

  unfoldable pub validate : Handler Db
  unfolding shown_key
  validate r db = validated_answer (validate_api_key crypto (shown_key r) db)

  abbrev pub key_answer : Result String × Db → Response × Db
  key_answer (err e, db) = (write_error 500 e, db)
  key_answer (ok key, db) = (write_json 201 (obj (field "api_key" (str key) end)), db)

  -- The first argument of the handlers behind the middleware is the user of the token.
  unfoldable pub create_api_key : String → Handler Db
  unfolding decode_name
  create_api_key user r db = elim (decode_name r.body) [
    | none ↦ (write_error 400 "invalid body", db)
    | some name ↦ key_answer (Service.create_api_key crypto user name db)
  ]

  abbrev pub revoked_answer : Result (Unit {0}) × Db → Response × Db
  revoked_answer (err e, db) = (write_error 500 e, db)
  revoked_answer (ok _, db) = (write_header 204, db)

  unfoldable pub revoke_api_key : String → String → Handler Db
  revoke_api_key key_id user r db = revoked_answer (Service.revoke_api_key crypto key_id db)

  abbrev pub me_answer : Result User × Db → Response × Db
  me_answer (err e, db) = (write_error 500 e, db)
  me_answer (ok user, db) = (write_json 200 (user_json user), db)

  unfoldable pub me : String → Handler Db
  me user r db = me_answer (get_me crypto user db)

  unfoldable pub jwt_middleware : (String → Handler Db) → Handler Db
  unfolding has_prefix trim_prefix
  jwt_middleware next r db =
      if has_prefix r.authorization "Bearer "
      then elim (parse_jwt crypto jwt_secret (seconds r) (trim_prefix r.authorization "Bearer ")) [
        | err _ ↦ (write_error 401 "invalid token", db)
        | ok (user, role) ↦ next user r db
      ]
      else (write_error 401 "missing token", db)

  abbrev pub open_route : String → Handler (Stats × Db)
  open_route name r s =
      if name == "register"
      then at "POST" register r s
      else if name == "login"
      then at "POST" log_in r s
      else if name == "validate"
      then at "GET" validate r s
      else if name == "keys"
      then at "POST" (jwt_middleware create_api_key) r s
      else (not_found, s)

  abbrev pub inner_route : String → String → Handler (Stats × Db)
  inner_route name last r s =
      if name == "keys"
      then if last == ""
        then (not_found, s)
        else at "DELETE" (jwt_middleware (revoke_api_key last)) r s
      else if name == "users"
      then if last == "me" then at "GET" (jwt_middleware me) r s else (not_found, s)
      else (not_found, s)

  unfoldable pub route : Handler (Stats × Db)
  unfolding register log_in validate create_api_key revoke_api_key me jwt_middleware stats_handler
  route r s = elim r.path [
    | name ∷ [] ↦ if known name then shared format_time name r s else (not_found, s)
    | top ∷ name ∷ [] ↦ if top == "auth" then open_route name r s else (not_found, s)
    | top ∷ name ∷ last ∷ [] ↦ if top == "auth" then inner_route name last r s else (not_found, s)
    | _ ↦ (not_found, s)
  ]

  unfoldable pub router : Handler (Stats × Db)
  unfolding route middleware
  router = middleware route
