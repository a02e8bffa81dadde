-- ===== src/Auth/Handler/Session.antt =====
-- Logging in, and asking with the token that the answer holds.
use llm_proxy_study_project.Prelude.{
  ℕ, ◌+◌, ◌*◌, ◌/◌, ◌<◌, String, ◌<>◌, some, [], ◌∷◌, ◌≡◌, refl, sym, ap, ◌∙◌, has_prefix-append,
  trim_prefix-append, arith,
}
use llm_proxy_study_project.Go.Effect.{Result, ok, err}
use llm_proxy_study_project.Go.Json.{Json, str, obj, field, end}
use llm_proxy_study_project.Go.Http.{Request, Response, write_json}
use llm_proxy_study_project.Go.Postgres.{Answers}
use llm_proxy_study_project.Stats.{Stats, middleware}
use llm_proxy_study_project.Auth.Store.{User, Db, find, has_email}
use llm_proxy_study_project.Auth.Store.Laws.{get_user_by_id_found}
use llm_proxy_study_project.Auth.Service.{Crypto, login, get_me}
use llm_proxy_study_project.Auth.Service.Validation.{user_row}
use llm_proxy_study_project.Auth.Service.Tokens.{IsReadable, login-IsSigned, parse_signed}
use llm_proxy_study_project.Auth.Handler.{
  decode_credentials, user_json, token_answer, me_answer, log_in, me, route, router,
}
use llm_proxy_study_project.Auth.Handler.Guards.{IsLoggedIn, logged_in, answered}

abbrev pub token_json : String → Json
token_json token = obj (field "jwt_token" (str token) end)

module _ (crypto : Crypto) (jwt_secret : String) (format_time : ℕ → String) where
  token_back :
      (x : Result String × Db) (st st' : Stats) (db' : Db) (token : String)
      → answered crypto jwt_secret format_time st (token_answer crypto jwt_secret format_time x)
        ≡ (write_json 200 (token_json token), (st', db'))
      → x ≡ (ok token, db')
  token_back (ok t, d) st st' db' token h = cc
  token_back (err e, d) st st' db' token h = absurd (ground (arith, h))

  log_in_lem :
      (r : Request) (db : Db) (email password : String)
      → decode_credentials r.body ≡ some (email, password)
      → log_in crypto jwt_secret format_time r db
        ≡ token_answer crypto jwt_secret format_time
            (login crypto jwt_secret (r.now / 1000000) email password db)
  unfolding log_in
  log_in_lem r db email password body = rw (log_in, body) refl

  log_in_route :
      (r : Request) (st : Stats) (db : Db) (email password : String)
      → r.method ≡ "POST"
      → r.path ≡ "auth" ∷ "login" ∷ []
      → decode_credentials r.body ≡ some (email, password)
      → router crypto jwt_secret format_time r (st, db)
        ≡ answered crypto jwt_secret format_time st (
            token_answer crypto jwt_secret format_time
              (login crypto jwt_secret (r.now / 1000000) email password db))
  unfolding router route middleware
  log_in_route r st db email password post path body =
      rw (router, path, post)
        (ap (answered crypto jwt_secret format_time st) (log_in_lem r db email password body))

  me_route :
      (r : Request) (st : Stats) (db : Db) (user role : String)
      → r.method ≡ "GET"
      → r.path ≡ "auth" ∷ "users" ∷ "me" ∷ []
      → IsLoggedIn crypto jwt_secret format_time r user role
      → router crypto jwt_secret format_time r (st, db)
        ≡ answered crypto jwt_secret format_time st
            (me_answer crypto jwt_secret format_time (get_me crypto user db))
  unfolding router route middleware me
  me_route r st db user role get path known =
      rw
        (
          router,
          path,
          get,
          logged_in crypto jwt_secret format_time (me crypto jwt_secret format_time) r db user role
              known,
        )
        refl

  -- A user logs in and asks who they are: if POST /auth/login has answered with a token, then for 24
  -- hours GET /auth/users/me with that token, from a server that answers, has status 200 and shows
  -- the user that the email stands for, if that user's id is found.
  pub login_then_me :
      (r q : Request) (st st' : Stats) (db db' : Db) (email password token : String) (user : User)
      → IsReadable crypto
      → r.method ≡ "POST"
      → r.path ≡ "auth" ∷ "login" ∷ []
      → decode_credentials r.body ≡ some (email, password)
      → router crypto jwt_secret format_time r (st, db)
        ≡ (write_json 200 (token_json token), (st', db'))
      → find (has_email email) db.tables.users ≡ some user
      → user_row user.id db.tables ≡ some user
      → q.method ≡ "GET"
      → q.path ≡ "auth" ∷ "users" ∷ "me" ∷ []
      → q.authorization ≡ "Bearer " <> token
      → q.now / 1000000 < r.now / 1000000 + 24 * 3600
      → Answers db'
      → (router crypto jwt_secret format_time q (st', db')).0
        ≡ write_json 200 (user_json crypto jwt_secret format_time user)
  unfolding get_me
  login_then_me r q st st' db db' email password token user law post path body done found own get
        path' bearer soon fine =
      let logged : login crypto jwt_secret (r.now / 1000000) email password db ≡ (ok token, db') =
        token_back _ st st' db' token
          (sym (log_in_route r st db email password post path body) ∙ done) in
      let (by, same) =
        login-IsSigned crypto jwt_secret (r.now / 1000000) email password db db' token logged in
      let who : by.user ≡ user = ground (arith, by.found, found) in
      let known : IsLoggedIn crypto jwt_secret format_time q user.id user.role = record {
        bearer = rw (bearer, has_prefix-append "Bearer " token) refl;
        parsed =
            rw (bearer, trim_prefix-append "Bearer " token)
              (parse_signed crypto jwt_secret (r.now / 1000000) (q.now / 1000000) user token law
                (rw (sym who) by.signed) soon);
      } in
      ap (λ (x : Response × (Stats × Db)). x.0)
        (me_route q st' db' user.id user.role get path' known)
      ∙ ap (λ (x : Result User × Db). (me_answer crypto jwt_secret format_time x).0)
          (get_user_by_id_found user.id db' fine (ap (user_row user.id) same ∙ own))
