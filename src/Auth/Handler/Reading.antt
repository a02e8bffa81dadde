-- ===== src/Auth/Handler/Reading.antt =====
-- The requests to the auth service that change no table.
use llm_proxy_study_project.Prelude.{
  ℕ, ◌/◌, String, ◌≡◌, refl, not_both, if_lem, has_prefix, trim_prefix,
}
use llm_proxy_study_project.Go.Effect.{Result, ok, err}
use llm_proxy_study_project.Go.Http.{Request, Response, Handler, write_error}
use llm_proxy_study_project.Stats.{Stats, stats_handler, middleware}
use llm_proxy_study_project.Auth.Store.{User, Tables, Db, find, has_user_id}
use llm_proxy_study_project.Auth.Store.Laws.{Looked, hit, miss, get_user_by_id-Looked}
use llm_proxy_study_project.Auth.Service.{Crypto, UserInfo, parse_jwt, get_me}
use llm_proxy_study_project.Auth.Service.Validation.{Validated, valid, invalid, validate-Validated}
use llm_proxy_study_project.Auth.Handler.{
  shown_key, validated_answer, me_answer, validate, me, jwt_middleware, router,
}
use llm_proxy_study_project.Auth.Handler.Routes.{
  Routed, missing, other_method, statistics, measured, healthy, registers, logs_in, validates,
  creates, revokes, profiles, route-Routed,
}

-- The tables are left as they are.
record IsSame (db : Db) (x : Response × Db) : Type 0 where
  same : x.1.tables ≡ db.tables

module _ (crypto : Crypto) (jwt_secret : String) (format_time : ℕ → String) where
  validated_answer-IsSame :
      (api_key : String) (db : Db) {x : Result UserInfo × Db}
      → Validated crypto api_key db x
      → IsSame db (validated_answer crypto jwt_secret format_time x)
  validated_answer-IsSame api_key db (valid _ same) = record { same = same }
  validated_answer-IsSame api_key db (invalid same) = record { same = same }

  validate-IsSame :
      (r : Request) (db : Db) → IsSame db (validate crypto jwt_secret format_time r db)
  unfolding validate
  validate-IsSame r db =
      validated_answer-IsSame (shown_key r) db (validate-Validated crypto (shown_key r) db)

  me_answer-IsSame :
      (user : String) (db : Db) {x : Result User × Db}
      → Looked (λ (t : Tables). find (has_user_id user) t.users) db x
      → IsSame db (me_answer crypto jwt_secret format_time x)
  me_answer-IsSame user db (hit _ same) = record { same = same }
  me_answer-IsSame user db (miss same) = record { same = same }

  me-IsSame :
      (user : String) (r : Request) (db : Db)
      → IsSame db (me crypto jwt_secret format_time user r db)
  unfolding me get_me
  me-IsSame user r db = me_answer-IsSame user db (get_user_by_id-Looked user db)

  guarded-IsSame :
      (next : String → Handler Db) (r : Request) (db : Db)
      → ((user : String) → IsSame db (next user r db))
      → IsSame db (jwt_middleware crypto jwt_secret format_time next r db)
  unfolding jwt_middleware
  guarded-IsSame next r db h =
      if_lem (IsSame db) (has_prefix r.authorization "Bearer ")
        (by_token
          (parse_jwt crypto jwt_secret (r.now / 1000000) (trim_prefix r.authorization "Bearer ")))
        (record { same = refl })
    where
      by_token :
          (x : Result (String × String))
          → IsSame db (elim x [
            | err _ ↦ (write_error 401 "invalid token", db)
            | ok (user, role) ↦ next user r db
          ])
      by_token (err _) = record { same = refl }
      by_token (ok (user, role)) = h user

  Routed_get :
      {r : Request} {st : Stats} {db : Db} {x : Response × (Stats × Db)}
      → Routed crypto jwt_secret format_time r st db x
      → r.method ≡ "GET"
      → x.1.1.tables ≡ db.tables
  unfolding stats_handler
  Routed_get missing get = refl
  Routed_get other_method get = refl
  Routed_get (statistics _ _) get = refl
  Routed_get (measured _ _) get = refl
  Routed_get (healthy _ _) get = refl
  Routed_get (registers post _) get = not_both _ "POST" "GET" refl post get
  Routed_get (logs_in post _) get = not_both _ "POST" "GET" refl post get
  Routed_get {r} {st} {db} (validates _ _) get = (validate-IsSame r db).same
  Routed_get (creates post _) get = not_both _ "POST" "GET" refl post get
  Routed_get (revokes _ delete _) get = not_both _ "DELETE" "GET" refl delete get
  Routed_get {r} {st} {db} (profiles _ _) get =
      (guarded-IsSame (me crypto jwt_secret format_time) r db (λ user. me-IsSame user r db)).same

  -- A GET request to the auth service changes no table.
  pub router_get :
      (r : Request) (s : Stats × Db)
      → r.method ≡ "GET"
      → (router crypto jwt_secret format_time r s).1.1.tables ≡ s.1.tables
  unfolding router middleware
  router_get r (st, db) get = Routed_get (route-Routed crypto jwt_secret format_time r st db) get
