-- ===== src/Auth/Handler/Guards.antt =====
-- Who gets through the auth endpoints.
use llm_proxy_study_project.Prelude.{
  ℕ, ◌/◌, String, ◌==◌, some, true, false, [], ◌∷◌, ◌≡◌, refl, ap, ◌∙◌, subst, ◌⊎◌, inl, inr, arith,
  Bool-cases, has_prefix, trim_prefix,
}
use llm_proxy_study_project.Go.Effect.{Result, ok, err, Result-cases}
use llm_proxy_study_project.Go.Http.{Request, Response, Handler, write_json, write_error}
use llm_proxy_study_project.Go.Postgres.{Answers}
use llm_proxy_study_project.Stats.{Stats, record_status, middleware}
use llm_proxy_study_project.Auth.Store.{ApiKey, Db}
use llm_proxy_study_project.Auth.Service.{Crypto, UserInfo, validate_api_key, parse_jwt}
use llm_proxy_study_project.Auth.Service
use llm_proxy_study_project.Auth.Service.Validation.{
  key_row, Stands, Validated, valid, invalid, validate-Validated,
}
use llm_proxy_study_project.Auth.Service.Revocation.{revoke_then_validate}
use llm_proxy_study_project.Auth.Handler.{
  shown_key, info_json, validated_answer, revoked_answer, validate, revoke_api_key, jwt_middleware,
  create_api_key, me, route, router,
}

-- The requests of the routes behind the token.
pub data IsGuarded (r : Request) : Type 0 where
  new_key : r.method ≡ "POST" → r.path ≡ "auth" ∷ "keys" ∷ [] → IsGuarded r
  old_key :
      (id : String)
      → (id == "") ≡ false
      → r.method ≡ "DELETE"
      → r.path ≡ "auth" ∷ "keys" ∷ id ∷ []
      → IsGuarded r
  own : r.method ≡ "GET" → r.path ≡ "auth" ∷ "users" ∷ "me" ∷ [] → IsGuarded r

module _ (crypto : Crypto) (jwt_secret : String) (format_time : ℕ → String) where
  -- The request carries a bearer token that ParseJWT accepts.
  pub record IsLoggedIn (r : Request) (user role : String) : Type 0 where
    pub bearer : has_prefix r.authorization "Bearer " ≡ true
    pub parsed :
        parse_jwt crypto jwt_secret (r.now / 1000000) (trim_prefix r.authorization "Bearer ")
        ≡ ok (user, role)

  -- A refusal of the middleware.
  abbrev Refused : Response × Db → Db → Type 0
  Refused answer db = (msg : String) × (answer ≡ (write_error 401 msg, db))

  jwt_lem :
      (next : String → Handler Db) (r : Request) (db : Db)
      → ((user : String) × (role : String) × IsLoggedIn r user role)
        ⊎ Refused (jwt_middleware crypto jwt_secret format_time next r db) db
  unfolding jwt_middleware
  jwt_lem next r db = elim (Bool-cases (has_prefix r.authorization "Bearer ")) [
    | inr plain ↦ inr ("missing token", rw (jwt_middleware, plain) refl)
    | inl bearer ↦
        elim (Result-cases
          (parse_jwt crypto jwt_secret (r.now / 1000000) (trim_prefix r.authorization "Bearer "))) [
            | inl ((user, role), parsed) ↦
                inl (user, role, record { bearer = bearer; parsed = parsed })
            | inr (e, bad) ↦ inr ("invalid token", rw (jwt_middleware, bearer, bad) refl)
          ]
  ]

  pub logged_in :
      (next : String → Handler Db) (r : Request) (db : Db) (user role : String)
      → IsLoggedIn r user role
      → jwt_middleware crypto jwt_secret format_time next r db ≡ next user r db
  unfolding jwt_middleware
  logged_in next r db user role h = rw (jwt_middleware, h.bearer, h.parsed) refl

  -- What the answer of a route becomes.
  abbrev pub answered : Stats → Response × Db → Response × (Stats × Db)
  answered st answer = (answer.0, (record_status (answer.0).status st, answer.1))

  guarded_route :
      (r : Request) (st : Stats) (db : Db)
      → IsGuarded r
      → (next : String → Handler Db) × (router crypto jwt_secret format_time r (st, db)
          ≡ answered st (jwt_middleware crypto jwt_secret format_time next r db))
  unfolding router route middleware
  guarded_route r st db (new_key post path) =
      (create_api_key crypto jwt_secret format_time, rw (router, path, post) refl)
  guarded_route r st db (old_key id named delete path) =
      (revoke_api_key crypto jwt_secret format_time id, rw (router, path, named, delete) refl)
  guarded_route r st db (own get path) =
      (me crypto jwt_secret format_time, rw (router, path, get) refl)

  -- A request to one of the three routes behind the token either carries a bearer token that
  -- ParseJWT accepts, or is answered with status 401 and leaves the database alone.
  pub router_guarded :
      (r : Request) (st : Stats) (db : Db)
      → IsGuarded r
      → ((user : String) × (role : String) × IsLoggedIn r user role)
        ⊎ (((router crypto jwt_secret format_time r (st, db)).0.status ≡ 401)
            × ((router crypto jwt_secret format_time r (st, db)).1.1 ≡ db))
  router_guarded r st db guarded =
      let (next, step) = guarded_route r st db guarded in
      elim (jwt_lem next r db) [
        | inl known ↦ inl known
        | inr (msg, refusal) ↦
            let all = step ∙ ap (answered st) refusal in
            inr (
              ap (λ (x : Response × (Stats × Db)). x.0.status) all,
              ap (λ (x : Response × (Stats × Db)). x.1.1) all,
            )
      ]

  -- Whoever is logged in, whichever user that is, revokes the key whose id is in the path: from a
  -- server that answers, the response has status 204, and the key is refused from then on.
  pub router_revokes :
      (api_key user role : String) (k : ApiKey) (r : Request) (st : Stats) (db : Db)
      → IsLoggedIn r user role
      → (k.id == "") ≡ false
      → r.method ≡ "DELETE"
      → r.path ≡ "auth" ∷ "keys" ∷ k.id ∷ []
      → key_row crypto api_key db.tables ≡ some k
      → Answers db
      → Answers (router crypto jwt_secret format_time r (st, db)).1.1
      → let (response, (_, db')) = router crypto jwt_secret format_time r (st, db) in
        (response.status ≡ 204) × ((validate_api_key crypto api_key db').0 ≡ err "api key revoked")
  unfolding router route middleware revoke_api_key
  router_revokes api_key user role k r st db known named delete path found fine next =
      let handler = revoke_api_key crypto jwt_secret format_time k.id in
      let step : router crypto jwt_secret format_time r (st, db)
          ≡ answered st (
              revoked_answer crypto jwt_secret format_time
                (Service.revoke_api_key crypto k.id db)) =
        rw (router, path, named, delete, logged_in handler r db user role known) refl in
      let db1 = (Service.revoke_api_key crypto k.id db).1 in
      let kept : (router crypto jwt_secret format_time r (st, db)).1.1 ≡ db1 =
        ap (λ (x : Response × (Stats × Db)). x.1.1) step
        ∙ answer_state (Service.revoke_api_key crypto k.id db) in
      let (done, refused) =
        revoke_then_validate crypto api_key db k fine (subst (λ d. Answers d) kept next) found in
      (
        ap (λ (x : Response × (Stats × Db)). x.0.status) step
            ∙ answer_status (Service.revoke_api_key crypto k.id db) done,
        ap (λ d. (validate_api_key crypto api_key d).0) kept ∙ refused,
      )
    where
      answer_state :
          (x : Result (Unit {0}) × Db) → (revoked_answer crypto jwt_secret format_time x).1 ≡ x.1
      answer_state (ok _, d) = refl
      answer_state (err e, d) = refl

      answer_status :
          (x : Result (Unit {0}) × Db)
          → x.0 ≡ ok tt
          → (revoked_answer crypto jwt_secret format_time x).0.status ≡ 204
      answer_status (ok _, d) h = refl
      answer_status (err e, d) h = cc

  validated_answer-Stands :
      (api_key : String) (db : Db) {x : Result UserInfo × Db}
      → Validated crypto api_key db x
      → (validated_answer crypto jwt_secret format_time x).0.status ≡ 200
      → (info : UserInfo) × Stands crypto api_key db.tables info
        × ((validated_answer crypto jwt_secret format_time x).0 ≡ write_json 200 (info_json info))
  validated_answer-Stands api_key db (valid {info} stands same) st = (info, stands, refl)
  validated_answer-Stands api_key db (invalid same) st = absurd (ground arith)

  -- GET /auth/validate answers with status 200 only for a key whose hash is that of a row that is
  -- not revoked, and shows the id and the role of that row's user.
  pub validate-Stands :
      (r : Request) (db : Db)
      → (validate crypto jwt_secret format_time r db).0.status ≡ 200
      → (info : UserInfo) × Stands crypto (shown_key r) db.tables info
        × ((validate crypto jwt_secret format_time r db).0 ≡ write_json 200 (info_json info))
  unfolding validate
  validate-Stands r db st =
      validated_answer-Stands (shown_key r) db (validate-Validated crypto (shown_key r) db) st
