-- ===== src/Auth/Handler/History.antt =====
-- What no sequence of requests to the auth service undoes.
use llm_proxy_study_project.Prelude.{
  ℕ, String, some, true, List, [], ◌∷◌, ◌≡◌, refl, ap, length, ◌<◌, ◌^◌, arith, ◌∙◌,
}
use llm_proxy_study_project.Go.Effect.{Error, Result, err}
use llm_proxy_study_project.Go.Json.{Json}
use llm_proxy_study_project.Go.Http.{Request, Response, write_json}
use llm_proxy_study_project.Stats.{Stats, new_stats, record_status, middleware, stats_handler}
use llm_proxy_study_project.Stats.Counting.{IsTally, serve, serve_counts}
use llm_proxy_study_project.Stats.Reports.{Reports, stats-Reports}
use llm_proxy_study_project.Auth.Store.{ApiKey, Db}
use llm_proxy_study_project.Auth.Service.{Crypto, UserInfo, validate_api_key}
use llm_proxy_study_project.Auth.Service.Later.{IsLater, IsLater-refl, IsLater-trans}
use llm_proxy_study_project.Auth.Service.Validation.{
  key_row, Validated, valid, invalid, validate-Validated,
}
use llm_proxy_study_project.Auth.Handler.{route, router}
use llm_proxy_study_project.Auth.Service.History.{IsLater-IsKept}
use llm_proxy_study_project.Auth.Handler.Keeping.{route-KeepsIn}

module _ (crypto : Crypto) (jwt_secret : String) (format_time : ℕ → String) where
  pub refused_lem :
      (api_key : String) (db : Db) (k : ApiKey) {x : Result UserInfo × Db}
      → key_row crypto api_key db.tables ≡ some k
      → k.revoked ≡ true
      → Validated crypto api_key db x
      → (e : Error) × (x.0 ≡ err e)
  refused_lem api_key db k found revoked (valid stands _) =
      absurd (ground (arith, stands.key_found, stands.live, found, revoked))
  refused_lem api_key db k found revoked (invalid {e} _) = (e, refl)

  serve_from-IsLater :
      (rs : List Request) (done : List Response) (st : Stats) (db : Db)
      → IsLater db.tables (serve (route crypto jwt_secret format_time) rs done (st, db)).1.1.tables
  unfolding serve middleware
  serve_from-IsLater [] done st db = IsLater-refl db.tables
  serve_from-IsLater (r ∷ rs) done st db =
      let (response, (st', db')) = route crypto jwt_secret format_time r (st, db) in
      IsLater-trans
        (route-KeepsIn IsLater IsLater-IsKept crypto jwt_secret format_time r st db).later
        (serve_from-IsLater rs (response ∷ done) (record_status response.status st') db')

  -- Whatever requests the auth service answers, and whatever the database replies: a user that could
  -- be found by any test is still found by it, unchanged; and a key's hash still finds a row with
  -- the id and the user of the old one, which is revoked if that one was.
  pub serve-IsLater :
      (rs : List Request) (st : Stats) (db : Db)
      → IsLater db.tables (serve (route crypto jwt_secret format_time) rs [] (st, db)).1.1.tables
  serve-IsLater rs st db = serve_from-IsLater rs [] st db

  -- A key that is revoked is never valid again: after any requests to the auth service, in any
  -- number, its validation ends in an error, even where the database fails.
  pub revoked_for_good :
      (api_key : String) (k : ApiKey) (rs : List Request) (st : Stats) (db : Db)
      → key_row crypto api_key db.tables ≡ some k
      → k.revoked ≡ true
      → let db' = (serve (route crypto jwt_secret format_time) rs [] (st, db)).1.1 in
        (e : Error) × ((validate_api_key crypto api_key db').0 ≡ err e)
  revoked_for_good api_key k rs st db found revoked =
      let db' = (serve (route crypto jwt_secret format_time) rs [] (st, db)).1.1 in
      let row = (serve-IsLater rs st db).keys (crypto.sha256_hex api_key) k found in
      refused_lem api_key db' row.key row.found (row.stays_revoked revoked)
        (validate-Validated crypto api_key db')

  -- From its start, as long as fewer than 2^63 requests have come, the auth service's total is the
  -- number of its responses, and the count of each status is the number of responses with it.
  pub auth_counts :
      (rs : List Request) (service version : String) (now : ℕ) (db : Db)
      → length rs < 2 ^ 63
      → let (responses, s) =
          serve (route crypto jwt_secret format_time) rs [] (new_stats service version now, db) in
        IsTally responses s.0.counter
  auth_counts rs service version now db room =
      serve_counts (route crypto jwt_secret format_time) rs service version now db
        (λ r (st, db).
          ap (λ (s : Stats). s.counter)
            (route-KeepsIn IsLater IsLater-IsKept crypto jwt_secret format_time r st db).counts)
        room

  statistics_route :
      (r : Request) (s : Stats × Db)
      → r.method ≡ "GET"
      → r.path ≡ "stats" ∷ []
      → (router crypto jwt_secret format_time r s).0 ≡ (stats_handler format_time r s).0
  unfolding router route middleware
  statistics_route r (st, db) get path = rw (router, path, get) refl

  -- What the auth service says of itself: after any requests from its start, fewer than 2^63, GET
  -- /stats is answered with status 200 and a document whose total is the number of the responses
  -- before it, and whose count of each status, zero where there is none, is the number of those with
  -- that status.
  pub auth_stats :
      (rs : List Request) (service version : String) (now : ℕ) (db : Db) (r : Request)
      → length rs < 2 ^ 63
      → r.method ≡ "GET"
      → r.path ≡ "stats" ∷ []
      → let (responses, s) =
          serve (route crypto jwt_secret format_time) rs [] (new_stats service version now, db) in
        (v : Json) × ((router crypto jwt_secret format_time r s).0 ≡ write_json 200 v)
        × Reports responses v
  auth_stats rs service version now db r room get path =
      let (responses, s) =
        serve (route crypto jwt_secret format_time) rs [] (new_stats service version now, db) in
      let (v, shown, reports) =
        stats-Reports format_time r s.0 s.1 responses
          (auth_counts rs service version now db room) in
      (v, statistics_route r s get path ∙ shown, reports)
