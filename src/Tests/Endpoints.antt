-- ===== src/Tests/Endpoints.antt =====
-- Runs of the endpoints of the auth and billing services.
use llm_proxy_study_project.Prelude.{
  ℕ, String, none, some, List, [], ◌∷◌, ◌≡◌, refl, arith, ◌⊎◌, has_prefix, trim_prefix,
}
use llm_proxy_study_project.Prelude.Int.{negsuc, ◌+ℤ◌}
use llm_proxy_study_project.Go.Effect.{err}
use llm_proxy_study_project.Go.Json.{
  Payload, str, num, obj, field, end, fields_of, text_field, int_field,
}
use llm_proxy_study_project.Go.Http.{Request, write_json}
use llm_proxy_study_project.Go.Postgres.{Answers}
use llm_proxy_study_project.Stats.{Stats, new_stats, middleware}
use llm_proxy_study_project.Auth.Store
use llm_proxy_study_project.Auth.Store.{find}
use llm_proxy_study_project.Auth.Service
use llm_proxy_study_project.Auth.Service.{UserInfo, validate_api_key, parse_jwt}
use llm_proxy_study_project.Auth.Handler
use llm_proxy_study_project.Auth.Handler.{shown_key, info_json}
use llm_proxy_study_project.Auth.Handler.Guards.{own, IsLoggedIn, router_guarded, router_revokes}
use llm_proxy_study_project.Billing.Store.{has_id, amount_of}
use llm_proxy_study_project.Billing.Store.Laws.{balance_of}
use llm_proxy_study_project.Billing.Handler as Billing
use llm_proxy_study_project.Billing.Handler.{balance_json, decode_deposit}
use llm_proxy_study_project.Billing.Handler.Answers.{IsTakingDeposit, deposit_any_sign}
use llm_proxy_study_project.Tests.Auth.{crypto, db, first_key, first_found}
use llm_proxy_study_project.Tests.Billing.{db_up}

abbrev text_of : ℕ → String
text_of n = "2026-01-01T00:00:00Z"

abbrev request : String → List String → String → Payload → Request
request method path authorization body = record {
  method = method;
  path = path;
  query = λ _. "";
  authorization = authorization;
  body = body;
  now = 0;
}

abbrev stats : Stats
stats = new_stats "service" "0.1.0" 0

abbrev own_request : Request
own_request = request "GET" ("auth" ∷ "users" ∷ "me" ∷ []) "Basic x" none

router_guarded_example :
    ((user : String) × (role : String) × IsLoggedIn crypto "s" text_of own_request user role)
    ⊎ (((Handler.router crypto "s" text_of own_request (stats, db)).0.status ≡ 401)
        × ((Handler.router crypto "s" text_of own_request (stats, db)).1.1 ≡ db))
router_guarded_example = router_guarded crypto "s" text_of own_request stats db (own refl refl)

abbrev revocation : Request
revocation = request "DELETE" ("auth" ∷ "keys" ∷ "k1" ∷ []) "Bearer token" none

logged_in : IsLoggedIn crypto "s" text_of revocation "u9" "user"
unfolding has_prefix trim_prefix parse_jwt
logged_in = record { bearer = refl; parsed = refl }

still_up : Answers (Handler.router crypto "s" text_of revocation (stats, db)).1.1
unfolding Handler.router Handler.route Handler.jwt_middleware Handler.revoke_api_key
    Service.revoke_api_key Store.revoke_api_key has_prefix trim_prefix parse_jwt middleware
still_up = refl

router_revokes_example :
    let (response, (_, db')) = Handler.router crypto "s" text_of revocation (stats, db) in
    (response.status ≡ 204) × ((validate_api_key crypto "key" db').0 ≡ err "api key revoked")
router_revokes_example =
    router_revokes crypto "s" text_of "key" "u9" "user" first_key revocation stats db logged_in refl
      refl refl first_found refl still_up

abbrev validation : Request
validation = request "GET" ("auth" ∷ "validate" ∷ []) "Bearer key" none

abbrev withdrawal : Request
withdrawal =
    request "POST" ("billing" ∷ "deposit" ∷ []) ""
      (some (obj (field "user_id" (str "u1") (field "amount" (num (negsuc 149)) end))))

withdrawal_body : decode_deposit withdrawal.body ≡ some ("u1", negsuc 149)
unfolding decode_deposit fields_of text_field int_field
withdrawal_body = refl

withdrawn : IsTakingDeposit "u1" (negsuc 149) db_up
unfolding amount_of has_id ◌+ℤ◌
withdrawn = record { answers = λ n. refl; fits = ground arith; fresh = refl }

deposit_any_sign_example :
    let (response, db') = Billing.deposit withdrawal db_up in
    (response ≡ write_json 200 (balance_json "u1" (balance_of "u1" db')))
    × (balance_of "u1" db' ≡ balance_of "u1" db_up +ℤ negsuc 149)
deposit_any_sign_example =
    deposit_any_sign "u1" (negsuc 149) withdrawal db_up withdrawal_body withdrawn
