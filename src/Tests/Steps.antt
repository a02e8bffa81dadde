-- ===== src/Tests/Steps.antt =====
-- Steps of the deployed services.
use llm_proxy_study_project.Prelude.{Option, none, some, true, [], ◌∷◌, ◌≡◌, refl, trim_prefix}
use llm_proxy_study_project.Prelude.Int.{pos}
use llm_proxy_study_project.Go.Url
use llm_proxy_study_project.Go.Json.{Payload, num, str, obj, field, end}
use llm_proxy_study_project.Go.Http.{Request, Response, not_found}
use llm_proxy_study_project.Stats.{Stats, new_stats}
use llm_proxy_study_project.Auth.Store.{ApiKey, Db}
use llm_proxy_study_project.Auth.Store as AuthStore
use llm_proxy_study_project.Auth.Handler
use llm_proxy_study_project.Billing.Consumer
use llm_proxy_study_project.LlmProxy.Handler as Proxy
use llm_proxy_study_project.Auth.Service.{validate_api_key}
use llm_proxy_study_project.Billing.Store as BillingStore
use llm_proxy_study_project.Billing.Handler as Billing
use llm_proxy_study_project.Billing.Service as Ledger
use llm_proxy_study_project.LlmProxy.Provider.{mock_provider, mock_complete, last_message}
use llm_proxy_study_project.LlmProxy.Service.{
  complete, serve_request, cache_key, encode_request, encode_usage,
}
use llm_proxy_study_project.Client.{
  http_auth_client, http_billing_client, decode_info, decode_balance,
}
use llm_proxy_study_project.System.{World, assembled, auth_router, billing_router}
use llm_proxy_study_project.System.Steps.{
  Reach, here, after, auth_requested, billing_requested, delivered,
}
use llm_proxy_study_project.System.History.{IsAfter, Reach-IsAfter}
use llm_proxy_study_project.System.Uncharged.{IsUntouched, router-IsUntouched}
use llm_proxy_study_project.LlmProxy.Handler.Shapes as ProxyShapes
use llm_proxy_study_project.System.Revoked.{IsDenied, revoked-IsDenied}
use llm_proxy_study_project.Tests.Auth.{db, ann, first_key}
use llm_proxy_study_project.Tests.Floats.{fractions}
use llm_proxy_study_project.Tests.Billing.{prices}
use llm_proxy_study_project.Tests.Proxy.{hello, digest}
use llm_proxy_study_project.Tests.Charged.{parse_time}
use llm_proxy_study_project.Tests.Completions.{hello_body}
use llm_proxy_study_project.Tests.System.{
  Kept, setting, redis, rabbit, provider, world, deployed, key_IsPlain,
}

abbrev completion : Request
completion = record {
  method = "POST";
  path = "completions" ∷ [];
  query = λ name. "";
  authorization = "Bearer key";
  body = hello_body;
  now = 0;
}

-- Someone asks whether the key is valid.
abbrev validation : Request
validation = record {
  method = "GET";
  path = "auth" ∷ "validate" ∷ [];
  query = λ name. "key";
  authorization = "";
  body = none;
  now = 0;
}

abbrev revoked_key : ApiKey
revoked_key = record first_key { revoked = true }

abbrev revoked_db : Db
revoked_db = record db { tables = record { users = ann ∷ []; api_keys = revoked_key ∷ [] } }

abbrev revoked_world : World Kept
revoked_world = record world { auth = (new_stats "auth-service" "1.0.0" 0, revoked_db) }

abbrev asked : World Kept
asked = record revoked_world { auth = (auth_router setting validation revoked_world.auth).1 }

steps : Reach setting parse_time fractions prices revoked_world asked
steps = after (auth_requested validation) here

row : AuthStore.find (AuthStore.has_hash "sha256:key") revoked_db.tables.api_keys ≡ some revoked_key
unfolding AuthStore.find
row = refl

decoded : Proxy.decode_body hello_body ≡ some hello
unfolding Proxy.decode_body
decoded = refl

revoked-IsDenied_example :
    IsDenied setting provider redis rabbit
      (pos 300)
      digest
      (λ n. "")
      completion
      (new_stats "llm-proxy" "1.0.0" 0)
      asked
unfolding trim_prefix
revoked-IsDenied_example =
    revoked-IsDenied setting provider redis rabbit (pos 300) digest parse_time fractions prices
      (λ n. "") completion (new_stats "llm-proxy" "1.0.0" 0) revoked_world asked revoked_key hello
      refl refl refl decoded key_IsPlain row refl steps

abbrev deposit : Request
deposit = record {
  method = "POST";
  path = "billing" ∷ "deposit" ∷ [];
  query = λ name. "";
  authorization = "";
  body = some (obj (field "amount" (num (pos 5)) (field "user_id" (str "u1") end)));
  now = 0;
}

-- A deposit, a delivery that charges for a usage, and a request to the auth service.
abbrev deposited : World Kept
deposited = record world { billing = (billing_router setting deposit world.billing).1 }

abbrev usage : Payload
usage = some (encode_usage "u1" "gpt-4" (pos 1500) (pos 500) "2026-01-01T00:00:00Z")

abbrev charged : World Kept
charged = record deposited {
  billing = (
    deposited.billing.0,
    (Consumer.handle parse_time (Consumer.billing_service fractions prices) usage
        deposited.billing.1).1,
  );
}

abbrev changed : World Kept
changed = record charged { auth = (auth_router setting validation charged.auth).1 }

Reach-IsAfter_example : IsAfter world changed
Reach-IsAfter_example = Reach-IsAfter setting parse_time fractions prices (
    after (billing_requested deposit)
      (after (delivered usage) (after (auth_requested validation) here)))

-- What the proxy leaves of a completion.
abbrev left : Option (Response × (Stats × World Kept)) → Response × (Stats × World Kept)
left none = (not_found, (new_stats "" "" 0, world))
left (some x) = x

answered : Response × (Stats × World Kept)
answered = left (
    Proxy.router (Proxy.llm_service deployed) (λ n. "") completion
      (new_stats "llm-proxy" "1.0.0" 0, world))

answered_lem :
    Proxy.router
      (Proxy.llm_service deployed)
      (λ n. "")
      completion
      (new_stats "llm-proxy" "1.0.0" 0, world)
    ≡ some (answered.0, (answered.1.0, answered.1.1))
unfolding answered Proxy.router complete serve_request cache_key encode_request mock_provider
    mock_complete last_message assembled http_auth_client http_billing_client Url.parse
    Handler.router validate_api_key AuthStore.get_api_key_by_hash AuthStore.get_user_by_id
    decode_info Billing.router Ledger.get_balance BillingStore.get_balance BillingStore.amount_of
    decode_balance Proxy.decode_body
answered_lem = refl

router-IsUntouched_example : IsUntouched world answered.1.1
router-IsUntouched_example =
    router-IsUntouched setting provider redis rabbit (pos 300) digest (λ n. "") completion
      (new_stats "llm-proxy" "1.0.0" 0) answered.1.0 world answered.1.1 answered.0 answered_lem

proxy-IsAnswer_example : ProxyShapes.IsAnswer completion answered.0
proxy-IsAnswer_example =
    ProxyShapes.proxy-IsAnswer (Proxy.llm_service deployed) (λ n. "") completion
      (new_stats "llm-proxy" "1.0.0" 0) answered.1.0 world answered.1.1 answered.0 answered_lem
