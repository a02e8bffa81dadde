-- ===== src/Tests/System.antt =====
-- Runs of the deployed system: the three services, and the network between them.
use llm_proxy_study_project.Prelude.{String, Option, none, some, List, [], ◌∷◌, All, ◌≡◌, refl, ap}
use llm_proxy_study_project.Prelude.Int.{pos}
use llm_proxy_study_project.Go.Effect.{Result, ok, err}
use llm_proxy_study_project.Go.Json.{Json}
use llm_proxy_study_project.Go.Http.{Response}
use llm_proxy_study_project.Go.Url
use llm_proxy_study_project.Go.Url.Plain.{IsPlain}
use llm_proxy_study_project.Stats.{Stats, new_stats, record_status}
use llm_proxy_study_project.Auth.Store as AuthStore
use llm_proxy_study_project.Auth.Store.{User}
use llm_proxy_study_project.Auth.Service.{validate_api_key}
use llm_proxy_study_project.Auth.Handler
use llm_proxy_study_project.Billing.Store as BillingStore
use llm_proxy_study_project.Billing.Handler as Billing
use llm_proxy_study_project.Billing.Service as Ledger
use llm_proxy_study_project.LlmProxy.Provider.{
  CompletionResponse, LlmProvider, mock_provider, mock_complete, last_message,
}
use llm_proxy_study_project.LlmProxy.Service.{
  Service, Redis, Broker, complete, serve_request, cache_key, encode_request,
}
use llm_proxy_study_project.Client.{
  HttpClient, http_auth_client, http_billing_client, decode_info, decode_balance,
}
use llm_proxy_study_project.Client
use llm_proxy_study_project.System.{World, Setting, assembled, auth_http, received}
use llm_proxy_study_project.System.Links.{seen, validate_through}
use llm_proxy_study_project.System.Anonymous.{Carries, client_complete_unauthorized}
use llm_proxy_study_project.LlmProxy.Handler as Proxy
use llm_proxy_study_project.System.Paid.{IsBacked, system_complete-IsBacked}
use llm_proxy_study_project.Tests.Auth.{crypto, db}
use llm_proxy_study_project.Tests.Billing.{db_up}
use llm_proxy_study_project.Tests.Proxy.{entry, digest, hello, answer}

abbrev pub Kept : Type 0
Kept = List (String × Json) × List Json

abbrev pub setting : Setting
setting = record {
  crypto = crypto;
  jwt_secret = "s";
  format_time = λ n. "2026-01-01T00:00:00Z";
  network = λ n. none;
  clock = λ n. 0;
  url_error = λ url. "parse ";
  body_error = λ body. "EOF";
}

abbrev pub redis : Redis Kept
redis = record {
  get = λ key w. (entry key w.0, w);
  set = λ key doc ttl w. (ok tt, ((key, doc) ∷ w.0, w.1));
  flush_db = λ w. (ok tt, ([], w.1));
}

abbrev pub rabbit : Broker Kept
rabbit = record {
  publish = λ doc w. (ok tt, (w.0, doc ∷ w.1));
  timestamp = λ w. "2026-01-01T00:00:00Z";
}

abbrev pub world : World Kept
world = record {
  auth = (new_stats "auth-service" "1.0.0" 0, db);
  billing = (new_stats "billing-service" "1.0.0" 0, db_up);
  rest = ([], []);
  calls = 0;
}

abbrev pub provider : LlmProvider Kept
provider = mock_provider (λ w k. k)

abbrev pub deployed : Service (World Kept)
deployed = assembled setting provider redis rabbit (pos 300) digest

pub world_of : Option (Result CompletionResponse × World Kept) → World Kept
world_of none = world
world_of (some (_, w)) = w

pub served : World Kept
served = world_of (complete deployed "key" hello world)

pub key_IsPlain : IsPlain "key"
unfolding Url.Plain.is_plain
key_IsPlain = refl

ids_IsPlain : All (λ (u : User). IsPlain u.id) (world.auth).1.tables.users
unfolding Url.Plain.is_plain
ids_IsPlain = (refl, tt)

pub served_lem : complete deployed "key" hello world ≡ some (ok answer, served)
unfolding served world_of complete serve_request cache_key encode_request mock_provider
    mock_complete last_message assembled http_auth_client http_billing_client Url.parse
    Handler.router validate_api_key AuthStore.get_api_key_by_hash AuthStore.get_user_by_id
    decode_info Billing.router Ledger.get_balance BillingStore.get_balance BillingStore.amount_of
    decode_balance
served_lem = refl

system_complete-IsBacked_example : IsBacked setting "key" world
system_complete-IsBacked_example =
    system_complete-IsBacked setting provider redis rabbit (pos 300) digest "key" hello world served
      answer key_IsPlain ids_IsPlain served_lem

validate_through_example :
    let (res, db') = validate_api_key crypto "key" db in
    let (got, w') = Client.validate (auth_http setting) "key" world in
    (got ≡ seen res) × (w'.auth.1 ≡ db') × (w'.billing ≡ world.billing) × (w'.rest ≡ world.rest)
validate_through_example = validate_through setting "key" world key_IsPlain refl

-- The proxy behind an HTTP client, whose requests reach it.
abbrev got :
    Stats × World Kept
    → Option (Response × (Stats × World Kept))
    → Result Response × (Stats × World Kept)
got w none = (err "EOF", w)
got w (some (resp, w')) = (ok resp, w')

abbrev pub proxy_http : HttpClient (Stats × World Kept)
proxy_http = record {
  do_request = λ o w. got w (Proxy.router (Proxy.llm_service deployed) (λ n. "") (received 0 o) w);
  url_error = λ url. "parse";
  body_error = λ body. "EOF";
}

pub carries : Carries deployed (λ n. "") proxy_http (λ w. 0)
carries o w w' resp h = ap (got w) h

client_complete_unauthorized_example :
    Client.complete proxy_http hello (new_stats "llm-proxy" "1.0.0" 0, world)
    ≡ (err "llm complete: status 401", (record_status 401 (new_stats "llm-proxy" "1.0.0" 0), world))
client_complete_unauthorized_example =
    client_complete_unauthorized deployed (λ n. "") proxy_http (λ w. 0) hello
      (new_stats "llm-proxy" "1.0.0" 0, world) carries
