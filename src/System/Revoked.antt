-- ===== src/System/Revoked.antt =====
-- A revoked key at the completions endpoint of the deployed proxy.
use llm_proxy_study_project.Prelude.{
  ℕ, String, ◌<>◌, ◌==◌, Option, some, true, false, List, [], ◌∷◌, ◌≡◌, refl, ap, ◌∙◌,
}
use llm_proxy_study_project.Prelude.Int.{ℤ}
use llm_proxy_study_project.Go.Effect.{Error}
use llm_proxy_study_project.Go.Float.{Float64}
use llm_proxy_study_project.Go.Json.{Json}
use llm_proxy_study_project.Go.Url.Plain.{IsPlain}
use llm_proxy_study_project.Go.Http.{Request, write_error}
use llm_proxy_study_project.Stats.{Stats, record_status}
use llm_proxy_study_project.Auth.Store.{ApiKey}
use llm_proxy_study_project.Auth.Service.Validation.{key_row, validate-Validated}
use llm_proxy_study_project.Auth.Handler.History.{refused_lem}
use llm_proxy_study_project.LlmProxy.Provider.{LlmProvider, CompletionRequest}
use llm_proxy_study_project.LlmProxy.Service.{Service, Redis, Broker}
use llm_proxy_study_project.LlmProxy.Handler.{
  llm_service, decode_body, completions, run_route, counted, route, router,
}
use llm_proxy_study_project.LlmProxy.Handler.Statuses.{key_of, completions_denied}
use llm_proxy_study_project.Client.{http_auth_client, http_billing_client}
use llm_proxy_study_project.System.{World, Setting, assembled}
use llm_proxy_study_project.System.Links.{IsRefused, validate-IsRefused}
use llm_proxy_study_project.System.Steps.{Reach}
use llm_proxy_study_project.System.History.{Reach-IsAfter}

-- A POST to /completions goes to the endpoint, and its status is counted.
completions_routed :
    {W : Type 0} (s : Service W) (format_time : ℕ → String) (r : Request) (st : Stats) (w : W)
    → r.method ≡ "POST"
    → r.path ≡ "completions" ∷ []
    → router (llm_service s) format_time r (st, w)
      ≡ counted
          (llm_service s)
          format_time
          (run_route (llm_service s) format_time (completions (llm_service s) r w) st)
unfolding router route
completions_routed s format_time r st w method path = rw (router, path, method) refl

module _ {V : Type 0} (e : Setting) (provider : LlmProvider V) (redis : Redis V) (rabbit : Broker V)
    (cache_ttl : ℤ) (sha256_hex : Json → String) where
  abbrev proxy : Service (World V)
  proxy = assembled e provider redis rabbit cache_ttl sha256_hex

  -- The request is answered with status 401, and nothing but the auth service has been used.
  pub record IsDenied (format_time : ℕ → String) (r : Request) (st : Stats) (w : World V)
      : Type 0 where
    pub msg : Error
    pub known : World V
    pub answered :
        router (llm_service proxy) format_time r (st, w)
        ≡ some (write_error 401 ("auth: " <> msg), (record_status 401 st, known))
    pub billing : known.billing ≡ w.billing
    pub rest : known.rest ≡ w.rest

  refused-IsDenied :
      (format_time : ℕ → String) (r : Request) (st : Stats) (w : World V) (req : CompletionRequest)
      → r.method ≡ "POST"
      → r.path ≡ "completions" ∷ []
      → (key_of r == "") ≡ false
      → decode_body r.body ≡ some req
      → IsRefused e (key_of r) w
      → IsDenied format_time r st w
  unfolding assembled http_auth_client http_billing_client
  refused-IsDenied format_time r st w req method path keyed decoded refused = record {
    msg = refused.msg;
    known = refused.known;
    answered =
        completions_routed proxy format_time r st w method path
        ∙ ap
            (λ x.
              counted (llm_service proxy) format_time
                (run_route (llm_service proxy) format_time x st))
            (completions_denied proxy r w refused.known req refused.msg keyed decoded refused.told);
    billing = refused.billing;
    rest = refused.rest;
  }

  -- A key that has been revoked buys nothing: after any steps of the deployed services, a completion
  -- request that shows it, one with a body that decodes and a key of letters, digits and hyphens, is
  -- answered with status 401, even where the network or the database fails; the billing service,
  -- Redis, RabbitMQ and the provider are left as they were.
  pub revoked-IsDenied :
      (parse_time : String → Option ℕ) (fl : Float64) (prices : List (String × fl.Carrier))
      (format_time : ℕ → String) (r : Request) (st : Stats) (w w' : World V) (k : ApiKey)
      (req : CompletionRequest)
      → r.method ≡ "POST"
      → r.path ≡ "completions" ∷ []
      → (key_of r == "") ≡ false
      → decode_body r.body ≡ some req
      → IsPlain (key_of r)
      → key_row e.crypto (key_of r) w.auth.1.tables ≡ some k
      → k.revoked ≡ true
      → Reach e parse_time fl prices w w'
      → IsDenied format_time r st w'
  revoked-IsDenied parse_time fl prices format_time r st w w' k req method path keyed decoded plain
        found revoked steps =
      let row =
        (Reach-IsAfter e parse_time fl prices steps).auth.keys (e.crypto.sha256_hex (key_of r)) k
          found in
      let (m, refused) =
        refused_lem e.crypto e.jwt_secret e.format_time (key_of r) w'.auth.1 row.key row.found
          (row.stays_revoked revoked) (validate-Validated e.crypto (key_of r) w'.auth.1) in
      refused-IsDenied format_time r st w' req method path keyed decoded
        (validate-IsRefused e (key_of r) w' m plain refused)
