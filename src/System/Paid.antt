-- ===== src/System/Paid.antt =====
-- What stands in the databases of the auth and billing services when the deployed proxy answers.
use llm_proxy_study_project.Prelude.{
  String, some, Bool, List, [], ◌∷◌, ◌≡◌, sym, ap, ◌∙◌, subst, arith, Bool-cases, Option-cases, inl,
  inr, All,
}
use llm_proxy_study_project.Prelude.Int.{ℤ, pos, ◌≤ℤ◌}
use llm_proxy_study_project.Go.Effect.{Result, ok}
use llm_proxy_study_project.Go.Json.{Json}
use llm_proxy_study_project.Go.Postgres.{reply}
use llm_proxy_study_project.Go.Url.Plain.{IsPlain}
use llm_proxy_study_project.Stats.{Stats}
use llm_proxy_study_project.Auth.Store
use llm_proxy_study_project.Auth.Store.{User, find}
use llm_proxy_study_project.Auth.Service.{UserInfo, validate_api_key}
use llm_proxy_study_project.Auth.Service.Validation.{
  Stands, Validated, valid, invalid, validate-Validated,
}
use llm_proxy_study_project.Billing.Store.{Db}
use llm_proxy_study_project.Billing.Store.Laws.{balance_of, read_balance}
use llm_proxy_study_project.LlmProxy.Provider.{LlmProvider, CompletionRequest, CompletionResponse}
use llm_proxy_study_project.LlmProxy.Service.{Redis, Broker, Service, complete, min_balance}
use llm_proxy_study_project.LlmProxy.Service.Flow.{complete-IsPaid}
use llm_proxy_study_project.Client.{http_auth_client, http_billing_client}
use llm_proxy_study_project.System.{World, Setting, assembled}
use llm_proxy_study_project.System.Links.{validate_known}
use llm_proxy_study_project.System.Balances.{balance_known}

-- The key is that of a live row, which is of this user, and the user's balance covers a request.
pub record IsBacked {V : Type 0} (e : Setting) (api_key : String) (w : World V) : Type 0 where
  pub info : UserInfo
  pub stands : Stands e.crypto api_key (w.auth).1.tables info
  pub covered : min_balance ≤ℤ balance_of info.user_id (w.billing).1

find-All :
    (P : User → Type 0) (p : User → Bool) (us : List User) (u : User)
    → All P us
    → find p us ≡ some u
    → P u
unfolding find
find-All P p [] u h e = cc
find-All P p (x ∷ us) u (here, later) e = elim (Bool-cases (p x)) [
  | inl found ↦ subst P (ground arith) here
  | inr other ↦ find-All P p us u later (rw other at e)
]

-- A balance that is read as 10 or more is what the table holds: a fault would have read zero.
read_enough :
    (user : String) (db : Db)
    → min_balance ≤ℤ read_balance user db
    → min_balance ≤ℤ balance_of user db
read_enough user db h = elim (Option-cases (reply db).fault) [
  | inl fine ↦ rw (fine, read_balance) at h
  | inr (msg, fault) ↦
      let zero_read : min_balance ≤ℤ pos 0 = rw (fault, read_balance) at h in absurd (omega arith)
]

module _ {V : Type 0} (e : Setting) (provider : LlmProvider V) (redis : Redis V) (rabbit : Broker V)
    (cache_ttl : ℤ) (sha256_hex : Json → String) where
  abbrev proxy : Service (World V)
  proxy = assembled e provider redis rabbit cache_ttl sha256_hex

  known-Stands :
      (api_key : String) (w : World V) (info : UserInfo)
      → (validate_api_key e.crypto api_key (w.auth).1).0 ≡ ok info
      → Stands e.crypto api_key (w.auth).1.tables info
  known-Stands api_key w info h = by_outcome (validate-Validated e.crypto api_key (w.auth).1) h
    where
      by_outcome :
          {x : Result UserInfo × Store.Db}
          → Validated e.crypto api_key (w.auth).1 x
          → x.0 ≡ ok info
          → Stands e.crypto api_key (w.auth).1.tables info
      by_outcome (valid {info = found} stands same) h =
          subst (Stands e.crypto api_key (w.auth).1.tables) (ground arith) stands
      by_outcome (invalid same) h = cc

  -- The deployed proxy, with its HTTP clients over a network that may lose any call, answers a
  -- request for a key of letters, digits and hyphens only if the auth service's tables have a row
  -- of the key's hash that is not revoked, of a user who exists, and the billing service's tables
  -- give that user a balance of 10 or more; where the ids of the users are such texts too.
  pub system_complete-IsBacked :
      (api_key : String) (req : CompletionRequest) (w w' : World V) (resp : CompletionResponse)
      → IsPlain api_key
      → All (λ (u : User). IsPlain u.id) (w.auth).1.tables.users
      → complete proxy api_key req w ≡ some (ok resp, w')
      → IsBacked e api_key w
  unfolding assembled http_auth_client http_billing_client
  system_complete-IsBacked api_key req w w' resp plain ids done =
      let p = complete-IsPaid proxy api_key req w w' resp done in
      let (known, billing) = validate_known e api_key w p.known p.info plain p.is_known in
      let stands = known-Stands api_key w p.info known in
      let plain_id : IsPlain p.info.user_id =
        subst IsPlain (sym stands.same_id)
          (find-All (λ (u : User). IsPlain u.id) _ _ stands.user ids stands.user_found) in
      let told : p.balance ≡ read_balance p.info.user_id (w.billing).1 =
        balance_known e p.info.user_id p.known p.paid p.balance plain_id p.is_paid
        ∙ ap (λ (s : Stats × Db). read_balance p.info.user_id s.1) billing in
      record {
        info = p.info;
        stands = stands;
        covered =
            read_enough p.info.user_id (w.billing).1 (subst (λ b. min_balance ≤ℤ b) told p.enough);
      }
