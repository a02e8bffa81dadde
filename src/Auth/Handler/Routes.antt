-- ===== src/Auth/Handler/Routes.antt =====
-- Where the router of the auth service sends a request.
use llm_proxy_study_project.Prelude.{
  ℕ, String, ◌==◌, List, [], ◌∷◌, ◌≡◌, refl, eq_iff, if_lem, if_eq_lem, segment_lem, if◌then◌else◌,
}
use llm_proxy_study_project.Go.Http.{
  Request, Response, Handler, metrics, health, not_found, not_allowed,
}
use llm_proxy_study_project.Stats.{Stats, stats_handler}
use llm_proxy_study_project.Stats.Routes.{at, known, shared}
use llm_proxy_study_project.Auth.Store.{Db}
use llm_proxy_study_project.Auth.Service.{Crypto}
use llm_proxy_study_project.Auth.Handler.{
  register, log_in, validate, create_api_key, revoke_api_key, me, jwt_middleware, open_route,
  inner_route, route,
}

module _ (crypto : Crypto) (jwt_secret : String) (format_time : ℕ → String) (r : Request)
    (st : Stats) (db : Db) where
  -- A handler's answer, beside statistics that are left alone.
  abbrev pub beside : Response × Db → Response × (Stats × Db)
  beside (response, db') = (response, (st, db'))

  -- A handler behind the token.
  abbrev pub guarded : (String → Handler Db) → Response × (Stats × Db)
  guarded next = beside (jwt_middleware crypto jwt_secret format_time next r db)

  -- What a request can come to: one of the handlers has it, each with its own method and path, or
  -- an answer is given without the service.
  pub data Routed : Response × (Stats × Db) → Type 0 where
    missing : Routed (not_found, (st, db))
    other_method : Routed (not_allowed, (st, db))
    statistics :
        r.method ≡ "GET" → r.path ≡ "stats" ∷ [] → Routed (stats_handler format_time r (st, db))
    measured :
        r.method ≡ "GET"
        → r.path ≡ "metrics" ∷ []
        → Routed (record { status = 200; content = metrics }, (st, db))
    healthy : r.method ≡ "GET" → r.path ≡ "health" ∷ [] → Routed (health, (st, db))
    registers :
        r.method ≡ "POST"
        → r.path ≡ "auth" ∷ "register" ∷ []
        → Routed (beside (register crypto jwt_secret format_time r db))
    logs_in :
        r.method ≡ "POST"
        → r.path ≡ "auth" ∷ "login" ∷ []
        → Routed (beside (log_in crypto jwt_secret format_time r db))
    validates :
        r.method ≡ "GET"
        → r.path ≡ "auth" ∷ "validate" ∷ []
        → Routed (beside (validate crypto jwt_secret format_time r db))
    creates :
        r.method ≡ "POST"
        → r.path ≡ "auth" ∷ "keys" ∷ []
        → Routed (guarded (create_api_key crypto jwt_secret format_time))
    revokes :
        (key_id : String)
        → r.method ≡ "DELETE"
        → r.path ≡ "auth" ∷ "keys" ∷ key_id ∷ []
        → Routed (guarded (revoke_api_key crypto jwt_secret format_time key_id))
    profiles :
        r.method ≡ "GET"
        → r.path ≡ "auth" ∷ "users" ∷ "me" ∷ []
        → Routed (guarded (me crypto jwt_secret format_time))

  at-Routed :
      (method : String) (handler : Handler Db)
      → (r.method ≡ method → Routed (beside (handler r db)))
      → Routed (at method handler r (st, db))
  at-Routed method handler h =
      if_eq_lem Routed (r.method == method) (λ same. h ((eq_iff r.method method).0 same))
        other_method

  abbrev alone : String → List String
  alone name = name ∷ []

  shared-Routed : (name : String) → r.path ≡ name ∷ [] → Routed (shared format_time name r (st, db))
  shared-Routed name path =
      if_eq_lem Routed (r.method == "GET")
        (λ same.
          let get = (eq_iff r.method "GET").0 same in
          segment_lem Routed r.path name "stats" alone path (statistics get) (
            segment_lem Routed r.path name "metrics" alone path (measured get)
              (segment_lem Routed r.path name "health" alone path (healthy get) missing)))
        other_method

  open-Routed :
      (name : String)
      → r.path ≡ "auth" ∷ name ∷ []
      → Routed (open_route crypto jwt_secret format_time name r (st, db))
  open-Routed name path =
      segment_lem Routed r.path name "register" (λ n. "auth" ∷ n ∷ []) path
        (λ whole.
          at-Routed "POST" (register crypto jwt_secret format_time) (λ post. registers post whole))
        (segment_lem Routed r.path name "login" (λ n. "auth" ∷ n ∷ []) path
          (λ whole.
            at-Routed "POST" (log_in crypto jwt_secret format_time) (λ post. logs_in post whole))
          (segment_lem Routed r.path name "validate" (λ n. "auth" ∷ n ∷ []) path
            (λ whole.
              at-Routed "GET" (validate crypto jwt_secret format_time) (λ get. validates get whole))
            (segment_lem Routed r.path name "keys" (λ n. "auth" ∷ n ∷ []) path
              (λ whole.
                at-Routed "POST"
                  (jwt_middleware crypto jwt_secret format_time
                    (create_api_key crypto jwt_secret format_time))
                  (λ post. creates post whole))
              missing)))

  inner-Routed :
      (name last : String)
      → r.path ≡ "auth" ∷ name ∷ last ∷ []
      → Routed (inner_route crypto jwt_secret format_time name last r (st, db))
  inner-Routed name last path =
      segment_lem Routed r.path name "keys" (λ n. "auth" ∷ n ∷ last ∷ []) path
        (λ whole. if_lem Routed (last == "") missing (
          at-Routed "DELETE"
            (jwt_middleware crypto jwt_secret format_time
              (revoke_api_key crypto jwt_secret format_time last))
            (λ delete. revokes last delete whole)))
        (segment_lem Routed r.path name "users" (λ n. "auth" ∷ n ∷ last ∷ []) path
          (λ users.
            segment_lem Routed r.path last "me" (λ l. "auth" ∷ "users" ∷ l ∷ []) users
              (λ whole.
                at-Routed "GET"
                  (jwt_middleware crypto jwt_secret format_time (me crypto jwt_secret format_time))
                  (λ get. profiles get whole))
              missing)
          missing)

  pub route-Routed : Routed (route crypto jwt_secret format_time r (st, db))
  unfolding route
  route-Routed = by_path r.path refl
    where
      by_path :
          (path : List String)
          → r.path ≡ path
          → Routed (elim path [
            | name ∷ [] ↦
                if known name then shared format_time name r (st, db) else (not_found, (st, db))
            | top ∷ name ∷ [] ↦
                if top == "auth"
                then open_route crypto jwt_secret format_time name r (st, db)
                else (not_found, (st, db))
            | top ∷ name ∷ last ∷ [] ↦
                if top == "auth"
                then inner_route crypto jwt_secret format_time name last r (st, db)
                else (not_found, (st, db))
            | _ ↦ (not_found, (st, db))
          ])
      by_path [] path = missing
      by_path (name ∷ []) path = if_lem Routed (known name) (shared-Routed name path) missing
      by_path (top ∷ name ∷ []) path =
          segment_lem Routed r.path top "auth" (λ t. t ∷ name ∷ []) path (open-Routed name) missing
      by_path (top ∷ name ∷ last ∷ []) path =
          segment_lem Routed r.path top "auth" (λ t. t ∷ name ∷ last ∷ []) path
            (inner-Routed name last) missing
      by_path (_ ∷ _ ∷ _ ∷ _ ∷ _) path = missing
