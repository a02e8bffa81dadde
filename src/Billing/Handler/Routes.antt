-- ===== src/Billing/Handler/Routes.antt =====
-- Where the router of the billing service sends a request.
use llm_proxy_study_project.Prelude.{
  ℕ, String, ◌==◌, List, [], ◌∷◌, ◌≡◌, refl, eq_iff, if_lem, if_eq_lem, segment_lem, if◌then◌else◌,
}
use llm_proxy_study_project.Go.Http.{
  Request, Response, Handler, metrics, health, not_found, not_allowed,
}
use llm_proxy_study_project.Stats.{Stats, stats_handler}
use llm_proxy_study_project.Stats.Routes.{at, known, shared}
use llm_proxy_study_project.Billing.Store.{Db}
use llm_proxy_study_project.Billing.Handler.{
  get_balance, deposit, get_usage, get_transactions, with_param, route,
}

module _ (format_time : ℕ → String) (r : Request) (st : Stats) (db : Db) where
  -- A handler's answer, beside statistics that are left alone.
  abbrev pub beside : Response × Db → Response × (Stats × Db)
  beside (response, db') = (response, (st, db'))

  -- What a request can come to: one of the handlers has it, each with its own method, or an answer
  -- is given without the service.
  pub data Routed : Response × (Stats × Db) → Type 0 where
    missing : Routed (not_found, (st, db))
    other_method : Routed (not_allowed, (st, db))
    statistics :
        r.method ≡ "GET" → r.path ≡ "stats" ∷ [] → Routed (stats_handler format_time r (st, db))
    measured :
        r.method ≡ "GET"
        → r.path ≡ "metrics" ∷ []
        → Routed (record { status = 200; content = metrics }, (st, db))
    healthy : r.method ≡ "GET" → r.path ≡ "health" ∷ [] → Routed (health, (st, db))
    deposits :
        r.method ≡ "POST" → r.path ≡ "billing" ∷ "deposit" ∷ [] → Routed (beside (deposit r db))
    balances :
        (user : String)
        → r.method ≡ "GET"
        → r.path ≡ "billing" ∷ "balance" ∷ user ∷ []
        → Routed (beside (get_balance user r db))
    usages : r.method ≡ "GET" → r.path ≡ "billing" ∷ "usage" ∷ [] → Routed (beside (get_usage r db))
    histories :
        (user : String)
        → r.method ≡ "GET"
        → r.path ≡ "billing" ∷ "transactions" ∷ user ∷ []
        → Routed (beside (get_transactions format_time user r db))

  at-Routed :
      (method : String) (handler : Handler Db)
      → (r.method ≡ method → Routed (beside (handler r db)))
      → Routed (at method handler r (st, db))
  at-Routed method handler h =
      if_eq_lem Routed (r.method == method) (λ same. h ((eq_iff r.method method).0 same))
        other_method

  abbrev alone : String → List String
  alone name = name ∷ []

  shared-Routed : (name : String) → r.path ≡ name ∷ [] → Routed (shared format_time name r (st, db))
  shared-Routed name path =
      if_eq_lem Routed (r.method == "GET")
        (λ same.
          let get = (eq_iff r.method "GET").0 same in
          segment_lem Routed r.path name "stats" alone path (statistics get) (
            segment_lem Routed r.path name "metrics" alone path (measured get)
              (segment_lem Routed r.path name "health" alone path (healthy get) missing)))
        other_method

  with_param-Routed :
      (user : String) (handler : String → Handler Db)
      → (r.method ≡ "GET" → Routed (beside (handler user r db)))
      → Routed (with_param format_time user handler r (st, db))
  with_param-Routed user handler h =
      if_lem Routed (user == "") missing (at-Routed "GET" (handler user) h)

  pub route-Routed : Routed (route format_time r (st, db))
  unfolding route
  route-Routed = by_path r.path refl
    where
      by_path :
          (path : List String)
          → r.path ≡ path
          → Routed (elim path [
            | name ∷ [] ↦
                if known name then shared format_time name r (st, db) else (not_found, (st, db))
            | top ∷ name ∷ [] ↦
                if top == "billing"
                then if name == "deposit"
                  then at "POST" deposit r (st, db)
                  else if name == "usage"
                  then at "GET" get_usage r (st, db)
                  else (not_found, (st, db))
                else (not_found, (st, db))
            | top ∷ name ∷ user ∷ [] ↦
                if top == "billing"
                then if name == "balance"
                  then with_param format_time user get_balance r (st, db)
                  else if name == "transactions"
                  then with_param format_time user (get_transactions format_time) r (st, db)
                  else (not_found, (st, db))
                else (not_found, (st, db))
            | _ ↦ (not_found, (st, db))
          ])
      by_path [] path = missing
      by_path (name ∷ []) path = if_lem Routed (known name) (shared-Routed name path) missing
      by_path (top ∷ name ∷ []) path =
          segment_lem Routed r.path top "billing" (λ t. t ∷ name ∷ []) path
            (λ billing.
              segment_lem Routed r.path name "deposit" (λ n. "billing" ∷ n ∷ []) billing
                (λ whole. at-Routed "POST" deposit (λ post. deposits post whole))
                (segment_lem Routed r.path name "usage" (λ n. "billing" ∷ n ∷ []) billing
                  (λ whole. at-Routed "GET" get_usage (λ get. usages get whole)) missing))
            missing
      by_path (top ∷ name ∷ user ∷ []) path =
          segment_lem Routed r.path top "billing" (λ t. t ∷ name ∷ user ∷ []) path
            (λ billing.
              segment_lem Routed r.path name "balance" (λ n. "billing" ∷ n ∷ user ∷ []) billing
                (λ whole. with_param-Routed user get_balance (λ get. balances user get whole))
                (segment_lem Routed r.path name "transactions" (λ n. "billing" ∷ n ∷ user ∷ [])
                  billing
                  (λ whole.
                    with_param-Routed user (get_transactions format_time)
                      (λ get. histories user get whole))
                  missing))
            missing
      by_path (_ ∷ _ ∷ _ ∷ _ ∷ _) path = missing
