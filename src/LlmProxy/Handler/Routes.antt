-- ===== src/LlmProxy/Handler/Routes.antt =====
-- Where the router of the proxy sends a request.
use llm_proxy_study_project.Prelude.{
  ℕ, String, ◌==◌, Option, some, List, [], ◌∷◌, ◌≡◌, refl, eq_iff, if_eq_lem, segment_lem,
  if◌then◌else◌,
}
use llm_proxy_study_project.Go.Http.{Request, Response, metrics, health, not_found, not_allowed}
use llm_proxy_study_project.Stats.{Stats, stats_handler}
use llm_proxy_study_project.LlmProxy.Handler.{
  LlmService, completions, models, clear, run_route, pure_route, by_method, route,
}

module _ {W : Type 0} (s : LlmService W) (format_time : ℕ → String) (r : Request) (st : Stats)
    (w : W) where
  -- What a request can come to: one of the handlers has it, each with its own method and path, or
  -- an answer is given without the service.
  pub data Routed : Option (Response × (Stats × W)) → Type 0 where
    missing : Routed (some (not_found, (st, w)))
    other_method : Routed (some (not_allowed, (st, w)))
    statistics :
        r.method ≡ "GET"
        → r.path ≡ "stats" ∷ []
        → Routed (some (stats_handler format_time r (st, w)))
    measured :
        r.method ≡ "GET"
        → r.path ≡ "metrics" ∷ []
        → Routed (some (record { status = 200; content = metrics }, (st, w)))
    healthy : r.method ≡ "GET" → r.path ≡ "health" ∷ [] → Routed (some (health, (st, w)))
    completes :
        r.method ≡ "POST"
        → r.path ≡ "completions" ∷ []
        → Routed (run_route s format_time (completions s r w) st)
    lists :
        r.method ≡ "GET"
        → r.path ≡ "models" ∷ []
        → Routed (pure_route s format_time (models s r w) st)
    clears :
        r.method ≡ "DELETE"
        → r.path ≡ "cache" ∷ []
        → Routed (pure_route s format_time (clear s r w) st)

  by_method-Routed :
      (wanted : String) (x : Option (Response × (Stats × W)))
      → (r.method ≡ wanted → Routed x)
      → Routed (by_method s format_time r.method wanted x (st, w))
  by_method-Routed wanted x h =
      if_eq_lem Routed (r.method == wanted) (λ same. h ((eq_iff r.method wanted).0 same))
        other_method

  abbrev alone : String → List String
  alone name = name ∷ []

  pub route-Routed : Routed (route s format_time r (st, w))
  unfolding route
  route-Routed = by_path r.path refl
    where
      by_path :
          (path : List String)
          → r.path ≡ path
          → Routed (elim path [
            | segment ∷ [] ↦
                if segment == "completions"
                then by_method s format_time r.method "POST"
                    (run_route s format_time (completions s r w) st)
                    (st, w)
                else if segment == "models"
                then by_method s format_time r.method "GET"
                    (pure_route s format_time (models s r w) st)
                    (st, w)
                else if segment == "cache"
                then by_method s format_time r.method "DELETE"
                    (pure_route s format_time (clear s r w) st)
                    (st, w)
                else if segment == "stats"
                then by_method s format_time r.method "GET"
                    (some (stats_handler format_time r (st, w)))
                    (st, w)
                else if segment == "metrics"
                then by_method s format_time r.method "GET"
                    (some (record { status = 200; content = metrics }, (st, w)))
                    (st, w)
                else if segment == "health"
                then by_method s format_time r.method "GET" (some (health, (st, w))) (st, w)
                else some (not_found, (st, w))
            | _ ↦ some (not_found, (st, w))
          ])
      by_path [] path = missing
      by_path (segment ∷ []) path =
          segment_lem Routed r.path segment "completions" alone path
            (λ p. by_method-Routed "POST" _ (λ m. completes m p))
            (segment_lem Routed r.path segment "models" alone path
              (λ p. by_method-Routed "GET" _ (λ m. lists m p))
              (segment_lem Routed r.path segment "cache" alone path
                (λ p. by_method-Routed "DELETE" _ (λ m. clears m p))
                (segment_lem Routed r.path segment "stats" alone path
                  (λ p. by_method-Routed "GET" _ (λ m. statistics m p))
                  (segment_lem Routed r.path segment "metrics" alone path
                    (λ p. by_method-Routed "GET" _ (λ m. measured m p))
                    (segment_lem Routed r.path segment "health" alone path
                      (λ p. by_method-Routed "GET" _ (λ m. healthy m p)) missing)))))
      by_path (_ ∷ _ ∷ _) path = missing
