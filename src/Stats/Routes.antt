-- ===== src/Stats/Routes.antt =====
-- The routes that the routers of internal/auth/handler and internal/billing/handler share, and how
-- chi gives a request to a handler.
use llm_proxy_study_project.Prelude.{ℕ, String, ◌==◌, Bool, ◌||◌, if◌then◌else◌}
use llm_proxy_study_project.Go.Http.{Handler, metrics, health, not_found, not_allowed}
use llm_proxy_study_project.Stats.{Stats, stats_handler}

-- A route of chi: the handler, if the method is the route's.
abbrev pub at : {S : Type 0} → String → Handler S → Handler (Stats × S)
at method handler r (st, s) =
    if r.method == method
    then (let (response, s') = handler r s in (response, (st, s')))
    else (not_allowed, (st, s))

-- The names that every service has a route for; the first argument is the JSON text of a time.
abbrev pub known : String → Bool
known name = name == "stats" || name == "metrics" || name == "health"

abbrev pub shared : {S : Type 0} → (ℕ → String) → String → Handler (Stats × S)
shared format_time name r (st, s) =
    if r.method == "GET"
    then if name == "stats"
      then stats_handler format_time r (st, s)
      else if name == "metrics"
      then (record { status = 200; content = metrics }, (st, s))
      else if name == "health"
      then (health, (st, s))
      else (not_found, (st, s))
    else (not_allowed, (st, s))
