-- ===== src/Stats.antt =====
-- pkg/stats/stats.go: the counter of answered requests, the middleware that feeds it, and the
-- handler of /stats. The counter's mutex makes each call one step; the map is an association list.
pub mod Counting
pub mod Routes
pub mod Reports
pub mod Shapes
use llm_proxy_study_project.Prelude.{
  ℕ, ◌-◌, ◌/◌, String, Option, none, some, List, [], ◌∷◌, ◌==◌, if◌then◌else◌,
}
use llm_proxy_study_project.Prelude.Int.{ℤ, pos}
use llm_proxy_study_project.Go.Int64.{add64}
use llm_proxy_study_project.Go.Decimal.{decimal}
use llm_proxy_study_project.Go.Json.{num, str, obj, field, end}
use llm_proxy_study_project.Go.Json.Names.{counts}
use llm_proxy_study_project.Go.Http.{Request, Response, Handler, write_json}

pub record Counter : Type 0 where
  pub total : ℤ
  pub by_status : List (String × ℤ)

unfoldable pub new_counter : Counter
new_counter = record { total = pos 0; by_status = [] }

-- c.ByStatus[status]++
unfoldable pub bump : String → List (String × ℤ) → List (String × ℤ)
bump status [] = (status, add64 (pos 0) (pos 1)) ∷ []
bump status ((k, n) ∷ m) = if k == status then (k, add64 n (pos 1)) ∷ m else (k, n) ∷ bump status m

unfoldable pub inc : String → Counter → Counter
unfolding bump
inc status c = record { total = add64 c.total (pos 1); by_status = bump status c.by_status }

pub record Stats : Type 0 where
  pub service : String
  pub version : String
  pub started_at : ℕ
  pub counter : Counter

unfoldable pub new_stats : String → String → ℕ → Stats
unfolding new_counter
new_stats service version now = record {
  service = service;
  version = version;
  started_at = now;
  counter = new_counter;
}

-- s.counter.inc(fmt.Sprintf("%d", rec.status))
unfoldable pub record_status : ℕ → Stats → Stats
unfolding inc
record_status status s = record s { counter = inc (decimal status) s.counter }

-- The recorder starts at 200 and keeps the status that the handler writes; every response here
-- carries its status, a handler that writes none having 200.
unfoldable pub middleware : {S : Type 0} → Handler (Stats × S) → Handler (Stats × S)
unfolding record_status
middleware next r s =
    let (response, (stats, rest)) = next r s in
    (response, (record_status response.status stats, rest))

-- The document is built of maps, so their names come in order.
module _ (format_time : ℕ → String) where
  unfoldable pub stats_handler : {S : Type 0} → Handler (Stats × S)
  unfolding counts
  stats_handler r (s, rest) = (
    write_json 200 (
        obj (
          field "requests"
            (obj (
              field "by_status" (obj (counts s.counter.by_status))
                (field "total" (num s.counter.total) end)))
            (field "service" (str s.service) (
              field "started_at" (str (format_time s.started_at)) (
                field "uptime_seconds" (num (pos ((r.now - s.started_at) / 1000000)))
                  (field "version" (str s.version) end)))))),
    (s, rest),
  )
