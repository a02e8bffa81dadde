-- ===== src/Billing/Handler/Counting.antt =====
-- The counters of the billing service.
use llm_proxy_study_project.Prelude.{ℕ, ◌<◌, ◌^◌, String, List, [], ap, length}
use llm_proxy_study_project.Go.Http.{Request}
use llm_proxy_study_project.Stats.{Stats, new_stats}
use llm_proxy_study_project.Stats.Counting.{IsTally, serve, serve_counts}
use llm_proxy_study_project.Billing.Store.{Db}
use llm_proxy_study_project.Billing.Service.History.{Extends, Extends-IsKept}
use llm_proxy_study_project.Billing.Handler.{route}
use llm_proxy_study_project.Billing.Handler.Keeping.{route-KeepsIn}

-- From its start, as long as fewer than 2^63 requests have come, the billing service's total is the
-- number of its responses, and the count of each status is the number of responses with it.
billing_counts :
    (format_time : ℕ → String) (rs : List Request) (service version : String) (now : ℕ) (db : Db)
    → length rs < 2 ^ 63
    → let (responses, s) = serve (route format_time) rs [] (new_stats service version now, db) in
      IsTally responses s.0.counter
billing_counts format_time rs service version now db room =
    serve_counts (route format_time) rs service version now db
      (λ q (st, d).
        ap (λ (s : Stats). s.counter)
          (route-KeepsIn Extends Extends-IsKept format_time q st d).counts)
      room
