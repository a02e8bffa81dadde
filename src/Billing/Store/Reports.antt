-- ===== src/Billing/Store/Reports.antt =====
-- GetUsage from a server that answers.
use llm_proxy_study_project.Prelude.{ℕ, String, List, ◌≡◌, refl, length, select}
use llm_proxy_study_project.Go.Effect.{ok}
use llm_proxy_study_project.Go.Int64.{IsInt64}
use llm_proxy_study_project.Go.Postgres.{Answers, reply, sent_with, statement-eq-ok}
use llm_proxy_study_project.Billing.Store.{
  Db, Transaction, UsageSummary, interval, is_recent_usage, sum_tokens, sum_amount, get_usage,
  select_usage,
}
use llm_proxy_study_project.Billing.Store.Laws.{test_of_IsInt64}

-- The report of a user's usages in a period that ends now.
abbrev pub report : String → String → ℕ → List Transaction → UsageSummary
report user period now ts =
    let rows = select (is_recent_usage user (interval period) now) ts in
    record {
      user_id = user;
      period = period;
      total_tokens = sum_tokens rows;
      total_amount = sum_amount rows;
      requests = length rows;
    }

-- Where the sums are int64 values, it is the report of the rows at the server's time.
pub get_usage-report :
    (user period : String) (db : Db)
    → Answers db
    → IsInt64 (report user period (reply db).now db.tables.transactions).total_tokens
    → IsInt64 (report user period (reply db).now db.tables.transactions).total_amount
    → get_usage user period db
      ≡ (ok (report user period (reply db).now db.tables.transactions), sent_with db db.tables)
unfolding get_usage select_usage
get_usage-report user period db fine tokens amount =
    let found = report user period (reply db).now db.tables.transactions in
    statement-eq-ok (select_usage user period) db fine (
      rw (test_of_IsInt64 found.total_tokens tokens, test_of_IsInt64 found.total_amount amount)
        refl)
