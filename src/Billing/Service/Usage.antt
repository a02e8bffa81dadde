-- ===== src/Billing/Service/Usage.antt =====
-- What RecordUsage adds to the report of GetUsage.
use llm_proxy_study_project.Prelude.{
  ℕ, suc, ◌+◌, ◌≤◌, String, List, ◌∷◌, ◌≡◌, sym, subst, ap, ◌∙◌, if◌then◌else◌, true, length,
  select, arith, eq_refl,
}
use llm_proxy_study_project.Prelude.Int.{ℤ, ◌+ℤ◌}
use llm_proxy_study_project.Go.Effect.{Result, ok}
use llm_proxy_study_project.Go.Int64.{IsInt64}
use llm_proxy_study_project.Go.Float.{Float64}
use llm_proxy_study_project.Go.Postgres.{Reply, Answers, reply}
use llm_proxy_study_project.Billing.Store.{
  Db, Transaction, UsageSummary, entry, interval, is_recent_usage, sum_tokens, sum_amount,
}
use llm_proxy_study_project.Billing.Store.Reports.{report, get_usage-report}
use llm_proxy_study_project.Billing.Service.{cost_of, get_usage, record_usage}
use llm_proxy_study_project.Billing.Service.Success.{
  IsCovered, IsLogging, updated_pool, logged_pool, logged_lem,
}
use llm_proxy_study_project.Go.Int64.{neg64}

-- A report with one more usage.
abbrev pub with_usage : ℤ → ℤ → UsageSummary → UsageSummary
with_usage tokens cost s = record s {
  total_tokens = tokens +ℤ s.total_tokens;
  total_amount = cost +ℤ s.total_amount;
  requests = suc s.requests;
}

recent_entry :
    (user : String) (cost : ℤ) (model : String) (tokens : ℤ) (r : Reply) (span now : ℕ)
    → now ≤ r.now + span
    → is_recent_usage user span now (entry user "usage" cost model tokens r) ≡ true
recent_entry user cost model tokens r span now recent = ground (arith, eq_refl user, recent)

report-charged :
    (user period : String) (cost : ℤ) (model : String) (tokens : ℤ) (r : Reply) (now : ℕ)
    (ts : List Transaction)
    → now ≤ r.now + interval period
    → report user period now (entry user "usage" cost model tokens r ∷ ts)
      ≡ with_usage tokens cost (report user period now ts)
unfolding sum_tokens sum_amount
report-charged user period cost model tokens r now ts recent =
    ap
      (λ b.
        let rows =
          if b
          then entry user "usage" cost model tokens r
            ∷ select (is_recent_usage user (interval period) now) ts
          else select (is_recent_usage user (interval period) now) ts in
        record {
          user_id = user;
          period = period;
          total_tokens = sum_tokens rows;
          total_amount = sum_amount rows;
          requests = length rows;
        })
      (recent_entry user cost model tokens r (interval period) now recent)

-- The report before a usage, at the time of the query that comes right after it.
abbrev pub old_report : String → String → ℤ → String → ℤ → Db → UsageSummary
old_report user period cost model tokens db =
    report user period (reply (logged_pool user cost model tokens db)).now db.tables.transactions

-- The query right after the usage is answered no later than a period after the transaction was made,
-- and the new sums are int64 values.
pub record IsReported (user period : String) (cost : ℤ) (model : String) (tokens : ℤ) (db : Db)
    : Type 0 where
  pub answers : Answers (logged_pool user cost model tokens db)
  pub recent :
      (reply (logged_pool user cost model tokens db)).now
      ≤ (reply (updated_pool user (neg64 cost) db)).now + interval period
  pub tokens_fit : IsInt64 (tokens +ℤ (old_report user period cost model tokens db).total_tokens)
  pub amount_fits : IsInt64 (cost +ℤ (old_report user period cost model tokens db).total_amount)

module _ (fl : Float64) (prices : List (String × fl.Carrier)) where
  -- When the server answers the three statements of RecordUsage, with a new id for the transaction,
  -- and the balance covers the cost, which is zero or more, GetUsage right after it, if it is
  -- answered no later than a period after the transaction was made, reports the usages that the
  -- table had in the period and this one: its tokens, its cost and one request more; where the cost,
  -- the balance and the new sums are int64 values.
  pub usage_after_charge :
      (user model period : String) (tokens : ℤ) (db : Db)
      → IsCovered user (cost_of fl prices model tokens) db
      → IsLogging user (cost_of fl prices model tokens) db
      → IsReported user period (cost_of fl prices model tokens) model tokens db
      → let cost = cost_of fl prices model tokens in
        (get_usage user period (record_usage fl prices user model tokens db).1).0
        ≡ ok (with_usage tokens cost (old_report user period cost model tokens db))
  unfolding get_usage
  usage_after_charge user model period tokens db covered logging reported =
      let cost = cost_of fl prices model tokens in
      let charged = logged_pool user cost model tokens db in
      let added =
        report-charged user period cost model tokens (reply (updated_pool user (neg64 cost) db))
          (reply charged).now db.tables.transactions reported.recent in
      ap (λ (x : Result (Unit {0}) × Db). (get_usage user period x.1).0)
        (logged_lem fl prices user model tokens db covered logging)
      ∙ ap (λ (x : Result UsageSummary × Db). x.0)
          (get_usage-report user period charged reported.answers
            (subst (λ (u : UsageSummary). IsInt64 u.total_tokens) (sym added) reported.tokens_fit)
            (subst (λ (u : UsageSummary). IsInt64 u.total_amount) (sym added) reported.amount_fits))
      ∙ ap ok added
