-- ===== src/Billing/Service/Calls/Overdraft.antt =====
-- Two calls of RecordUsage that both read the balance before either takes its cost.
use llm_proxy_study_project.Prelude.{
  ℕ, suc, String, none, List, [], ◌∷◌, ◌≡◌, refl, ap, ◌∙◌, if◌then◌else◌, true, false, arith,
  eq_refl,
}
use llm_proxy_study_project.Prelude.Int.{ℤ, pos, ltb_ℤ, ◌+ℤ◌, ◌-ℤ◌, ◌≤ℤ◌}
use llm_proxy_study_project.Go.Effect.{Result, ok, err}
use llm_proxy_study_project.Go.Int64.{IsInt64, neg64, neg64_of_nonneg}
use llm_proxy_study_project.Go.Float.{Float64}
use llm_proxy_study_project.Go.Postgres.{sent_with, reply, Answers}
use llm_proxy_study_project.Billing.Store.{Db, upsert}
use llm_proxy_study_project.Billing.Store.Laws.{
  balance_of, read_balance, get_balance_lem, update_balance_ok, balance-upsert,
}
use llm_proxy_study_project.Billing.Service.{cost_of}
use llm_proxy_study_project.Billing.Service.Calls.{
  Stage, reading, updating, logging, finished, Call, after_read, after_update, advance, advance_at,
  interleave,
}

-- Both calls read, then both take their cost.
abbrev pub race : List ℕ
race = 0 ∷ 1 ∷ 0 ∷ 1 ∷ []

module _ (fl : Float64) (prices : List (String × fl.Carrier)) (user model : String)
    (tokens : ℤ) where
  abbrev call : Stage → Call
  call stage = record { user = user; model = model; tokens = tokens; stage = stage }

  abbrev price : ℤ
  price = cost_of fl prices model tokens

  abbrev taken_pool : Db → Db
  taken_pool db = sent_with db (record (db.tables) {
    balances = upsert user (neg64 price) (reply db).now db.tables.balances;
  })

  read_all : (db : Db) → Answers db → read_balance user db ≡ balance_of user db
  read_all db fine = rw (fine, read_balance) refl

  read_step :
      (db : Db)
      → Answers db
      → ltb_ℤ (balance_of user db) price ≡ false
      → advance fl prices (call reading) db ≡ (call updating, sent_with db db.tables)
  unfolding advance
  read_step db fine enough =
      ap (λ (r : Result ℤ × Db). (call (after_read price r.0), r.1)) (get_balance_lem user db)
      ∙ ap (λ b. (call (after_read price (ok b)), sent_with db db.tables)) (read_all db fine)
      ∙ ap
          (λ short. (
            call (if short then finished (err "insufficient balance") else updating),
            sent_with db db.tables,
          ))
          enough

  update_step :
      (db : Db)
      → Answers db
      → IsInt64 (balance_of user db +ℤ neg64 price)
      → advance fl prices (call updating) db ≡ (call logging, taken_pool db)
  unfolding advance
  update_step db fine fits =
      ap (λ (r : Result (Unit {0}) × Db). (call (after_update r.0), r.1))
        (update_balance_ok user (neg64 price) db fine fits)

  balance_taken : (db : Db) → balance_of user (taken_pool db) ≡ balance_of user db +ℤ neg64 price
  balance_taken db =
      balance-upsert user user (neg64 price) (reply db).now db.tables.balances
      ∙ ap (λ b. if b then balance_of user db +ℤ neg64 price else balance_of user db) (eq_refl user)

  abbrev start : List Call
  start = call reading ∷ call reading ∷ []

  -- What the race needs of the database: a server that answers, and a balance that covers the cost
  -- of one call.
  pub record IsRacing (db : Db) : Type 0 where
    pub answers : (n : ℕ) → (db.replies n).fault ≡ none
    pub fits : IsInt64 price
    pub nonneg : pos 0 ≤ℤ price
    pub balance_fits : IsInt64 (balance_of user db)
    pub enough : ltb_ℤ (balance_of user db) price ≡ false

  once_fits :
      (b p : ℤ)
      → IsInt64 b
      → IsInt64 p
      → pos 0 ≤ℤ p
      → ltb_ℤ b p ≡ false
      → IsInt64 (b +ℤ neg64 p) × IsInt64 (b +ℤ neg64 p +ℤ neg64 p)
  unfolding ◌+ℤ◌ ◌-ℤ◌
  once_fits b p b_fits p_fits nonneg enough =
      rw (neg64_of_nonneg p p_fits nonneg) (ground arith, ground arith)

  below :
      (b p : ℤ)
      → IsInt64 p
      → pos 0 ≤ℤ p
      → ltb_ℤ (b +ℤ neg64 p) p ≡ true
      → ltb_ℤ (b +ℤ neg64 p +ℤ neg64 p) (pos 0) ≡ true
  unfolding ◌+ℤ◌ ◌-ℤ◌
  below b p fits nonneg short =
      rw (neg64_of_nonneg p fits nonneg)
        (ground (arith, rw (neg64_of_nonneg p fits nonneg) at short))

  abbrev after_reads : Db → Db
  after_reads db = sent_with (sent_with db db.tables) db.tables

  race_lem :
      (db : Db)
      → IsRacing db
      → interleave fl prices race start db
        ≡ (call logging ∷ call logging ∷ [], taken_pool (taken_pool (after_reads db)))
  unfolding interleave advance_at
  race_lem db h =
      let (once, twice) =
        once_fits (balance_of user db) price h.balance_fits h.fits h.nonneg h.enough in
      let db1 = sent_with db db.tables in
      let db2 = after_reads db in
      let db3 = taken_pool db2 in
      let second_fits : IsInt64 (balance_of user db3 +ℤ neg64 price) =
        rw (balance_taken db2) twice in
      rw
        (
          interleave,
          read_step db (h.answers db.sent) h.enough,
          read_step db1 (h.answers (suc db.sent)) h.enough,
          update_step db2 (h.answers (suc (suc db.sent))) once,
          update_step db3 (h.answers (suc (suc (suc db.sent)))) second_fits,
        )
        refl

  -- Two equal calls, at a cost of zero or more, of a user whose balance covers the cost once and
  -- not twice, on a server that answers: if both read the balance before either takes its cost,
  -- both take it, and the balance is below zero.
  pub race_overdraws :
      (db : Db)
      → IsRacing db
      → ltb_ℤ (balance_of user db +ℤ neg64 price) price ≡ true
      → let (cs, db') = interleave fl prices race start db in
        (cs ≡ call logging ∷ call logging ∷ [])
        × (balance_of user db' ≡ balance_of user db +ℤ neg64 price +ℤ neg64 price)
        × (ltb_ℤ (balance_of user db') (pos 0) ≡ true)
  race_overdraws db h short =
      let db2 = after_reads db in
      let balance : balance_of user (taken_pool (taken_pool db2))
          ≡ balance_of user db +ℤ neg64 price +ℤ neg64 price =
        balance_taken (taken_pool db2) ∙ ap (λ b. b +ℤ neg64 price) (balance_taken db2) in
      rw (race_lem db h)
        (refl, balance, rw balance (below (balance_of user db) price h.fits h.nonneg short))
