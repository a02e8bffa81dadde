-- ===== src/Billing/Service/Charge.antt =====
-- RecordUsage: the price, the cost, and what is charged on each branch.
use mathlib.Core.Bool.{true≢false}
use llm_proxy_study_project.Prelude.{
  String, List, Option, none, some, ◌≡◌, ◌↔◌, subst, [], ◌∷◌, refl, sym, true, false, arith,
  if◌then◌else◌, All, Bool, Option-cases, Bool-cases, inl, inr, ◌==◌, ap, ◌∙◌, ℕ,
}
use llm_proxy_study_project.Prelude.Int.{ℤ, pos, ◌≤ℤ◌, ltb_ℤ}
use llm_proxy_study_project.Go.Effect.{Result, err, Op, fail, then_run}
use llm_proxy_study_project.Go.Int64.{neg64}
use llm_proxy_study_project.Go.Float.{Float64, FloatLaws}
use llm_proxy_study_project.Go.Postgres.{sent_with}
use llm_proxy_study_project.Billing.Store.{Db}
use llm_proxy_study_project.Billing.Store.Laws.{read_balance, get_balance_lem}
use llm_proxy_study_project.Billing.Service.{
  lookup, default_price, price_of, raw_cost, cost_of, record_usage,
}
use llm_proxy_study_project.Billing.Service.Posting.{post, Posted, post-Posted}

-- What RecordUsage can come to: a refusal that changes no table, or a posting of the cost.
pub data Charged (user : String) (cost : ℤ) (model : String) (tokens : ℤ) (db : Db)
    : Result (Unit {0}) × Db → Type 0 where
  refused :
      ltb_ℤ (read_balance user db) cost ≡ true
      → Charged user cost model tokens db (err "insufficient balance", sent_with db db.tables)
  charged :
      {r : Result (Unit {0}) × Db}
      → ltb_ℤ (read_balance user db) cost ≡ false
      → Posted user (neg64 cost) "usage" cost model tokens (sent_with db db.tables) r
      → Charged user cost model tokens db r

module _ (fl : Float64) (prices : List (String × fl.Carrier)) where
  -- What follows the test of the balance.
  abbrev pub charge : String → String → ℤ → Bool → Op Db (Unit {0})
  charge user model tokens short =
      let cost = cost_of fl prices model tokens in
      if short
      then fail "insufficient balance"
      else post user (neg64 cost) "usage" cost model tokens

  pub record_usage_lem :
      (user model : String) (tokens : ℤ) (db : Db)
      → record_usage fl prices user model tokens db
        ≡ charge user model tokens
            (ltb_ℤ (read_balance user db) (cost_of fl prices model tokens))
            (sent_with db db.tables)
  unfolding record_usage
  record_usage_lem user model tokens db =
      ap
        (then_run
          (λ balance. charge user model tokens (ltb_ℤ balance (cost_of fl prices model tokens))))
        (get_balance_lem user db)

  charge-Charged :
      (user model : String) (tokens : ℤ) (db : Db) (short : Bool)
      → ltb_ℤ (read_balance user db) (cost_of fl prices model tokens) ≡ short
      → Charged user
          (cost_of fl prices model tokens)
          model
          tokens
          db
          (charge user model tokens short (sent_with db db.tables))
  charge-Charged user model tokens db true h = refused h
  charge-Charged user model tokens db false h =
      charged h (post-Posted user _ "usage" _ model tokens _)

  -- RecordUsage on every branch: if the balance that is read is below the cost, the error is
  -- "insufficient balance" and no table changes; otherwise the cost is posted as a usage, which
  -- succeeds, changes nothing, or takes the cost from the balance without a transaction.
  pub record_usage-Charged :
      (user model : String) (tokens : ℤ) (db : Db)
      → Charged user
          (cost_of fl prices model tokens)
          model
          tokens
          db
          (record_usage fl prices user model tokens db)
  record_usage-Charged user model tokens db =
      rw (record_usage_lem user model tokens db) (charge-Charged user model tokens db _ refl)

  price_of_listed :
      (model : String) {p : fl.Carrier}
      → lookup model prices ≡ some p
      → price_of fl prices model ≡ p
  unfolding price_of
  price_of_listed model h = rw (h, price_of) refl

  module _ (laws : FloatLaws fl) where
    default_price-nonzero : (d : Option fl.Carrier) → fl.is_zero (default_price fl d) ≡ false
    unfolding default_price
    default_price-nonzero none = rw laws.is_zero-zero laws.is_zero-price
    default_price-nonzero (some p) = elim (Bool-cases (fl.is_zero p)) [
      | inl zero_price ↦ rw zero_price laws.is_zero-price
      | inr priced ↦ rw priced priced
    ]

    price_of_unlisted :
        (model : String)
        → lookup model prices ≡ none
        → fl.is_zero (price_of fl prices model) ≡ false
    unfolding price_of
    price_of_unlisted model h = rw (h, price_of) (default_price-nonzero (lookup "default" prices))

    -- The models that cost nothing are exactly those that are listed with the price zero: a model
    -- that is not listed pays the default price, or 0.03 where that is missing or zero.
    pub free_iff :
        (model : String)
        → (fl.is_zero (price_of fl prices model) ≡ true)
          ↔ ((p : fl.Carrier) × (lookup model prices ≡ some p) × (fl.is_zero p ≡ true))
    free_iff model = (
      λ free. elim (Option-cases (lookup model prices)) [
        | inl unlisted ↦ absurd (true≢false (sym free ∙ price_of_unlisted model unlisted))
        | inr (p, listed) ↦ (p, listed, rw (price_of_listed model listed) at free)
      ],
      λ (p, listed, zero_price). rw (price_of_listed model listed) zero_price,
    )

    lookup-IsNonneg :
        (model : String) (entries : List (String × fl.Carrier)) (p : fl.Carrier)
        → All (λ entry. laws.IsNonneg entry.1) entries
        → lookup model entries ≡ some p
        → laws.IsNonneg p
    unfolding lookup
    lookup-IsNonneg model [] p h e = cc
    lookup-IsNonneg model ((k, v) ∷ entries) p (here, later) e = elim (Bool-cases (k == model)) [
      | inl found ↦ subst laws.IsNonneg (ground arith) here
      | inr other ↦ lookup-IsNonneg model entries p later (rw (other) at e)
    ]

    default_price-IsNonneg :
        (d : Option fl.Carrier)
        → ((p : fl.Carrier) → d ≡ some p → laws.IsNonneg p)
        → laws.IsNonneg (default_price fl d)
    unfolding default_price
    default_price-IsNonneg none h = rw laws.is_zero-zero (laws.literal-IsNonneg 3 2)
    default_price-IsNonneg (some p) h = elim (Bool-cases (fl.is_zero p)) [
      | inl zero_price ↦ rw zero_price (laws.literal-IsNonneg 3 2)
      | inr priced ↦ rw priced (h p refl)
    ]

    price_of-IsNonneg :
        (model : String)
        → All (λ entry. laws.IsNonneg entry.1) prices
        → laws.IsNonneg (price_of fl prices model)
    unfolding price_of
    price_of-IsNonneg model h = elim (Option-cases (lookup model prices)) [
      | inl unlisted ↦
          rw (unlisted, price_of)
            (default_price-IsNonneg (lookup "default" prices)
              λ p found. lookup-IsNonneg "default" prices p h found)
      | inr (p, listed) ↦ rw (listed, price_of) (lookup-IsNonneg model prices p h listed)
    ]

    -- With prices that are not negative, a usage of zero or more tokens does not cost less than
    -- zero, where the computed cost fits int64.
    pub cost_of-nonneg :
        (model : String) (tokens : ℕ)
        → All (λ entry. laws.IsNonneg entry.1) prices
        → laws.Fits (raw_cost fl prices model (pos tokens))
        → pos 0 ≤ℤ cost_of fl prices model (pos tokens)
    unfolding cost_of raw_cost
    cost_of-nonneg model tokens h fits =
        laws.to_int64-nonneg _
          (laws.ceil-IsNonneg _ (
            laws.mul-IsNonneg _ _
              (laws.mul-IsNonneg _ _
                (laws.div-IsNonneg _ _ (laws.of_int64-IsNonneg tokens)
                  (laws.literal-IsNonneg 1000 0))
                (price_of-IsNonneg model h))
              (laws.literal-IsNonneg 100 0)))
          fits
