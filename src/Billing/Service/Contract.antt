-- ===== src/Billing/Service/Contract.antt =====
-- What the billing service promises of its accounts, and that Deposit and RecordUsage keep it,
-- whatever their statements do.
use llm_proxy_study_project.Prelude.{
  String, List, [], ◌∷◌, ◌≡◌, refl, sym, ap, ◌∙◌, false, ◌⊎◌, inl, inr, ◌==◌, if◌then◌else◌, arith,
  Option-cases, none, some,
}
use llm_proxy_study_project.Prelude.Int.{ℤ, pos, ◌+ℤ◌, ◌-ℤ◌, ◌≤ℤ◌, ltb_ℤ}
use llm_proxy_study_project.Go.Effect.{Error, Result, ok, err}
use llm_proxy_study_project.Go.Int64.{neg64}
use llm_proxy_study_project.Go.Float.{Float64}
use llm_proxy_study_project.Go.Postgres.{Reply, reply, sent_with}
use llm_proxy_study_project.Billing.Store.{Db, Tables, entry, amount_of, or_zero}
use llm_proxy_study_project.Billing.Store.Laws.{balance_of, read_balance}
use llm_proxy_study_project.Billing.Service.{deposit, cost_of, record_usage}
use llm_proxy_study_project.Billing.Service.Posting.{
  Posted, posted, untouched, unlogged, deposit-Posted,
}
use llm_proxy_study_project.Billing.Service.Charge.{Charged, refused, charged, record_usage-Charged}
use llm_proxy_study_project.Billing.Service.Ledger.{signed, net}

-- The accounts: what each user has, and the sum of what is recorded for the user.
pub record Accounts : Type 0 where
  pub balance : String → ℤ
  pub recorded : String → ℤ

-- A call of the service.
pub data Order : Type 0 where
  paying_in : String → ℤ → Order
  using : String → String → ℤ → Order

-- A sum for one user.
abbrev pub moved_by : String → ℤ → (String → ℤ) → String → ℤ
moved_by user delta amounts j = if user == j then amounts user +ℤ delta else amounts j

abbrev pub logged_by : String → ℤ → (String → ℤ) → String → ℤ
logged_by user worth sums j = if user == j then worth +ℤ sums j else sums j

-- The accounts that tables stand for.
abbrev pub accounts : Tables → Accounts
accounts t = record {
  balance = λ j. or_zero (amount_of j t.balances);
  recorded = λ j. net j t.transactions;
}

module _ (fl : Float64) (prices : List (String × fl.Carrier)) where
  abbrev pub user_of : Order → String
  user_of (paying_in user amount) = user
  user_of (using user model tokens) = user

  -- What the call moves the balance by, and what it records.
  abbrev pub delta_of : Order → ℤ
  delta_of (paying_in user amount) = amount
  delta_of (using user model tokens) = neg64 (cost_of fl prices model tokens)

  abbrev pub worth_of : Order → ℤ
  worth_of (paying_in user amount) = amount
  worth_of (using user model tokens) = pos 0 -ℤ cost_of fl prices model tokens

  -- A usage is for an account that covers it, or costs nothing.
  abbrev pub IsAllowed : Order → Accounts → Type 0
  IsAllowed (paying_in user amount) a = Unit {0}
  IsAllowed (using user model tokens) a =
      (cost_of fl prices model tokens ≤ℤ a.balance user) ⊎ (cost_of fl prices model tokens ≤ℤ pos 0)

  -- The contract of one call: a success moves the balance of its user and records as much, and
  -- nothing else; an error leaves the accounts alone, or has moved the balance without recording it.
  pub data Step (order : Order) (a b : Accounts) : Result (Unit {0}) → Type 0 where
    done :
        IsAllowed order a
        → ((j : String) → b.balance j ≡ moved_by (user_of order) (delta_of order) a.balance j)
        → ((j : String) → b.recorded j ≡ logged_by (user_of order) (worth_of order) a.recorded j)
        → Step order a b (ok tt)
    denied :
        {e : Error}
        → ((j : String) → b.balance j ≡ a.balance j)
        → ((j : String) → b.recorded j ≡ a.recorded j)
        → Step order a b (err e)
    unrecorded :
        {e : Error}
        → IsAllowed order a
        → ((j : String) → b.balance j ≡ moved_by (user_of order) (delta_of order) a.balance j)
        → ((j : String) → b.recorded j ≡ a.recorded j)
        → Step order a b (err e)

  -- The contract of calls one after the other.
  pub data Steps : List Order → Accounts → List (Result (Unit {0})) → Accounts → Type 0 where
    stay : {a : Accounts} → Steps [] a [] a
    step :
        {order : Order} {orders : List Order} {a b c : Accounts} {r : Result (Unit {0})}
        {rs : List (Result (Unit {0}))}
        → Step order a b r
        → Steps orders b rs c
        → Steps (order ∷ orders) a (r ∷ rs) c

  -- The service.
  abbrev pub perform : Order → Db → Result (Unit {0}) × Db
  perform (paying_in user amount) = deposit user amount
  perform (using user model tokens) = record_usage fl prices user model tokens

  unfoldable pub perform_all : List Order → Db → List (Result (Unit {0})) × Db
  perform_all [] db = ([], db)
  perform_all (order ∷ orders) db =
      let (r, db') = perform order db in let (rs, db'') = perform_all orders db' in (r ∷ rs, db'')

  Posted-Step :
      (order : Order) (tx_type model : String) (amount tokens : ℤ) (db : Db)
      {x : Result (Unit {0}) × Db}
      → IsAllowed order (accounts db.tables)
      → ((r : Reply)
          → signed (entry (user_of order) tx_type amount model tokens r) ≡ worth_of order)
      → Posted (user_of order) (delta_of order) tx_type amount model tokens db x
      → Step order (accounts db.tables) (accounts x.1.tables) x.0
  unfolding net
  Posted-Step order tx_type model amount tokens db may worth (posted r balance added) =
      done may balance λ j.
        ap (λ ts. net j ts) added
        ∙ ap (λ v. logged_by (user_of order) v (accounts db.tables).recorded j) (worth r)
  Posted-Step order tx_type model amount tokens db may worth (untouched kept) =
      denied (λ j. ap (λ t. (accounts t).balance j) kept)
        (λ j. ap (λ t. (accounts t).recorded j) kept)
  Posted-Step order tx_type model amount tokens db may worth (unlogged m) =
      unrecorded may m.balance (λ j. ap (λ ts. net j ts) m.transactions)

  -- A cost that a read allows is covered, or the read has failed and it is not positive.
  read_allows :
      (user model : String) (tokens : ℤ) (db : Db)
      → ltb_ℤ (read_balance user db) (cost_of fl prices model tokens) ≡ false
      → IsAllowed (using user model tokens) (accounts db.tables)
  read_allows user model tokens db h = elim (Option-cases (reply db).fault) [
    | inl fine ↦
        inl (within (balance_of user db) cost (ap (λ b. ltb_ℤ b cost) (sym (read_fine fine)) ∙ h))
    | inr (e, fault) ↦
        inr (within (pos 0) cost (ap (λ b. ltb_ℤ b cost) (sym (read_faulted e fault)) ∙ h))
  ]
    where
      cost : ℤ
      cost = cost_of fl prices model tokens

      read_fine : (reply db).fault ≡ none → read_balance user db ≡ balance_of user db
      read_fine fine = rw (fine, read_balance) refl

      read_faulted : (e : Error) → (reply db).fault ≡ some e → read_balance user db ≡ pos 0
      read_faulted e fault = rw (fault, read_balance) refl

      within : (a b : ℤ) → ltb_ℤ a b ≡ false → b ≤ℤ a
      within a b h = ground arith

  Charged-Step :
      (user model : String) (tokens : ℤ) (db : Db) {x : Result (Unit {0}) × Db}
      → Charged user (cost_of fl prices model tokens) model tokens db x
      → Step (using user model tokens) (accounts db.tables) (accounts x.1.tables) x.0
  Charged-Step user model tokens db (refused _) = denied (λ j. refl) (λ j. refl)
  Charged-Step user model tokens db (charged enough p) =
      Posted-Step (using user model tokens) "usage" model _ tokens (sent_with db db.tables)
        (read_allows user model tokens db enough) (λ r. refl) p

  perform-Step :
      (order : Order) (db : Db)
      → let (r, db') = perform order db in Step order (accounts db.tables) (accounts db'.tables) r
  perform-Step (paying_in user amount) db =
      Posted-Step (paying_in user amount) "deposit" "" amount (pos 0) db tt (λ r. refl)
        (deposit-Posted user amount db)
  perform-Step (using user model tokens) db =
      Charged-Step user model tokens db (record_usage-Charged fl prices user model tokens db)

  -- Whatever calls of Deposit and RecordUsage the service gets, and whatever faults their statements
  -- have, the results and the accounts are such as the contract allows: a success moves and records
  -- the amount for its user only, an error leaves the accounts alone or moves the balance without
  -- recording it, and a usage is charged only to a balance that covers it, or at a cost of zero or
  -- less.
  pub perform_all-Steps :
      (orders : List Order) (db : Db)
      → let (rs, db') = perform_all orders db in
        Steps orders (accounts db.tables) rs (accounts db'.tables)
  unfolding perform_all
  perform_all-Steps [] db = stay
  perform_all-Steps (order ∷ orders) db =
      step (perform-Step order db) (perform_all-Steps orders (perform order db).1)
