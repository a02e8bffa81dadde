-- ===== src/Billing/Service/Calls/Debts.antt =====
-- What holds of the balances while calls of RecordUsage interleave.
use llm_proxy_study_project.Prelude.{
  ℕ, zero, suc, String, List, [], ◌∷◌, ◌≡◌, refl, sym, ap, subst, if◌then◌else◌, Bool, true, false,
  ◌==◌, arith, All, eq_iff, Bool-cases, inl, inr,
}
use llm_proxy_study_project.Prelude.Int.{ℤ, pos, ◌+ℤ◌, ◌-ℤ◌, ◌≤ℤ◌, int_laws, parts_of_eq}
use llm_proxy_study_project.Go.Effect.{Result, ok, err}
use llm_proxy_study_project.Go.Int64.{IsInt64, neg64, neg64_of_nonneg}
use llm_proxy_study_project.Go.Float.{Float64}
use llm_proxy_study_project.Go.Postgres.{sent_with}
use llm_proxy_study_project.Billing.Store.{Db, Tables, amount_of, or_zero}
use llm_proxy_study_project.Billing.Store.Laws.{
  balance_of, read_balance, get_balance_lem, Updated, moved, kept, update_balance-Updated,
}
use llm_proxy_study_project.Billing.Store.Entries.{
  Created, logged, dropped, create_transaction-Created,
}
use llm_proxy_study_project.Billing.Service.Ledger.{net, net_of}
use llm_proxy_study_project.Billing.Service.Calls.{
  Stage, reading, updating, logging, finished, unlogged, Call, after_read, after_update,
  after_insert, cost, next_stage, advance, advance_at, interleave,
}

-- Whether a call has taken its cost from the balance without recording it.
abbrev pub is_open : Stage → Bool
is_open logging = true
is_open (unlogged _) = true
is_open _ = false

module _ (fl : Float64) (prices : List (String × fl.Carrier)) where
  abbrev owed_at : String → Call → Stage → ℤ
  owed_at j c stage =
      if is_open stage then (if c.user == j then cost fl prices c else pos 0) else pos 0

  -- What a call has taken from a user's balance and not recorded.
  abbrev pub owed : String → Call → ℤ
  owed j c = owed_at j c c.stage

  unfoldable pub owed_all : String → List Call → ℤ
  owed_all j [] = pos 0
  owed_all j (c ∷ cs) = owed j c +ℤ owed_all j cs

  -- The costs of the calls are int64 values of zero or more.
  abbrev pub IsPricedCall : Call → Type 0
  IsPricedCall c = IsInt64 (cost fl prices c) × (pos 0 ≤ℤ cost fl prices c)

  -- Each balance, with what the calls have taken and not recorded, is the sum of the transactions.
  abbrev pub IsAccounted : List Call → Db → Type 0
  IsAccounted cs db = (j : String) → balance_of j db +ℤ owed_all j cs ≡ net_of j db

  -- A step has changed the balance, the debt of its call and the sum of the transactions alike.
  abbrev IsBooked : Call → Stage → Db → Stage × Db → Type 0
  IsBooked c old db x =
      (j : String)
      → balance_of j x.1 +ℤ owed_at j c x.0 +ℤ net_of j db
        ≡ balance_of j db +ℤ owed_at j c old +ℤ net_of j x.1

  same_tables :
      (c : Call) (old stage : Stage) (db db' : Db)
      → db'.tables ≡ db.tables
      → is_open stage ≡ is_open old
      → IsBooked c old db (stage, db')
  same_tables c old stage db db' same debt j =
      let balance : balance_of j db' ≡ balance_of j db =
        ap (λ (t : Tables). or_zero (amount_of j t.balances)) same in
      let sum : net_of j db' ≡ net_of j db = ap (λ (t : Tables). net j t.transactions) same in
      rw (balance, sum, debt) refl

  closed : (cost : ℤ) (r : Result ℤ) → is_open (after_read cost r) ≡ false
  closed cost (err e) = refl
  closed cost (ok balance) = ground arith

  read-IsBooked : (c : Call) (db : Db) → IsBooked c reading db (next_stage fl prices reading c db)
  read-IsBooked c db =
      let read = read_balance c.user db in
      subst (λ (r : Result ℤ × Db). IsBooked c reading db (after_read (cost fl prices c) r.0, r.1))
        (sym (get_balance_lem c.user db))
        (same_tables c reading (after_read (cost fl prices c) (ok read)) db (sent_with db db.tables)
          refl (closed (cost fl prices c) (ok read)))

  taken : (b d n : ℤ) → b +ℤ (pos 0 -ℤ d) +ℤ d +ℤ n ≡ b +ℤ pos 0 +ℤ n
  taken b d n = omega int_laws

  recorded : (b d n : ℤ) → b +ℤ pos 0 +ℤ n ≡ b +ℤ d +ℤ (pos 0 -ℤ d +ℤ n)
  recorded b d n = omega int_laws

  update-IsBooked :
      (c : Call) (db : Db) {r : Result (Unit {0}) × Db}
      → IsPricedCall c
      → Updated c.user (neg64 (cost fl prices c)) db r
      → IsBooked c updating db (after_update r.0, r.1)
  update-IsBooked c db _ (kept {e} {db'} same _) j =
      same_tables c updating (finished (err e)) db db' same refl j
  update-IsBooked c db (fits, nonneg) (moved {db'} m _) j =
      let sum : net_of j db' ≡ net_of j db = ap (net j) m.transactions in
      let minus = neg64_of_nonneg (cost fl prices c) fits nonneg in
      rw (m.balance j, sum)
        (elim (Bool-cases (c.user == j)) [
          | inl same ↦
              let e : c.user ≡ j = (eq_iff c.user j).0 same in
              rw (same, minus, sym e)
                (taken (balance_of c.user db) (cost fl prices c) (net_of c.user db))
          | inr other ↦ rw other refl
        ])

  insert-IsBooked :
      (c : Call) (db : Db) {r : Result (Unit {0}) × Db}
      → Created c.user "usage" (cost fl prices c) c.model c.tokens db r
      → IsBooked c logging db (after_insert r.0, r.1)
  unfolding net
  insert-IsBooked c db (dropped {e} {db'} same _) j =
      same_tables c logging (unlogged e) db db' same refl j
  insert-IsBooked c db (logged {db'} l _) j =
      let balance : balance_of j db' ≡ balance_of j db =
        ap (λ bs. or_zero (amount_of j bs)) l.balances in
      rw (balance, l.transactions)
        (elim (Bool-cases (c.user == j)) [
          | inl same ↦ rw same (recorded (balance_of j db) (cost fl prices c) (net_of j db))
          | inr other ↦ rw other refl
        ])

  booked :
      (c : Call) (old : Stage) (db : Db)
      → IsPricedCall c
      → IsBooked c old db (next_stage fl prices old c db)
  booked c reading db priced j = read-IsBooked c db j
  booked c updating db priced j =
      update-IsBooked c db priced (update_balance-Updated c.user (neg64 (cost fl prices c)) db) j
  booked c logging db priced j =
      insert-IsBooked c db
        (create_transaction-Created c.user "usage" (cost fl prices c) c.model c.tokens db) j
  booked c (finished r) db priced j = refl
  booked c (unlogged e) db priced j = refl

  first_of_sum :
      (b o n b' o' n' rest : ℤ)
      → b' +ℤ o' +ℤ n ≡ b +ℤ o +ℤ n'
      → b' +ℤ (o' +ℤ rest) +ℤ n ≡ b +ℤ (o +ℤ rest) +ℤ n'
  first_of_sum b o n b' o' n' rest h = omega (int_laws, parts_of_eq _ _ h)

  rest_of_sum :
      (b o n b' o' n' first : ℤ)
      → b' +ℤ o' +ℤ n ≡ b +ℤ o +ℤ n'
      → b' +ℤ (first +ℤ o') +ℤ n ≡ b +ℤ (first +ℤ o) +ℤ n'
  rest_of_sum b o n b' o' n' first h = omega (int_laws, parts_of_eq _ _ h)

  -- The debts of all calls, after the step of one.
  at_booked :
      (i : ℕ) (cs : List Call) (db : Db)
      → All IsPricedCall cs
      → (j : String)
      → let (cs', db') = advance_at fl prices i cs db in
        balance_of j db' +ℤ owed_all j cs' +ℤ net_of j db
        ≡ balance_of j db +ℤ owed_all j cs +ℤ net_of j db'
  unfolding advance_at advance owed_all
  at_booked zero [] db priced j = refl
  at_booked (suc i) [] db priced j = refl
  at_booked zero (c ∷ cs) db (priced, rest) j =
      let x = next_stage fl prices c.stage c db in
      first_of_sum (balance_of j db) (owed j c) (net_of j db) (balance_of j x.1) (owed_at j c x.0)
        (net_of j x.1) (owed_all j cs) (booked c c.stage db priced j)
  at_booked (suc i) (c ∷ cs) db (priced, rest) j =
      let next = advance_at fl prices i cs db in
      rest_of_sum (balance_of j db) (owed_all j cs) (net_of j db) (balance_of j next.1)
        (owed_all j next.0) (net_of j next.1) (owed j c) (at_booked i cs db rest j)

  at_priced :
      (i : ℕ) (cs : List Call) (db : Db)
      → All IsPricedCall cs
      → All IsPricedCall (advance_at fl prices i cs db).0
  unfolding advance_at advance
  at_priced zero [] db priced = tt
  at_priced (suc i) [] db priced = tt
  at_priced zero (c ∷ cs) db (priced, rest) = (priced, rest)
  at_priced (suc i) (c ∷ cs) db (priced, rest) = (priced, at_priced i cs db rest)

  balance_sum : (b o n b' o' n' : ℤ) → b' +ℤ o' +ℤ n ≡ b +ℤ o +ℤ n' → b +ℤ o ≡ n → b' +ℤ o' ≡ n'
  balance_sum b o n b' o' n' step old = omega (int_laws, parts_of_eq _ _ step, parts_of_eq _ _ old)

  -- Calls of RecordUsage at costs of zero or more may interleave in any order, and any of their
  -- statements may fail: each balance, with what calls have taken from it and not recorded, stays
  -- the sum of the transactions.
  pub interleave-IsAccounted :
      (schedule : List ℕ) (cs : List Call) (db : Db)
      → All IsPricedCall cs
      → IsAccounted cs db
      → let (cs', db') = interleave fl prices schedule cs db in IsAccounted cs' db'
  unfolding interleave
  interleave-IsAccounted [] cs db priced old = old
  interleave-IsAccounted (i ∷ is) cs db priced old =
      let next = advance_at fl prices i cs db in
      interleave-IsAccounted is next.0 next.1 (at_priced i cs db priced) (λ j.
        balance_sum (balance_of j db) (owed_all j cs) (net_of j db) (balance_of j next.1)
          (owed_all j next.0) (net_of j next.1) (at_booked i cs db priced j) (old j))
