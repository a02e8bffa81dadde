-- ===== src/Auth/Handler/Keeping.antt =====
-- What each handler of the auth service, and each route, leaves of the tables.
use llm_proxy_study_project.Prelude.{
  if_lem, ℕ, ◌/◌, String, Option, none, some, ◌≡◌, refl, sym, subst, has_prefix, trim_prefix,
}
use llm_proxy_study_project.Go.Effect.{Result, ok, err}
use llm_proxy_study_project.Go.Http.{Request, Response, Handler}
use llm_proxy_study_project.Stats.{Stats, stats_handler, middleware}
use llm_proxy_study_project.Auth.Store.{Tables, Db}
use llm_proxy_study_project.Auth.Service.{Crypto, parse_jwt}
use llm_proxy_study_project.Auth.Service.Keeping.{
  IsKept, register-Leaves, create_api_key-Leaves, validate-Leaves, revoke-Leaves, get_me-Leaves,
  login-Leaves,
}
use llm_proxy_study_project.Auth.Handler.Routes.{
  Routed, missing, other_method, statistics, measured, healthy, registers, logs_in, validates,
  creates, revokes, profiles, route-Routed,
}
use llm_proxy_study_project.Auth.Handler.{
  registered_answer, token_answer, validated_answer, key_answer, revoked_answer, me_answer,
  decode_credentials, decode_name, shown_key, register, log_in, validate, create_api_key,
  revoke_api_key, me, jwt_middleware, route, router,
}

option_lem :
    {A B : Type 0} (P : B → Type 0) (o : Option A) {f : A → B} {b : B}
    → P b
    → ((a : A) → P (f a))
    → P (elim o [ none ↦ b | some a ↦ f a ])
option_lem P none p q = p
option_lem P (some a) p q = q a

module _ (Rel : Tables → Tables → Type 0) (h : IsKept Rel) (crypto : Crypto) (jwt_secret : String)
    (format_time : ℕ → String) where
  abbrev KeepsAt : Db → Response × Db → Type 0
  KeepsAt db x = Rel db.tables x.1.tables

  record IsKeeper (handler : Handler Db) : Type 0 where
    keeps : (r : Request) (db : Db) → KeepsAt db (handler r db)

  -- The same, with the statistics, which are left alone.
  pub record KeepsIn (st : Stats) (db : Db) (x : Response × (Stats × Db)) : Type 0 where
    pub later : Rel db.tables x.1.1.tables
    pub counts : x.1.0 ≡ st

  -- An answer that passes the database on.
  answer-KeepsAt :
      {A : Type 0} (answer : Result A × Db → Response × Db) (db : Db) (x : Result A × Db)
      → ((a : A) (s : Db) → (answer (ok a, s)).1 ≡ s)
      → ((e : String) (s : Db) → (answer (err e, s)).1 ≡ s)
      → Rel db.tables x.1.tables
      → KeepsAt db (answer x)
  answer-KeepsAt answer db (ok a, s) well badly left =
      subst (λ (d : Db). Rel db.tables d.tables) (sym (well a s)) left
  answer-KeepsAt answer db (err e, s) well badly left =
      subst (λ (d : Db). Rel db.tables d.tables) (sym (badly e s)) left

  register-IsKeeper : IsKeeper (register crypto jwt_secret format_time)
  unfolding register
  register-IsKeeper = record {
    keeps = λ r db.
        option_lem (KeepsAt db) (decode_credentials r.body) (h.same refl) λ (email, password).
          answer-KeepsAt (registered_answer crypto jwt_secret format_time) db _ (λ _ _. refl)
            (λ _ _. refl) (register-Leaves Rel h crypto email password db);
  }

  log_in-IsKeeper : IsKeeper (log_in crypto jwt_secret format_time)
  unfolding log_in
  log_in-IsKeeper = record {
    keeps = λ r db.
        option_lem (KeepsAt db) (decode_credentials r.body) (h.same refl) λ (email, password).
          answer-KeepsAt (token_answer crypto jwt_secret format_time) db _ (λ _ _. refl)
            (λ _ _. refl)
            (login-Leaves Rel h crypto jwt_secret (r.now / 1000000) email password db);
  }

  validate-IsKeeper : IsKeeper (validate crypto jwt_secret format_time)
  unfolding validate
  validate-IsKeeper = record {
    keeps = λ r db.
        answer-KeepsAt (validated_answer crypto jwt_secret format_time) db _ (λ _ _. refl)
          (λ _ _. refl) (validate-Leaves Rel h crypto (shown_key r) db);
  }

  create_api_key-IsKeeper :
      (user : String) → IsKeeper (create_api_key crypto jwt_secret format_time user)
  unfolding create_api_key
  create_api_key-IsKeeper user = record {
    keeps = λ r db. option_lem (KeepsAt db) (decode_name r.body) (h.same refl) λ name.
        answer-KeepsAt (key_answer crypto jwt_secret format_time) db _ (λ _ _. refl) (λ _ _. refl)
          (create_api_key-Leaves Rel h crypto user name db);
  }

  revoke-IsKeeper :
      (key_id user : String) → IsKeeper (revoke_api_key crypto jwt_secret format_time key_id user)
  unfolding revoke_api_key
  revoke-IsKeeper key_id user = record {
    keeps = λ r db.
        answer-KeepsAt (revoked_answer crypto jwt_secret format_time) db _ (λ _ _. refl)
          (λ _ _. refl) (revoke-Leaves Rel h crypto key_id db);
  }

  me-IsKeeper : (user : String) → IsKeeper (me crypto jwt_secret format_time user)
  unfolding me
  me-IsKeeper user = record {
    keeps = λ r db.
        answer-KeepsAt (me_answer crypto jwt_secret format_time) db _ (λ _ _. refl) (λ _ _. refl)
          (get_me-Leaves Rel h crypto user db);
  }

  result_lem :
      {A B : Type 0} (P : B → Type 0) (x : Result A) {f : A → B} {b : B}
      → P b
      → ((a : A) → P (f a))
      → P (elim x [ err _ ↦ b | ok a ↦ f a ])
  result_lem P (err e) p q = p
  result_lem P (ok a) p q = q a

  jwt_middleware-IsKeeper :
      (next : String → Handler Db)
      → ((user : String) → IsKeeper (next user))
      → IsKeeper (jwt_middleware crypto jwt_secret format_time next)
  unfolding jwt_middleware
  jwt_middleware-IsKeeper next kept = record {
    keeps = λ r db.
        if_lem (KeepsAt db) (has_prefix r.authorization "Bearer ")
          (result_lem (KeepsAt db)
            (parse_jwt crypto jwt_secret (r.now / 1000000) (trim_prefix r.authorization "Bearer "))
            (h.same refl) λ (user, role). (kept user).keeps r db)
          (h.same refl);
  }

  module _ (r : Request) (st : Stats) (db : Db) where
    same : {response : Response} → KeepsIn st db (response, (st, db))
    same = record { later = h.same refl; counts = refl }

    by_keeper :
        {handler : Handler Db}
        → IsKeeper handler
        → KeepsIn st db ((handler r db).0, (st, (handler r db).1))
    by_keeper keeper = record { later = keeper.keeps r db; counts = refl }

    Routed-KeepsIn :
        {x : Response × (Stats × Db)}
        → Routed crypto jwt_secret format_time r st db x
        → KeepsIn st db x
    unfolding stats_handler
    Routed-KeepsIn missing = same
    Routed-KeepsIn other_method = same
    Routed-KeepsIn (statistics _ _) = same
    Routed-KeepsIn (measured _ _) = same
    Routed-KeepsIn (healthy _ _) = same
    Routed-KeepsIn (registers _ _) = by_keeper register-IsKeeper
    Routed-KeepsIn (logs_in _ _) = by_keeper log_in-IsKeeper
    Routed-KeepsIn (validates _ _) = by_keeper validate-IsKeeper
    Routed-KeepsIn (creates _ _) = by_keeper (
        jwt_middleware-IsKeeper (create_api_key crypto jwt_secret format_time)
          create_api_key-IsKeeper)
    Routed-KeepsIn (revokes key_id _ _) = by_keeper (
        jwt_middleware-IsKeeper (revoke_api_key crypto jwt_secret format_time key_id)
          (revoke-IsKeeper key_id))
    Routed-KeepsIn (profiles _ _) =
        by_keeper (jwt_middleware-IsKeeper (me crypto jwt_secret format_time) me-IsKeeper)

  pub route-KeepsIn :
      (r : Request) (st : Stats) (db : Db)
      → KeepsIn st db (route crypto jwt_secret format_time r (st, db))
  route-KeepsIn r st db =
      Routed-KeepsIn r st db (route-Routed crypto jwt_secret format_time r st db)

  -- A request to the auth service, whatever it is, leaves related tables.
  pub router-Rel :
      (r : Request) (s : Stats × Db)
      → Rel s.1.tables (router crypto jwt_secret format_time r s).1.1.tables
  unfolding router middleware
  router-Rel r (st, db) = (route-KeepsIn r st db).later
