-- ===== src/Auth/Service/Keeping.antt =====
-- Relations between tables that every statement of the auth store keeps are kept by the service.
use llm_proxy_study_project.Prelude.{ℕ, String, Option, none, some, ◌≡◌, refl}
use llm_proxy_study_project.Go.Effect.{
  Error, Result, ok, err, Op, then_run, on_error, pure, ◌>>=◌, wrap,
}
use llm_proxy_study_project.Auth.Store.{User, ApiKey, Tables, Db}
use llm_proxy_study_project.Auth.Store
use llm_proxy_study_project.Auth.Store.Laws.{
  Looked, hit, miss, get_user_by_id-Looked, get_user_by_email-Looked,
}
use llm_proxy_study_project.Auth.Service.{
  Crypto, RegisterResult, UserInfo, claims_of, generate_and_store_api_key, register, login,
  validate_api_key, create_api_key, revoke_api_key, get_me,
}
use llm_proxy_study_project.Auth.Service.Validation.{Validated, valid, invalid, validate-Validated}

-- A relation from the tables before to the tables after, which each statement keeps.
pub record IsKept (Rel : Tables → Tables → Type 0) : Type 0 where
  pub same : {t t' : Tables} → t' ≡ t → Rel t t'
  pub chain : {t u v : Tables} → Rel t u → Rel u v → Rel t v
  pub create_user :
      (email hash role : String) (db : Db)
      → Rel db.tables (Store.create_user email hash role db).1.tables
  pub create_api_key :
      (user_id hash name : String) (db : Db)
      → Rel db.tables (Store.create_api_key user_id hash name db).1.tables
  pub revoke_api_key : (id : String) (db : Db) → Rel db.tables (Store.revoke_api_key id db).1.tables

module _ (Rel : Tables → Tables → Type 0) (h : IsKept Rel) (crypto : Crypto) where
  -- What an operation leaves, whatever it returns.
  abbrev pub Leaves : {A : Type 0} → Tables → Result A × Db → Type 0
  Leaves t x = Rel t x.1.tables

  then-Leaves :
      {A B : Type 0} (k : A → Op Db B) (t : Tables) (x : Result A × Db)
      → Leaves t x
      → ((a : A) (s : Db) → Leaves s.tables (k a s))
      → Leaves t (then_run k x)
  then-Leaves k t (ok a, s) before next = h.chain before (next a s)
  then-Leaves k t (err e, s) before next = before

  on_error-Leaves :
      {A : Type 0} (f : Error → Result A) (t : Tables) (x : Result A × Db)
      → Leaves t x
      → Leaves t (on_error f x)
  on_error-Leaves f t (ok a, s) before = before
  on_error-Leaves f t (err e, s) before = before

  generate-Leaves :
      (user_id name : String) (db : Db)
      → Leaves db.tables (generate_and_store_api_key crypto user_id name db)
  unfolding generate_and_store_api_key
  generate-Leaves user_id name db =
      then-Leaves
        (λ api_key.
          Store.create_api_key user_id (crypto.sha256_hex api_key) name >>= λ _. pure api_key)
        db.tables (crypto.random_hex db.sent, db) (h.same refl)
        λ api_key s.
          then-Leaves (λ _. pure api_key) s.tables
            (Store.create_api_key user_id (crypto.sha256_hex api_key) name s)
            (h.create_api_key user_id (crypto.sha256_hex api_key) name s) (λ _ _. h.same refl)

  pub create_api_key-Leaves :
      (user_id name : String) (db : Db) → Leaves db.tables (create_api_key crypto user_id name db)
  unfolding create_api_key
  create_api_key-Leaves user_id name db = generate-Leaves user_id name db

  issue : User → Op Db RegisterResult
  issue user = do
    api_key ← wrap "create api key" (generate_and_store_api_key crypto user.id "default")
    pure (record { user = user; api_key = api_key })

  issue-Leaves : (user : User) (db : Db) → Leaves db.tables (issue user db)
  unfolding issue
  issue-Leaves user db =
      then-Leaves (λ api_key. pure (record { user = user; api_key = api_key })) db.tables
        (on_error _ (generate_and_store_api_key crypto user.id "default" db))
        (on_error-Leaves _ db.tables _ (generate-Leaves user.id "default" db)) (λ _ _. h.same refl)

  pub register-Leaves :
      (email password : String) (db : Db) → Leaves db.tables (register crypto email password db)
  unfolding register issue
  register-Leaves email password db =
      then-Leaves (λ hash. wrap "create user" (Store.create_user email hash "user") >>= issue)
        db.tables (on_error _ (crypto.hash_password password db.sent, db))
        (on_error-Leaves _ db.tables (crypto.hash_password password db.sent, db) (h.same refl))
        λ hash s.
          then-Leaves issue s.tables (on_error _ (Store.create_user email hash "user" s))
            (on_error-Leaves _ s.tables _ (h.create_user email hash "user" s)) issue-Leaves

  pub revoke-Leaves :
      (key_id : String) (db : Db) → Leaves db.tables (revoke_api_key crypto key_id db)
  unfolding revoke_api_key
  revoke-Leaves key_id db = h.revoke_api_key key_id db

  pub validate-Leaves :
      (api_key : String) (db : Db) → Leaves db.tables (validate_api_key crypto api_key db)
  validate-Leaves api_key db = by_outcome (validate-Validated crypto api_key db)
    where
      by_outcome : {x : Result UserInfo × Db} → Validated crypto api_key db x → Leaves db.tables x
      by_outcome (valid _ same) = h.same same
      by_outcome (invalid same) = h.same same

  Looked-Leaves :
      {A : Type 0} (row : Tables → Option A) (db : Db) {x : Result A × Db}
      → Looked row db x
      → Leaves db.tables x
  Looked-Leaves row db (hit _ same) = h.same same
  Looked-Leaves row db (miss same) = h.same same

  pub get_me-Leaves : (user_id : String) (db : Db) → Leaves db.tables (get_me crypto user_id db)
  unfolding get_me
  get_me-Leaves user_id db = Looked-Leaves _ db (get_user_by_id-Looked user_id db)

  pub login-Leaves :
      (secret : String) (now : ℕ) (email password : String) (db : Db)
      → Leaves db.tables (login crypto secret now email password db)
  unfolding login
  login-Leaves secret now email password db =
      then-Leaves (λ user. by_password user (crypto.compare_password user.password_hash password))
        db.tables (on_error _ (Store.get_user_by_email email db))
        (on_error-Leaves _ db.tables _ (Looked-Leaves _ db (get_user_by_email-Looked email db)))
        λ user s. by_password-Leaves user _ s
    where
      by_password : User → Option Error → Op Db String
      by_password user (some _) s = (err "invalid credentials", s)
      by_password user none s = (crypto.sign (claims_of crypto user now) secret, s)

      by_password-Leaves :
          (user : User) (verdict : Option Error) (s : Db)
          → Leaves s.tables (by_password user verdict s)
      by_password-Leaves user (some _) s = h.same refl
      by_password-Leaves user none s = h.same refl
