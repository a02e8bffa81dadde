-- ===== src/Auth/Service/Registration.antt =====
-- Register, and what can be done with its result.
use llm_proxy_study_project.Prelude.{String, none, [], ◌∷◌, ◌++◌, ◌≡◌, refl, ap, ◌∙◌, ◌<>◌}
use llm_proxy_study_project.Go.Effect.{
  Error, Result, ok, err, Op, then_run, on_error, ◌>>=◌, wrap, pure,
}
use llm_proxy_study_project.Go.Postgres.{Reply}
use llm_proxy_study_project.Auth.Store.{
  User, ApiKey, Tables, Db, find, has_user_id, has_email, new_user, new_key, create_user,
  create_api_key,
}
use llm_proxy_study_project.Auth.Store.Laws.{
  Inserted, inserted, rejected, create_user-Inserted, Keyed, keyed, unkeyed, create_api_key-Keyed,
}
use llm_proxy_study_project.Auth.Service.{
  Crypto, RegisterResult, generate_and_store_api_key, register,
}

module _ (crypto : Crypto) where
  -- A key is handed out only if the row with its hash has been added.
  pub data Issued (user_id name : String) (db : Db) : Result String × Db → Type 0 where
    issued :
        {db' : Db} (api_key : String) (r : Reply)
        → db'.tables ≡ record (db.tables) {
          api_keys = db.tables.api_keys ++ new_key user_id (crypto.sha256_hex api_key) name r ∷ [];
        }
        → Issued user_id name db (ok api_key, db')
    withheld : {e : Error} {db' : Db} → db'.tables ≡ db.tables → Issued user_id name db (err e, db')

  Issued-of_Keyed :
      (user_id name api_key : String) (db : Db) {r : Result ApiKey × Db}
      → Keyed user_id (crypto.sha256_hex api_key) name db r
      → Issued user_id name db (then_run (λ _. pure api_key) r)
  Issued-of_Keyed user_id name api_key db (keyed r _ _ same) = issued api_key r same
  Issued-of_Keyed user_id name api_key db (unkeyed same) = withheld same

  Issued-of_random :
      (user_id name : String) (db : Db) (random : Result String)
      → Issued user_id name db (
          then_run
            (λ api_key.
              create_api_key user_id (crypto.sha256_hex api_key) name >>= λ _. pure api_key)
            (random, db))
  Issued-of_random user_id name db (ok api_key) =
      Issued-of_Keyed user_id name api_key db
        (create_api_key-Keyed user_id (crypto.sha256_hex api_key) name db)
  Issued-of_random user_id name db (err e) = withheld refl

  pub generate-Issued :
      (user_id name : String) (db : Db)
      → Issued user_id name db (generate_and_store_api_key crypto user_id name db)
  unfolding generate_and_store_api_key
  generate-Issued user_id name db = Issued-of_random user_id name db (crypto.random_hex db.sent)

  -- What Register comes to: nothing, a user without a key, or a user with a key.
  pub data Registered (email : String) (db : Db) : Result RegisterResult × Db → Type 0 where
    registered :
        {db' : Db} (user : User) (api_key : String) (r : Reply)
        → (user.email ≡ email) × (user.role ≡ "user")
        → find (has_user_id user.id) db.tables.users ≡ none
        → find (has_email email) db.tables.users ≡ none
        → db'.tables ≡ record {
          users = db.tables.users ++ user ∷ [];
          api_keys =
              db.tables.api_keys ++ new_key user.id (crypto.sha256_hex api_key) "default" r ∷ [];
        }
        → Registered email db (ok (record { user = user; api_key = api_key }), db')
    keyless :
        {e : Error} {db' : Db} (user : User)
        → user.email ≡ email
        → find (has_email email) db.tables.users ≡ none
        → db'.tables ≡ record (db.tables) { users = db.tables.users ++ user ∷ [] }
        → Registered email db (err e, db')
    unregistered :
        {e : Error} {db' : Db} → db'.tables ≡ db.tables → Registered email db (err e, db')

  Registered-of_Issued :
      (email hash : String) (r : Reply) (db db1 : Db) {res : Result String × Db}
      → find (has_user_id r.id) db.tables.users ≡ none
      → find (has_email email) db.tables.users ≡ none
      → db1.tables
        ≡ record (db.tables) { users = db.tables.users ++ new_user email hash "user" r ∷ [] }
      → Issued r.id "default" db1 res
      → Registered email db (
          then_run
            (λ api_key. pure (record { user = new_user email hash "user" r; api_key = api_key }))
            (on_error (λ e. err ("create api key" <> ": " <> e)) res))
  Registered-of_Issued email hash r db db1 id mail same (issued api_key k added) =
      registered (new_user email hash "user" r) api_key k (refl, refl) id mail
        (added
          ∙ ap
              (λ (t : Tables).
                let t' : Tables = record t {
                  api_keys =
                      t.api_keys ++ new_key r.id (crypto.sha256_hex api_key) "default" k ∷ [];
                } in
                t')
              same)
  Registered-of_Issued email hash r db db1 id mail same (withheld kept) =
      keyless (new_user email hash "user" r) refl mail (kept ∙ same)

  abbrev issue_for : User → Op Db RegisterResult
  issue_for user = do
    api_key ← wrap "create api key" (generate_and_store_api_key crypto user.id "default")
    pure (record { user = user; api_key = api_key })

  Registered-of_Inserted :
      (email hash : String) (db : Db) {res : Result User × Db}
      → Inserted email hash "user" db res
      → Registered email db
          (then_run issue_for (on_error (λ e. err ("create user" <> ": " <> e)) res))
  Registered-of_Inserted email hash db (inserted {db'} r id mail same) =
      Registered-of_Issued email hash r db db' id mail same (generate-Issued r.id "default" db')
  Registered-of_Inserted email hash db (rejected same) = unregistered same

  abbrev store_user : String → String → Op Db RegisterResult
  store_user email hash = do
    user ← wrap "create user" (create_user email hash "user")
    issue_for user

  Registered-of_hash :
      (email : String) (db : Db) (hashed : Result String)
      → Registered email db (
          then_run
            (store_user email)
            (on_error (λ e. err ("hash password" <> ": " <> e)) (hashed, db)))
  Registered-of_hash email db (ok hash) =
      Registered-of_Inserted email hash db (create_user-Inserted email hash "user" db)
  Registered-of_hash email db (err e) = unregistered refl

  -- Register on every branch: on success one user with the given email and the role "user" has been
  -- added, whose id and email no user had, and one key of that user that is held by its hash alone;
  -- on an error either no table has changed, or the user has been added without a key.
  pub register-Registered :
      (email password : String) (db : Db) → Registered email db (register crypto email password db)
  unfolding register
  register-Registered email password db =
      Registered-of_hash email db (crypto.hash_password password db.sent)
