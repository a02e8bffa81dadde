-- ===== src/Auth/Service/Validation.antt =====
-- ValidateAPIKey: who a key stands for, and keys that are new, revoked or unknown.
use llm_proxy_study_project.Prelude.{
  String, Option, none, some, Bool, true, false, ◌≡◌, refl, sym, ap, ◌∙◌, subst, eq_refl,
  if◌then◌else◌,
}
use llm_proxy_study_project.Go.Effect.{
  Error, Result, ok, err, Op, then_run, on_error, fail, or_fail, ◌>>=◌, pure,
}
use llm_proxy_study_project.Go.Postgres.{Answers, sent_with}
use llm_proxy_study_project.Auth.Store.{
  User, ApiKey, Tables, Db, find, has_user_id, has_hash, new_key, get_user_by_id,
}
use llm_proxy_study_project.Auth.Store.Laws.{
  find-append_new, get_user_by_id_found, get_api_key_by_hash_found, Looked, hit, miss,
  get_user_by_id-Looked, get_api_key_by_hash-Looked,
}
use llm_proxy_study_project.Auth.Service.{
  Crypto, RegisterResult, UserInfo, register, validate_api_key,
}
use llm_proxy_study_project.Auth.Service.Registration.{Registered, registered, register-Registered}

-- The row that a key is found by, and the one of its user.
abbrev pub key_row : Crypto → String → Tables → Option ApiKey
key_row crypto api_key t = find (has_hash (crypto.sha256_hex api_key)) t.api_keys

abbrev pub user_row : String → Tables → Option User
user_row id t = find (has_user_id id) t.users

abbrev info_of : User → UserInfo
info_of u = record { user_id = u.id; role = u.role }

-- The user of a key that has been found and tested.
abbrev read_owner : ApiKey → Op Db UserInfo
read_owner k = do user ← or_fail (get_user_by_id k.user_id) "user not found"; pure (info_of user)

abbrev checked : ApiKey → Bool → Op Db UserInfo
checked k revoked = if revoked then fail "api key revoked" else read_owner k

-- The two statements that a validation sends are answered.
pub record IsAnswered (db : Db) : Type 0 where
  pub key : Answers db
  pub user : Answers (sent_with db db.tables)

-- What the validation of a key has found.
pub record Stands (crypto : Crypto) (api_key : String) (t : Tables) (info : UserInfo) : Type 0 where
  pub key : ApiKey
  pub user : User
  pub key_found : key_row crypto api_key t ≡ some key
  pub live : key.revoked ≡ false
  pub user_found : user_row key.user_id t ≡ some user
  pub same_id : info.user_id ≡ user.id
  pub same_role : info.role ≡ user.role

pub data Validated (crypto : Crypto) (api_key : String) (db : Db)
    : Result UserInfo × Db → Type 0 where
  valid :
      {info : UserInfo} {db' : Db}
      → Stands crypto api_key db.tables info
      → db'.tables ≡ db.tables
      → Validated crypto api_key db (ok info, db')
  invalid :
      {e : Error} {db' : Db} → db'.tables ≡ db.tables → Validated crypto api_key db (err e, db')

module _ (crypto : Crypto) where
  validate_key_read :
      (api_key : String) (db : Db) {k : ApiKey} (revoked : Bool)
      → Answers db
      → key_row crypto api_key db.tables ≡ some k
      → k.revoked ≡ revoked
      → validate_api_key crypto api_key db ≡ checked k revoked (sent_with db db.tables)
  unfolding validate_api_key
  validate_key_read api_key db {k} revoked fine found state =
      ap
        (λ (r : Result ApiKey × Db).
          then_run (λ (k : ApiKey). checked k k.revoked) (on_error (λ _. err "invalid api key") r))
        (get_api_key_by_hash_found (crypto.sha256_hex api_key) db fine found)
      ∙ ap (λ b. checked k b (sent_with db db.tables)) state

  -- From a server that answers, the key of a live row is valid, and stands for the row's user.
  pub validate_live :
      (api_key : String) (db : Db) (k : ApiKey) (u : User)
      → IsAnswered db
      → key_row crypto api_key db.tables ≡ some k
      → k.revoked ≡ false
      → user_row k.user_id db.tables ≡ some u
      → (validate_api_key crypto api_key db).0 ≡ ok (record { user_id = u.id; role = u.role })
  validate_live api_key db k u answered found live owner =
      ap (λ (r : Result UserInfo × Db). r.0)
        (validate_key_read api_key db {k = k} false answered.key found live
          ∙ ap
              (λ (r : Result User × Db).
                then_run (λ (user : User). pure (info_of user))
                  (on_error (λ _. err "user not found") r))
              (get_user_by_id_found k.user_id (sent_with db db.tables) answered.user owner))

  -- From a server that answers, the key of a revoked row is refused.
  pub validate_revoked :
      (api_key : String) (db : Db) (k : ApiKey)
      → Answers db
      → key_row crypto api_key db.tables ≡ some k
      → k.revoked ≡ true
      → (validate_api_key crypto api_key db).0 ≡ err "api key revoked"
  validate_revoked api_key db k fine found revoked =
      ap (λ (r : Result UserInfo × Db). r.0)
        (validate_key_read api_key db {k = k} true fine found revoked)

  Validated-of_owner :
      (api_key : String) (db db1 : Db) (k : ApiKey) {r : Result User × Db}
      → key_row crypto api_key db.tables ≡ some k
      → k.revoked ≡ false
      → db1.tables ≡ db.tables
      → Looked (user_row k.user_id) db1 r
      → Validated crypto api_key db
          (then_run (λ (user : User). pure (info_of user)) (on_error (λ _. err "user not found") r))
  Validated-of_owner api_key db db1 k found live same (hit {a = u} owner kept) =
      valid
        (record {
          key = k;
          user = u;
          key_found = found;
          live = live;
          user_found = ap (user_row k.user_id) (sym same) ∙ owner;
          same_id = refl;
          same_role = refl;
        })
        (kept ∙ same)
  Validated-of_owner api_key db db1 k found live same (miss kept) = invalid (kept ∙ same)

  Validated-of_state :
      (api_key : String) (db db1 : Db) (k : ApiKey) (revoked : Bool)
      → key_row crypto api_key db.tables ≡ some k
      → k.revoked ≡ revoked
      → db1.tables ≡ db.tables
      → Validated crypto api_key db (checked k revoked db1)
  Validated-of_state api_key db db1 k true found state same = invalid same
  Validated-of_state api_key db db1 k false found state same =
      Validated-of_owner api_key db db1 k found state same (get_user_by_id-Looked k.user_id db1)

  Validated-of_key :
      (api_key : String) (db : Db) {r : Result ApiKey × Db}
      → Looked (key_row crypto api_key) db r
      → Validated crypto api_key db
          (then_run (λ (k : ApiKey). checked k k.revoked) (on_error (λ _. err "invalid api key") r))
  Validated-of_key api_key db (hit {a = k} {db'} found same) =
      Validated-of_state api_key db db' k k.revoked found refl same
  Validated-of_key api_key db (miss same) = invalid same

  -- ValidateAPIKey on every branch: it changes no table, and when it succeeds, the key's hash is that
  -- of a row that is not revoked, and the answer is the id and the role of that row's user.
  pub validate-Validated :
      (api_key : String) (db : Db)
      → Validated crypto api_key db (validate_api_key crypto api_key db)
  unfolding validate_api_key
  validate-Validated api_key db =
      Validated-of_key api_key db (get_api_key_by_hash-Looked (crypto.sha256_hex api_key) db)

  key_of_result :
      (email : String) (db db' : Db) (res : RegisterResult)
      → Registered crypto email db (ok res, db')
      → find (has_hash (crypto.sha256_hex res.api_key)) db.tables.api_keys ≡ none
      → (k : ApiKey) × (key_row crypto res.api_key db'.tables ≡ some k)
        × (k.revoked ≡ false)
        × (user_row k.user_id db'.tables ≡ some res.user)
        × (res.user.role ≡ "user")
  key_of_result email db db' res (registered user api_key r known id mail same) new_hash =
      let hash = crypto.sha256_hex api_key in
      let k = new_key user.id hash "default" r in
      (
        k,
        ap (key_row crypto api_key) same
            ∙ find-append_new (has_hash hash) db.tables.api_keys k new_hash (eq_refl hash),
        refl,
        ap (user_row user.id) same
            ∙ find-append_new (has_user_id user.id) db.tables.users user id (eq_refl user.id),
        known.1,
      )

  -- The key that Register returns is valid and stands for the new user, with the role "user": from
  -- a server that answers, if no older key has the same hash.
  pub register_then_validate :
      (email password : String) (db db' : Db) (res : RegisterResult)
      → register crypto email password db ≡ (ok res, db')
      → find (has_hash (crypto.sha256_hex res.api_key)) db.tables.api_keys ≡ none
      → IsAnswered db'
      → (validate_api_key crypto res.api_key db').0
        ≡ ok (record { user_id = res.user.id; role = "user" })
  register_then_validate email password db db' res done new_hash answered =
      let (k, found, live, owner, role) =
        key_of_result email db db' res
          (subst (Registered crypto email db) done (register-Registered crypto email password db))
          new_hash in
      validate_live res.api_key db' k res.user answered found live owner
      ∙ ap (λ (r : String). ok (record { user_id = res.user.id; role = r })) role
