-- ===== src/Auth/Service.antt =====
-- internal/auth/service/service.go over the store. What bcrypt, SHA-256, the generator of random
-- bytes and the JWT library compute is an argument; randomness is drawn by the number of statements
-- sent so far, which differs at each draw.
pub mod Registration
pub mod Validation
pub mod Revocation
pub mod Later
pub mod Keeping
pub mod History
pub mod Tokens
use llm_proxy_study_project.Prelude.{
  ℕ, ◌+◌, ◌*◌, String, Option, none, some, Bool, true, false, if◌then◌else◌,
}
use llm_proxy_study_project.Go.Effect.{
  Error, Result, ok, err, Op, pure, fail, ◌>>=◌, ◌>>◌, wrap, or_fail,
}
use llm_proxy_study_project.Auth.Store.{Db, User}
use llm_proxy_study_project.Auth.Store

-- The claims of a token that are texts, and its expiry in seconds.
pub record Claims : Type 0 where
  pub user_id : Option String
  pub role : Option String
  pub exp : ℕ

pub record Crypto : Type 0 where
  -- bcrypt.GenerateFromPassword, with the salt of a draw
  pub hash_password : String → ℕ → Result String
  -- bcrypt.CompareHashAndPassword: no error, or one
  pub compare_password : String → String → Option Error
  -- hex.EncodeToString of sha256.Sum256 of a text
  pub sha256_hex : String → String
  -- hex.EncodeToString of 32 bytes from crypto/rand
  pub random_hex : ℕ → Result String
  -- jwt.NewWithClaims with HS256 and SignedString
  pub sign : Claims → String → Result String
  -- whether the method that a token names is an HMAC
  pub is_hmac : String → Bool
  -- jwt.Parse with a key, at a time in seconds: the claims of a valid token
  pub verify : String → String → ℕ → Option Claims

pub record RegisterResult : Type 0 where
  pub user : User
  pub api_key : String

-- client.UserInfo
pub record UserInfo : Type 0 where
  pub user_id : String
  pub role : String

-- A call that needs no statement.
abbrev pub lift : {A : Type 0} → (Db → Result A) → Op Db A
lift f db = (f db, db)

module _ (crypto : Crypto) where
  unfoldable pub generate_and_store_api_key : String → String → Op Db String
  generate_and_store_api_key user_id name = do
    api_key ← lift (λ db. crypto.random_hex db.sent)
    Store.create_api_key user_id (crypto.sha256_hex api_key) name
    pure api_key

  unfoldable pub register : String → String → Op Db RegisterResult
  unfolding generate_and_store_api_key
  register email password = do
    hash ← wrap "hash password" (lift (λ db. crypto.hash_password password db.sent))
    user ← wrap "create user" (Store.create_user email hash "user")
    api_key ← wrap "create api key" (generate_and_store_api_key user.id "default")
    pure (record { user = user; api_key = api_key })

  abbrev pub claims_of : User → ℕ → Claims
  claims_of user now = record {
    user_id = some user.id;
    role = some user.role;
    exp = now + 24 * 3600;
  }

  -- `now` is time.Now() in seconds.
  unfoldable pub login : String → ℕ → String → String → Op Db String
  login jwt_secret now email password = do
    user ← or_fail (Store.get_user_by_email email) "user not found"
    elim (crypto.compare_password user.password_hash password) [
      | some _ ↦ fail "invalid credentials"
      | none ↦ lift (λ _. crypto.sign (claims_of user now) jwt_secret)
    ]

  unfoldable pub validate_api_key : String → Op Db UserInfo
  validate_api_key api_key = do
    k ← or_fail (Store.get_api_key_by_hash (crypto.sha256_hex api_key)) "invalid api key"
    if k.revoked then fail "api key revoked" else do
      user ← or_fail (Store.get_user_by_id k.user_id) "user not found"
      pure (record { user_id = user.id; role = user.role })

  unfoldable pub create_api_key : String → String → Op Db String
  unfolding generate_and_store_api_key
  create_api_key user_id name = generate_and_store_api_key user_id name

  unfoldable pub revoke_api_key : String → Op Db (Unit {0})
  revoke_api_key key_id = Store.revoke_api_key key_id

  unfoldable pub get_me : String → Op Db User
  get_me user_id = Store.get_user_by_id user_id

  abbrev or_empty : Option String → String
  or_empty none = ""
  or_empty (some s) = s

  unfoldable pub parse_jwt : String → ℕ → String → Result (String × String)
  parse_jwt jwt_secret now token =
      if crypto.is_hmac token
      then elim (crypto.verify token jwt_secret now) [
        | none ↦ err "invalid token"
        | some c ↦ ok (or_empty c.user_id, or_empty c.role)
      ]
      else err "invalid token"
