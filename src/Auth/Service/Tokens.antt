-- ===== src/Auth/Service/Tokens.antt =====
-- The tokens of Login, and what ParseJWT makes of them.
use llm_proxy_study_project.Prelude.{
  ℕ, ◌+◌, ◌*◌, ◌<◌, String, Option, none, some, true, ◌≡◌, refl, sym, ap, ◌∙◌,
}
use llm_proxy_study_project.Go.Effect.{Error, Result, ok, err, then_run, on_error}
use llm_proxy_study_project.Auth.Store.{User, Tables, Db, find, has_email}
use llm_proxy_study_project.Auth.Store.Laws.{Looked, hit, miss, get_user_by_email-Looked}
use llm_proxy_study_project.Auth.Service.{Crypto, Claims, claims_of, login, parse_jwt}

-- What the JWT library promises of the tokens it signs with HS256: each names an HMAC, and under
-- the same secret it gives its claims back until they expire.
pub record IsReadable (crypto : Crypto) : Type 0 where
  pub hmac :
      (claims : Claims) (secret token : String)
      → crypto.sign claims secret ≡ ok token
      → crypto.is_hmac token ≡ true
  pub claims_back :
      (claims : Claims) (secret token : String) (now : ℕ)
      → crypto.sign claims secret ≡ ok token
      → now < claims.exp
      → crypto.verify token secret now ≡ some claims

module _ (crypto : Crypto) where
  -- The user whom a token has been signed for.
  pub record IsSigned (secret : String) (now : ℕ) (email password : String) (t : Tables)
      (token : String) : Type 0 where
    pub user : User
    pub found : find (has_email email) t.users ≡ some user
    pub right : crypto.compare_password user.password_hash password ≡ none
    pub signed : crypto.sign (claims_of crypto user now) secret ≡ ok token

  -- The part of login behind the query, with the verdict on the password.
  abbrev answer_of : String → Claims → Option Error → Db → Result String × Db
  answer_of secret claims (some _) db = (err "invalid credentials", db)
  answer_of secret claims none db = (crypto.sign claims secret, db)

  answer_ok :
      (secret : String) (claims : Claims) (verdict : Option Error) (db db' : Db) (token : String)
      → answer_of secret claims verdict db ≡ (ok token, db')
      → (verdict ≡ none) × (crypto.sign claims secret ≡ ok token) × (db ≡ db')
  answer_ok secret claims none db db' token h = (refl, ap (λ x. x.0) h, ap (λ x. x.1) h)
  answer_ok secret claims (some e) db db' token h = cc

  Looked-IsSigned :
      (secret : String) (now : ℕ) (email password : String) (db db' : Db) (token : String)
      {x : Result User × Db}
      → Looked (λ t. find (has_email email) t.users) db x
      → then_run
          (λ (u : User) (s : Db).
            answer_of secret
              (claims_of crypto u now)
              (crypto.compare_password u.password_hash password)
              s)
          (on_error (λ _. err "user not found") x)
        ≡ (ok token, db')
      → IsSigned secret now email password db.tables token × (db'.tables ≡ db.tables)
  Looked-IsSigned secret now email password db db' token (hit {a = user} {db' = db1} found same) h =
      let (right, signed, last) =
        answer_ok secret (claims_of crypto user now)
          (crypto.compare_password user.password_hash password) db1 db' token h in
      (
        record { user = user; found = found; right = right; signed = signed },
        ap (λ (d : Db). d.tables) (sym last) ∙ same,
      )
  Looked-IsSigned secret now email password db db' token (miss same) h = cc

  -- Login gives a token only for a user whom the store finds by the email and whose hash the
  -- password fits; it changes no table.
  pub login-IsSigned :
      (secret : String) (now : ℕ) (email password : String) (db db' : Db) (token : String)
      → login crypto secret now email password db ≡ (ok token, db')
      → IsSigned secret now email password db.tables token × (db'.tables ≡ db.tables)
  unfolding login
  login-IsSigned secret now email password db db' token h =
      Looked-IsSigned secret now email password db db' token (get_user_by_email-Looked email db) h

  -- ParseJWT reads the id and the role of that user back, for 24 hours from the login.
  pub parse_signed :
      (secret : String) (now later : ℕ) (user : User) (token : String)
      → IsReadable crypto
      → crypto.sign (claims_of crypto user now) secret ≡ ok token
      → later < now + 24 * 3600
      → parse_jwt crypto secret later token ≡ ok (user.id, user.role)
  unfolding parse_jwt
  parse_signed secret now later user token law signed soon =
      rw
        (
          parse_jwt,
          law.hmac (claims_of crypto user now) secret token signed,
          law.claims_back (claims_of crypto user now) secret token later signed soon,
        )
        refl
