-- ===== src/Tests/Auth.antt =====
-- Runs of the auth service.
use llm_proxy_study_project.Prelude.{
  none, some, false, [], ◌∷◌, ◌≡◌, refl, ◌==◌, ◌<>◌, if◌then◌else◌, eqb,
}
use llm_proxy_study_project.Go.Effect.{ok}
use llm_proxy_study_project.Auth.Store.{
  User, ApiKey, Tables, Db, find, has_hash, has_user_id, has_email,
}
use llm_proxy_study_project.Auth.Store
use llm_proxy_study_project.Auth.Service.{
  Crypto, RegisterResult, register, validate_api_key, generate_and_store_api_key,
}
use llm_proxy_study_project.Auth.Service.Registration.{Registered, register-Registered}
use llm_proxy_study_project.Auth.Service.Validation.{
  IsAnswered, Validated, key_row, register_then_validate, validate-Validated,
}

abbrev pub crypto : Crypto
crypto = record {
  hash_password = λ password draw. ok ("bcrypt:" <> password);
  compare_password = λ hash password.
      if hash == ("bcrypt:" <> password) then none else some "crypto/bcrypt: mismatch";
  sha256_hex = λ text. "sha256:" <> text;
  random_hex = λ draw. ok (if eqb draw 1 then "key one" else "key");
  sign = λ claims secret. ok "token";
  is_hmac = λ token. token == "token";
  verify = λ token secret now.
      if secret == "s"
      then some (record { user_id = some "u9"; role = some "user"; exp = now })
      else none;
}

abbrev pub ann : User
ann = record {
  id = "u1";
  email = "ann@example.org";
  password_hash = "bcrypt:a";
  role = "admin";
  created_at = 1;
}

abbrev pub first_key : ApiKey
first_key = record {
  id = "k1";
  user_id = "u1";
  key_hash = "sha256:key";
  name = "default";
  revoked = false;
  created_at = 1;
}

abbrev second_key : ApiKey
second_key = record first_key { id = "k2"; key_hash = "sha256:key two" }

-- A server that answers, with the ids "id0" and "id1" first.
abbrev pub db : Db
db = record {
  tables = record { users = ann ∷ []; api_keys = first_key ∷ second_key ∷ [] };
  replies = λ n. record { fault = none; id = if eqb n 0 then "id0" else "id1"; now = 5 };
  sent = 0;
}

abbrev bob : User
bob = record {
  id = "id0";
  email = "bob@example.org";
  password_hash = "bcrypt:b";
  role = "user";
  created_at = 5;
}

abbrev bob_registered : RegisterResult
bob_registered = record { user = bob; api_key = "key one" }

registered_db : Db
registered_db = (register crypto "bob@example.org" "b" db).1

bob_registers : register crypto "bob@example.org" "b" db ≡ (ok bob_registered, registered_db)
unfolding registered_db register generate_and_store_api_key Store.create_user Store.create_api_key
    find
bob_registers = refl

bob_new : find (has_hash (crypto.sha256_hex "key one")) db.tables.api_keys ≡ none
unfolding find
bob_new = refl

bob-IsAnswered : IsAnswered registered_db
unfolding registered_db register generate_and_store_api_key Store.create_user Store.create_api_key
    find
bob-IsAnswered = record { key = refl; user = refl }

register_then_validate_example :
    (validate_api_key crypto "key one" registered_db).0
    ≡ ok (record { user_id = "id0"; role = "user" })
register_then_validate_example =
    register_then_validate crypto "bob@example.org" "b" db registered_db bob_registered
      bob_registers bob_new bob-IsAnswered

register-Registered_example :
    Registered crypto "ann@example.org" db (register crypto "ann@example.org" "b" db)
register-Registered_example = register-Registered crypto "ann@example.org" "b" db

validate-Validated_example : Validated crypto "key" db (validate_api_key crypto "key" db)
validate-Validated_example = validate-Validated crypto "key" db

pub first_found : key_row crypto "key" db.tables ≡ some first_key
unfolding find
first_found = refl
