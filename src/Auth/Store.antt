-- ===== src/Auth/Store.antt =====
-- internal/auth/store/store.go over the tables of migrations/auth/001_init.sql. Rows stand in the
-- order of their insertion, which is the order in which a query without ORDER BY meets them here.
pub mod Laws
use llm_proxy_study_project.Prelude.{
  ℕ, String, Option, none, some, Bool, true, false, ◌||◌, List, [], ◌∷◌, ◌++◌, ◌==◌, if◌then◌else◌,
  leb, select,
}
use llm_proxy_study_project.Go.Effect.{Result, ok, err, Op}
use llm_proxy_study_project.Go.Postgres.{
  Reply, Pool, statement, no_rows, unique_violation, foreign_key_violation,
}

pub record User : Type 0 where
  pub id : String
  pub email : String
  pub password_hash : String
  pub role : String
  pub created_at : ℕ

pub record ApiKey : Type 0 where
  pub id : String
  pub user_id : String
  pub key_hash : String
  pub name : String
  pub revoked : Bool
  pub created_at : ℕ

pub record Tables : Type 0 where
  pub users : List User
  pub api_keys : List ApiKey

abbrev pub Db : Type 0
Db = Pool Tables

-- The first row that passes a test.
unfoldable pub find {ℓ} : {A : Type ℓ} → (A → Bool) → List A → Option A
find p [] = none
find p (x ∷ xs) = if p x then some x else find p xs

abbrev pub any {ℓ} : {A : Type ℓ} → (A → Bool) → List A → Bool
any p xs = elim (find p xs) [ none ↦ false | some _ ↦ true ]

abbrev pub has_user_id : String → User → Bool
has_user_id id u = u.id == id

abbrev pub has_email : String → User → Bool
has_email email u = u.email == email

abbrev pub has_key_id : String → ApiKey → Bool
has_key_id id k = k.id == id

abbrev pub has_hash : String → ApiKey → Bool
has_hash hash k = k.key_hash == hash

-- A query for one row: row.Scan fails if there is none.
abbrev first_row : {A : Type 0} → Option A → Tables → Result (A × Tables)
first_row none t = err no_rows
first_row (some a) t = ok (a, t)

abbrev pub new_user : String → String → String → Reply → User
new_user email password_hash role r = record {
  id = r.id;
  email = email;
  password_hash = password_hash;
  role = role;
  created_at = r.now;
}

-- `id` is the primary key of `users`, and `email` is unique.
insert_user : String → String → String → Reply → Tables → Result (User × Tables)
insert_user email password_hash role r t =
    if any (has_user_id r.id) t.users
    then err (unique_violation "users_pkey")
    else if any (has_email email) t.users
    then err (unique_violation "users_email_key")
    else ok (
      new_user email password_hash role r,
      record t { users = t.users ++ new_user email password_hash role r ∷ [] },
    )

unfoldable pub create_user : String → String → String → Op Db User
unfolding insert_user find
create_user email password_hash role = statement (insert_user email password_hash role)

select_user : (User → Bool) → Reply → Tables → Result (User × Tables)
select_user p r t = first_row (find p t.users) t

unfoldable pub get_user_by_email : String → Op Db User
unfolding select_user find
get_user_by_email email = statement (select_user (has_email email))

unfoldable pub get_user_by_id : String → Op Db User
unfolding select_user find
get_user_by_id id = statement (select_user (has_user_id id))

abbrev pub new_key : String → String → String → Reply → ApiKey
new_key user_id key_hash name r = record {
  id = r.id;
  user_id = user_id;
  key_hash = key_hash;
  name = name;
  revoked = false;
  created_at = r.now;
}

-- `id` is the primary key of `api_keys`, and `user_id` refers to a user.
insert_key : String → String → String → Reply → Tables → Result (ApiKey × Tables)
insert_key user_id key_hash name r t =
    if any (has_key_id r.id) t.api_keys
    then err (unique_violation "api_keys_pkey")
    else if any (has_user_id user_id) t.users
    then ok (
      new_key user_id key_hash name r,
      record t { api_keys = t.api_keys ++ new_key user_id key_hash name r ∷ [] },
    )
    else err (foreign_key_violation "api_keys_user_id_fkey")

unfoldable pub create_api_key : String → String → String → Op Db ApiKey
unfolding insert_key find
create_api_key user_id key_hash name = statement (insert_key user_id key_hash name)

select_key : String → Reply → Tables → Result (ApiKey × Tables)
select_key hash r t = first_row (find (has_hash hash) t.api_keys) t

unfoldable pub get_api_key_by_hash : String → Op Db ApiKey
unfolding select_key find
get_api_key_by_hash hash = statement (select_key hash)

-- ORDER BY created_at DESC; the server may list rows of one time in any order, this one is stable.
unfoldable pub insert_desc : ApiKey → List ApiKey → List ApiKey
insert_desc k [] = k ∷ []
insert_desc k (x ∷ xs) = if leb x.created_at k.created_at then k ∷ x ∷ xs else x ∷ insert_desc k xs

unfoldable pub order_desc : List ApiKey → List ApiKey
unfolding insert_desc
order_desc [] = []
order_desc (x ∷ xs) = insert_desc x (order_desc xs)

select_keys : String → Reply → Tables → Result (List ApiKey × Tables)
select_keys user_id r t =
    ok (order_desc (select (λ (k : ApiKey). k.user_id == user_id) t.api_keys), t)

unfoldable pub list_api_keys_by_user : String → Op Db (List ApiKey)
unfolding select_keys order_desc
list_api_keys_by_user user_id = statement (select_keys user_id)

-- UPDATE api_keys SET revoked = TRUE WHERE id = $1
abbrev pub mark : String → ApiKey → ApiKey
mark id k = if k.id == id then record k { revoked = true } else k

unfoldable pub revoke_id : String → List ApiKey → List ApiKey
revoke_id id [] = []
revoke_id id (k ∷ ks) = mark id k ∷ revoke_id id ks

update_revoked : String → Reply → Tables → Result (Unit {0} × Tables)
update_revoked id r t = ok (tt, record t { api_keys = revoke_id id t.api_keys })

unfoldable pub revoke_api_key : String → Op Db (Unit {0})
unfolding update_revoked revoke_id
revoke_api_key id = statement (update_revoked id)
