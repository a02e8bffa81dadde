-- ===== src/Auth/Store/Laws.antt =====
-- The statements of the auth store: what an insert that succeeds has found and added, and lookups.
use llm_proxy_study_project.Prelude.{
  String, Option, none, some, Bool, true, List, [], ◌∷◌, ◌++◌, ◌≡◌, refl, arith,
}
use llm_proxy_study_project.Go.Effect.{Error, Result, ok, err}
use llm_proxy_study_project.Go.Postgres.{
  Reply, Answers, Ran, faulted, refused, ran, statement-Ran, statement-eq-ok, reply, sent_with,
  statement_faulted,
}
use llm_proxy_study_project.Auth.Store.{
  User, ApiKey, Tables, Db, find, any, has_user_id, has_email, has_key_id, has_hash, new_user,
  new_key, insert_user, insert_key, select_user, select_key, create_user, create_api_key,
  get_user_by_email, get_user_by_id, get_api_key_by_hash, revoke_api_key, revoke_id, update_revoked,
}

module _ {ℓ} {A : Type ℓ} (p : A → Bool) where
  pub find-append_old : (xs ys : List A) (a : A) → find p xs ≡ some a → find p (xs ++ ys) ≡ some a
  unfolding find
  find-append_old [] ys a h = cc
  find-append_old (x ∷ xs) ys a h = ground (arith, find-append_old xs ys a)

  pub find-append_new :
      (xs : List A) (a : A) → find p xs ≡ none → p a ≡ true → find p (xs ++ a ∷ []) ≡ some a
  unfolding find
  find-append_new [] a h e = rw e refl
  find-append_new (x ∷ xs) a h e = ground (arith, find-append_new xs a)

insert_user-eq-ok :
    (email hash role : String) (r : Reply) (t t' : Tables) (u : User)
    → insert_user email hash role r t ≡ ok (u, t')
    → (find (has_user_id r.id) t.users ≡ none)
      × (find (has_email email) t.users ≡ none)
      × (u ≡ new_user email hash role r)
      × (t' ≡ record t { users = t.users ++ new_user email hash role r ∷ [] })
unfolding insert_user
insert_user-eq-ok email hash role r t t' u h = ground arith

insert_key-eq-ok :
    (user_id hash name : String) (r : Reply) (t t' : Tables) (k : ApiKey)
    → insert_key user_id hash name r t ≡ ok (k, t')
    → (find (has_key_id r.id) t.api_keys ≡ none)
      × (any (has_user_id user_id) t.users ≡ true)
      × (k ≡ new_key user_id hash name r)
      × (t' ≡ record t { api_keys = t.api_keys ++ new_key user_id hash name r ∷ [] })
unfolding insert_key
insert_key-eq-ok user_id hash name r t t' k h = ground arith

-- What the insertion of a user comes to, on every branch.
pub data Inserted (email hash role : String) (db : Db) : Result User × Db → Type 0 where
  inserted :
      {db' : Db} (r : Reply)
      → find (has_user_id r.id) db.tables.users ≡ none
      → find (has_email email) db.tables.users ≡ none
      → db'.tables
        ≡ record (db.tables) { users = db.tables.users ++ new_user email hash role r ∷ [] }
      → Inserted email hash role db (ok (new_user email hash role r), db')
  rejected :
      {e : Error} {db' : Db} → db'.tables ≡ db.tables → Inserted email hash role db (err e, db')

insert_user-Inserted :
    (email hash role : String) (db : Db) {r : Result User × Db}
    → Ran (insert_user email hash role) db r
    → Inserted email hash role db r
insert_user-Inserted email hash role db (faulted _) = rejected refl
insert_user-Inserted email hash role db (refused _ _) = rejected refl
insert_user-Inserted email hash role db (ran {a} {t} _ h) =
    let (id, mail, row, tables) = insert_user-eq-ok email hash role (reply db) db.tables t a h in
    rw row (inserted (reply db) id mail tables)

pub create_user-Inserted :
    (email hash role : String) (db : Db)
    → Inserted email hash role db (create_user email hash role db)
unfolding create_user
create_user-Inserted email hash role db =
    insert_user-Inserted email hash role db (statement-Ran (insert_user email hash role) db)

-- What the insertion of a key comes to, on every branch.
pub data Keyed (user_id hash name : String) (db : Db) : Result ApiKey × Db → Type 0 where
  keyed :
      {db' : Db} (r : Reply)
      → find (has_key_id r.id) db.tables.api_keys ≡ none
      → any (has_user_id user_id) db.tables.users ≡ true
      → db'.tables
        ≡ record (db.tables) { api_keys = db.tables.api_keys ++ new_key user_id hash name r ∷ [] }
      → Keyed user_id hash name db (ok (new_key user_id hash name r), db')
  unkeyed :
      {e : Error} {db' : Db} → db'.tables ≡ db.tables → Keyed user_id hash name db (err e, db')

insert_key-Keyed :
    (user_id hash name : String) (db : Db) {r : Result ApiKey × Db}
    → Ran (insert_key user_id hash name) db r
    → Keyed user_id hash name db r
insert_key-Keyed user_id hash name db (faulted _) = unkeyed refl
insert_key-Keyed user_id hash name db (refused _ _) = unkeyed refl
insert_key-Keyed user_id hash name db (ran {a} {t} _ h) =
    let (id, owner, row, tables) = insert_key-eq-ok user_id hash name (reply db) db.tables t a h in
    rw row (keyed (reply db) id owner tables)

pub create_api_key-Keyed :
    (user_id hash name : String) (db : Db)
    → Keyed user_id hash name db (create_api_key user_id hash name db)
unfolding create_api_key
create_api_key-Keyed user_id hash name db =
    insert_key-Keyed user_id hash name db (statement-Ran (insert_key user_id hash name) db)

-- The queries for one row, from a server that answers.
pub get_user_by_id_found :
    (id : String) (db : Db) {u : User}
    → Answers db
    → find (has_user_id id) db.tables.users ≡ some u
    → get_user_by_id id db ≡ (ok u, sent_with db db.tables)
unfolding get_user_by_id select_user
get_user_by_id_found id db fine found =
    statement-eq-ok (select_user (has_user_id id)) db fine (rw found refl)

pub get_user_by_email_found :
    (email : String) (db : Db) {u : User}
    → Answers db
    → find (has_email email) db.tables.users ≡ some u
    → get_user_by_email email db ≡ (ok u, sent_with db db.tables)
unfolding get_user_by_email select_user
get_user_by_email_found email db fine found =
    statement-eq-ok (select_user (has_email email)) db fine (rw found refl)

pub get_api_key_by_hash_found :
    (hash : String) (db : Db) {k : ApiKey}
    → Answers db
    → find (has_hash hash) db.tables.api_keys ≡ some k
    → get_api_key_by_hash hash db ≡ (ok k, sent_with db db.tables)
unfolding get_api_key_by_hash select_key
get_api_key_by_hash_found hash db fine found =
    statement-eq-ok (select_key hash) db fine (rw found refl)

-- What a query for one row comes to, on every branch: it changes no table.
pub data Looked {A : Type 0} (row : Tables → Option A) (db : Db) : Result A × Db → Type 0 where
  hit :
      {a : A} {db' : Db}
      → row db.tables ≡ some a
      → db'.tables ≡ db.tables
      → Looked row db (ok a, db')
  miss : {e : Error} {db' : Db} → db'.tables ≡ db.tables → Looked row db (err e, db')

select_user-eq-ok :
    (p : User → Bool) (r : Reply) (t t' : Tables) (u : User)
    → select_user p r t ≡ ok (u, t')
    → (find p t.users ≡ some u) × (t' ≡ t)
unfolding select_user
select_user-eq-ok p r t t' u h = ground arith

select_key-eq-ok :
    (hash : String) (r : Reply) (t t' : Tables) (k : ApiKey)
    → select_key hash r t ≡ ok (k, t')
    → (find (has_hash hash) t.api_keys ≡ some k) × (t' ≡ t)
unfolding select_key
select_key-eq-ok hash r t t' k h = ground arith

select_user-Looked :
    (p : User → Bool) (db : Db) {r : Result User × Db}
    → Ran (select_user p) db r
    → Looked (λ t. find p t.users) db r
select_user-Looked p db (faulted _) = miss refl
select_user-Looked p db (refused _ _) = miss refl
select_user-Looked p db (ran {a} {t} _ h) =
    let (found, same) = select_user-eq-ok p (reply db) db.tables t a h in hit found same

select_key-Looked :
    (hash : String) (db : Db) {r : Result ApiKey × Db}
    → Ran (select_key hash) db r
    → Looked (λ t. find (has_hash hash) t.api_keys) db r
select_key-Looked hash db (faulted _) = miss refl
select_key-Looked hash db (refused _ _) = miss refl
select_key-Looked hash db (ran {a} {t} _ h) =
    let (found, same) = select_key-eq-ok hash (reply db) db.tables t a h in hit found same

pub get_user_by_id-Looked :
    (id : String) (db : Db) → Looked (λ t. find (has_user_id id) t.users) db (get_user_by_id id db)
unfolding get_user_by_id
get_user_by_id-Looked id db =
    select_user-Looked (has_user_id id) db (statement-Ran (select_user (has_user_id id)) db)

pub get_user_by_email-Looked :
    (email : String) (db : Db)
    → Looked (λ t. find (has_email email) t.users) db (get_user_by_email email db)
unfolding get_user_by_email
get_user_by_email-Looked email db =
    select_user-Looked (has_email email) db (statement-Ran (select_user (has_email email)) db)

pub get_api_key_by_hash-Looked :
    (hash : String) (db : Db)
    → Looked (λ t. find (has_hash hash) t.api_keys) db (get_api_key_by_hash hash db)
unfolding get_api_key_by_hash
get_api_key_by_hash-Looked hash db = select_key-Looked hash db (statement-Ran (select_key hash) db)

pub revoke_api_key_lem :
    (id : String) (db : Db)
    → Answers db
    → revoke_api_key id db
      ≡ (ok tt, sent_with db (record (db.tables) { api_keys = revoke_id id db.tables.api_keys }))
unfolding revoke_api_key update_revoked
revoke_api_key_lem id db fine = statement-eq-ok (update_revoked id) db fine refl

pub revoke_api_key_faulted :
    (id : String) (db : Db) {e : Error}
    → (reply db).fault ≡ some e
    → revoke_api_key id db ≡ (err e, sent_with db db.tables)
unfolding revoke_api_key
revoke_api_key_faulted id db h = statement_faulted (update_revoked id) db h
