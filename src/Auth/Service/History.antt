-- ===== src/Auth/Service/History.antt =====
-- What no statement of the auth store undoes.
use llm_proxy_study_project.Prelude.{String, sym, subst, Option-cases, inl, inr}
use llm_proxy_study_project.Go.Effect.{Result}
use llm_proxy_study_project.Go.Postgres.{reply}
use llm_proxy_study_project.Auth.Store.{
  User, ApiKey, Db, create_user, create_api_key, revoke_api_key,
}
use llm_proxy_study_project.Auth.Store.Laws.{
  Inserted, inserted, rejected, create_user-Inserted, Keyed, keyed, unkeyed, create_api_key-Keyed,
  revoke_api_key_lem, revoke_api_key_faulted,
}
use llm_proxy_study_project.Auth.Service.Keeping.{IsKept}
use llm_proxy_study_project.Auth.Service.Later.{
  IsLater, IsLater-refl, IsLater-trans, IsLater-same, IsLater-users, IsLater-keys, IsLater-revoke,
}

create_user-IsLater :
    (email hash role : String) (db : Db)
    → IsLater db.tables (create_user email hash role db).1.tables
create_user-IsLater email hash role db = by_outcome (create_user-Inserted email hash role db)
  where
    by_outcome :
        {x : Result User × Db} → Inserted email hash role db x → IsLater db.tables x.1.tables
    by_outcome (inserted r _ _ same) =
        subst (IsLater db.tables) (sym same) (IsLater-users db.tables _)
    by_outcome (rejected same) = IsLater-same same

create_api_key-IsLater :
    (user_id hash name : String) (db : Db)
    → IsLater db.tables (create_api_key user_id hash name db).1.tables
create_api_key-IsLater user_id hash name db = by_outcome (create_api_key-Keyed user_id hash name db)
  where
    by_outcome :
        {x : Result ApiKey × Db} → Keyed user_id hash name db x → IsLater db.tables x.1.tables
    by_outcome (keyed r _ _ same) = subst (IsLater db.tables) (sym same) (IsLater-keys db.tables _)
    by_outcome (unkeyed same) = IsLater-same same

revoke_api_key-IsLater : (id : String) (db : Db) → IsLater db.tables (revoke_api_key id db).1.tables
revoke_api_key-IsLater id db = elim (Option-cases (reply db).fault) [
  | inl fine ↦
      subst (λ (x : Result (Unit {0}) × Db). IsLater db.tables x.1.tables)
        (sym (revoke_api_key_lem id db fine)) (IsLater-revoke id db.tables)
  | inr (e, fault) ↦
      subst (λ (x : Result (Unit {0}) × Db). IsLater db.tables x.1.tables)
        (sym (revoke_api_key_faulted id db fault)) (IsLater-refl db.tables)
]

pub IsLater-IsKept : IsKept IsLater
IsLater-IsKept = record {
  same = IsLater-same;
  chain = IsLater-trans;
  create_user = create_user-IsLater;
  create_api_key = create_api_key-IsLater;
  revoke_api_key = revoke_api_key-IsLater;
}
