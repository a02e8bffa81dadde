-- ===== src/Auth/Service/Later.antt =====
-- Tables of the auth service that come after others: nothing is lost, and no revocation is undone.
use llm_proxy_study_project.Prelude.{
  String, some, Bool, true, List, ◌++◌, ◌≡◌, refl, sym, ◌∙◌, subst, arith,
}
use llm_proxy_study_project.Auth.Store.{User, ApiKey, Tables, find, has_hash, mark, revoke_id}
use llm_proxy_study_project.Auth.Store.Laws.{find-append_old}
use llm_proxy_study_project.Auth.Service.Revocation.{find-revoke_id}

-- The row of a key, later: the same key of the same user, and revoked if it was.
pub record IsLaterKey (hash : String) (k : ApiKey) (t : Tables) : Type 0 where
  pub key : ApiKey
  pub found : find (has_hash hash) t.api_keys ≡ some key
  pub same_id : key.id ≡ k.id
  pub same_user : key.user_id ≡ k.user_id
  pub stays_revoked : k.revoked ≡ true → key.revoked ≡ true

-- Tables that come after others: every user that could be found is found unchanged, and every key
-- is as above.
pub record IsLater (t t' : Tables) : Type 0 where
  pub users : (p : User → Bool) (u : User) → find p t.users ≡ some u → find p t'.users ≡ some u
  pub keys :
      (hash : String) (k : ApiKey) → find (has_hash hash) t.api_keys ≡ some k → IsLaterKey hash k t'

pub IsLater-refl : (t : Tables) → IsLater t t
IsLater-refl t = record {
  users = λ p u h. h;
  keys = λ hash k h. record {
    key = k;
    found = h;
    same_id = refl;
    same_user = refl;
    stays_revoked = λ r. r;
  };
}

pub IsLater-trans : {t u v : Tables} → IsLater t u → IsLater u v → IsLater t v
IsLater-trans a b = record {
  users = λ p x h. b.users p x (a.users p x h);
  keys = λ hash k h.
      (let one = a.keys hash k h in
        let two = b.keys hash one.key one.found in
        record {
          key = two.key;
          found = two.found;
          same_id = two.same_id ∙ one.same_id;
          same_user = two.same_user ∙ one.same_user;
          stays_revoked = λ r. two.stays_revoked (one.stays_revoked r);
        });
}

pub IsLater-same : {t t' : Tables} → t' ≡ t → IsLater t t'
IsLater-same {t} same = subst (IsLater t) (sym same) (IsLater-refl t)

-- Rows that are added behind the others.
pub IsLater-append :
    (t : Tables) (us : List User) (ks : List ApiKey)
    → IsLater t (record { users = t.users ++ us; api_keys = t.api_keys ++ ks })
IsLater-append t us ks = record {
  users = λ p u h. find-append_old p t.users us u h;
  keys = λ hash k h. record {
    key = k;
    found = find-append_old (has_hash hash) t.api_keys ks k h;
    same_id = refl;
    same_user = refl;
    stays_revoked = λ r. r;
  };
}

pub IsLater-users : (t : Tables) (us : List User) → IsLater t (record t { users = t.users ++ us })
IsLater-users t us = record {
  users = λ p u h. find-append_old p t.users us u h;
  keys = λ hash k h. record {
    key = k;
    found = h;
    same_id = refl;
    same_user = refl;
    stays_revoked = λ r. r;
  };
}

pub IsLater-keys :
    (t : Tables) (ks : List ApiKey) → IsLater t (record t { api_keys = t.api_keys ++ ks })
IsLater-keys t ks = record {
  users = λ p u h. h;
  keys = λ hash k h. record {
    key = k;
    found = find-append_old (has_hash hash) t.api_keys ks k h;
    same_id = refl;
    same_user = refl;
    stays_revoked = λ r. r;
  };
}

mark_keeps :
    (id : String) (k : ApiKey) → ((mark id k).id ≡ k.id) × ((mark id k).user_id ≡ k.user_id)
mark_keeps id k = ground arith

mark_revoked : (id : String) (k : ApiKey) → k.revoked ≡ true → (mark id k).revoked ≡ true
mark_revoked id k h = ground arith

pub IsLater-revoke :
    (id : String) (t : Tables) → IsLater t (record t { api_keys = revoke_id id t.api_keys })
IsLater-revoke id t = record {
  users = λ p u h. h;
  keys = λ hash k h. record {
    key = mark id k;
    found = find-revoke_id hash id t.api_keys k h;
    same_id = (mark_keeps id k).0;
    same_user = (mark_keeps id k).1;
    stays_revoked = mark_revoked id k;
  };
}
