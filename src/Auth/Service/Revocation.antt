-- ===== src/Auth/Service/Revocation.antt =====
-- RevokeAPIKey: what it does to the key that it names, and to the others.
use llm_proxy_study_project.Prelude.{
  String, some, true, List, [], ◌∷◌, ◌≡◌, ◌≢◌, ap, ◌∙◌, ◌==◌, eq_iff, eq_refl, arith, if◌then◌else◌,
  Bool-cases, inl, inr,
}
use llm_proxy_study_project.Go.Effect.{Result, ok, err}
use llm_proxy_study_project.Go.Postgres.{Answers}
use llm_proxy_study_project.Auth.Store.{ApiKey, Db, find, has_hash, mark, revoke_id}
use llm_proxy_study_project.Auth.Store.Laws.{revoke_api_key_lem}
use llm_proxy_study_project.Auth.Service.{Crypto, validate_api_key, revoke_api_key}
use llm_proxy_study_project.Auth.Service.Validation.{key_row, validate_revoked}

mark_hash : (id : String) (k : ApiKey) → (mark id k).key_hash ≡ k.key_hash
mark_hash id k = ground arith

mark_other : (id : String) (k : ApiKey) → k.id ≢ id → mark id k ≡ k
mark_other id k other = ground (arith, eq_iff k.id id)

pub find-revoke_id :
    (hash id : String) (ks : List ApiKey) (k : ApiKey)
    → find (has_hash hash) ks ≡ some k
    → find (has_hash hash) (revoke_id id ks) ≡ some (mark id k)
unfolding find revoke_id
find-revoke_id hash id [] k h = cc
find-revoke_id hash id (x ∷ ks) k h = elim (Bool-cases (x.key_hash == hash)) [
  | inl here ↦
      let e : x ≡ k = ground arith in
      rw (ap (λ s. s == hash) (mark_hash id x) ∙ here) (ap (λ y. some (mark id y)) e)
  | inr later ↦
      let rest : find (has_hash hash) ks ≡ some k = ground arith in
      rw (ap (λ s. s == hash) (mark_hash id x) ∙ later) (find-revoke_id hash id ks k rest)
]

module _ (crypto : Crypto) where
  -- Once RevokeAPIKey has named the row of a key, that key is refused, from a server that answers.
  pub revoke_then_validate :
      (api_key : String) (db : Db) (k : ApiKey)
      → Answers db
      → Answers (revoke_api_key crypto k.id db).1
      → key_row crypto api_key db.tables ≡ some k
      → ((revoke_api_key crypto k.id db).0 ≡ ok tt)
        × ((validate_api_key crypto api_key (revoke_api_key crypto k.id db).1).0
            ≡ err "api key revoked")
  unfolding revoke_api_key
  revoke_then_validate api_key db k fine next found =
      let step = revoke_api_key_lem k.id db fine in
      let row : key_row crypto api_key (revoke_api_key crypto k.id db).1.tables
          ≡ some (mark k.id k) =
        ap (λ (r : Result (Unit {0}) × Db). key_row crypto api_key r.1.tables) step
        ∙ find-revoke_id (crypto.sha256_hex api_key) k.id db.tables.api_keys k found in
      (
        ap (λ (r : Result (Unit {0}) × Db). r.0) step,
        validate_revoked crypto api_key (revoke_api_key crypto k.id db).1 (mark k.id k) next row
            (ap (λ b. (if b then record k { revoked = true } else k).revoked) (eq_refl k.id)),
      )

  -- A row with another id than the one that RevokeAPIKey names is found by its hash as before,
  -- unchanged, from a server that answers.
  pub revoke_others :
      (hash id : String) (db : Db) (k : ApiKey)
      → Answers db
      → k.id ≢ id
      → find (has_hash hash) db.tables.api_keys ≡ some k
      → find (has_hash hash) (revoke_api_key crypto id db).1.tables.api_keys ≡ some k
  unfolding revoke_api_key
  revoke_others hash id db k fine other found =
      ap (λ (r : Result (Unit {0}) × Db). find (has_hash hash) r.1.tables.api_keys)
        (revoke_api_key_lem id db fine)
      ∙ find-revoke_id hash id db.tables.api_keys k found
      ∙ ap some (mark_other id k other)
