-- ===== src/ApiKeys/Lifecycle.antt =====
-- backend/app/services/apikey_service.py with core/deps.py: a key through creation, use, revocation.
use keel_be.Prelude.{
  ℕ, String, ◌≡◌, ◌≢◌, refl, ◌∙◌, inl, inr, Option-cases, true, Option, none, some, [], ◌∷◌, arith,
  str_eq, eq_iff, select-append,
}
use keel_be.Prelude.Rows.{get, update, select-update, get-update_ne}
use keel_be.Models.Enums.{ApiKeyScope}
use keel_be.Models.ApiKey.{ApiKey, api_key_key}
use keel_be.Core.Errors.{Exc, Kind, app, app_error}
use keel_be.Core.Session.{ok, err, Exec, get_db, after}
use keel_be.Core.Principal.{Env, Db, keys_of_token, principal_from_api_key}
use keel_be.ApiKeys.{ApiKeyOut, create_key, revoke_key, key_not_found}

abbrev pub invalid_api_key : Exc
invalid_api_key = app (app_error Kind.unauthenticated "Invalid API key")

module _ (env : Env) (token : String) (w i : ℕ) (db : Db) where
  revoke_done :
      (get_db (revoke_key w i) db).0 ≡ ok tt
      → after (revoke_key w i) db
        ≡ record db { api_keys = update i (λ k. record k { revoked = true }) db.api_keys }
  unfolding get_db revoke_key
  revoke_done h = ground arith

  refused_if_revoked :
      (d : Db) (k : ApiKey)
      → keys_of_token env token d ≡ k ∷ []
      → k.revoked ≡ true
      → (get_db (principal_from_api_key env token) d).0 ≡ err invalid_api_key
  unfolding get_db principal_from_api_key
  refused_if_revoked d k only dead = ground arith

  -- After its revocation has returned, a key's secret is refused as an API key, and any other key's
  -- row is as it was.
  pub revoked_refused :
      {k : ApiKey} {j : ℕ}
      → keys_of_token env token db ≡ k ∷ []
      → k.id ≡ i
      → i ≢ j
      → (get_db (revoke_key w i) db).0 ≡ ok tt
      → ((get_db (principal_from_api_key env token) (after (revoke_key w i) db)).0
          ≡ err invalid_api_key)
        × (get j (after (revoke_key w i) db).api_keys ≡ get j db.api_keys)
  revoked_refused {k} {j} only id ne done = (
    refused_if_revoked (after (revoke_key w i) db) (record k { revoked = true })
        (rw (revoke_done done) (
          select-update (λ k. str_eq k.key_hash (env.crypto.sha256_hex token))
            (λ k. record k { revoked = true }) i db.api_keys (λ r. refl)
          ∙ rw only (ground arith)))
        refl,
    rw (revoke_done done)
        (get-update_ne i j (λ k. record k { revoked = true }) db.api_keys (λ r. refl) ne),
  )

-- A key of another workspace cannot be revoked, nor one that does not exist: the answer is 404 in both
-- cases, and nothing changes.
pub revoke_key_foreign :
    (w i : ℕ) (db : Db)
    → ((k : ApiKey) → get i db.api_keys ≡ some k → k.workspace_id ≢ w)
    → get_db (revoke_key w i) db ≡ (err key_not_found, db)
unfolding get_db revoke_key
revoke_key_foreign w i db foreign = elim (Option-cases (get i db.api_keys)) [
  | inl absent ↦ ground arith
  | inr (k, present) ↦ ground (arith, foreign k present)
]

module _ (env : Env) (id w limit : ℕ) (entropy name : String) (scope : ApiKeyScope) (by : Option ℕ)
    (db : Db) where
  abbrev creation : Exec Db (ApiKeyOut × String)
  creation = create_key env.crypto env.settings id entropy w name scope by limit

  -- The secret of a new key is accepted as an API key at once if the limiter lets it pass: with the
  -- workspace and the scope that the key was made with. (No other key may have its hash.)
  pub created_accepted :
      {secret : String} {out : ApiKeyOut}
      → (get_db creation db).0 ≡ ok (out, secret)
      → keys_of_token env secret db ≡ []
      → env.limiter id limit ≡ ok tt
      → (get_db (principal_from_api_key env secret) (after creation db)).0
        ≡ ok (record {
          workspace_id = w;
          user_id = none;
          role = none;
          api_key_id = some id;
          scope = some scope;
        })
  unfolding get_db create_key principal_from_api_key
  created_accepted made new within = grind (arith, select-append, eq_iff)
