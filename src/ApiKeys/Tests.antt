-- ===== src/ApiKeys/Tests.antt =====
-- A key made, used and revoked.
use keel_be.Prelude.{◌≡◌, refl, [], ◌∷◌, arith}
use keel_be.Prelude.Rows.{get}
use keel_be.Models.ApiKey.{api_key_key}
use keel_be.Core.Session.{ok, err, get_db, after}
use keel_be.Core.Settings.{defaults}
use keel_be.Core.Principal.{Db, Env, principal_from_api_key}
use keel_be.Fixtures.{crypto, ada, api_key}
use keel_be.ApiKeys.{revoke_key}
use keel_be.ApiKeys.Lifecycle.{revoked_refused, invalid_api_key}

abbrev env : Env
env = record {
  crypto = crypto;
  settings = defaults;
  now = 1000;
  strip = λ s. s;
  limiter = λ i limit. ok tt;
}

abbrev db : Db
db = record { users = ada ∷ []; api_keys = api_key ∷ [] }

revoked_refused_example :
    ((get_db (principal_from_api_key env "keel_sk_aaaaaaaa") (after (revoke_key 20 50) db)).0
      ≡ err invalid_api_key)
    × (get 51 (after (revoke_key 20 50) db).api_keys ≡ get 51 db.api_keys)
unfolding get_db revoke_key
revoked_refused_example =
    revoked_refused env "keel_sk_aaaaaaaa" 20 50 db {j = 51} refl refl
      (λ (e : 50 ≡ 51). ground arith) refl
