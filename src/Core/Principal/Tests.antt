-- ===== src/Core/Principal/Tests.antt =====
-- Requests with an access token, with an API key, and with neither.
use keel_be.Prelude.{String, ◌≡◌, refl, none, some, [], ◌∷◌}
use keel_be.Models.Enums.{Role, ApiKeyScope}
use keel_be.Models.ApiKey.{api_key_key}
use keel_be.Core.Session.{ok, open_session}
use keel_be.Core.Settings.{defaults}
use keel_be.Core.Principal.{Principal, Db, Env, bearer, get_principal, principal_from_jwt}
use keel_be.Core.Security.{decode_access_token}
use keel_be.Core.Principal.Access.{KeyGrant, Grants, get_principal-Grants}
use keel_be.Fixtures.{crypto, ada, api_key}

abbrev env : Env
env = record {
  crypto = crypto;
  settings = defaults;
  now = 1000;
  strip = λ s. s;
  limiter = λ i limit. ok tt;
}

abbrev db : Db
db = record { users = ada ∷ []; api_keys = api_key ∷ [] }

abbrev ada_principal : Principal
ada_principal = record {
  workspace_id = 20;
  user_id = some 1;
  role = some Role.admin;
  api_key_id = none;
  scope = none;
}

abbrev key_principal : Principal
key_principal = record {
  workspace_id = 20;
  user_id = none;
  role = none;
  api_key_id = some 50;
  scope = some ApiKeyScope.read_only;
}

get_principal-Grants_example :
    (token : String) × (bearer env (some "jwt") ≡ ok token) × Grants env db token ada_principal
unfolding get_principal principal_from_jwt decode_access_token
get_principal-Grants_example = get_principal-Grants env (some "jwt") (open_session db) refl

abbrev key_grant : KeyGrant env db "keel_sk_aaaaaaaa" key_principal
key_grant = record { row = api_key; only = refl; unrevoked = refl; within = refl; principal = refl }
