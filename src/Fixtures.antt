-- ===== src/Fixtures.antt =====
-- Concrete libraries, settings and rows, shared by the tests of all components.
use keel_be.Prelude.{ℕ, true, false, none, some, [], ◌∷◌, ltb, str_eq, eq_iff, arith, if◌then◌else◌}
use keel_be.Models.Enums.{Role, ApiKeyScope}
use keel_be.Models.Identity.{Organization, Workspace, User, OrganizationMember, RefreshToken, Db}
use keel_be.Models.ApiKey.{ApiKey}
use keel_be.Core.Security.{Claims, claims, expired_signature, invalid_token, Crypto, CryptoLaws}

-- Hash functions that keep their text, and a library of tokens that knows one token, `jwt`.
abbrev pub crypto_for : Claims → Crypto
crypto_for t = record {
  sha256_b64 = λ p. p;
  sha256_hex = λ p. p;
  gensalt = λ rounds entropy. entropy;
  hashpw = λ p salt. p;
  checkpw = λ p h. some (str_eq p h);
  encode = λ c k. "jwt";
  decode = λ token k now.
      if str_eq token "jwt"
      then if ltb now t.exp then claims t else expired_signature
      else invalid_token;
  token_urlsafe = λ n entropy. entropy;
}

abbrev pub claims_of_ada : Claims
claims_of_ada = record {
  sub = 1;
  workspace_id = 20;
  role = Role.admin;
  type = "access";
  iat = 1000;
  exp = 1900;
  jti = "j";
}

abbrev pub crypto : Crypto
crypto = crypto_for claims_of_ada

pub crypto-CryptoLaws : CryptoLaws crypto
crypto-CryptoLaws = record { checkpw-hashpw = λ p salt. ground (arith, eq_iff p p) }

abbrev pub ada : User
ada = record {
  id = 1;
  email = "ada@keel.io";
  full_name = "Ada";
  password_hash = "secret";
  is_active = true;
  is_verified = false;
  mfa_enabled = false;
  last_active_at = none;
  failed_login_count = 0;
  lockout_until = none;
}

abbrev pub bob : User
bob = record {
  id = 2;
  email = "bob@keel.io";
  full_name = "Bob";
  password_hash = "hunter2";
  is_active = true;
  is_verified = false;
  mfa_enabled = false;
  last_active_at = none;
  failed_login_count = 0;
  lockout_until = none;
}

abbrev pub keel : Organization
keel = record { id = 10; name = "Keel"; slug = [] }

abbrev pub docs : Workspace
docs = record {
  id = 20;
  organization_id = 10;
  name = "Docs";
  embedding_model = "text-embedding-3-small";
  embedding_dims = 1536;
  chat_model = "gpt-4o-mini";
  chat_top_k = 10;
  min_similarity = 6500;
  auto_start_ingestion = true;
  rest_api_enabled = true;
  default_rate_limit_per_minute = 100;
}

abbrev pub member : ℕ → ℕ → Role → OrganizationMember
member i u r = record {
  id = i;
  organization_id = 10;
  workspace_id = 20;
  user_id = u;
  role = r;
  invited_email = none;
  invite_accepted = true;
}

abbrev pub session_of_ada : RefreshToken
session_of_ada = record {
  id = 40;
  user_id = 1;
  workspace_id = 20;
  token_hash = "old";
  expires_at = 9000;
  revoked_at = none;
}

-- Ada is the administrator of a workspace, Bob a member.
abbrev pub identity_db : Db
identity_db = record {
  organizations = keel ∷ [];
  workspaces = docs ∷ [];
  users = ada ∷ bob ∷ [];
  members = member 30 1 Role.admin ∷ member 31 2 Role.standard ∷ [];
  refresh_tokens = session_of_ada ∷ [];
}

abbrev pub api_key : ApiKey
api_key = record {
  id = 50;
  workspace_id = 20;
  name = "ci";
  key_prefix = "keel_sk_aaaaaa";
  key_hash = "keel_sk_aaaaaaaa";
  scope = ApiKeyScope.read_only;
  rate_limit_per_minute = 100;
  last_used_at = none;
  request_count = 0;
  revoked = false;
  created_by_id = some 1;
}
