-- ===== src/Core/Security.antt =====
-- backend/app/core/security.py: passwords, access tokens, refresh tokens and API keys. The hash
-- functions, bcrypt and the JWT library are the fields of `Crypto`; what is random is an argument.
pub mod Tokens
mod Tests
use Prim.Native.String.{len, slice, ◌++◌}
use keel_be.Prelude.{
  ℕ, String, ◌+◌, ◌*◌, ◌<◌, ◌≤◌, ◌==◌, ◌≡◌, Option, none, some, Bool, true, false, str_eq,
  if◌then◌else◌,
}
use keel_be.Models.Enums.{Role}
use keel_be.Core.Errors.{Kind, app, app_error, app_error_with}
use keel_be.Core.Session.{Result, ok, err}
use keel_be.Core.Settings.{Settings}

pub record Claims : Type 0 where
  pub sub : ℕ
  pub workspace_id : ℕ
  pub role : Role
  pub type : String
  pub iat : ℕ
  pub exp : ℕ
  pub jti : String

-- What `jwt.decode` returns or raises.
pub data Decoded : Type 0 where
  claims : Claims → Decoded
  expired_signature : Decoded
  invalid_token : Decoded

-- `checkpw` is `none` where bcrypt raises `ValueError` or `TypeError`.
pub record Crypto : Type 0 where
  pub sha256_b64 : String → String
  pub sha256_hex : String → String
  pub gensalt : ℕ → String → String
  pub hashpw : String → String → String
  pub checkpw : String → String → Option Bool
  pub encode : Claims → String → String
  pub decode : String → String → ℕ → Decoded
  pub token_urlsafe : ℕ → String → String

-- What the code relies on: a password fits the hash that was made of it.
pub record CryptoLaws (c : Crypto) : Type 0 where
  pub checkpw-hashpw : (p salt : String) → c.checkpw p (c.hashpw p salt) ≡ some true

-- A token that was encoded decodes under the same key until it expires, and is expired from then on.
pub record Decodes (c : Crypto) (k : String) (t : Claims) : Type 0 where
  pub before : (now : ℕ) → now < t.exp → c.decode (c.encode t k) k now ≡ claims t
  pub after : (now : ℕ) → t.exp ≤ now → c.decode (c.encode t k) k now ≡ expired_signature

abbrev pub api_key_prefix : String
api_key_prefix = "keel_sk_"

module _ (c : Crypto) (settings : Settings) where
  -- `_bcrypt_input`
  unfoldable pub bcrypt_input : String → String
  bcrypt_input password = c.sha256_b64 password

  unfoldable pub hash_password : String → String → String
  unfolding bcrypt_input
  hash_password password entropy =
      c.hashpw (bcrypt_input password) (c.gensalt settings.bcrypt_rounds entropy)

  unfoldable pub verify_password : String → String → Bool
  unfolding bcrypt_input
  verify_password password password_hash = elim (c.checkpw (bcrypt_input password) password_hash) [
    | none ↦ false
    | some b ↦ b
  ]

  -- The payload of an access token that is good for so many minutes.
  abbrev pub access_claims : ℕ → String → ℕ → ℕ → Role → ℕ → Claims
  access_claims now entropy user_id workspace_id role minutes = record {
    sub = user_id;
    workspace_id = workspace_id;
    role = role;
    type = "access";
    iat = now;
    exp = now + minutes * 60;
    jti = c.token_urlsafe 8 entropy;
  }

  -- `now` is in seconds; a `ttl_minutes` of `None` or 0 means the setting.
  unfoldable pub create_access_token : ℕ → String → ℕ → ℕ → Role → Option ℕ → String
  create_access_token now entropy user_id workspace_id role ttl_minutes =
      let minutes : ℕ = elim ttl_minutes [
        | none ↦ settings.access_token_expire_minutes
        | some t ↦ if t == 0 then settings.access_token_expire_minutes else t
      ] in
      c.encode (access_claims now entropy user_id workspace_id role minutes) settings.secret_key

  unfoldable pub decode_access_token : ℕ → String → Result Claims
  decode_access_token now token = elim (c.decode token settings.secret_key now) [
    | claims t ↦
        if str_eq t.type "access"
        then ok t
        else err (app (app_error Kind.unauthenticated "Wrong token type"))
    | expired_signature ↦
        err (app (app_error_with Kind.unauthenticated "Access token expired" "TOKEN_EXPIRED"))
    | invalid_token ↦ err (app (app_error Kind.unauthenticated "Invalid access token"))
  ]

  -- The raw token, its hash, and when it expires.
  unfoldable pub generate_refresh_token : ℕ → String → String × String × ℕ
  generate_refresh_token now entropy =
      let raw = c.token_urlsafe 48 entropy in
      (raw, c.sha256_hex raw, now + settings.refresh_token_expire_days * 86400)

  -- The secret, its prefix for display, and its hash.
  unfoldable pub generate_api_key : String → String × String × String
  generate_api_key entropy =
      let raw = api_key_prefix ++ c.token_urlsafe 32 entropy in
      (raw, slice raw 0 (len api_key_prefix + 6), c.sha256_hex raw)
