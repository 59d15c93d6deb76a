-- ===== src/Core/Security/Tokens.antt =====
-- backend/app/core/security.py: an access token, written and read.
use keel_be.Prelude.{
  ℕ, String, ◌≡◌, refl, ◌+◌, ◌*◌, ltb, if◌then◌else◌, inl, inr, Bool-cases, none, arith, eq_iff,
}
use keel_be.Models.Enums.{Role}
use keel_be.Core.Errors.{Kind, app, app_error_with}
use keel_be.Core.Session.{ok, err}
use keel_be.Core.Settings.{Settings}
use keel_be.Core.Security.{Crypto, Decodes, access_claims, create_access_token, decode_access_token}

module _ (c : Crypto) (settings : Settings) (now later : ℕ) (entropy : String)
    (user_id workspace_id : ℕ) (role : Role)
    (laws : Decodes c settings.secret_key (
      access_claims c settings now entropy user_id workspace_id role
        settings.access_token_expire_minutes)) where
  abbrev token : String
  token = create_access_token c settings now entropy user_id workspace_id role none

  -- An access token is read back as the user, workspace and role that it was issued for as long as its
  -- minutes last, and is refused with `TOKEN_EXPIRED` from then on. (The library decodes what it
  -- encoded, and tells what has expired.)
  pub decode-create : decode_access_token c settings later token ≡ (
      if ltb later (now + settings.access_token_expire_minutes * 60)
      then ok (
          access_claims c settings now entropy user_id workspace_id role
            settings.access_token_expire_minutes)
      else err (app (app_error_with Kind.unauthenticated "Access token expired" "TOKEN_EXPIRED")))
  unfolding create_access_token decode_access_token
  decode-create = elim (Bool-cases (ltb later (now + settings.access_token_expire_minutes * 60))) [
    | inl fresh ↦ rw fresh (
        rw (decode_access_token, laws.before later (ground arith))
          (ground (arith, eq_iff "access" "access")))
    | inr stale ↦ rw stale (rw (decode_access_token, laws.after later (ground arith)) refl)
  ]
