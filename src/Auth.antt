-- ===== src/Auth.antt =====
-- backend/app/services/auth_service.py: signup, login with lockout, rotation of refresh tokens.
-- Its proofs are in the modules below.
pub mod Failures
pub mod Rotation
pub mod Signup
mod Tests
use Prim.Native.String.{◌++◌ as append}
use keel_be.Prelude.{
  ℕ, String, Text, ◌+◌, ◌*◌, Bool, true, false, not, ◌&&◌, ◌||◌, Option, none, some, List, [], ◌∷◌,
  ◌++◌, leb, ltb, ◌==◌, str_eq, codes, strip_by, is_nonempty, is_some, select, if◌then◌else◌,
}
use keel_be.Prelude.Rows.{get, update}
use keel_be.Models.Enums.{Role}
use keel_be.Models.Identity.{
  Organization, Workspace, User, OrganizationMember, RefreshToken, Db, organization_key,
  workspace_key, user_key, refresh_token_key,
}
use keel_be.Core.Errors.{Exc, Kind, app, app_error, app_error_with}
use keel_be.Core.Session.{
  Result, ok, err, Exec, pure, raise, query, write, guard, required, scalar_one_or_none, first,
  ◌>>=◌, ◌>>◌,
}
use keel_be.Core.Settings.{Settings}
use keel_be.Core.Security.{
  Crypto, hash_password, verify_password, create_access_token, generate_refresh_token,
}

-- What a request takes from its surroundings: the configuration, the libraries, `str.lower`, the
-- clock, and what `uuid4` and `secrets` return.
pub record Env : Type 0 where
  pub crypto : Crypto
  pub settings : Settings
  pub lower : String → String

pub record Fresh : Type 0 where
  pub now : ℕ
  pub organization_id : ℕ
  pub workspace_id : ℕ
  pub user_id : ℕ
  pub member_id : ℕ
  pub token_id : ℕ
  pub slug_hex : Text
  pub salt : String
  pub jti : String
  pub refresh : String

pub record UserOut : Type 0 where
  pub id : ℕ
  pub full_name : String
  pub email : String
  pub role : Role
  pub last_active_at : Option ℕ

pub record WorkspaceOut : Type 0 where
  pub id : ℕ
  pub name : String
  pub organization_name : String

-- `AuthResult`, with the fields of its `AuthTokenResponse`.
pub record AuthResult : Type 0 where
  pub access_token : String
  pub user : UserOut
  pub workspace : WorkspaceOut
  pub refresh_token : String

-- The characters that the pattern `[^a-z0-9]+` leaves alone.
is_slug_char : ℕ → Bool
is_slug_char c = (leb b'a' c && leb c b'z') || (leb b'0' c && leb c b'9')

-- `re.sub(r"[^a-z0-9]+", "-", s)`; `run` says that the last character was replaced.
dash_runs : Bool → Text → Text
unfolding is_slug_char
dash_runs run [] = []
dash_runs run (c ∷ s) =
    let kept = c ∷ dash_runs false s in
    let skipped = dash_runs true s in
    if is_slug_char c then kept else if run then skipped else b'-' ∷ skipped

-- `_slugify`
pub slugify : (String → String) → Text → String → Text
unfolding dash_runs strip_by
slugify lower hex name =
    let base = strip_by (λ c. c == b'-') (dash_runs false (codes (lower name))) in
    (if is_nonempty base then base else codes "org") ++ b'-' ∷ hex

-- `_build_response`
pub build_response : String → User → Workspace → Role → String → String → AuthResult
build_response access user workspace role org_name refresh_raw = record {
  access_token = access;
  user = record {
    id = user.id;
    full_name = user.full_name;
    email = user.email;
    role = role;
    last_active_at = user.last_active_at;
  };
  workspace = record { id = workspace.id; name = workspace.name; organization_name = org_name };
  refresh_token = refresh_raw;
}

-- `select(User).where(User.email == email)`
abbrev pub users_by_email : String → Db → List User
users_by_email email db = select (λ u. str_eq u.email email) db.users

-- `select(OrganizationMember).where(OrganizationMember.user_id == user_id)`
abbrev pub members_of_user : ℕ → Db → List OrganizationMember
members_of_user user_id db = select (λ m. m.user_id == user_id) db.members

-- `select(RefreshToken).where(RefreshToken.token_hash == hash)`
abbrev pub tokens_by_hash : String → Db → List RefreshToken
tokens_by_hash hash db = select (λ t. str_eq t.token_hash hash) db.refresh_tokens

unauthorized : String → Exc
unauthorized message = app (app_error Kind.unauthenticated message)

-- Assignment to attributes of a user's row, and of a refresh token's row.
abbrev pub set_user : ℕ → (User → User) → Exec Db Unit
set_user i f = write (λ db. record db { users = update i f db.users })

abbrev pub set_token : ℕ → (RefreshToken → RefreshToken) → Exec Db Unit
set_token i f = write (λ db. record db { refresh_tokens = update i f db.refresh_tokens })

module _ (env : Env) (fresh : Fresh) where
  -- `_issue_tokens`
  pub issue_tokens : User → Workspace → Role → Exec Db (String × String)
  unfolding create_access_token generate_refresh_token
  issue_tokens user workspace role =
      let access =
        create_access_token env.crypto env.settings fresh.now fresh.jti user.id workspace.id role
          none in
      let (raw, hash, expires) =
        generate_refresh_token env.crypto env.settings fresh.now fresh.refresh in
      write (λ db. record db {
        refresh_tokens =
            db.refresh_tokens
            ++ record {
              id = fresh.token_id;
              user_id = user.id;
              workspace_id = workspace.id;
              token_hash = hash;
              expires_at = expires;
              revoked_at = none;
            }
              ∷ [];
      })
      >> pure (access, raw)

  -- `_membership`
  pub membership : ℕ → Exec Db OrganizationMember
  unfolding unauthorized
  membership user_id = do
    found ← query (λ db. first (members_of_user user_id db))
    required (unauthorized "No workspace membership") found

  -- `_resolve_workspace_org`
  pub resolve_workspace_org : OrganizationMember → Exec Db (Workspace × Organization)
  unfolding unauthorized
  resolve_workspace_org member = do
    found ← query (λ db. get member.workspace_id db.workspaces)
    workspace ← required (unauthorized "Workspace not found") found
    owner ← query (λ db. get workspace.organization_id db.organizations)
    org ← required (unauthorized "Organization not found") owner
    pure (workspace, org)

  new_organization : String → Organization
  unfolding slugify
  new_organization name = record {
    id = fresh.organization_id;
    name = name;
    slug = slugify env.lower fresh.slug_hex name;
  }

  new_workspace : String → Workspace
  new_workspace name = record {
    id = fresh.workspace_id;
    organization_id = fresh.organization_id;
    name = name;
    embedding_model = "text-embedding-3-small";
    embedding_dims = 1536;
    chat_model = "gpt-4o-mini";
    chat_top_k = 10;
    min_similarity = 6500;
    auto_start_ingestion = true;
    rest_api_enabled = true;
    default_rate_limit_per_minute = 100;
  }

  new_user : String → String → String → User
  unfolding hash_password
  new_user full_name email password = record {
    id = fresh.user_id;
    email = env.lower email;
    full_name = full_name;
    password_hash = hash_password env.crypto env.settings password fresh.salt;
    is_active = true;
    is_verified = false;
    mfa_enabled = false;
    last_active_at = some fresh.now;
    failed_login_count = 0;
    lockout_until = none;
  }

  new_admin : OrganizationMember
  new_admin = record {
    id = fresh.member_id;
    organization_id = fresh.organization_id;
    workspace_id = fresh.workspace_id;
    user_id = fresh.user_id;
    role = Role.admin;
    invited_email = none;
    invite_accepted = true;
  }

  -- `register full_name email organization_name password`
  pub register : String → String → String → String → Exec Db AuthResult
  unfolding issue_tokens build_response new_organization new_workspace new_user new_admin
  register full_name email organization_name password = do
    rows ← query (users_by_email (env.lower email))
    existing ← scalar_one_or_none rows
    guard (not (is_some existing)) (
        app
          (app_error_with Kind.conflict "An account with this email already exists" "EMAIL_TAKEN"))
    let org = new_organization organization_name
    let workspace = new_workspace organization_name
    let user = new_user full_name email password
    write (λ db. record db { organizations = db.organizations ++ org ∷ [] })
    write (λ db. record db { workspaces = db.workspaces ++ workspace ∷ [] })
    write (λ db. record db { users = db.users ++ user ∷ [] })
    write (λ db. record db { members = db.members ++ new_admin ∷ [] })
    tokens ← issue_tokens user workspace Role.admin
    pure (build_response tokens.0 user workspace Role.admin org.name tokens.1)

  -- `user.lockout_until and user.lockout_until > _now()`
  pub is_locked : User → Bool
  is_locked user = elim user.lockout_until [ none ↦ false | some t ↦ ltb fresh.now t ]

  -- What a wrong password writes to the user's row.
  pub count_failure : User → User
  count_failure user =
      let count = user.failed_login_count + 1 in
      if leb env.settings.login_max_attempts count
      then record user {
        failed_login_count = 0;
        lockout_until = some (fresh.now + env.settings.lockout_min * 60);
      }
      else record user { failed_login_count = count }

  -- What a right password writes.
  pub clear_failures : User → User
  clear_failures user = record user {
    failed_login_count = 0;
    lockout_until = none;
    last_active_at = some fresh.now;
  }

  -- The common end of `login` and `refresh`.
  pub start_session : User → Exec Db AuthResult
  unfolding membership resolve_workspace_org issue_tokens build_response
  start_session user = do
    member ← membership user.id
    place ← resolve_workspace_org member
    tokens ← issue_tokens user place.0 member.role
    pure (build_response tokens.0 user place.0 member.role place.1.name tokens.1)

  pub reject_password : User → Exec Db AuthResult
  unfolding count_failure unauthorized
  reject_password user = do
    set_user user.id count_failure
    raise (unauthorized "Invalid email or password")

  pub accept_password : User → Exec Db AuthResult
  unfolding clear_failures unauthorized
  accept_password user = do
    guard user.is_active (unauthorized "Account is inactive")
    set_user user.id clear_failures
    start_session (clear_failures user)

  -- `login email password`
  pub login : String → String → Exec Db AuthResult
  unfolding reject_password accept_password is_locked verify_password unauthorized
  login email password = do
    rows ← query (users_by_email (env.lower email))
    found ← scalar_one_or_none rows
    user ← required (unauthorized "Invalid email or password") found
    guard (not (is_locked user)) (
        app (
          app_error_with Kind.unauthenticated "Account temporarily locked. Try again later."
            "ACCOUNT_LOCKED"))
    if verify_password env.crypto env.settings password user.password_hash
        then accept_password user
        else reject_password user

  -- `token is None or token.revoked_at is not None or token.expires_at < _now()`
  pub is_dead : RefreshToken → Bool
  is_dead token = is_some token.revoked_at || ltb token.expires_at fresh.now

  abbrev invalid_session : Exc
  invalid_session =
      app (app_error_with Kind.unauthenticated "Invalid or expired session" "UNAUTHENTICATED")

  -- `refresh raw_token`
  pub refresh : String → Exec Db AuthResult
  unfolding is_dead unauthorized
  refresh raw_token = do
    rows ← query (tokens_by_hash (env.crypto.sha256_hex raw_token))
    found ← scalar_one_or_none rows
    token ← required invalid_session found
    guard (not (is_dead token)) invalid_session
    set_token token.id (λ t. record t { revoked_at = some fresh.now })
    owner ← query (λ db. get token.user_id db.users)
    user ← required (unauthorized "User not found or inactive") owner
    guard user.is_active (unauthorized "User not found or inactive")
    start_session user

  revoke_found : Option RefreshToken → Exec Db Unit
  revoke_found none = pure tt
  revoke_found (some token) =
      if is_some token.revoked_at
      then pure tt
      else set_token token.id (λ t. record t { revoked_at = some fresh.now })

  -- `logout raw_token`
  pub logout : Option String → Exec Db Unit
  unfolding revoke_found
  logout none = pure tt
  logout (some raw_token) = if str_eq raw_token "" then pure tt else do
    rows ← query (tokens_by_hash (env.crypto.sha256_hex raw_token))
    found ← scalar_one_or_none rows
    revoke_found found

  -- `get_session user_id`
  pub get_session : ℕ → Exec Db (UserOut × WorkspaceOut)
  unfolding membership resolve_workspace_org unauthorized
  get_session user_id = do
    found ← query (λ db. get user_id db.users)
    user ← required (unauthorized "User not found") found
    member ← membership user.id
    place ← resolve_workspace_org member
    pure (
      record {
        id = user.id;
        full_name = user.full_name;
        email = user.email;
        role = member.role;
        last_active_at = user.last_active_at;
      },
      record { id = place.0.id; name = place.0.name; organization_name = place.1.name },
    )
