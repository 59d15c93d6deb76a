-- ===== src/Users.antt =====
-- backend/app/services/user_service.py: the administration of a workspace's members.
pub mod Admins
pub mod Members
mod Tests
use Prim.Native.Char.{code}
use keel_be.Prelude.{
  ℕ, String, ◌+◌, Bool, true, false, not, ◌&&◌, Option, none, some, List, [], ◌∷◌, ◌++◌, map, leb,
  ltb, ◌==◌, str_eq, is_some, select, length, if◌then◌else◌,
}
use keel_be.Prelude.Rows.{get, update, remove}
use keel_be.Models.Enums.{Role, is_admin_role}
use keel_be.Models.Identity.{
  Organization, Workspace, User, OrganizationMember, Db, workspace_key, user_key, member_key,
}
use keel_be.Core.Errors.{Exc, Kind, app, app_error}
use keel_be.Core.Session.{
  Result, ok, err, Exec, pure, raise, query, write, commit, guard, required, scalar_one_or_none,
  ◌>>=◌, ◌>>◌,
}
use keel_be.Core.Settings.{Settings}
use keel_be.Core.Security.{Crypto, hash_password}
use keel_be.Auth.{UserOut}

pub record Env : Type 0 where
  pub crypto : Crypto
  pub settings : Settings
  pub lower : String → String

-- What an invitation draws: identifiers, the random password and its salt.
pub record Fresh : Type 0 where
  pub user_id : ℕ
  pub member_id : ℕ
  pub secret : String
  pub salt : String

-- `_to_out`
pub to_out : User → Role → UserOut
to_out user role = record {
  id = user.id;
  full_name = user.full_name;
  email = user.email;
  role = role;
  last_active_at = user.last_active_at;
}

-- `_members_in_workspace`
abbrev pub members_in_workspace : ℕ → Db → List OrganizationMember
members_in_workspace workspace_id db = select (λ m. m.workspace_id == workspace_id) db.members

-- The members that `change_role` and `remove_user` count.
abbrev pub admins : ℕ → Db → List OrganizationMember
admins workspace_id db = select (λ m. is_admin_role m.role) (members_in_workspace workspace_id db)

-- The membership of a user in a workspace.
abbrev pub memberships : ℕ → ℕ → Db → List OrganizationMember
memberships workspace_id user_id db =
    select (λ m. m.workspace_id == workspace_id && m.user_id == user_id) db.members

-- The join of `list_users`: one line for each member, and each user with its identifier.
join_users : List User → OrganizationMember → List UserOut
unfolding to_out
join_users [] m = []
join_users (u ∷ us) m =
    let rest = join_users us m in if m.user_id == u.id then to_out u m.role ∷ rest else rest

join_members : List User → List OrganizationMember → List UserOut
unfolding join_users
join_members us [] = []
join_members us (m ∷ ms) = join_users us m ++ join_members us ms

pub list_users : ℕ → Exec Db (List UserOut)
unfolding join_members
list_users workspace_id = query (λ db. join_members db.users (members_in_workspace workspace_id db))

-- `email.split("@")[0]`
before_at : String → String
before_at String.[] = String.[]
before_at (String.◌∷◌ c s) =
    let rest = before_at s in if code c == b'@' then String.[] else String.◌∷◌ c rest

abbrev pub not_in_workspace : Exc
not_in_workspace = app (app_error Kind.not_found "User not found in workspace")

module _ (env : Env) (fresh : Fresh) where
  invited_user : String → User
  unfolding hash_password before_at
  invited_user email = record {
    id = fresh.user_id;
    email = email;
    full_name = before_at email;
    password_hash = hash_password env.crypto env.settings fresh.secret fresh.salt;
    is_active = true;
    is_verified = false;
    mfa_enabled = false;
    last_active_at = none;
    failed_login_count = 0;
    lockout_until = none;
  }

  -- The user that an invitation is for: the one with the address, if it is no member yet, or a new one.
  pub invitee : ℕ → String → Option User → Exec Db User
  unfolding invited_user
  invitee workspace_id email (some existing) = do
    rows ← query (memberships workspace_id existing.id)
    member ← scalar_one_or_none rows
    guard (not (is_some member))
        (app (app_error Kind.conflict "User is already a member of this workspace"))
    pure existing
  invitee workspace_id email none = do
    let user = invited_user email
    write (λ db. record db { users = db.users ++ user ∷ [] })
    pure user

  new_member : ℕ → Workspace → User → String → Role → OrganizationMember
  new_member workspace_id workspace user email role = record {
    id = fresh.member_id;
    organization_id = workspace.organization_id;
    workspace_id = workspace_id;
    user_id = user.id;
    role = role;
    invited_email = some email;
    invite_accepted = false;
  }

  -- `invite workspace_id email role`
  pub invite : ℕ → String → Role → Exec Db UserOut
  unfolding to_out new_member
  invite workspace_id address role = do
    found ← query (λ db. get workspace_id db.workspaces)
    workspace ← required (app (app_error Kind.not_found "Workspace not found")) found
    let email = env.lower address
    rows ← query (λ db. select (λ u. str_eq u.email email) db.users)
    existing ← scalar_one_or_none rows
    user ← invitee workspace_id email existing
    write (λ db. record db {
      members = db.members ++ new_member workspace_id workspace user email role ∷ [];
    })
    commit
    pure (to_out user role)

-- `len(admins) <= 1` raises `LastAdminError`.
require_other_admin : ℕ → String → Exec Db Unit
require_other_admin workspace_id message = do
  found ← query (admins workspace_id)
  guard (ltb 1 (length found)) (app (app_error Kind.last_admin message))

-- The guard of both operations below: a member who is the last administrator stays one.
guard_last_admin : ℕ → OrganizationMember → String → Exec Db Unit
unfolding require_other_admin
guard_last_admin workspace_id member message =
    if is_admin_role member.role then require_other_admin workspace_id message else pure tt

-- `change_role workspace_id user_id role`
pub change_role : ℕ → ℕ → Role → Exec Db UserOut
unfolding guard_last_admin to_out
change_role workspace_id user_id role = do
  rows ← query (memberships workspace_id user_id)
  found ← scalar_one_or_none rows
  member ← required not_in_workspace found
  if is_admin_role role
      then pure tt
      else guard_last_admin workspace_id member "You cannot demote the last Admin in the workspace."
  write (λ db. record db { members = update member.id (λ m. record m { role = role }) db.members })
  commit
  owner ← query (λ db. get user_id db.users)
  user ← required not_in_workspace owner
  pure (to_out user role)

-- `remove_user workspace_id user_id`
pub remove_user : ℕ → ℕ → Exec Db Unit
unfolding guard_last_admin
remove_user workspace_id user_id = do
  rows ← query (memberships workspace_id user_id)
  found ← scalar_one_or_none rows
  member ← required not_in_workspace found
  guard_last_admin workspace_id member "You cannot remove the last Admin in the workspace."
  write (λ db. record db { members = remove member.id db.members })
  commit
