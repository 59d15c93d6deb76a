-- ===== src/Auth/Signup.antt =====
-- backend/app/services/auth_service.py: `login`, and `login` after `register`.
use keel_be.Prelude.{
  ℕ, String, ◌≡◌, refl, List, [], ◌∷◌, ◌↔◌, inl, inr, Option-cases, arith, true, false, none, some,
  eq_iff, select-append,
}
use keel_be.Prelude.Rows.{get, update, get-append}
use keel_be.Models.Enums.{Role}
use keel_be.Models.Identity.{
  Db, User, Workspace, Organization, OrganizationMember, user_key, workspace_key, organization_key,
}
use keel_be.Core.Session.{Result, ok, Session, get_db, after, Exec, first}
use keel_be.Core.Security.{
  CryptoLaws, verify_password, hash_password, create_access_token, generate_refresh_token,
}
use keel_be.Auth.{
  Env, Fresh, AuthResult, login, register, start_session, is_locked, users_by_email,
  members_of_user, build_response, clear_failures, new_user, new_admin, new_workspace,
  new_organization,
}

-- Why a login may go through: the account is the only one of its address, is not locked, is active,
-- has the password, and belongs to a workspace of an organization.
pub record Admits (env : Env) (fresh : Fresh) (email password : String) (db : Db) : Type 0 where
  pub user : User
  pub member : OrganizationMember
  pub workspace : Workspace
  pub organization : Organization
  pub only : users_by_email (env.lower email) db ≡ user ∷ []
  pub unlocked : is_locked env fresh user ≡ false
  pub fits : verify_password env.crypto env.settings password user.password_hash ≡ true
  pub active : user.is_active ≡ true
  pub belongs : first (members_of_user user.id db) ≡ some member
  pub placed : get member.workspace_id db.workspaces ≡ some workspace
  pub owned : get workspace.organization_id db.organizations ≡ some organization

-- Where a session of an account is placed: its first membership, with the workspace and the owner.
record Place (user_id : ℕ) (db : Db) : Type 0 where
  member : OrganizationMember
  workspace : Workspace
  organization : Organization
  belongs : first (members_of_user user_id db) ≡ some member
  placed : get member.workspace_id db.workspaces ≡ some workspace
  owned : get workspace.organization_id db.organizations ≡ some organization

start_session-Place :
    (env : Env) (fresh : Fresh) (u : User) (s : Session Db) {r : AuthResult}
    → (start_session env fresh u s).0 ≡ ok r
    → Place u.id s.working
unfolding start_session
start_session-Place env fresh u s h = elim (Option-cases (first (members_of_user u.id s.working))) [
  | inl alone ↦ absurd (ground arith)
  | inr (m, em) ↦ elim (Option-cases (get m.workspace_id s.working.workspaces)) [
    | inl nowhere ↦ absurd (ground arith)
    | inr (w, ew) ↦ elim (Option-cases (get w.organization_id s.working.organizations)) [
      | inl unowned ↦ absurd (ground arith)
      | inr (o, eo) ↦ record {
        member = m;
        workspace = w;
        organization = o;
        belongs = em;
        placed = ew;
        owned = eo;
      }
    ]
  ]
]

same_answer : {q : Result AuthResult} {r t : AuthResult} → q ≡ ok r → q ≡ ok t → r ≡ t
same_answer h k = cc

module _ (env : Env) (fresh : Fresh) (email password : String) (db : Db) where
  -- The answer to a login that an account admits: the account, the workspace of its first
  -- membership, the role of that membership, and tokens for just these.
  abbrev pub answer : Admits env fresh email password db → AuthResult
  answer a =
      build_response
        (create_access_token env.crypto env.settings fresh.now fresh.jti a.user.id a.workspace.id
          a.member.role none)
        (clear_failures env fresh a.user) a.workspace a.member.role a.organization.name
        (generate_refresh_token env.crypto env.settings fresh.now fresh.refresh).0

  login_accepts :
      (a : Admits env fresh email password db)
      → (get_db (login env fresh email password) db).0 ≡ ok (answer a)
  unfolding get_db login start_session
  login_accepts a = ground arith

  -- The session that a login opens once the account has passed.
  opened :
      (u : User)
      → users_by_email (env.lower email) db ≡ u ∷ []
      → {r : AuthResult} → (get_db (login env fresh email password) db).0 ≡ ok r
      → (start_session env fresh (clear_failures env fresh u) (record {
        committed = db;
        working = record db { users = update u.id (clear_failures env fresh) db.users };
      })).0
        ≡ ok r
  unfolding get_db login
  opened u e h = ground arith

  accepted :
      (found : List User)
      → users_by_email (env.lower email) db ≡ found
      → {r : AuthResult} → (get_db (login env fresh email password) db).0 ≡ ok r
      → Admits env fresh email password db
  unfolding get_db login clear_failures
  accepted [] e h = ground arith
  accepted (u ∷ []) e h =
      let p = start_session-Place env fresh (clear_failures env fresh u) _ (opened u e h) in
      record {
        user = u;
        member = p.member;
        workspace = p.workspace;
        organization = p.organization;
        only = e;
        unlocked = ground arith;
        fits = ground arith;
        active = ground arith;
        belongs = p.belongs;
        placed = p.placed;
        owned = p.owned;
      }
  accepted (u ∷ v ∷ us) e h = ground arith

  -- A login request is answered exactly when an account admits it, and then with that account's own
  -- session, in the workspace and with the role of its first membership.
  pub login_iff :
      (r : AuthResult)
      → ((get_db (login env fresh email password) db).0 ≡ ok r)
        ↔ ((a : Admits env fresh email password db) × (r ≡ answer a))
  login_iff r = (
    λ h.
        let a = accepted (users_by_email (env.lower email) db) refl h in
        (a, same_answer h (login_accepts a)),
    λ (a, e). rw e (login_accepts a),
  )

-- The identifiers drawn for a signup are new to the tables that it writes.
pub record IsNew (fresh : Fresh) (db : Db) : Type 0 where
  pub no_member : members_of_user fresh.user_id db ≡ []
  pub no_workspace : get fresh.workspace_id db.workspaces ≡ none
  pub no_organization : get fresh.organization_id db.organizations ≡ none

module _ (env : Env) (laws : CryptoLaws env.crypto) (fresh later : Fresh)
    (full_name email organization password : String) (db : Db) where
  abbrev signup : Exec Db AuthResult
  signup = register env fresh full_name email organization password

  verify-hash :
      verify_password env.crypto env.settings password
        (hash_password env.crypto env.settings password fresh.salt)
      ≡ true
  unfolding verify_password hash_password
  verify-hash = ground (
    arith,
    laws.checkpw-hashpw (env.crypto.sha256_b64 password)
        (env.crypto.gensalt env.settings.bcrypt_rounds fresh.salt),
  )

  unclaimed :
      {r : AuthResult} → (get_db signup db).0 ≡ ok r → users_by_email (env.lower email) db ≡ []
  unfolding get_db register
  unclaimed h = ground arith

  register-Admits :
      IsNew fresh db
      → {r : AuthResult} → (get_db signup db).0 ≡ ok r
      → Admits env later email password (after signup db)
  unfolding get_db register is_locked
  register-Admits new h = record {
    user = new_user env fresh full_name email password;
    member = new_admin env fresh;
    workspace = new_workspace env fresh organization;
    organization = new_organization env fresh organization;
    only = grind (arith, select-append, eq_iff);
    unlocked = ground arith;
    fits = verify-hash;
    active = ground arith;
    belongs = grind (arith, select-append);
    placed = grind (arith, get-append);
    owned = grind (arith, get-append);
  }

  -- Whoever signs up can log in at once with the same address and password: as the same user, in
  -- the new workspace, as its administrator.
  pub login-register :
      IsNew fresh db
      → {r : AuthResult} → (get_db signup db).0 ≡ ok r
      → (t : AuthResult) × ((get_db (login env later email password) (after signup db)).0 ≡ ok t)
        × (t.user.id ≡ fresh.user_id)
        × (t.workspace.id ≡ fresh.workspace_id)
        × (t.user.role ≡ Role.admin)
  unfolding build_response register-Admits clear_failures new_user new_admin new_workspace
  login-register new h =
      let a = register-Admits new h in
      (
        answer env later email password (after signup db) a,
        login_accepts env later email password (after signup db) a,
        ground arith,
        ground arith,
        ground arith,
      )
