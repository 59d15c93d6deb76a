-- ===== src/Users/Admins.antt =====
-- backend/app/services/user_service.py: the administrators of a workspace.
use keel_be.Prelude.{ℕ, ◌≡◌, refl, ◌≤◌, ap, Bool, ◌&&◌, some, List, [], ◌∷◌, ◌==◌, length, arith}
use keel_be.Prelude.Rows.{
  get, update, remove, KeysUnique, count_by, count_by-update, count_by-remove, get-select,
  select-passes, select-select,
}
use keel_be.Models.Enums.{Role, is_admin_role}
use keel_be.Models.Identity.{Db, OrganizationMember, member_key, user_key}
use keel_be.Core.Errors.{Kind, app, app_error}
use keel_be.Core.Session.{err, get_db, after}
use keel_be.Users.{admins, memberships, change_role, remove_user}

-- The workspace has an administrator.
abbrev pub HasAdmin : ℕ → Db → Type 0
HasAdmin w db = 1 ≤ length (admins w db)

abbrev in_workspace : ℕ → OrganizationMember → Bool
in_workspace w m = m.workspace_id == w && is_admin_role m.role

length-admins : (w : ℕ) (db : Db) → length (admins w db) ≡ count_by (in_workspace w) db.members
length-admins w db = ap length (
    select-select (λ (m : OrganizationMember). is_admin_role m.role) (λ m. m.workspace_id == w)
      db.members)

-- The member that a query by workspace and user finds.
module _ (w u : ℕ) (db : Db) (m : OrganizationMember) (unique : KeysUnique db.members)
    (found : memberships w u db ≡ m ∷ []) where
  found_get : get m.id db.members ≡ some m
  found_get = get-select (λ x. x.workspace_id == w && x.user_id == u) db.members unique found

  found_place : (m.workspace_id ≡ w) × (m.user_id ≡ u)
  found_place = ground (
    arith,
    select-passes (λ (x : OrganizationMember). x.workspace_id == w && x.user_id == u) db.members
        {r = m} {rest = []} found,
  )

change_role_keeps :
    (w u v : ℕ) (role : Role) (db : Db) (found : List OrganizationMember)
    → memberships w u db ≡ found
    → KeysUnique db.members
    → HasAdmin v db
    → HasAdmin v (after (change_role w u role) db)
unfolding get_db change_role
change_role_keeps w u v role db [] e unique h = ground arith
change_role_keeps w u v role db (m ∷ []) e unique h = ground (
  arith,
  length-admins v db,
  length-admins w db,
  length-admins v (record db { members = update m.id (λ x. record x { role = role }) db.members }),
  count_by-update (in_workspace v) m.id (λ x. record x { role = role }) db.members {r = m} unique
      (found_get w u db m unique e),
  count_by-update (in_workspace w) m.id (λ x. record x { role = role }) db.members {r = m} unique
      (found_get w u db m unique e),
  found_place w u db m unique e,
)
change_role_keeps w u v role db (m ∷ n ∷ ms) e unique h = ground arith

remove_user_keeps :
    (w u v : ℕ) (db : Db) (found : List OrganizationMember)
    → memberships w u db ≡ found
    → KeysUnique db.members
    → HasAdmin v db
    → HasAdmin v (after (remove_user w u) db)
unfolding get_db remove_user
remove_user_keeps w u v db [] e unique h = ground arith
remove_user_keeps w u v db (m ∷ []) e unique h = ground (
  arith,
  length-admins v db,
  length-admins w db,
  length-admins v (record db { members = remove m.id db.members }),
  count_by-remove (in_workspace v) m.id db.members {r = m} unique (found_get w u db m unique e),
  found_place w u db m unique e,
)
remove_user_keeps w u v db (m ∷ n ∷ ms) e unique h = ground arith

-- Neither a change of role nor a removal, whether it returns or raises, takes the last administrator
-- from any workspace.
pub HasAdmin-kept :
    (w u v : ℕ) (role : Role) (db : Db)
    → KeysUnique db.members
    → HasAdmin v db
    → HasAdmin v (after (change_role w u role) db) × HasAdmin v (after (remove_user w u) db)
HasAdmin-kept w u v role db unique h = (
  change_role_keeps w u v role db (memberships w u db) refl unique h,
  remove_user_keeps w u v db (memberships w u db) refl unique h,
)

-- The last administrator of a workspace can be neither demoted nor removed: both are refused with
-- `LAST_ADMIN`, and the database stays as it was.
pub last_admin_refused :
    (w u : ℕ) (db : Db) {m : OrganizationMember}
    → memberships w u db ≡ m ∷ []
    → m.role ≡ Role.admin
    → length (admins w db) ≤ 1
    → (get_db (change_role w u Role.standard) db ≡ (
      err (app (app_error Kind.last_admin "You cannot demote the last Admin in the workspace.")),
      db,
    ))
      × (get_db (remove_user w u) db ≡ (
        err (app (app_error Kind.last_admin "You cannot remove the last Admin in the workspace.")),
        db,
      ))
unfolding get_db change_role remove_user
last_admin_refused w u db {m} e r h = (ground arith, ground arith)
