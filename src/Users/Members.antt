-- ===== src/Users/Members.antt =====
-- backend/app/services/user_service.py: the memberships of a workspace.
use keel_be.Prelude.{
  ℕ, String, ◌≡◌, refl, ap, ◌∙◌, ◌⊎◌, inl, inr, ◌&&◌, some, List, [], ◌∷◌, ◌==◌, select, arith,
  Option-cases, select-append, str_eq, eq_iff,
}
use keel_be.Prelude.Rows.{get, update, select-update}
use keel_be.Models.Enums.{Role}
use keel_be.Models.Identity.{
  Db, User, Workspace, OrganizationMember, member_key, user_key, workspace_key,
}
use keel_be.Core.Errors.{Exc, Kind, app, app_error}
use keel_be.Core.Session.{ok, err, get_db, after}
use keel_be.Auth.{UserOut}
use keel_be.Users.{Env, Fresh, memberships, invite, invitee, change_role}

change_role_found :
    (w u : ℕ) (role : Role) (db : Db) (found : List OrganizationMember) {out : UserOut}
    → memberships w u db ≡ found
    → (get_db (change_role w u role) db).0 ≡ ok out
    → (m : OrganizationMember) × (memberships w u db ≡ m ∷ [])
      × (after (change_role w u role) db
          ≡ record db { members = update m.id (λ x. record x { role = role }) db.members })
unfolding get_db change_role
change_role_found w u role db [] e h = absurd (ground arith)
change_role_found w u role db (m ∷ []) e h = (m, e, ground arith)
change_role_found w u role db (m ∷ n ∷ ms) e h = absurd (ground arith)

module _ (w u : ℕ) (role : Role) (db : Db) where
  -- A change of role that returns gives the user's only membership of the workspace the new role, and
  -- changes nothing else in the database.
  pub change_role_lem :
      {out : UserOut}
      → (get_db (change_role w u role) db).0 ≡ ok out
      → (m : OrganizationMember) × (memberships w u db ≡ m ∷ [])
        × (memberships w u (after (change_role w u role) db) ≡ record m { role = role } ∷ [])
        × (after (change_role w u role) db
            ≡ record db { members = update m.id (λ x. record x { role = role }) db.members })
  change_role_lem h =
      let (m, only, done) = change_role_found w u role db (memberships w u db) refl h in
      (
        m,
        only,
        ap (memberships w u) done
            ∙ (select-update (λ x. x.workspace_id == w && x.user_id == u)
                  (λ x. record x { role = role }) m.id db.members (λ x. refl)
                ∙ (ap (update m.id (λ x. record x { role = role })) only ∙ ground arith)),
        done,
      )

memberships-cases :
    (ms : List OrganizationMember)
    → (ms ≡ []) ⊎ ((m : OrganizationMember) × (rest : List OrganizationMember) × (ms ≡ m ∷ rest))
memberships-cases [] = inl refl
memberships-cases (m ∷ rest) = inr (m, rest, refl)

abbrev pub already_member : Exc
already_member = app (app_error Kind.conflict "User is already a member of this workspace")

module _ (env : Env) (fresh later : Fresh) (w : ℕ) (address : String) (role role' : Role)
    (db : Db) where
  abbrev by_address : Db → List User
  by_address d = select (λ u. str_eq u.email (env.lower address)) d.users

  invite_again :
      (found : List User) {out : UserOut} {ws : Workspace}
      → by_address db ≡ found
      → memberships w fresh.user_id db ≡ []
      → get w db.workspaces ≡ some ws
      → (get_db (invite env fresh w address role) db).0 ≡ ok out
      → (get_db (invite env later w address role') (after (invite env fresh w address role) db)).0
        ≡ err already_member
  unfolding get_db invite invitee
  invite_again [] e new known h = grind (arith, select-append, eq_iff)
  invite_again (u ∷ []) e new known h = elim (memberships-cases (memberships w u.id db)) [
    | inl free ↦ grind (arith, select-append, eq_iff)
    | inr taken ↦ absurd (ground arith)
  ]
  invite_again (u ∷ v ∷ us) e new known h = absurd (ground arith)

  invite_known :
      {out : UserOut}
      → (get_db (invite env fresh w address role) db).0 ≡ ok out
      → (ws : Workspace) × (get w db.workspaces ≡ some ws)
  unfolding get_db invite
  invite_known h = elim (Option-cases (get w db.workspaces)) [
    | inl unknown ↦ absurd (ground arith)
    | inr known ↦ known
  ]

  -- Once an invitation has returned, any further one of the same address to the same workspace is
  -- refused as a conflict, whatever its role, if the first drew a user identifier that no member of
  -- the workspace had.
  pub invite_conflict :
      {out : UserOut}
      → memberships w fresh.user_id db ≡ []
      → (get_db (invite env fresh w address role) db).0 ≡ ok out
      → (get_db (invite env later w address role') (after (invite env fresh w address role) db)).0
        ≡ err already_member
  invite_conflict new h = invite_again (by_address db) refl new (invite_known h).1 h
