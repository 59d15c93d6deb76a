-- ===== src/Users/Tests.antt =====
-- Runs of the administration of a workspace's members.
use keel_be.Prelude.{refl, arith}
use keel_be.Prelude.Rows.{KeysUnique}
use keel_be.Models.Enums.{Role}
use keel_be.Models.Identity.{member_key, workspace_key, user_key}
use keel_be.Core.Session.{after}
use keel_be.Core.Settings.{defaults}
use keel_be.Fixtures.{crypto, identity_db}
use keel_be.Users.{Env, Fresh, change_role, remove_user}
use keel_be.Users.Admins.{HasAdmin, HasAdmin-kept}

abbrev env : Env
env = record { crypto = crypto; settings = defaults; lower = λ s. s }

abbrev fresh : Fresh
fresh = record { user_id = 3; member_id = 32; secret = "x"; salt = "s" }

abbrev fresh' : Fresh
fresh' = record { user_id = 4; member_id = 33; secret = "y"; salt = "s" }

members-KeysUnique : KeysUnique identity_db.members
members-KeysUnique = (refl, (refl, tt))

HasAdmin-kept_example :
    HasAdmin 20 (after (change_role 20 1 Role.standard) identity_db)
    × HasAdmin 20 (after (remove_user 20 1) identity_db)
HasAdmin-kept_example =
    HasAdmin-kept 20 1 20 Role.standard identity_db members-KeysUnique (ground arith)
