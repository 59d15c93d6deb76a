-- ===== src/Core/Session/Keeps.antt =====
-- backend/app/core/database.py: handlers that commit nothing by themselves.
use keel_be.Prelude.{◌≡◌, refl, ◌∙◌}
use keel_be.Core.Errors.{Exc}
use keel_be.Core.Session.{Result, ok, err, Session, Exec, open_session, get_db, after}

-- The handler never commits before it returns or raises.
abbrev pub NeverCommits : {Db A : Type 0} → Exec Db A → Type 0
NeverCommits {Db} m = (s : Session Db) → (m s).1.committed ≡ s.committed

module _ {Db A : Type 0} where
  raised_of_result :
      (r : Result A) (s : Session Db) {e : Exc}
      → r ≡ err e
      → elim r as (λ _. Db) [ ok _ ↦ s.working | err _ ↦ s.committed ] ≡ s.committed
  raised_of_result (ok a) s h = cc
  raised_of_result (err e) s h = refl

  pub after_raise :
      (m : Exec Db A)
      → NeverCommits m
      → (db : Db) {e : Exc} → (get_db m db).0 ≡ err e
      → after m db ≡ db
  unfolding get_db
  after_raise m keeps db h =
      let (r, s) = m (open_session db) in raised_of_result r s h ∙ keeps (open_session db)
