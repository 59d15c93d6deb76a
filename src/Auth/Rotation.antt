-- ===== src/Auth/Rotation.antt =====
-- backend/app/services/auth_service.py: `refresh` and `logout`, one after the other.
use mathlib.Core.List.{append-nil}
use keel_be.Prelude.{
  ℕ, String, ◌≡◌, refl, ◌≢◌, List, [], ◌∷◌, ◌⊎◌, inl, inr, Option-cases, arith, false, some, str_eq,
  eq_iff, select-append,
}
use keel_be.Prelude.Rows.{select-update}
use keel_be.Models.Identity.{Db, User, RefreshToken, refresh_token_key, user_key}
use keel_be.Core.Errors.{Exc, Kind, app, app_error_with}
use keel_be.Core.Session.{ok, err, Session, get_db, after}
use keel_be.Auth.{Env, Fresh, AuthResult, refresh, logout, start_session, tokens_by_hash}

abbrev pub unauthenticated_session : Exc
unauthenticated_session =
    app (app_error_with Kind.unauthenticated "Invalid or expired session" "UNAUTHENTICATED")

module _ (env : Env) where
  -- A session start appends no token of another hash.
  tokens-start_session :
      (fresh : Fresh) (hash : String) (u : User) (s : Session Db)
      → env.crypto.sha256_hex (env.crypto.token_urlsafe 48 fresh.refresh) ≢ hash
      → tokens_by_hash hash (start_session env fresh u s).1.working ≡ tokens_by_hash hash s.working
  unfolding start_session
  tokens-start_session fresh hash u s ne = grind (arith, select-append, eq_iff, append-nil)

  -- A refresh that succeeds found one live token, and leaves it, revoked, as the only one of its hash.
  refresh_spends :
      (fresh : Fresh) (raw : String) (db : Db) {r : AuthResult}
      → let hash = env.crypto.sha256_hex raw in
        env.crypto.sha256_hex (env.crypto.token_urlsafe 48 fresh.refresh) ≢ hash
        → (found : List RefreshToken) → tokens_by_hash hash db ≡ found
        → (get_db (refresh env fresh raw) db).0 ≡ ok r
        → (t : RefreshToken) × (tokens_by_hash hash (after (refresh env fresh raw) db)
            ≡ record t { revoked_at = some fresh.now } ∷ [])
  unfolding get_db refresh
  refresh_spends fresh raw db ne [] e h = ground arith
  refresh_spends fresh raw db ne (t ∷ []) e h =
      (t, grind (arith, tokens-start_session, select-update, eq_iff))
  refresh_spends fresh raw db ne (t ∷ u ∷ ts) e h = ground arith

  -- A token whose only row is revoked is refused.
  refresh_revoked :
      (fresh : Fresh) (raw : String) (db : Db) (t : RefreshToken) (when : ℕ)
      → tokens_by_hash (env.crypto.sha256_hex raw) db ≡ t ∷ []
      → t.revoked_at ≡ some when
      → (get_db (refresh env fresh raw) db).0 ≡ err unauthenticated_session
  unfolding get_db refresh
  refresh_revoked fresh raw db t when e h = ground arith

  -- A refresh token serves once: after a refresh that succeeded, every later refresh with the same
  -- token is refused, provided that the token issued in exchange has another hash.
  pub refresh_once :
      (fresh later : Fresh) (raw : String) (db : Db) {r : AuthResult}
      → env.crypto.sha256_hex (env.crypto.token_urlsafe 48 fresh.refresh)
        ≢ env.crypto.sha256_hex raw
      → (get_db (refresh env fresh raw) db).0 ≡ ok r
      → (get_db (refresh env later raw) (after (refresh env fresh raw) db)).0
        ≡ err unauthenticated_session
  refresh_once fresh later raw db ne h =
      let (t, spent) =
        refresh_spends fresh raw db ne (tokens_by_hash (env.crypto.sha256_hex raw) db) refl h in
      refresh_revoked later raw (after (refresh env fresh raw) db)
        (record t { revoked_at = some fresh.now }) fresh.now spent refl

  logout_spends :
      (fresh : Fresh) (raw : String) (db : Db) (found : List RefreshToken)
      → str_eq raw "" ≡ false
      → tokens_by_hash (env.crypto.sha256_hex raw) db ≡ found
      → (get_db (logout env fresh (some raw)) db).0 ≡ ok tt
      → (tokens_by_hash (env.crypto.sha256_hex raw) (after (logout env fresh (some raw)) db) ≡ [])
        ⊎ ((t : RefreshToken) × (when : ℕ) × (tokens_by_hash
                (env.crypto.sha256_hex raw)
                (after (logout env fresh (some raw)) db)
              ≡ t ∷ [])
            × (t.revoked_at ≡ some when))
  unfolding get_db logout
  logout_spends fresh raw db [] nonempty e h = ground arith
  logout_spends fresh raw db (t ∷ []) nonempty e h = elim (Option-cases t.revoked_at) [
    | inl live ↦ inr (
      record t { revoked_at = some fresh.now },
      fresh.now,
      grind (arith, select-update, eq_iff),
      refl,
    )
    | inr (when, dead) ↦ inr (t, when, grind (arith, select-update, eq_iff), dead)
  ]
  logout_spends fresh raw db (t ∷ u ∷ ts) nonempty e h = ground arith

  refresh_unknown :
      (fresh : Fresh) (raw : String) (db : Db)
      → tokens_by_hash (env.crypto.sha256_hex raw) db ≡ []
      → (get_db (refresh env fresh raw) db).0 ≡ err unauthenticated_session
  unfolding get_db refresh
  refresh_unknown fresh raw db e = ground arith

  -- After a logout that returned, the token that was presented, if it is not the empty text, opens
  -- no session any more, whether it was known before or not.
  pub refresh-logout :
      (fresh later : Fresh) (raw : String) (db : Db)
      → str_eq raw "" ≡ false
      → (get_db (logout env fresh (some raw)) db).0 ≡ ok tt
      → (get_db (refresh env later raw) (after (logout env fresh (some raw)) db)).0
        ≡ err unauthenticated_session
  refresh-logout fresh later raw db nonempty h =
      elim (logout_spends fresh raw db (tokens_by_hash (env.crypto.sha256_hex raw) db) nonempty refl
        h) [
          | inl unknown ↦ refresh_unknown later raw (after (logout env fresh (some raw)) db) unknown
          | inr (t, when, only, dead) ↦
              refresh_revoked later raw (after (logout env fresh (some raw)) db) t when only dead
        ]
