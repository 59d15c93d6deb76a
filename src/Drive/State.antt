-- ===== src/Drive/State.antt =====
-- backend/app/connectors/google_drive.py: the signed state of an OAuth handshake.
use keel_be.Prelude.{
  Text, ◌≡◌, ◌≢◌, ◌↔◌, refl, some, [], ◌∷◌, ◌++◌, All, arith, text_eq-eq, text_eq_refl, is_nonempty,
  true,
}
use keel_be.Drive.{
  Libraries, GoogleSettings, partition_dot, state_signature, sign_state, verify_state,
}

-- The text has no full stop.
abbrev pub NoDot : Text → Type 0
NoDot s = All (λ c. c ≢ b'.') s

partition_dot-append : (s t : Text) → NoDot s → partition_dot (s ++ (b'.' ∷ t)) ≡ (s, t)
unfolding partition_dot
partition_dot-append [] t h = refl
partition_dot-append (c ∷ s) t h = ground (arith, h.0, partition_dot-append s t h.1)

-- A text is what stands before its first full stop, the full stop, and what stands after it.
append-partition_dot :
    (s : Text)
    → is_nonempty (partition_dot s).1 ≡ true
    → s ≡ (partition_dot s).0 ++ (b'.' ∷ (partition_dot s).1)
unfolding partition_dot
append-partition_dot [] h = cc
append-partition_dot (c ∷ s) h = ground (arith, append-partition_dot s)

module _ (lib : Libraries) (settings : GoogleSettings) where
  verified_signed :
      (state id : Text)
      → verify_state lib settings state ≡ some id
      → state ≡ sign_state lib settings id
  unfolding verify_state sign_state
  verified_signed state id h = ground (
    arith,
    append-partition_dot state,
    text_eq-eq (partition_dot state).1 (state_signature lib settings (partition_dot state).0),
  )

  -- The OAuth callback takes a state for a connector exactly if it is the one that the server signed
  -- for it, with its secret; the identifier has no full stop and the digest is not empty.
  pub verify_state-sign_state :
      (state id : Text)
      → NoDot id
      → is_nonempty (state_signature lib settings id) ≡ true
      → (verify_state lib settings state ≡ some id) ↔ (state ≡ sign_state lib settings id)
  unfolding verify_state sign_state
  verify_state-sign_state state id plain signed = (
    verified_signed state id,
    λ e. ground (
      arith,
      partition_dot-append id (state_signature lib settings id) plain,
      text_eq_refl (state_signature lib settings id),
    ),
  )
