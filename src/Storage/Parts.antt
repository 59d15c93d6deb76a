-- ===== src/Storage/Parts.antt =====
-- backend/app/stores/storage.py: an upload in parts, under both backends.
use keel_be.Prelude.{
  ℕ, suc, ◌≡◌, ◌≢◌, refl, sym, ap, subst, ◌∙◌, Text, Option, none, some, or_else, List, [], ◌∷◌,
  ◌++◌, ◌==◌, arith, length, Bool-cases, inl, inr, if◌then◌else◌,
}
use keel_be.Core.Session.{ok, continue, then_result}
use keel_be.Storage.{
  Files, find, put, grow, or_missing, part_path, save_part, get_bytes, write_parts, read_parts,
  complete_local, complete_s3,
}
use keel_be.Storage.Paths.{part_path_injective, find-put_self, find-put_ne, put-put, text_eq-ne}

-- The parts in the order of their numbers, joined.
unfoldable pub joined : List Text → Text
joined [] = []
joined (c ∷ cs) = c ++ joined cs

append_assoc : (a b c : Text) → (a ++ b) ++ c ≡ a ++ (b ++ c)
append_assoc [] b c = refl
append_assoc (x ∷ a) b c = ap (λ l. x ∷ l) (append_assoc a b c)

append_nil : (a : Text) → a ++ [] ≡ a
append_nil [] = refl
append_nil (x ∷ a) = ap (λ l. x ∷ l) (append_nil a)

module _ (upload_id : Text) where
  -- The parts from number `n` are stored, with these contents.
  abbrev Stored : List Text → ℕ → Files → Type 0
  Stored [] n fs = Unit
  Stored (c ∷ cs) n fs = (find (part_path upload_id n) fs ≡ some c) × Stored cs (suc n) fs

  -- The requests that save parts, in the order in which they come.
  unfoldable pub save_parts : List (ℕ × Text) → Files → Files
  save_parts [] fs = fs
  save_parts (u ∷ us) fs = save_parts us (save_part upload_id u.0 u.1 fs)

  -- What was last sent for a part, if anything was.
  unfoldable pub latest : ℕ → List (ℕ × Text) → Option Text → Option Text
  latest n [] before = before
  latest n (u ∷ us) before = latest n us (if u.0 == n then some u.1 else before)

  -- The contents last sent for the parts from number `n`.
  abbrev pub Sent : List Text → ℕ → List (ℕ × Text) → Type 0
  Sent [] n us = Unit
  Sent (c ∷ cs) n us = (latest n us none ≡ some c) × Sent cs (suc n) us

  latest-some :
      (n : ℕ) (us : List (ℕ × Text)) (before : Option Text) {c : Text}
      → latest n us none ≡ some c
      → latest n us before ≡ some c
  unfolding latest
  latest-some n [] before h = cc
  latest-some n (u ∷ us) before {c} h = elim (Bool-cases (u.0 == n)) [
    | inl hit ↦ ground (arith, hit, h)
    | inr miss ↦ ground (arith, miss, h, latest-some n us before {c = c})
  ]

  find-save_parts :
      (n : ℕ) (us : List (ℕ × Text)) (fs : Files)
      → find (part_path upload_id n) (save_parts us fs)
        ≡ latest n us (find (part_path upload_id n) fs)
  unfolding save_parts save_part latest
  find-save_parts n [] fs = refl
  find-save_parts n (u ∷ us) fs =
      find-save_parts n us (save_part upload_id u.0 u.1 fs)
      ∙ ap (latest n us) (elim (Bool-cases (u.0 == n)) [
        | inl hit ↦
            let e : u.0 ≡ n = ground (arith, hit) in
            rw hit (
              subst
                (λ k.
                  find (part_path upload_id k) (put (part_path upload_id u.0) u.1 fs) ≡ some u.1)
                e (find-put_self (part_path upload_id u.0) u.1 fs))
        | inr miss ↦ rw miss (
            find-put_ne (part_path upload_id u.0) (part_path upload_id n) u.1 fs (
              text_eq-ne (part_path upload_id u.0) (part_path upload_id n) (λ e.
                let k : u.0 ≡ n = part_path_injective upload_id u.0 n e in
                absurd (ground (arith, miss, k)))))
      ])

  Stored-save_parts :
      (cs : List Text) (n : ℕ) (us : List (ℕ × Text)) (fs : Files)
      → Sent cs n us
      → Stored cs n (save_parts us fs)
  Stored-save_parts [] n us fs h = tt
  Stored-save_parts (c ∷ cs) n us fs h = (
    find-save_parts n us fs ∙ latest-some n us (find (part_path upload_id n) fs) {c = c} h.0,
    Stored-save_parts cs (suc n) us fs h.1,
  )

  module _ (final_path : Text) (apart : (n : ℕ) → final_path ≢ part_path upload_id n) where
    write_parts-Stored :
        (cs : List Text) (n : ℕ) (buf : Text) (fs : Files)
        → Stored cs n fs
        → write_parts upload_id final_path (length cs) n (put final_path buf fs)
          ≡ (ok final_path, put final_path (buf ++ joined cs) fs)
    unfolding write_parts get_bytes joined
    write_parts-Stored [] n buf fs h =
        ap (λ b. (ok final_path, put final_path b fs)) (sym (append_nil buf))
    write_parts-Stored (c ∷ cs) n buf fs h =
        let old = put final_path buf fs in
        let there : find (part_path upload_id n) old ≡ some c =
          find-put_ne final_path (part_path upload_id n) buf fs
            (text_eq-ne final_path (part_path upload_id n) (apart n))
          ∙ h.0 in
        let grown : grow final_path c old ≡ put final_path (buf ++ c) fs =
          ap (λ o. put final_path (or_else o [] ++ c) old) (find-put_self final_path buf fs)
          ∙ put-put final_path buf (buf ++ c) fs in
        ap
          (λ o.
            continue (or_missing o)
              (λ content fs'.
                write_parts upload_id final_path (length cs) (suc n) (grow final_path content fs'))
              old)
          there
        ∙ (ap (write_parts upload_id final_path (length cs) (suc n)) grown
            ∙ (write_parts-Stored cs (suc n) (buf ++ c) fs h.1
                ∙ ap (λ b. (ok final_path, put final_path b fs)) (append_assoc buf c (joined cs))))

    read_parts-Stored :
        (cs : List Text) (n : ℕ) (buf : Text) (fs : Files)
        → Stored cs n fs
        → read_parts upload_id (length cs) n buf fs ≡ ok (buf ++ joined cs)
    unfolding read_parts get_bytes joined
    read_parts-Stored [] n buf fs h = ap ok (sym (append_nil buf))
    read_parts-Stored (c ∷ cs) n buf fs h =
        ap
          (λ o.
            then_result (or_missing o)
              (λ content. read_parts upload_id (length cs) (suc n) (buf ++ content) fs))
          h.0
        ∙ (read_parts-Stored cs (suc n) (buf ++ c) fs h.1 ∙ ap ok (append_assoc buf c (joined cs)))

    -- The parts of an upload may be sent in any order and more than once: once each of them has been
    -- sent, both backends complete the upload alike, and the object then read is what was last sent for
    -- each part, in the order of their numbers; the final path is not that of a part.
    pub complete_multipart_lem :
        (us : List (ℕ × Text)) (cs : List Text) (fs : Files)
        → Sent cs 1 us
        → let stored = save_parts us fs in
          (complete_local upload_id final_path (length cs) stored
            ≡ complete_s3 upload_id final_path (length cs) stored)
          × (get_bytes final_path (complete_local upload_id final_path (length cs) stored).1
              ≡ ok (joined cs))
    unfolding complete_local complete_s3 get_bytes
    complete_multipart_lem us cs fs sent =
        let stored = save_parts us fs in
        let there = Stored-save_parts cs 1 us fs sent in
        let local = write_parts-Stored cs 1 [] stored there in
        (
          local
              ∙ sym (
                  ap (λ r. continue r (λ buf fs'. (ok final_path, put final_path buf fs')) stored)
                    (read_parts-Stored cs 1 [] stored there)),
          ap (λ r. get_bytes final_path r.1) local
              ∙ ap or_missing (find-put_self final_path (joined cs) stored),
        )
