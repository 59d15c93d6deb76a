-- ===== src/Storage/Tests.antt =====
-- An upload of two parts, the second sent first.
use keel_be.Prelude.{ℕ, Text, ◌≡◌, ◌≢◌, refl, [], ◌∷◌, codes, arith, none}
use keel_be.Core.Session.{ok}
use keel_be.Storage.{find, Files, part_path, get_bytes, complete_local, complete_s3}
use keel_be.Storage.Refinement.{
  part, complete, Holds, serve_requests, act_all, serve_requests-Holds,
}
use keel_be.Storage.Parts.{save_parts, joined, latest, complete_multipart_lem}

abbrev upload : Text
upload = codes "u"

abbrev stored : Files
unfolding save_parts
stored = save_parts upload ((2, codes "b") ∷ (1, codes "x") ∷ (1, codes "a") ∷ []) []

apart : (n : ℕ) → codes "workspaces/f" ≢ part_path upload n
unfolding part_path
apart n e = ground (arith, e)

complete_multipart_lem_example :
    (complete_local upload (codes "workspaces/f") 2 stored
      ≡ complete_s3 upload (codes "workspaces/f") 2 stored)
    × (get_bytes (codes "workspaces/f") (complete_local upload (codes "workspaces/f") 2 stored).1
        ≡ ok (joined (codes "a" ∷ codes "b" ∷ [])))
unfolding latest save_parts
complete_multipart_lem_example =
    complete_multipart_lem upload (codes "workspaces/f") apart
      ((2, codes "b") ∷ (1, codes "x") ∷ (1, codes "a") ∷ []) (codes "a" ∷ codes "b" ∷ []) []
      (refl, (refl, tt))

serve_requests-Holds_example :
    Holds
      (serve_requests
        (part upload 1 (codes "a") ∷ complete upload (codes "workspaces/f") 1 ∷ [])
        [])
      (act_all
        (part upload 1 (codes "a") ∷ complete upload (codes "workspaces/f") 1 ∷ [])
        (λ path. none))
unfolding find
serve_requests-Holds_example =
    serve_requests-Holds (part upload 1 (codes "a") ∷ complete upload (codes "workspaces/f") 1 ∷ [])
      [] (λ path. none) (λ path. refl)
