-- ===== src/Storage/Refinement.antt =====
-- backend/app/stores/storage.py: the stored objects as a function from paths to contents.
use keel_be.Prelude.{
  ℕ, zero, suc, ◌≡◌, refl, sym, ap, subst, ◌∙◌, Text, Option, none, some, List, [], ◌∷◌, ◌++◌,
  text_eq, text_eq-eq, Bool-cases, inl, inr, if◌then◌else◌,
}
use keel_be.Core.Session.{ok, continue, then_result}
use keel_be.Storage.{
  Files, find, put, or_missing, part_path, get_bytes, save_part, read_parts, complete_s3,
}
use keel_be.Storage.Paths.{find-put_self, find-put_ne}

-- What an object store promises: a path has a content, or none.
abbrev pub Objects : Type 0
Objects = Text → Option Text

-- The requests that change what is stored.
pub data Request : Type 0 where
  save : Text → Text → Request
  part : Text → ℕ → Text → Request
  complete : Text → Text → ℕ → Request

-- One object is replaced, and every other one stays.
unfoldable pub assign : Text → Text → Objects → Objects
assign path content m p = if text_eq path p then some content else m p

-- The parts from `n`, joined after a text, if all of them are there.
unfoldable pub gather_parts : Text → ℕ → ℕ → Text → Objects → Option Text
gather_parts upload_id zero n buf m = some buf
gather_parts upload_id (suc left) n buf m = elim (m (part_path upload_id n)) [
  | none ↦ none
  | some content ↦ gather_parts upload_id left (suc n) (buf ++ content) m
]

abbrev assign_if : Text → Option Text → Objects → Objects
assign_if path none m = m
assign_if path (some content) m = assign path content m

-- What a request does to the objects, and what it does to the files of S3.
unfoldable pub act : Request → Objects → Objects
unfolding assign gather_parts
act (save path content) m = assign path content m
act (part upload_id n content) m = assign (part_path upload_id n) content m
act (complete upload_id final_path count) m =
    assign_if final_path (gather_parts upload_id count 1 [] m) m

unfoldable pub serve_request : Request → Files → Files
serve_request (save path content) fs = put path content fs
serve_request (part upload_id n content) fs = save_part upload_id n content fs
serve_request (complete upload_id final_path count) fs =
    (complete_s3 upload_id final_path count fs).1

unfoldable pub act_all : List Request → Objects → Objects
act_all [] m = m
act_all (r ∷ rs) m = act_all rs (act r m)

unfoldable pub serve_requests : List Request → Files → Files
serve_requests [] fs = fs
serve_requests (r ∷ rs) fs = serve_requests rs (serve_request r fs)

-- The files hold these objects.
abbrev pub Holds : Files → Objects → Type 0
Holds fs m = (path : Text) → find path fs ≡ m path

put-Holds :
    (path content : Text) (fs : Files) (m : Objects)
    → Holds fs m
    → Holds (put path content fs) (assign path content m)
unfolding assign
put-Holds path content fs m h p = elim (Bool-cases (text_eq path p)) [
  | inl same ↦ rw same (
      ap (λ q. find q (put path content fs)) (sym (text_eq-eq path p same))
      ∙ find-put_self path content fs)
  | inr differs ↦ rw differs (find-put_ne path p content fs differs ∙ h p)
]

read_parts-gather :
    (upload_id : Text) (left n : ℕ) (buf : Text) (fs : Files) (m : Objects)
    → Holds fs m
    → read_parts upload_id left n buf fs ≡ or_missing (gather_parts upload_id left n buf m)
unfolding read_parts gather_parts get_bytes
read_parts-gather u zero n buf fs m h = refl
read_parts-gather u (suc left) n buf fs m h =
    go (m (part_path u n)) (h (part_path u n))
      (λ content. read_parts-gather u left (suc n) (buf ++ content) fs m h)
  where
    go :
        (o : Option Text)
        → find (part_path u n) fs ≡ o
        → ((content : Text)
            → read_parts u left (suc n) (buf ++ content) fs
              ≡ or_missing (gather_parts u left (suc n) (buf ++ content) m))
        → then_result
            (or_missing (find (part_path u n) fs))
            (λ content. read_parts u left (suc n) (buf ++ content) fs)
          ≡ or_missing (elim o [
            | none ↦ none
            | some content ↦ gather_parts u left (suc n) (buf ++ content) m
          ])
    go none e rest = rw e refl
    go (some content) e rest = rw e (rest content)

complete-Holds :
    (u final_path : Text) (count : ℕ) (fs : Files) (m : Objects)
    → Holds fs m
    → Holds
        (complete_s3 u final_path count fs).1
        (assign_if final_path (gather_parts u count 1 [] m) m)
unfolding complete_s3
complete-Holds u final_path count fs m h =
    subst
      (λ r.
        Holds (continue r (λ buf fs'. (ok final_path, put final_path buf fs')) fs).1
          (assign_if final_path (gather_parts u count 1 [] m) m))
      (sym (read_parts-gather u count 1 [] fs m h)) (go (gather_parts u count 1 [] m))
  where
    go :
        (o : Option Text)
        → Holds
            (continue (or_missing o) (λ buf fs'. (ok final_path, put final_path buf fs')) fs).1
            (assign_if final_path o m)
    go none = h
    go (some content) = put-Holds final_path content fs m h

serve_request-Holds :
    (r : Request) (fs : Files) (m : Objects) → Holds fs m → Holds (serve_request r fs) (act r m)
unfolding serve_request act save_part
serve_request-Holds (save path content) fs m h = put-Holds path content fs m h
serve_request-Holds (part u n content) fs m h = put-Holds (part_path u n) content fs m h
serve_request-Holds (complete u final_path count) fs m h = complete-Holds u final_path count fs m h

-- After any sequence of requests that save objects, save parts and complete uploads, the store of S3
-- holds under every path what the same requests leave there in a function from paths to contents,
-- where a save replaces one content, and a completion joins the parts under its path if all of them
-- are there and otherwise changes nothing.
pub serve_requests-Holds :
    (rs : List Request) (fs : Files) (m : Objects)
    → Holds fs m
    → Holds (serve_requests rs fs) (act_all rs m)
unfolding serve_requests act_all
serve_requests-Holds [] fs m h = h
serve_requests-Holds (r ∷ rs) fs m h =
    serve_requests-Holds rs (serve_request r fs) (act r m) (serve_request-Holds r fs m h)
