-- ===== src/Storage.antt =====
-- backend/app/stores/storage.py: the two backends of the object storage, over the list of stored
-- objects, and uploads in parts.
pub mod Paths
pub mod Parts
pub mod Refinement
mod Tests
use keel_be.Prelude.{
  ℕ, zero, suc, ◌+◌, ◌-◌, Text, not, Option, or_else, none, some, List, [], ◌∷◌, ◌++◌, codes,
  decimal, length, select, text_eq, if◌then◌else◌,
}
use keel_be.Core.Errors.{Exc, other}
use keel_be.Core.Session.{Result, ok, err, Run, continue, then_result}

abbrev pub Files : Type 0
Files = List (Text × Text)

-- The object stored under a path.
unfoldable pub find : Text → Files → Option Text
find path [] = none
find path (f ∷ fs) = let rest = find path fs in if text_eq f.0 path then some f.1 else rest

-- `write_bytes`, `put_object`
unfoldable pub put : Text → Text → Files → Files
put path content fs = (path, content) ∷ select (λ f. not (text_eq f.0 path)) fs

-- `get_bytes` of both: a path without an object raises.
abbrev pub or_missing : Option Text → Result Text
or_missing none = err (other "FileNotFoundError" "")
or_missing (some content) = ok content

unfoldable pub get_bytes : Text → Files → Result Text
get_bytes path fs = or_missing (find path fs)

-- `size` of both
unfoldable pub size : Text → Files → Result ℕ
unfolding get_bytes
size path fs = then_result (get_bytes path fs) (λ content. ok (length content))

-- `f"{n:06d}"`
unfoldable pub zeros : ℕ → Text → Text
zeros zero t = t
zeros (suc n) t = b'0' ∷ zeros n t

unfoldable pub six_digits : ℕ → Text
unfolding zeros
six_digits n = zeros (6 - length (decimal n)) (decimal n)

-- `f"_parts/{upload_id}/{n:06d}.part"`
unfoldable pub part_path : Text → ℕ → Text
unfolding six_digits
part_path upload_id n = codes "_parts/" ++ (upload_id ++ (b'/' ∷ (six_digits n ++ codes ".part")))

-- `save_part` of both
unfoldable pub save_part : Text → ℕ → Text → Files → Files
unfolding part_path put
save_part upload_id part_number content = put (part_path upload_id part_number) content

-- `fh.write(…)`: the object at the path grows.
abbrev pub grow : Text → Text → Files → Files
grow path more fs = put path (or_else (find path fs) [] ++ more) fs

-- `LocalStorage.complete_multipart`: the loop from part `n`, for the number of parts left.
unfoldable pub write_parts : Text → Text → ℕ → ℕ → Run Files Text
write_parts upload_id final_path zero n fs = (ok final_path, fs)
write_parts upload_id final_path (suc left) n fs =
    continue (get_bytes (part_path upload_id n) fs)
      (λ content fs'. write_parts upload_id final_path left (suc n) (grow final_path content fs'))
      fs

unfoldable pub complete_local : Text → Text → ℕ → Run Files Text
complete_local upload_id final_path part_count fs =
    write_parts upload_id final_path part_count 1 (put final_path [] fs)

-- `S3Storage.complete_multipart`: the loop that fills the buffer, and the object put at its end.
unfoldable pub read_parts : Text → ℕ → ℕ → Text → Files → Result Text
read_parts upload_id zero n buf fs = ok buf
read_parts upload_id (suc left) n buf fs =
    then_result (get_bytes (part_path upload_id n) fs)
      (λ content. read_parts upload_id left (suc n) (buf ++ content) fs)

unfoldable pub complete_s3 : Text → Text → ℕ → Run Files Text
complete_s3 upload_id final_path part_count fs =
    continue (read_parts upload_id part_count 1 [] fs)
      (λ buf fs'. (ok final_path, put final_path buf fs')) fs
