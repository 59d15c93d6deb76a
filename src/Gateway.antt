-- ===== src/Gateway.antt =====
-- backend/app/services/llm_gateway.py, usage.py and tagging_service.py: calls of the language model
-- with their retries, embedding in batches, the rows of token usage, and tags.
pub mod Batches
pub mod Stream
pub mod Bucket
mod Tests
use Prim.Native.String.{String, ◌++◌ as append}
use keel_be.Prelude.{
  ℕ, zero, suc, Text, ◌+◌, Bool, true, false, not, ◌&&◌, ◌||◌, Option, none, some, List, [], ◌∷◌,
  ◌++◌, map, ltb, leb, ◌==◌, str_eq, take, drop, length, is_nonempty, strip, mem_text,
  if◌then◌else◌,
}
use keel_be.Core.Errors.{Exc, Kind, app, app_error, multiple_rows, stale_data, parse_error, other}
use keel_be.Core.Session.{Result, ok, err, Run, ◌>>=◌, ◌>>◌}
use keel_be.Core.Settings.{Settings}

-- `_is_transient`
unfoldable pub is_transient : Exc → Bool
is_transient (other t m) =
    str_eq t "RateLimitError"
    || str_eq t "APIConnectionError"
    || str_eq t "APITimeoutError"
    || str_eq t "InternalServerError"
is_transient (app e) = false
is_transient multiple_rows = false
is_transient stale_data = false
is_transient (parse_error m) = false

-- `_MAX_RETRIES`
abbrev pub max_tries : ℕ
max_tries = 3

abbrev pub provider_error : String → Exc
provider_error what = app (app_error Kind.upstream_ai (append "AI provider error during " what))

-- The loop of `_with_retry`, with the number of attempts left; `attempt n` is the n-th call.
unfoldable pub try_from : {A : Type 0} → String → (ℕ → Result A) → ℕ → ℕ → Result A
try_from what attempt zero n = err (provider_error what)
try_from what attempt (suc left) n =
    let again = try_from what attempt left (n + 1) in
    elim (attempt n) [
      | ok a ↦ ok a
      | err e ↦ if is_transient e then again else err (provider_error what)
    ]

unfoldable pub with_retry : {A : Type 0} → String → (ℕ → Result A) → Result A
unfolding try_from
with_retry what attempt = try_from what attempt max_tries 1

-- A row of `token_usage`; its cost is left out.
pub record TokenUsage : Type 0 where
  pub workspace_id : ℕ
  pub operation : String
  pub model : String
  pub prompt_tokens : ℕ
  pub completion_tokens : ℕ
  pub total_tokens : ℕ

-- `record_usage`: a row that the database refuses is lost, and nothing is raised.
abbrev pub record_usage : Bool → TokenUsage → Run (List TokenUsage) Unit
record_usage db_up row rows = (ok tt, if db_up then rows ++ row ∷ [] else rows)

-- What a provider answers to one embedding call.
pub record Embedding (Vector : Type 0) : Type 0 where
  pub vectors : List Vector
  pub prompt_tokens : ℕ
  pub total_tokens : ℕ

-- `range(0, len(texts), batch)`, as the slices that start there; fuel for the number of batches.
pub batches : ℕ → ℕ → List Text → List (List Text)
batches zero batch texts = []
batches (suc fuel) batch [] = []
batches (suc fuel) batch (t ∷ texts) =
    take batch (t ∷ texts) ∷ batches fuel batch (drop batch (t ∷ texts))

-- The provider's embedding of a batch, at the n-th attempt; whether usage can be written; the model
-- and the workspace.
module _ {Vector : Type 0} (provider : List Text → ℕ → Result (Embedding Vector)) (db_up : Bool)
    (model : String) (workspace_id : ℕ) where
  -- One round of the loop of `embed`.
  pub embed_batch : List Text → Run (List TokenUsage) (List Vector)
  embed_batch texts rows = elim (with_retry "embed" (provider texts)) [
    | err e ↦ (err e, rows)
    | ok emb ↦
        (record_usage db_up (record {
          workspace_id = workspace_id;
          operation = "embedding";
          model = model;
          prompt_tokens = emb.prompt_tokens;
          completion_tokens = 0;
          total_tokens = emb.total_tokens;
        })
            >> (λ s. (ok emb.vectors, s)))
          rows
  ]

  pub embed_batches : List (List Text) → List Vector → Run (List TokenUsage) (List Vector)
  unfolding embed_batch
  embed_batches [] out rows = (ok out, rows)
  embed_batches (b ∷ bs) out rows = (embed_batch b >>= λ vs. embed_batches bs (out ++ vs)) rows

  -- `embed`
  pub embed : Settings → List Text → Run (List TokenUsage) (List Vector)
  unfolding embed_batches batches
  embed settings texts = embed_batches (batches (length texts) settings.embed_batch_size texts) []

-- What a provider answers to one chat call.
pub record ChatResult : Type 0 where
  pub content : Text
  pub prompt_tokens : ℕ
  pub completion_tokens : ℕ
  pub total_tokens : ℕ

-- `call_llm`, for its attempts.
pub call_llm :
    (ℕ → Result ChatResult) → Bool → String → ℕ → String → Run (List TokenUsage) ChatResult
call_llm attempt db_up model workspace_id operation rows =
    elim (with_retry (append "call_llm:" operation) attempt) [
      | err e ↦ (err e, rows)
      | ok chat ↦
          (record_usage db_up (record {
            workspace_id = workspace_id;
            operation = operation;
            model = model;
            prompt_tokens = chat.prompt_tokens;
            completion_tokens = chat.completion_tokens;
            total_tokens = chat.total_tokens;
          })
              >> (λ s. (ok chat, s)))
            rows
    ]

-- `MAX_TAGS`, `MAX_TAG_LEN`
abbrev pub max_tags : ℕ
max_tags = 20

abbrev pub max_tag_len : ℕ
max_tag_len = 50

-- `str(item).strip().lower()[:MAX_TAG_LEN]`
abbrev pub tag_of : (Text → Text) → Text → Text
tag_of lower item = take max_tag_len (lower (strip item))

-- The loop of `_normalize`; `seen` holds the tags so far.
pub normalize_from : (Text → Text) → List Text → List Text → List Text
normalize_from lower seen [] = seen
normalize_from lower seen (item ∷ items) =
    let tag = tag_of lower item in
    let seen' = if is_nonempty tag && not (mem_text tag seen) then seen ++ tag ∷ [] else seen in
    let rest = normalize_from lower seen' items in
    if leb max_tags (length seen') then seen' else rest

pub normalize : (Text → Text) → List Text → List Text
unfolding normalize_from
normalize lower raw = normalize_from lower [] raw
