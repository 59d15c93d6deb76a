-- ===== src/Retrieval/Context.antt =====
-- backend/app/services/retrieval_service.py: the chunks in a context.
use mathlib.Core.List.{append_assoc, append-nil}
use keel_be.Prelude.{
  ℕ, Text, ◌≡◌, refl, ◌≤◌, ◌+◌, inl, inr, ◌||◌, true, false, Option, List, [], ◌∷◌, ◌++◌, map, leb,
  ltb, arith, Bool-cases, if◌then◌else◌, join,
}
use keel_be.Core.Settings.{Settings}
use keel_be.Retrieval.{RetrievedChunk, Assembly, block_of, assemble, assemble_context, cap_of}

module _ {Score : Type 0} (count_tokens : Text → ℕ) where
  -- The tokens of the blocks of the chunks.
  abbrev pub tokens_of : List (RetrievedChunk Score) → ℕ
  tokens_of [] = 0
  tokens_of (c ∷ cs) = count_tokens (block_of c) + tokens_of cs

  tokens_of-append :
      (cs ds : List (RetrievedChunk Score)) → tokens_of (cs ++ ds) ≡ tokens_of cs + tokens_of ds
  tokens_of-append [] ds = ground arith
  tokens_of-append (c ∷ cs) ds = ground (arith, tokens_of-append cs ds)

  -- What the loop takes of the chunks that are left, with `total` tokens taken before: each chunk
  -- that still fits.
  abbrev pub fitting : ℕ → ℕ → List (RetrievedChunk Score) → List (RetrievedChunk Score)
  fitting cap total [] = []
  fitting cap total (c ∷ cs) =
      let tk = count_tokens (block_of c) in
      let skipped = fitting cap total cs in
      let taken = fitting cap (total + tk) cs in if leb (total + tk) cap then c ∷ taken else skipped

  fitting-le :
      (cap total : ℕ) (cs : List (RetrievedChunk Score))
      → total ≤ cap
      → total + tokens_of (fitting cap total cs) ≤ cap
  fitting-le cap total [] h = ground arith
  fitting-le cap total (c ∷ cs) h =
      elim (Bool-cases (leb (total + count_tokens (block_of c)) cap)) [
        | inl fits ↦ ground (arith, fitting-le cap (total + count_tokens (block_of c)) cs)
        | inr over ↦ ground (arith, fitting-le cap total cs)
      ]

  fitting-all :
      (cap total : ℕ) (cs : List (RetrievedChunk Score))
      → total + tokens_of cs ≤ cap
      → fitting cap total cs ≡ cs
  fitting-all cap total [] h = refl
  fitting-all cap total (c ∷ cs) h =
      ground (arith, fitting-all cap (total + count_tokens (block_of c)) cs)

  -- What the loop leaves, from what it has already.
  abbrev Leaves : ℕ → Assembly Score → List (RetrievedChunk Score) → Assembly Score → Type 0
  Leaves cap a cs b =
      (b.used ≡ a.used ++ fitting cap a.total cs)
      × (b.parts ≡ a.parts ++ map block_of (fitting cap a.total cs))
      × (b.total ≡ a.total + tokens_of (fitting cap a.total cs))
      × (b.truncated ≡ (a.truncated || ltb cap (a.total + tokens_of cs)))

  assemble-Leaves :
      (cap : ℕ) (a : Assembly Score) (cs : List (RetrievedChunk Score))
      → a.total ≤ cap
      → Leaves cap a cs (assemble count_tokens cap a cs)
  unfolding assemble
  assemble-Leaves cap a [] h = grind (arith, append-nil)
  assemble-Leaves cap a (c ∷ cs) h =
      elim (Bool-cases (ltb cap (a.total + count_tokens (block_of c)))) [
        | inl over ↦
            let ih = assemble-Leaves cap (record a { truncated = true }) cs h in
            grind (arith, append_assoc)
        | inr fits ↦
            let ih =
              assemble-Leaves cap
                (record a {
                  parts = a.parts ++ block_of c ∷ [];
                  used = a.used ++ c ∷ [];
                  total = a.total + count_tokens (block_of c);
                })
                cs (ground arith) in
            grind (arith, append_assoc)
      ]

-- The context is the blocks of the chunks used, blank lines between them; those used are, in their
-- order, the chunks that still fit under the cap; their blocks' tokens are the count, which is at most
-- the cap; and the context is marked truncated exactly when all blocks together are over the cap.
pub assemble_context_lem :
    {Score : Type 0} (count_tokens : Text → ℕ) (settings : Settings) (max_tokens : Option ℕ)
    (chunks : List (RetrievedChunk Score)) {text : Text} {a : Assembly Score}
    → assemble_context count_tokens settings max_tokens chunks ≡ (text, a)
    → (a.used ≡ fitting count_tokens (cap_of settings max_tokens) 0 chunks)
      × (text ≡ join (10 ∷ 10 ∷ []) (map block_of a.used))
      × (a.total ≡ tokens_of count_tokens a.used)
      × (a.total ≤ cap_of settings max_tokens)
      × (a.truncated ≡ ltb (cap_of settings max_tokens) (tokens_of count_tokens chunks))
unfolding assemble_context
assemble_context_lem count_tokens settings max_tokens chunks e =
    let l =
      assemble-Leaves count_tokens (cap_of settings max_tokens)
        (record { parts = []; used = []; total = 0; truncated = false }) chunks (ground arith) in
    let b = fitting-le count_tokens (cap_of settings max_tokens) 0 chunks (ground arith) in
    grind arith

-- Chunks that fit together are all used, and the context is not truncated.
pub assemble_context_whole :
    {Score : Type 0} (count_tokens : Text → ℕ) (settings : Settings) (max_tokens : Option ℕ)
    (chunks : List (RetrievedChunk Score)) {text : Text} {a : Assembly Score}
    → assemble_context count_tokens settings max_tokens chunks ≡ (text, a)
    → tokens_of count_tokens chunks ≤ cap_of settings max_tokens
    → (a.used ≡ chunks) × (a.truncated ≡ false)
assemble_context_whole count_tokens settings max_tokens chunks e h =
    let l = assemble_context_lem count_tokens settings max_tokens chunks e in
    let w = fitting-all count_tokens (cap_of settings max_tokens) 0 chunks (ground arith) in
    grind arith
