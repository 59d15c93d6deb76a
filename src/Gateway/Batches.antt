-- ===== src/Gateway/Batches.antt =====
-- backend/app/services/llm_gateway.py and tagging_service.py: retries, batches and tags.
use keel_be.Prelude.{
  ℕ, zero, suc, String, Text, ◌≡◌, refl, ◌≤◌, ◌<◌, ◌+◌, ◌↔◌, ◌⊎◌, inl, inr, Bool, true, false, not,
  ◌&&◌, List, [], ◌∷◌, ◌++◌, leb, drop, length, All, is_nonempty, mem_text, strip, text_eq, arith,
  Bool-cases, if◌then◌else◌, length-append, length-take, length-drop,
}
use keel_be.Core.Errors.{Exc}
use keel_be.Core.Session.{Result, ok, err}
use keel_be.Core.Settings.{Settings}
use keel_be.Gateway.{
  is_transient, provider_error, try_from, with_retry, TokenUsage, Embedding, batches, embed_batch,
  embed_batches, embed, max_tags, max_tag_len, tag_of, normalize_from, normalize,
}

-- Of the attempts from the n-th on, as many as are left, one answers `a`, and those before it fail
-- with an error that is worth another attempt.
pub data Answers {A : Type 0} (attempt : ℕ → Result A) (a : A) : ℕ → ℕ → Type 0 where
  at_once : {left n : ℕ} → attempt n ≡ ok a → Answers attempt a (suc left) n
  again :
      {left n : ℕ} {e : Exc}
      → attempt n ≡ err e
      → is_transient e ≡ true
      → Answers attempt a left (n + 1)
      → Answers attempt a (suc left) n

Result-cases : {A : Type 0} (r : Result A) → ((a : A) × (r ≡ ok a)) ⊎ ((e : Exc) × (r ≡ err e))
Result-cases (ok a) = inl (a, refl)
Result-cases (err e) = inr (e, refl)

module _ {A : Type 0} (what : String) (attempt : ℕ → Result A) where
  ok_of_Answers :
      (a : A) {left n : ℕ} → Answers attempt a left n → try_from what attempt left n ≡ ok a
  unfolding try_from
  ok_of_Answers a (at_once e) = ground arith
  ok_of_Answers a (again e t rest) = ground (arith, ok_of_Answers a rest)

  same : {r : Result A} {a b : A} → r ≡ ok a → r ≡ ok b → a ≡ b
  same h k = cc

  try_from-Answers :
      (left n : ℕ) {a : A} → try_from what attempt left n ≡ ok a → Answers attempt a left n
  unfolding try_from
  try_from-Answers zero n h = absurd (ground arith)
  try_from-Answers (suc left) n {a} h = elim (Result-cases (attempt n)) [
    | inl (b, good) ↦ at_once (ground arith)
    | inr (e, bad) ↦ elim (Bool-cases (is_transient e)) [
      | inl retry ↦ again bad retry (try_from-Answers left (n + 1) (ground arith))
      | inr lasting ↦ absurd (ground arith)
    ]
  ]

  either_answer :
      (left n : ℕ)
      → ((a : A) × (try_from what attempt left n ≡ ok a))
        ⊎ (try_from what attempt left n ≡ err (provider_error what))
  unfolding try_from
  either_answer zero n = inr refl
  either_answer (suc left) n = elim (Result-cases (attempt n)) [
    | inl (b, good) ↦ inl (b, ground arith)
    | inr (e, bad) ↦ elim (Bool-cases (is_transient e)) [
      | inl retry ↦ elim (either_answer left (n + 1)) [
        | inl (b, later) ↦ inl (b, ground arith)
        | inr never ↦ inr (ground arith)
      ]
      | inr lasting ↦ inr (ground arith)
    ]
  ]

  -- A call through the gateway answers `a` exactly when one of at most three attempts does and every
  -- one before it failed with an error that is worth another attempt; a call that does not answer
  -- fails with the gateway's own error, 502.
  pub with_retry_iff :
      (a : A)
      → ((with_retry what attempt ≡ ok a) ↔ Answers attempt a 3 1)
        × (((b : A) × (with_retry what attempt ≡ ok b))
            ⊎ (with_retry what attempt ≡ err (provider_error what)))
  unfolding with_retry
  with_retry_iff a = ((λ h. try_from-Answers 3 1 h, λ h. ok_of_Answers a h), either_answer 3 1)

-- The texts of some batches.
abbrev pub texts_in : List (List Text) → ℕ
texts_in [] = 0
texts_in (b ∷ bs) = length b + texts_in bs

texts_in-batches :
    (fuel batch : ℕ) (texts : List Text)
    → 1 ≤ batch
    → length texts ≤ fuel
    → texts_in (batches fuel batch texts) ≡ length texts
unfolding batches
texts_in-batches zero batch [] h k = refl
texts_in-batches zero batch (t ∷ texts) h k = absurd (omega arith)
texts_in-batches (suc fuel) batch [] h k = refl
texts_in-batches (suc fuel) batch (t ∷ texts) h k = omega (
  arith,
  texts_in-batches fuel batch (drop batch (t ∷ texts)) h
      (omega (arith, length-drop batch (t ∷ texts))),
  length-take batch (t ∷ texts),
  length-drop batch (t ∷ texts),
)

module _ {Vector : Type 0} (provider : List Text → ℕ → Result (Embedding Vector)) (model : String)
    (workspace_id : ℕ) where
  -- The provider gives each text of a batch one vector.
  abbrev pub Aligned : Type 0
  Aligned =
      (texts : List Text) (n : ℕ) (emb : Embedding Vector)
      → provider texts n ≡ ok emb
      → length emb.vectors ≡ length texts

  from_attempt :
      (texts : List Text) {emb : Embedding Vector} {left n : ℕ}
      → Answers (provider texts) emb left n
      → (k : ℕ) × (provider texts k ≡ ok emb)
  from_attempt texts (at_once {n = n} e) = (n, e)
  from_attempt texts (again e t rest) = from_attempt texts rest

  aligned_batch :
      Aligned
      → (texts : List Text) {emb : Embedding Vector} → with_retry "embed" (provider texts) ≡ ok emb
      → length emb.vectors ≡ length texts
  aligned_batch aligned texts {emb} h =
      let (k, e) = from_attempt texts ((with_retry_iff "embed" (provider texts) emb).0.0 h) in
      aligned texts k emb e

  embed_batches_lem :
      Aligned
      → (bs : List (List Text)) (out : List Vector) (rows : List TokenUsage) {vs : List Vector}
      → (embed_batches provider true model workspace_id bs out rows).0 ≡ ok vs
      → (length vs ≡ length out + texts_in bs)
        × (length (embed_batches provider true model workspace_id bs out rows).1
            ≡ length rows + length bs)
  unfolding embed_batches embed_batch
  embed_batches_lem aligned [] out rows {vs} h = (ground arith, ground arith)
  embed_batches_lem aligned (b ∷ bs) out rows {vs} h =
      elim (Result-cases (with_retry "embed" (provider b))) [
        | inr (e, bad) ↦ absurd (ground arith)
        | inl (emb, good) ↦
            let later =
              embed_batches_lem aligned bs (out ++ emb.vectors)
                (embed_batch provider true model workspace_id b rows).1 {vs = vs} (ground arith) in
            (
              ground (arith, later.0, length-append out emb.vectors, aligned_batch aligned b good),
              grind (arith, later.1, length-append),
            )
      ]

  -- Where usage can be written, an embedding that returns has a vector for each text and has added one
  -- row of usage for each of its batches. (The provider gives each text of a call one vector, and the
  -- batch size is not 0.)
  pub embed_lem :
      Aligned
      → (settings : Settings) (texts : List Text) (rows : List TokenUsage) {vs : List Vector}
      → 1 ≤ settings.embed_batch_size
      → (embed provider true model workspace_id settings texts rows).0 ≡ ok vs
      → (length vs ≡ length texts)
        × (length (embed provider true model workspace_id settings texts rows).1
            ≡ length rows + length (batches (length texts) settings.embed_batch_size texts))
  unfolding embed
  embed_lem aligned settings texts rows {vs} size h =
      let bs = batches (length texts) settings.embed_batch_size texts in
      let l = embed_batches_lem aligned bs [] rows {vs = vs} h in
      (
        omega (
          arith,
          l.0,
          texts_in-batches (length texts) settings.embed_batch_size texts size (omega arith),
        ),
        l.1,
      )

-- A tag that is kept: not empty, and of at most 50 characters.
abbrev pub IsTag : Text → Type 0
IsTag t = (is_nonempty t ≡ true) × (length t ≤ max_tag_len)

-- No text of the list occurs again after it.
abbrev pub Distinct : List Text → Type 0
Distinct [] = Unit
Distinct (t ∷ ts) = (mem_text t ts ≡ false) × Distinct ts

All-append : (P : Text → Type 0) (ts : List Text) (t : Text) → All P ts → P t → All P (ts ++ t ∷ [])
All-append P [] t h k = (k, tt)
All-append P (s ∷ ts) t h k = (h.0, All-append P ts t h.1 k)

text_eq_sym : (s t : Text) → text_eq s t ≡ text_eq t s
unfolding text_eq
text_eq_sym [] [] = refl
text_eq_sym [] (d ∷ t) = refl
text_eq_sym (c ∷ s) [] = refl
text_eq_sym (c ∷ s) (d ∷ t) = ground (arith, text_eq_sym s t)

mem_text-append :
    (s : Text) (ts : List Text) (t : Text)
    → mem_text s ts ≡ false
    → text_eq s t ≡ false
    → mem_text s (ts ++ t ∷ []) ≡ false
unfolding mem_text
mem_text-append s [] t h k = ground arith
mem_text-append s (u ∷ ts) t h k = ground (arith, mem_text-append s ts t)

Distinct-append :
    (ts : List Text) (t : Text) → Distinct ts → mem_text t ts ≡ false → Distinct (ts ++ t ∷ [])
unfolding mem_text
Distinct-append [] t h k = (refl, tt)
Distinct-append (s ∷ ts) t h k = (
  mem_text-append s ts t h.0 (ground (arith, text_eq_sym s t)),
  Distinct-append ts t h.1 (ground arith),
)

abbrev Good : List Text → Type 0
Good ts = (length ts ≤ max_tags) × All IsTag ts × Distinct ts

tag_of-length : (lower : Text → Text) (item : Text) → length (tag_of lower item) ≤ max_tag_len
tag_of-length lower item = omega (arith, length-take max_tag_len (lower (strip item)))

normalize_from-Good :
    (lower : Text → Text) (seen raw : List Text)
    → length seen < max_tags
    → Good seen
    → Good (normalize_from lower seen raw)
unfolding normalize_from
normalize_from-Good lower seen [] h g = g
normalize_from-Good lower seen (item ∷ raw) h g =
    by_test (λ seen' more kept. normalize_from-Good lower seen' raw more kept)
      (is_nonempty (tag_of lower item) && not (mem_text (tag_of lower item) seen)) refl
  where
    next : List Text → List Text
    next seen' =
        let rest = normalize_from lower seen' raw in
        if leb max_tags (length seen') then seen' else rest

    next-Good :
        ((ts : List Text) → length ts < max_tags → Good ts → Good (normalize_from lower ts raw))
        → (seen' : List Text) → Good seen'
        → Good (next seen')
    next-Good ih seen' g' = elim (Bool-cases (leb max_tags (length seen'))) [
      | inl full ↦ rw full g'
      | inr more ↦ rw more (ih seen' (ground arith) g')
    ]

    by_test :
        ((ts : List Text) → length ts < max_tags → Good ts → Good (normalize_from lower ts raw))
        → (b : Bool)
        → (is_nonempty (tag_of lower item) && not (mem_text (tag_of lower item) seen)) ≡ b
        → Good (next (if b then seen ++ tag_of lower item ∷ [] else seen))
    by_test ih false e = next-Good ih seen g
    by_test ih true e =
        let (few, tags, distinct) = g in
        next-Good ih (seen ++ tag_of lower item ∷ []) (
          omega (arith, length-append seen (tag_of lower item ∷ [])),
          All-append IsTag seen (tag_of lower item) tags (ground arith, tag_of-length lower item),
          Distinct-append seen (tag_of lower item) distinct (ground arith),
        )

-- Of whatever the model answers, at most 20 tags are kept, each of them not empty, of at most 50
-- characters, and kept once.
pub normalize_lem :
    (lower : Text → Text) (raw : List Text)
    → (length (normalize lower raw) ≤ max_tags)
      × All IsTag (normalize lower raw)
      × Distinct (normalize lower raw)
unfolding normalize
normalize_lem lower raw = normalize_from-Good lower [] raw (ground arith) (ground arith, tt, tt)
