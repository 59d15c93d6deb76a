-- ===== src/Gateway/Tests.antt =====
-- A provider that fails once, a batch of three texts in two calls, and tags.
use keel_be.Gateway.Bucket.{acquire_all, double_rate}
use keel_be.Prelude.{
  ◌+◌, ◌*◌, ℕ, Text, ◌≡◌, ◌↔◌, ◌⊎◌, refl, ap, sym, suc, ◌∙◌, ◌==◌, List, [], ◌∷◌, map, length,
  codes, arith, if◌then◌else◌,
}
use keel_be.Core.Errors.{other}
use keel_be.Core.Session.{Result, ok, err}
use keel_be.Core.Settings.{Settings, defaults}
use keel_be.Gateway.{with_retry, provider_error, Embedding}
use keel_be.Gateway.Batches.{Answers, Aligned, with_retry_iff}

-- Times out at the first attempt, and answers at the second.
abbrev flaky : ℕ → Result ℕ
flaky n = if n == 1 then err (other "APITimeoutError" "slow") else ok n

with_retry_iff_example :
    ((with_retry "embed" flaky ≡ ok 2) ↔ Answers flaky 2 3 1)
    × (((b : ℕ) × (with_retry "embed" flaky ≡ ok b))
        ⊎ (with_retry "embed" flaky ≡ err (provider_error "embed")))
with_retry_iff_example = with_retry_iff "embed" flaky 2

abbrev by_length : List Text → ℕ → Result (Embedding ℕ)
by_length texts n =
    ok (record { vectors = map (λ t. length t) texts; prompt_tokens = 1; total_tokens = 1 })

length-vectors : (texts : List Text) → length (map (λ (t : Text). length t) texts) ≡ length texts
length-vectors [] = refl
length-vectors (t ∷ texts) = ap (λ n. suc n) (length-vectors texts)

vectors_of : Result (Embedding ℕ) → List ℕ
vectors_of (ok emb) = emb.vectors
vectors_of (err e) = []

by_length-Aligned : Aligned by_length "m" 20
unfolding vectors_of
by_length-Aligned texts n emb e = sym (ap (λ r. length (vectors_of r)) e) ∙ length-vectors texts

abbrev by_two : Settings
by_two = record defaults { embed_batch_size = 2 }

abbrev words : List Text
words = codes "a" ∷ codes "bc" ∷ codes "d" ∷ []

double_rate_example : (acquire_all 20 3000 4 (record { tokens = 0; updated = 7 }) 7).0 ≡ 7 + 2 * 20
double_rate_example = double_rate 20 3000 2 7 (omega arith)
