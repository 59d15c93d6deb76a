-- ===== src/Gateway/Bucket.antt =====
-- backend/app/services/llm_gateway.py: `TokenBucket`, which limits the embedding calls of a minute. Time
-- is in units of which `period` refill one call, and the content of the bucket is in the same units.
use keel_be.Prelude.{
  ℕ, zero, suc, ◌+◌, ◌-◌, ◌*◌, ◌≤◌, ◌<◌, ◌≡◌, ap, ◌∙◌, max, min, ltb, arith, if◌then◌else◌,
}

pub record Bucket : Type 0 where
  pub tokens : ℕ
  pub updated : ℕ

mul_ge : (k p : ℕ) → 1 ≤ k → p ≤ k * p
mul_ge zero p h = absurd (omega (arith, h))
mul_ge (suc k) p h = grind arith

double_suc : (n : ℕ) → suc n + suc n ≡ suc (suc (n + n))
double_suc n = omega arith

time_add : (now p n : ℕ) → now + p + n * p ≡ now + suc n * p
time_add now p n = grind arith

module _ (period rate_per_minute : ℕ) where
  -- `self.capacity`, for calls.
  abbrev pub capacity : ℕ
  capacity = max 1 rate_per_minute * period

  -- `__init__`
  unfoldable pub new_bucket : ℕ → Bucket
  new_bucket now = record { tokens = capacity; updated = now }

  -- `acquire` at a time: the time at which it returns, and the bucket.
  unfoldable pub acquire : Bucket → ℕ → ℕ × Bucket
  acquire b now =
      let tokens = min capacity (b.tokens + (now - b.updated)) in
      if ltb tokens period
      then (now + (period - tokens), record { tokens = 0; updated = now })
      else (now, record { tokens = tokens - period; updated = now })

  -- Calls one after the other, each as soon as the one before returned.
  unfoldable pub acquire_all : ℕ → Bucket → ℕ → ℕ × Bucket
  unfolding acquire
  acquire_all zero b now = (now, b)
  acquire_all (suc n) b now = let (later, b') = acquire b now in acquire_all n b' later

  -- The bucket never holds more than its capacity.
  pub acquire-capacity : (b : Bucket) (now : ℕ) → (acquire b now).1.tokens ≤ capacity
  unfolding acquire
  acquire-capacity b now = ground arith

  period_fits : period ≤ capacity
  period_fits = mul_ge (max 1 rate_per_minute) period (omega arith)

  -- The first of two calls waits for a period; the second finds that period in the bucket, since the
  -- time of the first is from before its wait.
  two_calls :
      (n now : ℕ)
      → 0 < period
      → acquire_all (suc (suc n)) (record { tokens = 0; updated = now }) now
        ≡ acquire_all n (record { tokens = 0; updated = now + period }) (now + period)
  unfolding acquire_all
  two_calls n now pos =
      let empty : Bucket = record { tokens = 0; updated = now } in
      let waits : acquire empty now ≡ (now + period, empty) = ground (arith, pos) in
      let passes : acquire empty (now + period)
          ≡ (now + period, record { tokens = 0; updated = now + period }) =
        ground (arith, pos, period_fits) in
      ap (λ r. (let (later, b) = acquire r.1 r.0 in acquire_all n b later)) waits
      ∙ ap (λ r. acquire_all n r.1 r.0) passes

  -- From an empty bucket, twice `n` calls that follow one another take the time that refills `n` calls.
  pub double_rate :
      (n now : ℕ)
      → 0 < period
      → (acquire_all (n + n) (record { tokens = 0; updated = now }) now).0 ≡ now + n * period
  unfolding acquire_all
  double_rate zero now pos = omega arith
  double_rate (suc n) now pos =
      ap (λ k. (acquire_all k (record { tokens = 0; updated = now }) now).0) (double_suc n)
      ∙ (ap (λ r. r.0) (two_calls (n + n) now pos)
          ∙ (double_rate n (now + period) pos ∙ time_add now period n))
