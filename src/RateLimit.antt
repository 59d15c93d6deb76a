-- ===== src/RateLimit.antt =====
-- backend/app/core/rate_limit.py: the sliding-window limit of an API key. The sorted set that Redis
-- keeps for the key is the parameter `SortedSets`; times are in microseconds. The expiry of the whole
-- set is left out: it comes a window after the last call, when the next call would empty the set.
pub mod Window
mod Tests
use keel_be.Prelude.{
  ℕ, suc, String, ◌+◌, ◌-◌, ◌≡◌, ◌<◌, max, Bool, true, false, not, List, [], ◌∷◌, ◌++◌, leb, ltb,
  select, length, str_eq, if◌then◌else◌,
}
use keel_be.Core.Errors.{Exc, app, rate_limit_error}
use keel_be.Core.Session.{Result, ok, err, is_ok}

-- The commands that the limiter sends, on the set of one key.
pub record SortedSets : Type 1 where
  pub Set : Type 0
  pub zremrangebyscore : ℕ → ℕ → Set → Set
  pub zadd : String → ℕ → Set → Set
  pub zcard : Set → ℕ
  pub zrem : String → Set → Set
  pub entries : Set → List (String × ℕ)

-- No entry has this member.
abbrev pub IsNewMember : String → List (String × ℕ) → Type 0
IsNewMember m [] = Unit
IsNewMember m (e ∷ es) = (str_eq e.0 m ≡ false) × IsNewMember m es

-- What Redis documents of them, in terms of the entries of a set.
pub record SortedSetLaws (z : SortedSets) : Type 0 where
  pub entries-zremrangebyscore :
      (lo hi : ℕ) (s : z.Set)
      → z.entries (z.zremrangebyscore lo hi s)
        ≡ select (λ e. if leb lo e.1 then ltb hi e.1 else true) (z.entries s)
  pub entries-zadd :
      (m : String) (t : ℕ) (s : z.Set)
      → IsNewMember m (z.entries s)
      → z.entries (z.zadd m t s) ≡ z.entries s ++ (m, t) ∷ []
  pub zcard-entries : (s : z.Set) → z.zcard s ≡ length (z.entries s)
  pub entries-zrem :
      (m : String) (s : z.Set)
      → z.entries (z.zrem m s) ≡ select (λ e. if str_eq e.0 m then false else true) (z.entries s)

-- `_WINDOW_SEC`, in microseconds.
abbrev pub window : ℕ
window = 60000000

-- Whether the transaction, and the removal after a rejection, reach Redis.
pub record Outage : Type 0 where
  pub pipeline_fails : Bool
  pub zrem_fails : Bool

module _ (z : SortedSets) where
  -- The first command of the transaction. An upper end below 0 removes nothing.
  unfoldable pub trim : ℕ → z.Set → z.Set
  trim now s = if leb window now then z.zremrangebyscore 0 (now - window) s else s

  -- `enforce limit_per_minute`, at a time, for a member of the set drawn for the call.
  unfoldable pub enforce : ℕ → ℕ → String → Outage → z.Set → Result Unit × z.Set
  enforce limit_per_minute now member outage s =
      let limit = max 1 limit_per_minute in
      let s' = z.zadd member now (trim now s) in
      if outage.pipeline_fails
      then (ok tt, s)
      else if ltb limit (z.zcard s')
      then if outage.zrem_fails
        then (ok tt, s')
        else (err (app (rate_limit_error "Rate limit exceeded" 60)), z.zrem member s')
      else (ok tt, s')

-- One call of a key, in a run in which Redis is reachable.
pub record Call : Type 0 where
  pub now : ℕ
  pub member : String

abbrev pub reachable : Outage
reachable = record { pipeline_fails = false; zrem_fails = false }

-- The calls of a key one after the other: the set at the end, and the times of the admitted calls,
-- the latest first.
pub serve : (z : SortedSets) → ℕ → List Call → z.Set → List ℕ → z.Set × List ℕ
serve z limit [] s admitted = (s, admitted)
serve z limit (c ∷ cs) s admitted =
    let (r, s') = enforce z limit c.now c.member reachable s in
    serve z limit cs s' (if is_ok r then c.now ∷ admitted else admitted)
