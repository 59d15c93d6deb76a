-- ===== src/RateLimit/Tests.antt =====
-- Sorted sets as lists, and runs of the limiter over them.
use keel_be.Prelude.{
  ℕ, String, ◌≡◌, ◌≤◌, refl, ap, max, true, false, List, [], ◌∷◌, ◌++◌, leb, ltb, select, length,
  str_eq, if◌then◌else◌, arith,
}
use keel_be.RateLimit.{SortedSets, SortedSetLaws, IsNewMember, Call, enforce, serve, trim}
use keel_be.RateLimit.Window.{in_window, serve_limited}

-- Every entry but that of a member.
abbrev others : String → List (String × ℕ) → List (String × ℕ)
others m es = select (λ e. if str_eq e.0 m then false else true) es

others_new : (m : String) (es : List (String × ℕ)) → IsNewMember m es → others m es ≡ es
others_new m [] h = refl
others_new m (e ∷ es) h = ground (arith, others_new m es h.1)

abbrev lists : SortedSets
lists = record {
  Set = List (String × ℕ);
  zremrangebyscore = λ lo hi s. select (λ e. if leb lo e.1 then ltb hi e.1 else true) s;
  zadd = λ m t s. others m s ++ (m, t) ∷ [];
  zcard = λ s. length s;
  zrem = others;
  entries = λ s. s;
}

lists-SortedSetLaws : SortedSetLaws lists
lists-SortedSetLaws = record {
  entries-zremrangebyscore = λ lo hi s. refl;
  entries-zadd = λ m t s new. ap (λ es. es ++ (m, t) ∷ []) (others_new m s new);
  zcard-entries = λ s. refl;
  entries-zrem = λ m s. refl;
}

abbrev calls : List Call
calls = record { now = 5; member = "a" } ∷ record { now = 6; member = "b" } ∷ []

serve_limited_example : length (in_window 6 (serve lists 1 calls [] []).1) ≤ max 1 1
unfolding enforce trim
serve_limited_example =
    serve_limited lists lists-SortedSetLaws 1 calls [] refl (ground arith, (ground arith, tt))
      (tt, ((refl, tt), tt)) 6
