-- ===== src/RateLimit/Window.antt =====
-- backend/app/core/rate_limit.py: the calls that are admitted in a window.
use keel_be.Prelude.{
  ℕ, suc, String, ◌+◌, ◌-◌, ◌≡◌, refl, sym, ◌∙◌, ap, ◌≤◌, ◌<◌, max, true, false, ◌&&◌, ◌↔◌, ◌⊎◌,
  inl, inr, List, [], ◌∷◌, ◌++◌, leb, ltb, select, length, str_eq, eq_iff, if◌then◌else◌,
  select-append, length-append, length-select, arith, Bool-cases,
}
use keel_be.Core.Errors.{app, rate_limit_error}
use keel_be.Core.Session.{is_ok, Result, ok, err}
use keel_be.RateLimit.{
  SortedSets, SortedSetLaws, IsNewMember, window, trim, enforce, Call, reachable, serve,
}

-- The times of the calls that are less than a window old at a moment.
abbrev pub recent : ℕ → List ℕ → List ℕ
recent at times = select (λ t. ltb at (t + window)) times

abbrev pub scores : List (String × ℕ) → List ℕ
scores [] = []
scores (e ∷ es) = e.1 ∷ scores es

-- Calls come in the order of their times, the first not before a given time.
abbrev pub InOrder : ℕ → List Call → Type 0
InOrder last [] = Unit
InOrder last (c ∷ cs) = (last ≤ c.now) × InOrder c.now cs

module _ (z : SortedSets) (laws : SortedSetLaws z) where
  trimmed :
      (now : ℕ) (es : List (String × ℕ))
      → window ≤ now
      → scores (select (λ e. if leb 0 e.1 then ltb (now - window) e.1 else true) es)
        ≡ recent now (scores es)
  trimmed now [] h = refl
  trimmed now (e ∷ es) h = ground (arith, trimmed now es h)

  young : (now : ℕ) (es : List (String × ℕ)) → now < window → recent now (scores es) ≡ scores es
  young now [] h = refl
  young now (e ∷ es) h = ground (arith, young now es h)

  -- After the first command the set holds just the recent calls.
  scores-trim :
      (now : ℕ) (s : z.Set) → scores (z.entries (trim z now s)) ≡ recent now (scores (z.entries s))
  unfolding trim
  scores-trim now s = elim (Bool-cases (leb window now)) [
    | inl old ↦ rw (old, laws.entries-zremrangebyscore) (trimmed now (z.entries s) (ground arith))
    | inr new ↦ rw new (sym (young now (z.entries s) (ground arith)))
  ]

recent-recent : (now t : ℕ) (xs : List ℕ) → now ≤ t → recent t (recent now xs) ≡ recent t xs
recent-recent now t [] h = refl
recent-recent now t (x ∷ xs) h = ground (arith, recent-recent now t xs h)

scores-append :
    (es : List (String × ℕ)) (e : String × ℕ) → scores (es ++ e ∷ []) ≡ scores es ++ e.1 ∷ []
scores-append [] e = refl
scores-append (d ∷ es) e = ap (λ l. d.1 ∷ l) (scores-append es e)

length-scores : (es : List (String × ℕ)) → length (scores es) ≡ length es
length-scores [] = refl
length-scores (e ∷ es) = ap suc (length-scores es)

-- Taking the entry out again that was just put in.
without_new :
    (m : String) (t : ℕ) (es : List (String × ℕ))
    → IsNewMember m es
    → select (λ e. if str_eq e.0 m then false else true) (es ++ (m, t) ∷ []) ≡ es
without_new m t [] h = ground (arith, eq_iff m m)
without_new m t (e ∷ es) h = ground (arith, without_new m t es h.1)

-- The calls of a window that ends at a moment.
abbrev pub in_window : ℕ → List ℕ → List ℕ
in_window at times = select (λ t. leb t at && ltb at (t + window)) times

in_window-le-recent : (at : ℕ) (xs : List ℕ) → length (in_window at xs) ≤ length (recent at xs)
in_window-le-recent at [] = omega arith
in_window-le-recent at (x ∷ xs) = ground (arith, in_window-le-recent at xs)

module _ (z : SortedSets) (laws : SortedSetLaws z) (limit : ℕ) where
  -- What holds between two calls: the set holds as many recent calls as were admitted, and no window
  -- has had more than the limit.
  record Inv (last : ℕ) (s : z.Set) (admitted : List ℕ) : Type 0 where
    mirrors :
        (at : ℕ)
        → last ≤ at
        → length (recent at admitted) ≡ length (recent at (scores (z.entries s)))
    bounded : (at : ℕ) → length (in_window at admitted) ≤ max 1 limit

  module _ (now : ℕ) (m : String) (s : z.Set) (new : IsNewMember m (z.entries (trim z now s))) where
    abbrev kept : List (String × ℕ)
    kept = z.entries (trim z now s)

    entries_added : z.entries (z.zadd m now (trim z now s)) ≡ kept ++ (m, now) ∷ []
    entries_added = laws.entries-zadd m now (trim z now s) new

    -- An admitted call joins the kept entries, of which there were fewer than the limit.
    admitted_lem :
        is_ok (enforce z limit now m reachable s).0 ≡ true
        → (z.entries (enforce z limit now m reachable s).1 ≡ kept ++ (m, now) ∷ [])
          × (suc (length kept) ≤ max 1 limit)
    unfolding enforce
    admitted_lem h = ground (
      arith,
      entries_added,
      laws.zcard-entries (z.zadd m now (trim z now s)),
      length-append kept ((m, now) ∷ []),
    )

    rejected_lem :
        is_ok (enforce z limit now m reachable s).0 ≡ false
        → z.entries (enforce z limit now m reachable s).1 ≡ kept
    unfolding enforce
    rejected_lem h = ground (
      arith,
      entries_added,
      laws.entries-zrem m (z.zadd m now (trim z now s)),
      without_new m now kept new,
    )

  -- One call keeps the invariant, and moves it to the call's time.
  module _ (last now : ℕ) (m : String) (s : z.Set) (admitted : List ℕ) (later : last ≤ now)
      (new : IsNewMember m (z.entries (trim z now s))) (inv : Inv last s admitted) where
    abbrev next : Result Unit × z.Set
    next = enforce z limit now m reachable s

    recent_kept :
        (at : ℕ)
        → now ≤ at
        → length (recent at (scores (z.entries (trim z now s)))) ≡ length (recent at admitted)
    recent_kept at h =
        rw (scores-trim z laws now s, recent-recent now at (scores (z.entries s)) h)
          (sym (inv.mirrors at (omega arith)))

    Inv-rejected : is_ok next.0 ≡ false → Inv now next.1 admitted
    Inv-rejected h = record {
      mirrors = λ at le. rw (rejected_lem now m s new h) (sym (recent_kept at le));
      bounded = inv.bounded;
    }

    mirrors-admitted :
        is_ok next.0 ≡ true
        → (at : ℕ) → now ≤ at
        → length (recent at (now ∷ admitted)) ≡ length (recent at (scores (z.entries next.1)))
    mirrors-admitted h at le =
        rw ((admitted_lem now m s new h).0, scores-append, select-append, length-append)
          (ground (arith, recent_kept at le))

    bounded-admitted :
        is_ok next.0 ≡ true → (at : ℕ) → length (in_window at (now ∷ admitted)) ≤ max 1 limit
    bounded-admitted h at = elim (Bool-cases (leb now at)) [
      | inr before ↦ ground (arith, inv.bounded at)
      | inl since ↦ ground (
        arith,
        (admitted_lem now m s new h).1,
        in_window-le-recent at admitted,
        recent_kept at,
        length-select (λ t. ltb at (t + window)) (scores (z.entries (trim z now s))),
        length-scores (z.entries (trim z now s)),
      )
    ]

    Inv-call : Inv now next.1 (if is_ok next.0 then now ∷ admitted else admitted)
    Inv-call = elim (Bool-cases (is_ok next.0)) [
      | inl yes' ↦
          rw yes' (record { mirrors = mirrors-admitted yes'; bounded = bounded-admitted yes' })
      | inr no' ↦ rw no' (Inv-rejected no')
    ]

  -- Every call draws a member that is not in the set at that moment.
  abbrev pub NewMembers : List Call → z.Set → Type 0
  NewMembers [] s = Unit
  NewMembers (c ∷ cs) s =
      IsNewMember c.member (z.entries (trim z c.now s))
      × NewMembers cs (enforce z limit c.now c.member reachable s).1

  serve_bounded :
      (last : ℕ) (cs : List Call) (s : z.Set) (admitted : List ℕ)
      → InOrder last cs
      → NewMembers cs s
      → Inv last s admitted
      → (at : ℕ) → length (in_window at (serve z limit cs s admitted).1) ≤ max 1 limit
  unfolding serve
  serve_bounded last [] s admitted order new inv at = inv.bounded at
  serve_bounded last (c ∷ cs) s admitted order new inv at =
      serve_bounded c.now cs (enforce z limit c.now c.member reachable s).1
        (if is_ok (enforce z limit c.now c.member reachable s).0
          then c.now ∷ admitted
          else admitted)
        order.1 new.1 (Inv-call last c.now c.member s admitted order.0 new.0 inv) at

  -- From an empty set, while Redis is reachable: of the calls of a key, in the order of their times
  -- and each with a new member, no more than the limit (and no more than one, if the limit is 0) are
  -- admitted in the window of 60 seconds that ends at any moment.
  pub serve_limited :
      (cs : List Call) (s : z.Set)
      → z.entries s ≡ []
      → InOrder 0 cs
      → NewMembers cs s
      → (at : ℕ) → length (in_window at (serve z limit cs s []).1) ≤ max 1 limit
  serve_limited cs s empty order new =
      serve_bounded 0 cs s [] order new
        (record { mirrors = λ at h. rw empty; bounded = λ at. omega arith })

  enforce_answers :
      (now : ℕ) (m : String) (s : z.Set)
      → IsNewMember m (z.entries (trim z now s))
      → (enforce z limit now m reachable s).0 ≡ (
          if leb (max 1 limit) (length (z.entries (trim z now s)))
          then err (app (rate_limit_error "Rate limit exceeded" 60))
          else ok tt)
  unfolding enforce
  enforce_answers now m s new = ground (
    arith,
    entries_added now m s new,
    laws.zcard-entries (z.zadd m now (trim z now s)),
    length-append (z.entries (trim z now s)) ((m, now) ∷ []),
  )

  length-kept :
      (now : ℕ) (s : z.Set)
      → length (z.entries (trim z now s)) ≡ length (recent now (scores (z.entries s)))
  length-kept now s =
      sym (length-scores (z.entries (trim z now s))) ∙ ap length (scores-trim z laws now s)

  -- While Redis is reachable, a call is rejected exactly if the set already holds as many recent calls
  -- as the limit allows, with 429 and a wait of 60 seconds; a rejected call leaves just the recent
  -- entries behind.
  pub rejected_iff :
      (now : ℕ) (m : String) (s : z.Set)
      → IsNewMember m (z.entries (trim z now s))
      → let (r, s') = enforce z limit now m reachable s in
        ((r ≡ err (app (rate_limit_error "Rate limit exceeded" 60)))
          ↔ (max 1 limit ≤ length (recent now (scores (z.entries s)))))
        × ((r ≡ ok tt) ⊎ (scores (z.entries s') ≡ recent now (scores (z.entries s))))
  rejected_iff now m s new = (
    (
      λ r. ground (arith, enforce_answers now m s new, length-kept now s),
      λ full. ground (arith, enforce_answers now m s new, length-kept now s),
    ),
    elim (Bool-cases (is_ok (enforce z limit now m reachable s).0)) [
      | inl yes' ↦ inl (ground (arith, enforce_answers now m s new))
      | inr no' ↦ inr (rw (rejected_lem now m s new no') (scores-trim z laws now s))
    ],
  )
