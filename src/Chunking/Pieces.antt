-- ===== src/Chunking/Pieces.antt =====
-- backend/app/services/chunking.py: the pieces of `split_tokens`, their size and their words.
use keel_be.Prelude.{
  ℕ, zero, suc, ◌≡◌, refl, ap, ap₂, ◌∙◌, ◌≤◌, ◌<◌, ◌⊎◌, inl, inr, Text, true, Option, none, some,
  List, [], ◌∷◌, ◌++◌, map, ltb, All, length, take, drop, join, split_words, before_last_space,
  length-take, length-drop, take-append-drop, arith, Option-cases, Bool-cases,
}
use keel_be.Chunking.{
  max_tokens, window_words, step_words, space, count_tokens, trim, trimmed, windows, split_tokens,
}

-- Cutting the last word off makes a text shorter.
before_last_space_shorter : (s t : Text) → before_last_space s ≡ some t → length t < length s
unfolding before_last_space
before_last_space_shorter [] t h = cc
before_last_space_shorter (c ∷ s) t h = elim (Option-cases (before_last_space s)) [
  | inl e ↦ ground (arith)
  | inr (u, e) ↦ ground (arith, before_last_space_shorter s u)
]

module _ (encoder : Option (Text → ℕ)) where
  -- The piece is within the cap, or is a single word, which is never cut.
  abbrev pub Fits : Text → Type 0
  Fits p = (count_tokens encoder p ≤ max_tokens) ⊎ (before_last_space p ≡ none)

  trim-Fits : (fuel : ℕ) (p : Text) → length p ≤ fuel → Fits (trim encoder fuel p)
  unfolding trim
  trim-Fits zero [] h = inr (unfold before_last_space in refl)
  trim-Fits zero (c ∷ p) h = absurd (omega arith)
  trim-Fits (suc fuel) p h = elim (Bool-cases (ltb max_tokens (count_tokens encoder p))) [
    | inr small ↦ rw small (inl (ground arith))
    | inl big ↦ elim (Option-cases (before_last_space p)) [
      | inl word ↦ rw (big, word) (inr word)
      | inr (q, cut) ↦
          rw (big, cut) (trim-Fits fuel q (omega (arith, before_last_space_shorter p q cut)))
    ]
  ]

  map-trimmed-Fits :
      (ws : List (List Text)) → All Fits (map (λ w. trimmed encoder (join space w)) ws)
  unfolding trimmed
  map-trimmed-Fits [] = tt
  map-trimmed-Fits (w ∷ ws) =
      (trim-Fits (length (join space w)) (join space w) (omega arith), map-trimmed-Fits ws)

  -- Every piece of a text is within the cap of 1024 tokens, or is a single word. (The loop that trims
  -- a piece ends for every text.)
  pub split_tokens-Fits : (text : Text) → All Fits (split_tokens encoder text)
  unfolding split_tokens
  split_tokens-Fits text = map-trimmed-Fits (windows (length (split_words text)) (split_words text))

-- The first words of each window, those before the next one starts.
abbrev pub heads : List (List Text) → List Text
heads [] = []
heads (w ∷ ws) = take step_words w ++ heads ws

take-take : {A : Type 0} (m n : ℕ) (xs : List A) → m ≤ n → take m (take n xs) ≡ take m xs
take-take zero n xs h = refl
take-take (suc m) zero xs h = absurd (omega arith)
take-take (suc m) (suc n) [] h = refl
take-take (suc m) (suc n) (x ∷ xs) h = ap (λ l. x ∷ l) (take-take m n xs (omega arith))

heads-windows : (fuel : ℕ) (ws : List Text) → length ws ≤ fuel → heads (windows fuel ws) ≡ ws
unfolding windows
heads-windows zero [] h = refl
heads-windows zero (w ∷ ws) h = absurd (omega arith)
heads-windows (suc fuel) [] h = refl
heads-windows (suc fuel) (w ∷ ws) h =
    ap (λ l. w ∷ l)
      (ap (λ l. l ++ heads (windows fuel (drop 335 ws))) (take-take 335 383 ws (omega arith))
        ∙ ap (λ l. take 335 ws ++ l)
            (heads-windows fuel (drop 335 ws) (omega (arith, length-drop 335 ws)))
        ∙ take-append-drop 335 ws)

take_all : {A : Type 0} (n : ℕ) (xs : List A) → length xs ≤ n → take n xs ≡ xs
take_all zero [] h = refl
take_all zero (x ∷ xs) h = absurd (omega arith)
take_all (suc n) [] h = refl
take_all (suc n) (x ∷ xs) h = ap (λ l. x ∷ l) (take_all n xs (omega arith))

drop_all : {A : Type 0} (n : ℕ) (xs : List A) → length xs ≤ n → drop n xs ≡ []
drop_all zero [] h = refl
drop_all zero (x ∷ xs) h = absurd (omega arith)
drop_all (suc n) [] h = refl
drop_all (suc n) (x ∷ xs) h = drop_all n xs (omega arith)

no_windows : (fuel : ℕ) → windows fuel [] ≡ []
unfolding windows
no_windows zero = refl
no_windows (suc fuel) = refl

windows_small : (fuel : ℕ) (ws : List Text) → All (λ w. length w ≤ window_words) (windows fuel ws)
unfolding windows
windows_small zero ws = tt
windows_small (suc fuel) [] = tt
windows_small (suc fuel) (w ∷ ws) = (
  omega (arith, length-take window_words (w ∷ ws)),
  windows_small fuel (drop step_words (w ∷ ws)),
)

module _ (encoder : Option (Text → ℕ)) where
  trim-Within :
      (fuel : ℕ) (p : Text) → count_tokens encoder p ≤ max_tokens → trim encoder fuel p ≡ p
  unfolding trim
  trim-Within zero p h = refl
  trim-Within (suc fuel) p h = ground arith

  pieces-Within :
      (ws : List (List Text))
      → All (λ w. count_tokens encoder (join space w) ≤ max_tokens) ws
      → map (λ w. trimmed encoder (join space w)) ws ≡ map (join space) ws
  unfolding trimmed
  pieces-Within [] h = refl
  pieces-Within (w ∷ ws) h =
      ap₂ (λ p ps. p ∷ ps) (trim-Within (length (join space w)) (join space w) h.0)
        (pieces-Within ws h.1)

  -- Where no window is over the cap, the pieces of a text are windows of at most 384 of its words,
  -- joined by spaces, and no word is lost: the first 336 words of the windows, one window after the
  -- other, are the words of the text.
  pub split_tokens_lossless :
      (text : Text)
      → All
          (λ w. count_tokens encoder (join space w) ≤ max_tokens)
          (windows (length (split_words text)) (split_words text))
      → (ws : List (List Text)) × (split_tokens encoder text ≡ map (join space) ws)
        × (heads ws ≡ split_words text)
        × All (λ w. length w ≤ window_words) ws
  unfolding split_tokens
  split_tokens_lossless text h =
      let words = split_words text in
      let ws = windows (length words) words in
      (
        ws,
        pieces-Within ws h,
        heads-windows (length words) words (omega arith),
        windows_small (length words) words,
      )

  trim-le : (fuel : ℕ) (p : Text) → length (trim encoder fuel p) ≤ length p
  unfolding trim
  trim-le zero p = omega arith
  trim-le (suc fuel) p = elim (Bool-cases (ltb max_tokens (count_tokens encoder p))) [
    | inr small ↦ rw small (omega arith)
    | inl big ↦ elim (Option-cases (before_last_space p)) [
      | inl word ↦ rw (big, word) (omega arith)
      | inr (q, cut) ↦
          rw (big, cut) (omega (arith, trim-le fuel q, before_last_space_shorter p q cut))
    ]
  ]

  trimmed_shorter :
      (p q : Text)
      → before_last_space p ≡ some q
      → max_tokens < count_tokens encoder p
      → length (trimmed encoder p) < length p
  unfolding trimmed trim
  trimmed_shorter [] q cut h = absurd (unfold before_last_space in ground arith)
  trimmed_shorter (c ∷ p) q cut h =
      let big : ltb max_tokens (count_tokens encoder (c ∷ p)) ≡ true = ground arith in
      rw (big, cut) (omega (arith, trim-le (length p) q, before_last_space_shorter (c ∷ p) q cut))

  one_window :
      (ws : List Text) {q : Text}
      → length ws ≤ step_words
      → before_last_space (join space ws) ≡ some q
      → windows (length ws) ws ≡ ws ∷ []
  unfolding windows
  one_window [] few spaced = absurd (unfold before_last_space join in ground arith)
  one_window (w ∷ ws) few spaced =
      rw (take_all 384 (w ∷ ws) (omega arith), drop_all 336 (w ∷ ws) few)
        (ap (λ l. (w ∷ ws) ∷ l) (no_windows (length ws)))

  -- A text of at most 336 words that is over the cap and has a space in it, as joined, is cut to one
  -- strictly shorter piece: what was cut off is in no piece.
  pub split_tokens_loses :
      (text : Text) {q : Text}
      → length (split_words text) ≤ step_words
      → before_last_space (join space (split_words text)) ≡ some q
      → max_tokens < count_tokens encoder (join space (split_words text))
      → (p : Text) × (split_tokens encoder text ≡ p ∷ [])
        × (length p < length (join space (split_words text)))
  unfolding split_tokens
  split_tokens_loses text {q} few spaced over =
      let p = join space (split_words text) in
      (
        trimmed encoder p,
        rw (one_window (split_words text) few spaced),
        trimmed_shorter p q spaced over,
      )
