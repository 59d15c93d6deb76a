-- ===== src/Prelude/Texts.antt =====
-- Text that the code walks, as code points, and the methods of Python's `str` that it calls.
use Prim.Native.Nat.{ℕ, zero, suc, ◌+◌, ◌-◌, ◌*◌, ◌<◌, ◌/◌, ◌%◌}
use Prim.Native.Char.{code}
use Prim.Native.String.{String}
use mathlib.Core.Path.{◌≡◌, refl, ap, ◌∙◌}
use mathlib.Core.Logic.{inl, inr}
use mathlib.Core.Bool.{Bool, true, false, ◌&&◌, ◌||◌}
use mathlib.Core.Option.{Option, none, some}
use mathlib.Core.List.{List, [], ◌∷◌, ◌++◌, reverse}
use native.Mathlib.Omega.{arith}
use keel_be.Prelude.Tests.{Bool-cases, leb, ltb, ◌==◌, if◌then◌else◌}

abbrev pub Text : Type 0
Text = List ℕ

-- The code points of a native text.
abbrev pub codes : String → Text
codes String.[] = []
codes (String.◌∷◌ c s) = code c ∷ codes s

unfoldable pub text_eq : Text → Text → Bool
text_eq [] [] = true
text_eq [] (d ∷ t) = false
text_eq (c ∷ s) [] = false
text_eq (c ∷ s) (d ∷ t) = c == d && text_eq s t

pub text_eq-eq : (s t : Text) → text_eq s t ≡ true → s ≡ t
unfolding text_eq
text_eq-eq [] [] h = refl
text_eq-eq [] (d ∷ t) h = cc
text_eq-eq (c ∷ s) [] h = cc
text_eq-eq (c ∷ s) (d ∷ t) h = ground (arith, text_eq-eq s t)

pub text_eq_refl : (s : Text) → text_eq s s ≡ true
unfolding text_eq
text_eq_refl [] = refl
text_eq_refl (c ∷ s) = ground (arith, text_eq_refl s)

-- `bool(text)`
abbrev pub is_nonempty {ℓ} : {A : Type ℓ} → List A → Bool
is_nonempty [] = false
is_nonempty (c ∷ s) = true

-- The code points that `str.strip()` and `str.split()` take for white space.
unfoldable pub is_space : ℕ → Bool
is_space c =
    (leb 9 c && leb c 13)
    || (leb 28 c && leb c 32)
    || c == 0x85
    || c == 0xa0
    || c == 0x1680
    || (leb 0x2000 c && leb c 0x200a)
    || c == 0x2028
    || c == 0x2029
    || c == 0x202f
    || c == 0x205f
    || c == 0x3000

-- `text.lstrip()`, for the characters of a test.
unfoldable pub lstrip_by : (ℕ → Bool) → Text → Text
lstrip_by p [] = []
lstrip_by p (c ∷ s) = let rest = lstrip_by p s in if p c then rest else c ∷ s

unfoldable pub strip_by : (ℕ → Bool) → Text → Text
unfolding lstrip_by
strip_by p s = reverse (lstrip_by p (reverse (lstrip_by p s)))

-- `text.strip()`
unfoldable pub strip : Text → Text
unfolding strip_by is_space
strip s = strip_by is_space s

-- `text in texts`
unfoldable pub mem_text : Text → List Text → Bool
unfolding text_eq
mem_text t [] = false
mem_text t (s ∷ ss) = text_eq t s || mem_text t ss

-- `sep.join(texts)`
unfoldable pub join : Text → List Text → Text
join sep [] = []
join sep (t ∷ []) = t
join sep (t ∷ u ∷ ts) = t ++ (sep ++ join sep (u ∷ ts))

-- `text.split()`: the words between white space. `word` is the word being read, last letter first.
unfoldable pub words_from : Text → Text → List Text
words_from word [] = if is_nonempty word then reverse word ∷ [] else []
words_from word (c ∷ s) =
    let ended = words_from [] s in
    let longer = words_from (c ∷ word) s in
    if is_space c then if is_nonempty word then reverse word ∷ ended else ended else longer

unfoldable pub split_words : Text → List Text
unfolding words_from is_space
split_words s = words_from [] s

-- `text.rsplit(" ", 1)[0]`: what stands before the last space, `none` if there is none.
unfoldable pub before_last_space : Text → Option Text
before_last_space [] = none
before_last_space (c ∷ s) = elim (before_last_space s) [
  | some t ↦ some (c ∷ t)
  | none ↦ if c == 32 then some [] else none
]

-- `str(n)`, with fuel for the digits.
digits : ℕ → ℕ → Text → Text
digits zero n acc = acc
digits (suc fuel) n acc =
    let rest = digits fuel (n / 10) ((48 + n % 10) ∷ acc) in
    if ltb n 10 then (48 + n) ∷ acc else rest

unfoldable pub decimal : ℕ → Text
unfolding digits
decimal n = digits (suc n) n []

-- The number that a text of digits stands for, after the digits that stand for `n`.
abbrev pub value : Text → ℕ → ℕ
value [] n = n
value (c ∷ s) n = value s (n * 10 + (c - 48))

value-digits : (fuel n : ℕ) (s : Text) → n < fuel → value (digits fuel n s) 0 ≡ value s n
unfolding digits
value-digits zero n s h = absurd (omega (arith, h))
value-digits (suc fuel) n s h = elim (Bool-cases (ltb n 10)) [
  | inl small ↦ rw small (ap (value s) (omega arith))
  | inr big ↦
      let again = value-digits fuel (n / 10) ((48 + n % 10) ∷ s) (ground (arith, h, big)) in
      rw big (again ∙ ap (value s) (omega arith))
]

pub value-decimal : (n : ℕ) → value (decimal n) 0 ≡ n
unfolding decimal
value-decimal n = value-digits (suc n) n [] (omega arith)
