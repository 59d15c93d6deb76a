-- ===== src/Storage/Paths.antt =====
-- backend/app/stores/storage.py: the paths of parts, and objects read after they are written.
use mathlib.Core.List.{append_cancel_left, append_cancel_right}
use keel_be.Prelude.{
  ℕ, zero, suc, ◌-◌, ◌≡◌, ◌≢◌, refl, sym, ap, ◌∙◌, Text, Bool, false, not, some, List, [], ◌∷◌,
  codes, decimal, length, value, value-decimal, select, text_eq, text_eq-eq, text_eq_refl,
  Bool-cases, inl, inr, arith,
}
use keel_be.Storage.{Files, find, put, zeros, six_digits, part_path}

value-zeros : (k : ℕ) (t : Text) → value (zeros k t) 0 ≡ value t 0
unfolding zeros
value-zeros zero t = refl
value-zeros (suc k) t = value-zeros k t

six_digits_injective : (m n : ℕ) → six_digits m ≡ six_digits n → m ≡ n
unfolding six_digits
six_digits_injective m n e =
    sym (value-zeros (6 - length (decimal m)) (decimal m) ∙ value-decimal m)
    ∙ (ap (λ t. value t 0) e ∙ (value-zeros (6 - length (decimal n)) (decimal n) ∙ value-decimal n))

-- Two parts of an upload are never stored under one path.
pub part_path_injective :
    (upload_id : Text) (m n : ℕ) → part_path upload_id m ≡ part_path upload_id n → m ≡ n
unfolding part_path
part_path_injective u m n e = six_digits_injective m n (
    append_cancel_right (six_digits m) (six_digits n) (codes ".part") (
      append_cancel_left (b'/' ∷ []) _ _
        (append_cancel_left u _ _ (append_cancel_left (codes "_parts/") _ _ e))))

pub find-put_self :
    (path content : Text) (fs : Files) → find path (put path content fs) ≡ some content
unfolding find put
find-put_self path content fs = rw (text_eq_refl path) refl

find_kept :
    (path other : Text) (fs : Files)
    → text_eq path other ≡ false
    → find other (select (λ f. not (text_eq f.0 path)) fs) ≡ find other fs
unfolding find
find_kept path other [] ne = refl
find_kept path other (f ∷ fs) ne = elim (Bool-cases (text_eq f.0 path)) [
  | inl same ↦
      let e : text_eq f.0 other ≡ false =
        ap (λ t. text_eq t other) (text_eq-eq f.0 path same) ∙ ne in
      ground (arith, same, e, find_kept path other fs ne)
  | inr differs ↦ ground (arith, differs, find_kept path other fs ne)
]

pub find-put_ne :
    (path other content : Text) (fs : Files)
    → text_eq path other ≡ false
    → find other (put path content fs) ≡ find other fs
unfolding find put
find-put_ne path other content fs ne = rw ne (find_kept path other fs ne)

select_twice : {A : Type 0} (p : A → Bool) (xs : List A) → select p (select p xs) ≡ select p xs
select_twice p [] = refl
select_twice p (x ∷ xs) = ground (arith, select_twice p xs)

pub put-put : (path a b : Text) (fs : Files) → put path b (put path a fs) ≡ put path b fs
unfolding put
put-put path a b fs =
    rw (text_eq_refl path) (ap (λ l. (path, b) ∷ l) (select_twice (λ f. not (text_eq f.0 path)) fs))

-- Texts that are not equal fail the test.
pub text_eq-ne : (s t : Text) → s ≢ t → text_eq s t ≡ false
text_eq-ne s t ne = elim (Bool-cases (text_eq s t)) [
  | inl same ↦ absurd (ne (text_eq-eq s t same))
  | inr differs ↦ differs
]
