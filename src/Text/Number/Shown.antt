-- ===== src/Text/Number/Shown.antt =====
-- `str` of a number below 1000, and what is read of it.
use centralite_ha.Text.Strip.{strip-full, rstrip-end}
use centralite_ha.Base.{
  ℕ, ◌+◌, ◌/◌, ◌%◌, ◌<◌, pos, true, false, some, [], ◌∷◌, ◌≡◌, refl, ◌∙◌, arith, inl, inr, leb,
  Bool-cases,
}
use centralite_ha.Text.{Text, is_space, strip}
use centralite_ha.Text.Number.{show, int}
use centralite_ha.Text.Number.Laws.{
  show_one, show_two, show_three, int-digit, int-split, int-split_three,
}
use centralite_ha.Text.Match.{is_digit, is_number, all_digits}

data Digits (n : ℕ) : Text → Type 0 where
  one : n < 10 → Digits n ((b'0' + n) ∷ [])
  two : n < 100 → Digits n ((b'0' + n / 10) ∷ (b'0' + n % 10) ∷ [])
  three : n < 1000 → Digits n ((b'0' + n / 100) ∷ (b'0' + n / 10 % 10) ∷ (b'0' + n % 10) ∷ [])

show-Digits : (n : ℕ) → n < 1000 → Digits n (show n)
show-Digits n h = elim (Bool-cases (leb 10 n)) [
  | inl big ↦ elim (Bool-cases (leb 100 n)) [
    | inl large ↦ rw (show_three n (ground arith) h) (three h)
    | inr middle ↦ rw (show_two n (ground arith) (ground arith)) (two (ground arith))
  ]
  | inr small ↦ rw (show_one n (ground arith)) (one (ground arith))
]

digit : (k : ℕ) → k < 10 → (is_digit (b'0' + k) ≡ true) × (is_space (b'0' + k) ≡ false)
unfolding is_space
digit k h = ground arith

int-Digits : (n : ℕ) (t : Text) → Digits n t → int t ≡ some (pos n)
int-Digits n _ (one h) = int-digit n h
int-Digits n _ (two h) = int-split n h
int-Digits n _ (three h) = int-split_three n h

pub int-show : (n : ℕ) → n < 1000 → int (show n) ≡ some (pos n)
int-show n h = int-Digits n (show n) (show-Digits n h)

is_number-Digits : (n : ℕ) (t : Text) → Digits n t → is_number t ≡ true
unfolding all_digits
is_number-Digits n _ (one h) = rw (digit n h).0 refl
is_number-Digits n _ (two h) =
    rw ((digit (n / 10) (omega arith)).0, (digit (n % 10) (omega arith)).0) refl
is_number-Digits n _ (three h) =
    rw
      (
        (digit (n / 100) (omega arith)).0,
        (digit (n / 10 % 10) (omega arith)).0,
        (digit (n % 10) (omega arith)).0,
      )
      refl

pub is_number-show : (n : ℕ) → n < 1000 → is_number (show n) ≡ true
is_number-show n h = is_number-Digits n (show n) (show-Digits n h)

strip-Digits : (n : ℕ) (t : Text) → Digits n t → strip t ≡ t
strip-Digits n _ (one h) = strip-full _ [] (digit n h).1 ∙ rstrip-end [] (b'0' + n) (digit n h).1
strip-Digits n _ (two h) =
    strip-full _ _ (digit (n / 10) (omega arith)).1
    ∙ rstrip-end ((b'0' + n / 10) ∷ []) (b'0' + n % 10) (digit (n % 10) (omega arith)).1
strip-Digits n _ (three h) =
    strip-full _ _ (digit (n / 100) (omega arith)).1
    ∙ rstrip-end ((b'0' + n / 100) ∷ (b'0' + n / 10 % 10) ∷ []) (b'0' + n % 10)
        (digit (n % 10) (omega arith)).1

pub strip-show : (n : ℕ) → n < 1000 → strip (show n) ≡ show n
strip-show n h = strip-Digits n (show n) (show-Digits n h)
