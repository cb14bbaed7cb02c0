-- ===== src/Text/Number/Laws.antt =====
-- The digits of padded numbers, and `int` of them.
use centralite_ha.Base.{
  ℕ, zero, suc, ◌+◌, ◌*◌, ◌/◌, ◌%◌, ◌≤◌, ◌<◌, pos, some, [], ◌∷◌, ◌≡◌, ap, arith, inl, inr, leb,
  Bool-cases,
}
use centralite_ha.Text.{Text}
use centralite_ha.Text.Number.{show_digits, show, pad, int}

pub digits_one : (f n : ℕ) (out : Text) → n < 10 → show_digits (suc f) n out ≡ (b'0' + n) ∷ out
unfolding show_digits
digits_one f n out h = ground arith

pub digits_more :
    (f n : ℕ) (out : Text)
    → 10 ≤ n
    → show_digits (suc f) n out ≡ show_digits f (n / 10) ((b'0' + n % 10) ∷ out)
unfolding show_digits
digits_more f n out h = ground arith

pub show_one : (n : ℕ) → n < 10 → show n ≡ (b'0' + n) ∷ []
unfolding show
show_one n h = digits_one n n [] h

pub show_two : (n : ℕ) → 10 ≤ n → n < 100 → show n ≡ (b'0' + n / 10) ∷ (b'0' + n % 10) ∷ []
unfolding show
show_two zero h k = absurd (omega arith)
show_two (suc m) h k =
    rw (digits_more (suc m) (suc m) [] h) (digits_one m (suc m / 10) _ (omega arith))

pub show_three :
    (n : ℕ)
    → 100 ≤ n
    → n < 1000
    → show n ≡ (b'0' + n / 100) ∷ (b'0' + n / 10 % 10) ∷ (b'0' + n % 10) ∷ []
unfolding show
show_three zero h k = absurd (omega arith)
show_three (suc zero) h k = absurd (omega arith)
show_three (suc (suc m)) h k =
    let n : ℕ = suc (suc m) in
    rw (digits_more n n [] (omega arith)) (
      rw (digits_more (suc m) (n / 10) ((b'0' + n % 10) ∷ []) (omega arith)) (
        rw (digits_one m (n / 10 / 10) ((b'0' + n / 10 % 10) ∷ (b'0' + n % 10) ∷ []) (omega arith))
          (ground arith)))

pub pad_two : (n : ℕ) → n < 100 → pad 2 n ≡ (b'0' + n / 10) ∷ (b'0' + n % 10) ∷ []
unfolding pad
pad_two n h = elim (Bool-cases (leb 10 n)) [
  | inl big ↦ rw (show_two n (ground arith) h)
  | inr small ↦ rw (show_one n (ground arith)) (ground arith)
]

pub pad_three :
    (n : ℕ) → n < 1000 → pad 3 n ≡ (b'0' + n / 100) ∷ (b'0' + n / 10 % 10) ∷ (b'0' + n % 10) ∷ []
unfolding pad
pad_three n h = elim (Bool-cases (leb 10 n)) [
  | inl big ↦ elim (Bool-cases (leb 100 n)) [
    | inl large ↦ rw (show_three n (ground arith) h)
    | inr middle ↦ rw (show_two n (ground arith) (ground arith)) (ground arith)
  ]
  | inr small ↦ rw (show_one n (ground arith)) (ground arith)
]

pub int-two :
    (a b : ℕ) → a < 10 → b < 10 → int ((b'0' + a) ∷ (b'0' + b) ∷ []) ≡ some (pos (a * 10 + b))
unfolding int
int-two a b p q = ground arith

pub int-three :
    (a b c : ℕ)
    → a < 10
    → b < 10
    → c < 10
    → int ((b'0' + a) ∷ (b'0' + b) ∷ (b'0' + c) ∷ []) ≡ some (pos ((a * 10 + b) * 10 + c))
unfolding int
int-three a b c p q r = ground arith

pub int-pad_two : (n : ℕ) → n < 100 → int (pad 2 n) ≡ some (pos n)
int-pad_two n h =
    rw (pad_two n h, int-two (n / 10) (n % 10) (omega arith) (omega arith)) (ground arith)

pub int-pad_three : (n : ℕ) → n < 1000 → int (pad 3 n) ≡ some (pos n)
int-pad_three n h =
    rw
      (
        pad_three n h,
        int-three (n / 100) (n / 10 % 10) (n % 10) (omega arith) (omega arith) (omega arith),
      )
      (ground arith)

pub int-split : (n : ℕ) → n < 100 → int ((b'0' + n / 10) ∷ (b'0' + n % 10) ∷ []) ≡ some (pos n)
int-split n h =
    rw (int-two (n / 10) (n % 10) (omega arith) (omega arith))
      (ap (λ k. some (pos k)) (omega arith))

pub int-split_three :
    (n : ℕ)
    → n < 1000
    → int ((b'0' + n / 100) ∷ (b'0' + n / 10 % 10) ∷ (b'0' + n % 10) ∷ []) ≡ some (pos n)
int-split_three n h = rw (← pad_three n h) (int-pad_three n h)

pub int-digit : (n : ℕ) → n < 10 → int ((b'0' + n) ∷ []) ≡ some (pos n)
unfolding int
int-digit n h = ground arith
