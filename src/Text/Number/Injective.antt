-- ===== src/Text/Number/Injective.antt =====
-- `str` of two numbers is the same only where the numbers are.
use centralite_ha.Base.{
  ℕ, zero, suc, ◌+◌, ◌-◌, ◌*◌, ◌/◌, ◌%◌, ◌<◌, ℤ, pos, negsuc, Bool, true, false, [], ◌∷◌, ◌≡◌, refl,
  ap, sym, ◌∙◌, arith, inl, inr, leb, if◌then◌else◌, Bool-cases,
}
use centralite_ha.Text.{Text, text_eq}
use centralite_ha.Text.Number.{show_digits, show, show_int}
use centralite_ha.Text.Number.Laws.{digits_one, digits_more}
use centralite_ha.Dict.{int_beq, int_beq_iff, text_eq_iff}

-- The value of digits behind those of `acc`.
value : ℕ → Text → ℕ
value acc [] = acc
value acc (c ∷ s) = value (acc * 10 + (c - b'0')) s

value-digits : (f n : ℕ) (out : Text) → n < f → value 0 (show_digits f n out) ≡ value n out
unfolding value
value-digits zero n out h = absurd (omega arith)
value-digits (suc f) n out h = elim (Bool-cases (leb 10 n)) [
  | inl big ↦
      rw
        (
          digits_more f n out (ground arith),
          value-digits f (n / 10) ((b'0' + n % 10) ∷ out) (ground arith),
        )
        (ap (λ m. value m out) (omega arith))
  | inr small ↦ rw (digits_one f n out (ground arith)) (ap (λ m. value m out) (omega arith))
]

abbrev starts_with_digit : Text → Bool
starts_with_digit [] = false
starts_with_digit (c ∷ s) = leb b'0' c

digits-start : (f n : ℕ) (out : Text) → n < f → starts_with_digit (show_digits f n out) ≡ true
digits-start zero n out h = absurd (omega arith)
digits-start (suc f) n out h = elim (Bool-cases (leb 10 n)) [
  | inl big ↦
      rw (digits_more f n out (ground arith))
        (digits-start f (n / 10) ((b'0' + n % 10) ∷ out) (ground arith))
  | inr small ↦ rw (digits_one f n out (ground arith)) (ground arith)
]

value-show : (n : ℕ) → value 0 (show n) ≡ n
unfolding show value
value-show n = value-digits (suc n) n [] (omega arith)

show-start : (n : ℕ) → starts_with_digit (show n) ≡ true
unfolding show
show-start n = digits-start (suc n) n [] (omega arith)

-- What `str` was called on.
read_back : Text → ℤ
read_back [] = pos 0
read_back (c ∷ s) = if leb b'0' c then pos (value 0 (c ∷ s)) else negsuc (value 0 s - 1)

read_back-digits : (t : Text) → starts_with_digit t ≡ true → read_back t ≡ pos (value 0 t)
unfolding read_back
read_back-digits [] h = cc
read_back-digits (c ∷ s) h = rw h refl

read_back-show_int : (z : ℤ) → read_back (show_int z) ≡ z
unfolding read_back show_int
read_back-show_int (pos n) = read_back-digits (show n) (show-start n) ∙ ap pos (value-show n)
read_back-show_int (negsuc n) = rw (value-show (n + 1)) (ap negsuc (omega arith))

pub show_int-injective : (a b : ℤ) → show_int a ≡ show_int b → a ≡ b
show_int-injective a b same = sym (read_back-show_int a) ∙ ap read_back same ∙ read_back-show_int b

pub text_eq-show_int : (a b : ℤ) → text_eq (show_int a) (show_int b) ≡ int_beq a b
text_eq-show_int a b = elim (Bool-cases (int_beq a b)) [
  | inl same ↦
      rw same ((text_eq_iff (show_int a) (show_int b)).1 (ap show_int ((int_beq_iff a b).0 same)))
  | inr other ↦ elim (Bool-cases (text_eq (show_int a) (show_int b))) [
    | inl same ↦ ground (
      arith,
      int_beq_iff a b,
      show_int-injective a b ((text_eq_iff (show_int a) (show_int b)).0 same),
    )
    | inr differ ↦ differ ∙ sym other
  ]
]
