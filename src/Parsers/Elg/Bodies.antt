-- ===== src/Parsers/Elg/Bodies.antt =====
-- custom_components/centralite/parsers/elg.py: the headers of loads, scenes and buttons, as they are read.
use centralite_ha.Text.Strip.{rstrip-end, strip-full, rstrip-behind, rstrip-past}
use centralite_ha.Base.{
  ℕ, ◌+◌, ◌/◌, ◌%◌, ◌≤◌, ◌<◌, pos, true, false, none, some, [], ◌∷◌, ◌++◌, ◌≡◌, refl, ◌∙◌, arith,
  leb, Bool-cases, inl, inr, option_bind,
}
use centralite_ha.Text.{Text, codes, is_space, is_empty, strip, lstrip, rstrip}
use centralite_ha.Text.Number.{pad, show}
use centralite_ha.Text.Number.Laws.{
  pad_three, show_one, show_two, int-split_three, int-split, int-digit,
}
use centralite_ha.Text.Match.{is_digit, after, span_digits, skip_blanks, some_digits}
use centralite_ha.Parsers.Elg.Sections.{
  load_header, scene_header, ended, button_header, is_button, scene_load,
}
use centralite_ha.Parsers.Elg.Lines.{strip-stripped, is_unbroken, IsStripped, digit_space}
use centralite_ha.Parsers.Elg.Headers.{IsBody, digit}

-- The headers of scenes and of buttons.
abbrev pub scene_body : ℕ → Text → Text
scene_body n name = codes "SCENE " ++ (pad 3 n ++ (codes "- " ++ name))

abbrev pub button_body : ℕ → ℕ → Text
button_body letter number = (b'A' + letter) ∷ show number

abbrev pub load_body : ℕ → Text
load_body n = codes "LOAD " ++ pad 3 n

span_digits-pad :
    (n : ℕ) (c : ℕ) (t : Text)
    → n < 1000
    → is_digit c ≡ false
    → span_digits (pad 3 n ++ c ∷ t) ≡ (pad 3 n, c ∷ t)
unfolding span_digits
span_digits-pad n c t h d = rw (pad_three n h) (
    rw
      (
        (digit (n / 100) (omega arith)).0,
        (digit (n / 10 % 10) (omega arith)).0,
        (digit (n % 10) (omega arith)).0,
        d,
      )
      refl)

digit_first : (n : ℕ) (t : Text) → n < 1000 → lstrip (pad 3 n ++ t) ≡ pad 3 n ++ t
unfolding lstrip
digit_first n t h =
    rw (pad_three n h) (rw (digit_space (b'0' + n / 100) (digit (n / 100) (omega arith)).0) refl)

-- A scene with a name.
abbrev pub IsName : Text → Type 0
IsName name = IsStripped name × (is_unbroken name ≡ true)

strip-blank : (t : Text) → strip (32 ∷ t) ≡ strip t
unfolding strip lstrip is_space
strip-blank t = refl

pub scene_header-body :
    (n : ℕ) (name : Text)
    → n < 1000
    → IsStripped name
    → is_empty name ≡ false
    → scene_header (scene_body n name) ≡ some (pos n, name)
unfolding scene_header after skip_blanks
scene_header-body n name h s e =
    rw (digit_first n (b'-' ∷ 32 ∷ name) h, span_digits-pad n b'-' (32 ∷ name) h refl)
      (rw (pad_three n h) (rw (strip-blank name, strip-stripped name s, int-split_three n h) refl))

pub scene_body-IsBody :
    (n : ℕ) (name : Text) → IsStripped name → is_empty name ≡ false → IsBody (scene_body n name)
unfolding is_space
scene_body-IsBody n [] s e = cc
scene_body-IsBody n (c ∷ name) (l, r) e = (
  refl,
  strip-full b'S' (codes "CENE " ++ (pad 3 n ++ (codes "- " ++ c ∷ name))) refl
      ∙ rstrip-behind (codes "SCENE " ++ pad 3 n) b'-' (32 ∷ c ∷ name)
          (rstrip-behind (codes "- ") c name r),
)

pub load_body-IsBody : (n : ℕ) → n < 1000 → IsBody (load_body n)
unfolding is_space
load_body-IsBody n h = (
  refl,
  rw (pad_three n h) (
      strip-full b'L' _ refl
      ∙ rstrip-end (codes "LOAD " ++ (b'0' + n / 100) ∷ (b'0' + n / 10 % 10) ∷ []) (b'0' + n % 10)
          (digit_space (b'0' + n % 10) (digit (n % 10) (omega arith)).0)),
)

-- The digits of a number up to 24.
data IsShown (n : ℕ) : Text → Type 0 where
  one : n < 10 → IsShown n ((b'0' + n) ∷ [])
  two : n < 100 → IsShown n ((b'0' + n / 10) ∷ (b'0' + n % 10) ∷ [])

show-IsShown : (n : ℕ) → n ≤ 24 → IsShown n (show n)
show-IsShown n h = elim (Bool-cases (leb 10 n)) [
  | inl big ↦ rw (show_two n (ground arith) (omega arith)) (two (omega arith))
  | inr small ↦ rw (show_one n (ground arith)) (one (ground arith))
]

shown-read :
    (n : ℕ) (t : Text)
    → IsShown n t
    → option_bind (some_digits (span_digits t)) ended ≡ some (pos n)
unfolding span_digits
shown-read n _ (one h) = rw ((digit n h).0, int-digit n h) refl
shown-read n _ (two h) =
    rw ((digit (n / 10) (omega arith)).0, (digit (n % 10) (omega arith)).0, int-split n h) refl

pub button_header-body :
    (letter n : ℕ)
    → letter < 16
    → n ≤ 24
    → button_header (button_body letter n) ≡ some (letter, pos n)
unfolding button_header
button_header-body letter n a h = rw (shown-read n (show n) (show-IsShown n h)) (ground arith)

-- A button is no load and no scene.
no_load : (letter n : ℕ) (t : Text) → IsShown n t → load_header ((b'A' + letter) ∷ t) ≡ none
unfolding load_header after
no_load letter n _ (one h) = ground arith
no_load letter n _ (two h) = ground arith

no_scene : (letter n : ℕ) (t : Text) → IsShown n t → scene_header ((b'A' + letter) ∷ t) ≡ none
unfolding scene_header after
no_scene letter n _ (one h) = ground arith
no_scene letter n _ (two h) = ground arith

pub button_body-other :
    (letter n : ℕ)
    → n ≤ 24
    → (load_header (button_body letter n) ≡ none) × (scene_header (button_body letter n) ≡ none)
button_body-other letter n h =
    (no_load letter n (show n) (show-IsShown n h), no_scene letter n (show n) (show-IsShown n h))

letter_space : (letter : ℕ) → letter < 16 → is_space (b'A' + letter) ≡ false
unfolding is_space
letter_space letter h = ground arith

shown-strip :
    (letter n : ℕ) (t : Text)
    → letter < 16
    → IsShown n t
    → strip ((b'A' + letter) ∷ t) ≡ (b'A' + letter) ∷ t
shown-strip letter n _ a (one h) =
    strip-full (b'A' + letter) _ (letter_space letter a)
    ∙ rstrip-end ((b'A' + letter) ∷ []) (b'0' + n) (digit_space (b'0' + n) (digit n h).0)
shown-strip letter n _ a (two h) =
    strip-full (b'A' + letter) _ (letter_space letter a)
    ∙ rstrip-end ((b'A' + letter) ∷ (b'0' + n / 10) ∷ []) (b'0' + n % 10)
        (digit_space (b'0' + n % 10) (digit (n % 10) (omega arith)).0)

pub button_body-IsBody : (letter n : ℕ) → letter < 16 → n ≤ 24 → IsBody (button_body letter n)
button_body-IsBody letter n a h = (refl, shown-strip letter n (show n) a (show-IsShown n h))

shown-unbroken : (n : ℕ) (t : Text) → IsShown n t → is_unbroken t ≡ true
shown-unbroken n _ (one h) = rw (digit n h).1 refl
shown-unbroken n _ (two h) =
    rw ((digit (n / 10) (omega arith)).1, (digit (n % 10) (omega arith)).1) refl

pub show-unbroken : (n : ℕ) → n ≤ 24 → is_unbroken (show n) ≡ true
show-unbroken n h = shown-unbroken n (show n) (show-IsShown n h)

pub is_button-body : (letter n : ℕ) → letter < 16 → n ≤ 24 → is_button (button_body letter n) ≡ true
is_button-body letter n a h = rw (is_button, button_header-body letter n a h) refl

pub scene_load-member :
    (n : ℕ) (t : Text)
    → n < 1000
    → scene_load (strip (codes "LOAD_" ++ (pad 3 n ++ (codes "-" ++ t)))) ≡ some (pos n)
unfolding is_space scene_load after
scene_load-member n t h =
    rw
      (
        strip-full b'L' (codes "OAD_" ++ (pad 3 n ++ (codes "-" ++ t))) refl,
        rstrip-past (codes "LOAD_" ++ pad 3 n) b'-' t refl,
        span_digits-pad n b'-' (rstrip t) h refl,
      )
      (rw (pad_three n h) (rw (int-split_three n h) refl))
