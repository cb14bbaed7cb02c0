-- ===== src/Parsers/Jts/PrintButtons.antt =====
-- custom_components/centralite/parsers/jts.py: the numbers and the buttons of a printed file, as they are read.
use centralite_ha.Base.{
  ℕ, ◌+◌, ◌<◌, ◌≡◌, refl, ap, ◌∙◌, arith, pos, ℤ, Bool, true, false, not, ◌&&◌, ◌||◌, none, some,
  List, [], ◌∷◌, ◌==◌, leb, ltb, All, if◌then◌else◌, Result, ok, err, value_error, bind,
}
use centralite_ha.Text.{Text, codes, strip, lstrip, rstrip}
use centralite_ha.Text.Number.{show}
use centralite_ha.Text.Number.Shown.{int-show, is_number-show, strip-show}
use centralite_ha.Text.Match.{is_number, all_digits, is_digit}
use centralite_ha.Dict.{Dict, put, int_eq, pair_eq}
use centralite_ha.Coordinator.Loads.{is_zero}
use centralite_ha.Parsers.Jts.Tree.{
  Element, all_with, as_index, read_int, lstrip_minus, stripped, findtext, find, is_true, positive,
}
use centralite_ha.Parsers.Jts.Reader.{
  any_configured, button_configured, action_configured, add_button, one_button, each_button,
  collect_buttons, label,
}
use centralite_ha.Parsers.Jts.Print.{
  Button, Device, IsButton, IsDevice, flag, action_tree, button_tree, button_trees, device_tree,
  has_action, buttons_of,
}

minus : (c : ℕ) → is_digit c ≡ true → (c == b'-') ≡ false
minus c h = ground arith

number-minus : (t : Text) → is_number t ≡ true → is_number (lstrip_minus t) ≡ true
unfolding lstrip_minus all_digits
number-minus [] h = cc
number-minus (c ∷ t) h = let first : is_digit c ≡ true = ground arith in rw (minus c first) h

pub read_int-show : (n : ℕ) → n < 1000 → read_int (show n) ≡ ok (pos n)
read_int-show n h =
    ap (λ o. elim o as (λ x. Result ℤ) [ none ↦ err value_error | some z ↦ ok z ]) (int-show n h)

-- A printed number is read as an index where it is not 0.
pub as_index-show :
    (n : ℕ) → n < 1000 → as_index (some (show n)) ≡ ok (if leb 1 n then some (pos n) else none)
unfolding as_index
as_index-show n h =
    rw (strip-show n h, number-minus (show n) (is_number-show n h))
      (ap (λ r. bind r (λ num. ok (positive num))) (read_int-show n h))

action_configured-show : (n : ℕ) → n < 1000 → action_configured (strip (show n)) ≡ ok (not (n == 0))
action_configured-show n h =
    rw (strip-show n h, number-minus (show n) (is_number-show n h))
      (ap (λ r. bind r (λ z. ok (not (is_zero z)))) (read_int-show n h))

pub is_true-flag : (default b : Bool) → is_true default (some (flag b)) ≡ b
unfolding strip lstrip rstrip
is_true-flag default true = refl
is_true-flag default false = refl

-- One action of a button.
any_configured-step :
    (name : Text) (names : List Text) (button action : Element) (x : Bool)
    → find name button ≡ some action
    → action_configured (stripped (findtext (codes "BtnAction") action)) ≡ ok x
    → any_configured (name ∷ names) button ≡ (if x then ok true else any_configured names button)
unfolding any_configured
any_configured-step name names button action x f c =
    rw (any_configured, f)
      (ap (λ r. bind r (λ y. if y then ok true else any_configured names button)) c)

action_tree-read :
    (name : Text) (n : ℕ)
    → n < 1000
    → action_configured (stripped (findtext (codes "BtnAction") (action_tree name n)))
      ≡ ok (not (n == 0))
unfolding all_with
action_tree-read name n h = action_configured-show n h

three_tests :
    (x y z : Bool)
    → Path
        (Result Bool)
        (if x then ok true else if y then ok true else if z then ok true else ok false)
        (ok (x || (y || z)))
three_tests true y z = refl
three_tests false true z = refl
three_tests false false true = refl
three_tests false false false = refl

button_configured-tree :
    (b : Button) → IsButton b → button_configured (button_tree b) ≡ ok (has_action b)
unfolding button_configured all_with any_configured
button_configured-tree b (n, t, h, d) =
    any_configured-step (codes "tap") (codes "pressandhold" ∷ codes "doubletap" ∷ [])
      (button_tree b) (action_tree (codes "tap") b.tap) _ refl
      (action_tree-read (codes "tap") b.tap t)
    ∙ ap (λ r. if not (b.tap == 0) then ok true else r)
        (any_configured-step (codes "pressandhold") (codes "doubletap" ∷ []) (button_tree b)
            (action_tree (codes "pressandhold") b.hold) _ refl
            (action_tree-read (codes "pressandhold") b.hold h)
          ∙ ap (λ r. if not (b.hold == 0) then ok true else r)
              (any_configured-step (codes "doubletap") [] (button_tree b)
                (action_tree (codes "doubletap") b.double) _ refl
                (action_tree-read (codes "doubletap") b.double d)))
    ∙ three_tests (not (b.tap == 0)) (not (b.hold == 0)) (not (b.double == 0))

-- The guard of a button number, in the two forms.
within_two :
    (few action : Bool) (x y : Dict (ℤ × ℤ) Text)
    → Path
        (Result (Dict (ℤ × ℤ) Text))
        (if not few then ok y else if action then ok x else ok y)
        (ok (if few && action then x else y))
within_two true true x y = refl
within_two true false x y = refl
within_two false action x y = refl

-- One button, and all of them.
add_button-tree :
    (device : ℕ) (name : Text) (b : Button) (out : Dict (ℤ × ℤ) Text)
    → IsButton b
    → add_button (pos device) name (button_tree b) (pos b.number) out
      ≡ ok (
          if leb b.number 2 && has_action b
          then put out (pos device, pos (b.number + 1)) (label name (pos (b.number + 1)))
          else out)
add_button-tree device name b out h =
    let kept : Dict (ℤ × ℤ) Text =
      put out (pos device, pos (b.number + 1)) (label name (pos (b.number + 1))) in
    let over : ltb 2 b.number ≡ not (leb b.number 2) = ground arith in
    ap
      (λ r.
        if ltb 2 b.number
        then ok out
        else bind r (λ configured. if configured then ok kept else ok out))
      (button_configured-tree b h)
    ∙ rw over (within_two (leb b.number 2) (has_action b) kept out)

one_button-tree :
    (device : ℕ) (name : Text) (b : Button) (out : Dict (ℤ × ℤ) Text)
    → IsButton b
    → one_button (pos device) name (button_tree b) out
      ≡ add_button (pos device) name (button_tree b) (pos b.number) out
unfolding all_with
one_button-tree device name b out (n, t, h, d) =
    rw (strip-show b.number n, is_number-show b.number n)
      (ap (λ r. bind r (λ bid. add_button (pos device) name (button_tree b) bid out))
        (read_int-show b.number n))

each_button-trees :
    (device : ℕ) (name : Text) (bs : List Button) (out : Dict (ℤ × ℤ) Text)
    → All IsButton bs
    → each_button (pos device) name (all_with (codes "Button") (button_trees bs)) out
      ≡ ok (buttons_of device name bs out)
unfolding all_with button_trees each_button
each_button-trees device name [] out h = refl
each_button-trees device name (b ∷ bs) out (is, h) =
    ap (λ r. bind r (each_button (pos device) name (all_with (codes "Button") (button_trees bs))))
      (one_button-tree device name b out is ∙ add_button-tree device name b out is)
    ∙ each_button-trees device name bs _ h

pub collect_buttons-tree :
    (d : Device) (out : Dict (ℤ × ℤ) Text)
    → IsDevice d
    → collect_buttons (device_tree d) (pos d.number) d.name out
      ≡ ok (buttons_of d.number d.name d.buttons out)
unfolding collect_buttons all_with
collect_buttons-tree d out (n, s, h) = each_button-trees d.number d.name d.buttons out h
