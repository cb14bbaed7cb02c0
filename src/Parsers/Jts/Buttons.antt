-- ===== src/Parsers/Jts/Buttons.antt =====
-- The buttons that a device yields.
use centralite_ha.Base.{
  ℕ, ◌+◌, ℤ, pos, negsuc, Bool, true, false, Option, none, some, List, [], ◌∷◌, ◌≡◌, ap, arith,
  Result, ok, bind-ok, within_one, ltb, if◌then◌else◌, Bool-cases, inl, inr,
}
use centralite_ha.Text.{Text, codes}
use centralite_ha.Text.Match.{is_number}
use centralite_ha.Dict.{put, has, has-put, int_eq, pair_eq, int_beq, int_beq_iff}
use centralite_ha.Parsers.Jts.Tree.{Element, find, findall, findtext, read_int, stripped}
use centralite_ha.Parsers.Jts.Reader.{
  button_configured, Buttons, label, add_button, one_button, each_button, collect_buttons,
}

-- Every button is one of three, of a device that passes a test.
abbrev pub AreButtons : (ℤ → Bool) → Buttons → Type 0
AreButtons p out = (d b : ℤ) → has out (d, b) ≡ true → (within_one 3 b ≡ true) × (p d ≡ true)

put-AreButtons :
    (p : ℤ → Bool) (out : Buttons) (idx : ℤ) (n : ℕ) (t : Text)
    → p idx ≡ true
    → within_one 3 (pos n) ≡ true
    → AreButtons p out
    → AreButtons p (put out (idx, pos n) t)
put-AreButtons p out idx n t q w h d b m = elim (Bool-cases (int_beq idx d)) [
  | inl same ↦
      let e : p idx ≡ p d = ap p ((int_beq_iff idx d).0 same) in
      ground (arith, has-put out (idx, pos n) (d, b) t, h d b, int_beq_iff (pos n) b)
  | inr other ↦ ground (arith, has-put out (idx, pos n) (d, b) t, h d b)
]

add_button-AreButtons :
    (p : ℤ → Bool) (idx : ℤ) (name : Text) (button : Element) (bid : ℤ) (out out' : Buttons)
    → add_button idx name button bid out ≡ ok out'
    → p idx ≡ true
    → AreButtons p out
    → AreButtons p out'
add_button-AreButtons p idx name button (negsuc n) out out' h q a =
    let same : out ≡ out' = cc in rw (← same) a
add_button-AreButtons p idx name button (pos n) out out' h q a = elim (Bool-cases (ltb 2 n)) [
  | inl high ↦
      let made : ok out ≡ ok out' = rw high at h in let same : out ≡ out' = cc in rw (← same) a
  | inr low ↦
      let (configured, read, made) = bind-ok (button_configured button) _ (rw low at h) in
      go configured low made
]
  where
    go :
        (configured : Bool)
        → ltb 2 n ≡ false
        → (if configured
            then ok (put out (idx, pos (n + 1)) (label name (pos (n + 1))))
            else ok out)
          ≡ ok out'
        → AreButtons p out'
    go true low made =
        let same : put out (idx, pos (n + 1)) (label name (pos (n + 1))) ≡ out' = cc in
        rw (← same) (put-AreButtons p out idx (n + 1) _ q (ground arith) a)
    go false low made = let same : out ≡ out' = cc in rw (← same) a

one_button-AreButtons :
    (p : ℤ → Bool) (idx : ℤ) (name : Text) (button : Element) (out out' : Buttons)
    → one_button idx name button out ≡ ok out'
    → p idx ≡ true
    → AreButtons p out
    → AreButtons p out'
one_button-AreButtons p idx name button out out' h q a =
    let raw_id : Text = stripped (findtext (codes "ID") button) in
    elim (Bool-cases (is_number raw_id)) [
      | inl number ↦
          let (bid, read, made) = bind-ok (read_int raw_id) _ (rw number at h) in
          add_button-AreButtons p idx name button bid out out' made q a
      | inr other ↦
          let made : ok out ≡ ok out' = rw other at h in let same : out ≡ out' = cc in rw (← same) a
    ]

each_button-AreButtons :
    (p : ℤ → Bool) (idx : ℤ) (name : Text) (buttons : List Element) (out out' : Buttons)
    → each_button idx name buttons out ≡ ok out'
    → p idx ≡ true
    → AreButtons p out
    → AreButtons p out'
unfolding each_button
each_button-AreButtons p idx name [] out out' h q a = let same : out ≡ out' = cc in rw (← same) a
each_button-AreButtons p idx name (button ∷ rest) out out' h q a =
    let (mid, once, more) =
      bind-ok (one_button idx name button out) (each_button idx name rest) h in
    each_button-AreButtons p idx name rest mid out' more q
      (one_button-AreButtons p idx name button out mid once q a)

pub collect_buttons-AreButtons :
    (p : ℤ → Bool) (dev : Element) (idx : ℤ) (name : Text) (out out' : Buttons)
    → collect_buttons dev idx name out ≡ ok out'
    → p idx ≡ true
    → AreButtons p out
    → AreButtons p out'
unfolding collect_buttons
collect_buttons-AreButtons p dev idx name out out' h q a = go (find (codes "buttonList") dev) h
  where
    go :
        (found : Option Element)
        → elim found as (λ x. Result Buttons) [
          | none ↦ ok out
          | some button_list ↦ each_button idx name (findall (codes "Button") button_list) out
        ]
          ≡ ok out'
        → AreButtons p out'
    go none made = let same : out ≡ out' = cc in rw (← same) a
    go (some l) made =
        each_button-AreButtons p idx name (findall (codes "Button") l) out out' made q a
