-- ===== src/Parsers/Elg/PrintFields.antt =====
-- custom_components/centralite/parsers/elg.py: the fields of a printed button, as _referenced_load_ids
-- reads them.
use centralite_ha.Text.Strip.{rstrip-end, strip-full}
use centralite_ha.Base.{
  ℕ, ◌+◌, ◌/◌, ◌%◌, ◌<◌, ℤ, pos, Bool, true, false, none, some, List, [], ◌∷◌, ◌++◌, ◌≡◌, refl, ap,
  ◌∙◌, arith, ◌==◌, if◌then◌else◌, ◌&&◌,
}
use centralite_ha.Text.{Text, codes, strip, lstrip, rstrip, is_space, starts_with}
use centralite_ha.Text.Number.{pad}
use centralite_ha.Text.Number.Laws.{pad_three, int-split_three}
use centralite_ha.Text.Match.{partition, has_char, is_number, all_digits, group_value}
use centralite_ha.Dict.{Dict, get, put, int_eq, text_key}
use centralite_ha.Sets.{add}
use centralite_ha.Parsers.Elg.Sections.{
  section_match, section_of, button_header, is_button, scene_load,
}
use centralite_ha.Parsers.Elg.Referenced.{
  References, reference_line, flush_button, body_line, assigned, field_or_empty,
}
use centralite_ha.Parsers.Elg.Lines.{IsStripped, strip-field, strip-stripped, digit_space}
use centralite_ha.Parsers.Elg.Headers.{run, digit}
use centralite_ha.Parsers.Elg.Print.{
  Button, IsButton, button_name_line, active_line, kind_line, target_line,
}

abbrev pub in_body : Text → References → References
in_body body r = record (flush_button r) { section = some body; fields = [] }

no_section : (c : ℕ) (t : Text) → (c == b'[') ≡ false → section_of (c ∷ t) ≡ none
unfolding section_match
no_section c t h = rw h refl

pub inside :
    (c : ℕ) (t body : Text) (r : References)
    → (c == b'[') ≡ false
    → r.section ≡ some body
    → reference_line (c ∷ t) r ≡ body_line body (c ∷ t) r
unfolding reference_line scene_load button_header
inside c t body r h s =
    rw (reference_line, no_section c t h)
      (ap
        (λ o. elim o as (λ x. References) [ none ↦ r | some section ↦ body_line section (c ∷ t) r ])
        s)

-- A field of a button.
field_line-read :
    (c : ℕ) (t body : Text) (r : References)
    → (c == b'[') ≡ false
    → has_char b'=' (c ∷ t) ≡ true
    → r.section ≡ some body
    → starts_with body (codes "SCENE ") ≡ false
    → is_button body ≡ true
    → reference_line (c ∷ t) r ≡ record r {
      fields =
          put r.fields
            (strip (partition b'=' (strip (c ∷ t))).0)
            (strip (partition b'=' (strip (c ∷ t))).1);
    }
unfolding reference_line
field_line-read c t body r h e s n b = inside c t body r h s ∙ rw (n, b, e) refl

abbrev pub fields_of : Button → Dict Text Text
fields_of b =
    (codes "NAME", b.name)
    ∷ (codes "ACTIVE", if b.active then codes "1" else codes "0")
    ∷ (codes "LOAD/SCENE", if b.of_load then codes "L" else codes "S")
    ∷ (codes "#", pad 3 b.target)
    ∷ []

pub not_scene :
    (letter : ℕ) (t : Text)
    → letter < 16
    → starts_with ((b'A' + letter) ∷ t) (codes "SCENE ") ≡ false
not_scene letter t h = ground arith

-- A line key=value of a button.
field-step :
    (c : ℕ) (t body key value : Text) (r : References) (d : Dict Text Text)
    → (c == b'[') ≡ false
    → has_char b'=' (c ∷ t) ≡ true
    → starts_with body (codes "SCENE ") ≡ false
    → is_button body ≡ true
    → partition b'=' (strip (c ∷ t)) ≡ (key, value)
    → strip key ≡ key
    → strip value ≡ value
    → reference_line (c ∷ t) (record (in_body body r) { fields = d })
      ≡ record (in_body body r) { fields = put d key value }
field-step c t body key value r d h e n b pair k v =
    field_line-read c t body (record (in_body body r) { fields = d }) h e refl n b
    ∙ ap (λ d'. record (in_body body r) { fields = d' })
        (ap (λ (p : Text × Text). put d (strip p.0) (strip p.1)) pair ∙ rw (k, v) refl)

name-pair :
    (name : Text)
    → IsStripped name
    → partition b'=' (strip (codes "NAME=" ++ name)) ≡ (codes "NAME", name)
unfolding partition
name-pair name e = rw (strip-field name e) refl

active-pair :
    (active : Bool)
    → let digit = if active then codes "1" else codes "0" in
      (partition b'=' (strip (codes "ACTIVE=" ++ digit)) ≡ (codes "ACTIVE", digit))
      × (strip digit ≡ digit)
unfolding partition strip lstrip rstrip
active-pair true = (refl, refl)
active-pair false = (refl, refl)

concrete :
    (strip (codes "NAME") ≡ codes "NAME")
    × (strip (codes "ACTIVE") ≡ codes "ACTIVE")
    × (strip (codes "LOAD/SCENE") ≡ codes "LOAD/SCENE")
    × (strip (codes "#") ≡ codes "#")
unfolding partition strip lstrip rstrip
concrete = (refl, refl, refl, refl)

kind-pair :
    (of_load : Bool)
    → let kind = if of_load then codes "L" else codes "S" in
      (partition b'=' (strip (codes "LOAD/SCENE=" ++ kind)) ≡ (codes "LOAD/SCENE", kind))
      × (strip kind ≡ kind)
unfolding partition strip lstrip rstrip
kind-pair true = (refl, refl)
kind-pair false = (refl, refl)

target-strip :
    (n : ℕ)
    → n < 1000
    → (strip (pad 3 n) ≡ pad 3 n) × (strip (codes "#=" ++ pad 3 n) ≡ codes "#=" ++ pad 3 n)
unfolding is_space
target-strip n h =
    let last = digit_space (b'0' + n % 10) (digit (n % 10) (omega arith)).0 in
    rw (pad_three n h) (
      strip-full (b'0' + n / 100) _ (digit_space (b'0' + n / 100) (digit (n / 100) (omega arith)).0)
          ∙ rstrip-end ((b'0' + n / 100) ∷ (b'0' + n / 10 % 10) ∷ []) (b'0' + n % 10) last,
      strip-full b'#' _ refl
          ∙ rstrip-end (codes "#=" ++ (b'0' + n / 100) ∷ (b'0' + n / 10 % 10) ∷ []) (b'0' + n % 10)
              last,
    )

target-pair :
    (n : ℕ) → n < 1000 → partition b'=' (strip (codes "#=" ++ pad 3 n)) ≡ (codes "#", pad 3 n)
unfolding partition
target-pair n h = rw ((target-strip n h).1) refl

-- The fields of a button, one line after another.
pub button-fields :
    (b : Button) (body : Text) (r : References)
    → IsButton b
    → starts_with body (codes "SCENE ") ≡ false
    → is_button body ≡ true
    → run reference_line
        (button_name_line b ∷ active_line b ∷ kind_line b ∷ target_line b ∷ [])
        (in_body body r)
      ≡ record (in_body body r) { fields = fields_of b }
unfolding has_char put
button-fields b body r (l, lo, hi, (e, u), g) n k =
    let (s1, s2, s3, s4) = concrete in
    let (p3, s5) = kind-pair b.of_load in
    let kind : Text = if b.of_load then codes "L" else codes "S" in
    let (p2, v2) = active-pair b.active in
    let active : Text = if b.active then codes "1" else codes "0" in
    rw
      (
        field-step b'N' (codes "AME=" ++ b.name) body (codes "NAME") b.name r [] refl refl n k
            (name-pair b.name e) s1 (strip-stripped b.name e),
        field-step b'A' (codes "CTIVE=" ++ active) body (codes "ACTIVE") active r _ refl refl n k p2
            s2 v2,
        field-step b'L' (codes "OAD/SCENE=" ++ kind) body (codes "LOAD/SCENE") kind r _ refl refl n
            k p3 s3 s5,
        field-step b'#' (codes "=" ++ pad 3 b.target) body (codes "#") (pad 3 b.target) r _ refl
            refl n k (target-pair b.target g) s4 (target-strip b.target g).0,
      )
      refl

target-number : (n : ℕ) → n < 1000 → (is_number (pad 3 n) ≡ true) × (group_value (pad 3 n) ≡ pos n)
unfolding all_digits
target-number n h = rw (pad_three n h) (
  rw
      (
        (digit (n / 100) (omega arith)).0,
        (digit (n / 10 % 10) (omega arith)).0,
        (digit (n % 10) (omega arith)).0,
      )
      refl,
  rw (int-split_three n h) refl,
)

fields_of-assigned :
    (b : Button) → b.target < 1000 → assigned (fields_of b) ≡ (b.of_load && b.active)
unfolding get
fields_of-assigned b g = by_kind b.of_load b.active
  where
    number : is_number (pad 3 b.target) ≡ true
    number = (target-number b.target g).0

    by_kind : (l a : Bool) → assigned (fields_of (record b { active = a; of_load = l })) ≡ (l && a)
    by_kind true true = rw number refl
    by_kind true false = refl
    by_kind false a = refl

target-field : (b : Button) → get (fields_of b) (codes "#") ≡ some (pad 3 b.target)
unfolding get
target-field b = refl

either :
    (a : Bool) (x y : References)
    → (if true && a then x else y).referenced ≡ (if a then x.referenced else y.referenced)
either true x y = refl
either false x y = refl

assigned-flush :
    (body : Text) (fields : Dict Text Text) (ids : List ℤ) (active : Bool) (n : ℕ)
    → is_button body ≡ true
    → assigned fields ≡ active
    → group_value (field_or_empty (get fields (codes "#"))) ≡ pos n
    → (flush_button (record { section = some body; fields = fields; referenced = ids })).referenced
      ≡ (if active then add (pos n) ids else ids)
unfolding flush_button
assigned-flush body fields ids active n k a value =
    rw (k, a, value)
      (either active _ (record { section = some body; fields = fields; referenced = ids }))

pub button-flush :
    (b : Button) (body : Text) (r : References)
    → b.target < 1000
    → is_button body ≡ true
    → (flush_button (record (in_body body r) { fields = fields_of b })).referenced ≡ (
        if b.of_load && b.active
        then add (pos b.target) (flush_button r).referenced
        else (flush_button r).referenced)
button-flush b body r g k =
    assigned-flush body (fields_of b) (flush_button r).referenced (b.of_load && b.active) b.target k
      (fields_of-assigned b g)
      (ap (λ o. group_value (field_or_empty o)) (target-field b) ∙ (target-number b.target g).1)
