-- ===== src/Parsers/Elg/Ranges.antt =====
-- custom_components/centralite/parsers/elg.py: what every .elg text yields.
use centralite_ha.Base.{
  ℕ, ◌+◌, ◌-◌, ◌*◌, ◌<◌, ℤ, pos, negsuc, true, false, ◌&&◌, ◌||◌, Option, none, some, List, [], ◌∷◌,
  ◌≡◌, refl, arith, leb, within_one, Bool-cases, inl, inr, map,
}
use mathlib.Core.Option
use centralite_ha.Text.{
  Text, is_empty, codes, or_none, starts_with, strip, rstrip_cr, splitlines, text_eq, upper,
}
use centralite_ha.Text.Match.{has_char, partition}
use centralite_ha.Dict.{Dict, get, has, has-put, get-put, int_eq, int_beq, int_beq_iff}
use centralite_ha.Parsers.Elg.Sections.{
  section_of, button_header, section_is_button, each_line, load_header, scene_header,
}
use centralite_ha.Parsers.Elg.Switches.{
  add_switch, add_button, flush_named, Named, flush, in_section, switch_line, named_switches,
}
use centralite_ha.Parsers.Elg.Slots.{
  Slots, setdefault, open_scene, open_section, assign, field_line, slot_line, elg_line, read_slots,
}
use centralite_ha.Parsers.Elg.{parse_elg}

-- Every switch is one of the 384 that the bridge has, and has a name.
abbrev pub AreSwitches : Dict ℤ Text → Type 0
AreSwitches d =
    (k : ℤ) (name : Text)
    → get d k ≡ some name
    → (within_one 384 k ≡ true) × (is_empty name ≡ false)

abbrev IsName : Option Text → Type 0
IsName name = (t : Text) → name ≡ some t → is_empty t ≡ false

-- The sixteen letters A to P.
button_header-letter :
    (section : Text) (letter : ℕ) (number : ℤ)
    → button_header section ≡ some (letter, number)
    → letter < 16
unfolding button_header
button_header-letter [] letter number h = cc
button_header-letter (c ∷ t) letter number h = elim (Bool-cases (leb b'A' c && leb c b'P')) [
  | inl within ↦ go _ (rw within at h) within
  | inr other ↦ cc (rw other at h)
]
  where
    go :
        (o : Option ℤ)
        → Option.map {B = ℕ × ℤ} (λ n. (c - b'A', n)) o ≡ some (letter, number)
        → (leb b'A' c && leb c b'P') ≡ true
        → letter < 16
    go none e w = cc
    go (some n) e w = let same : c - b'A' ≡ letter = cc in ground arith

add_switch-AreSwitches :
    (name : Text) (letter : ℕ) (number : ℤ) (d : Dict ℤ Text)
    → letter < 16
    → is_empty name ≡ false
    → AreSwitches d
    → AreSwitches (add_switch name (letter, number) d)
add_switch-AreSwitches name letter (pos n) d l s h k t m =
    ground (
      arith,
      get-put d (pos (letter * 24 + n)) k name,
      h k t,
      int_beq_iff (pos (letter * 24 + n)) k,
    )
add_switch-AreSwitches name letter (negsuc n) d l s h k t m = h k t m

flush_named-AreSwitches :
    (section name : Option Text) (d : Dict ℤ Text)
    → IsName name
    → AreSwitches d
    → AreSwitches (flush_named section name d)
flush_named-AreSwitches none name d s h = h
flush_named-AreSwitches (some section) none d s h = h
flush_named-AreSwitches (some section) (some name) d s h = go (button_header section) refl
  where
    go : (o : Option (ℕ × ℤ)) → button_header section ≡ o → AreSwitches (add_button o name d)
    go none e = h
    go (some (letter, number)) e =
        add_switch-AreSwitches name letter number d (button_header-letter section letter number e)
          (s name refl) h

record IsNamed (r : Named) : Type 0 where
  name : IsName r.name
  switches : AreSwitches r.switches

or_none-IsName : (t : Text) → IsName (or_none t)
or_none-IsName [] s e = cc
or_none-IsName (c ∷ t) [] e = cc
or_none-IsName (c ∷ t) (d ∷ s) e = refl

in_section-IsNamed :
    (section : Option Text) (stripped : Text) (r : Named)
    → IsNamed r
    → IsNamed (in_section section stripped r)
unfolding flush
in_section-IsNamed none stripped r h =
    elim (Bool-cases (section_is_button r.section && starts_with stripped (codes "NAME="))) [
      | inl named ↦ rw named (record { name = or_none-IsName _; switches = h.switches })
      | inr other ↦ rw other h
    ]
in_section-IsNamed (some section) stripped r h = record {
  name = λ t e. cc;
  switches = flush_named-AreSwitches r.section r.name r.switches h.name h.switches;
}

-- What the body of the loop keeps, the loop keeps.
each_line-keeps :
    {S : Type 0} (body : Text → S → S) (Keeps : S → Type 0)
    → ((line : Text) (s : S) → Keeps s → Keeps (body line s))
    → (lines : List Text) (s : S) → Keeps s
    → Keeps (each_line body lines s)
unfolding each_line
each_line-keeps body Keeps step [] s h = h
each_line-keeps body Keeps step (line ∷ rest) s h =
    each_line-keeps body Keeps step rest _ (step (rstrip_cr line) s h)

switch_line-IsNamed : (line : Text) (r : Named) → IsNamed r → IsNamed (switch_line line r)
unfolding switch_line
switch_line-IsNamed line r h = in_section-IsNamed (section_of line) (strip line) r h

named_switches-AreSwitches : (text : Text) → AreSwitches (named_switches text)
unfolding named_switches flush get
named_switches-AreSwitches text =
    let h =
      each_line-keeps switch_line IsNamed switch_line-IsNamed (splitlines text)
        (record { section = none; name = none; switches = [] })
        (record { name = λ t e. cc; switches = λ k t e. cc }) in
    flush_named-AreSwitches _ _ _ h.name h.switches

-- A slot has a dimmer setting exactly when it has a name, and the current one has both.
record IsSlots (s : Slots) : Type 0 where
  same : (k : ℤ) → has s.dimmable k ≡ has s.loads k
  current : (n : ℤ) → s.current_load ≡ some n → has s.loads n ≡ true

has-setdefault :
    {V : Type 0} (d : Dict ℤ V) (k : ℤ) (v : V) (j : ℤ)
    → has (setdefault d k v) j ≡ (int_beq k j || has d j)
unfolding setdefault
has-setdefault d k v j = ground (arith, has-put d k j v, int_beq_iff k j)

open_section-IsSlots :
    (header : Option ℤ) (section : Text) (s : Slots)
    → IsSlots s
    → IsSlots (open_section header section s)
open_section-IsSlots (some n) section s h = record {
  same = λ k.
      ground (arith, has-setdefault s.dimmable n true k, has-setdefault s.loads n [] k, h.same k);
  current = λ m e. ground (arith, has-setdefault s.loads n [] m, int_beq_iff n m);
}
open_section-IsSlots none section s h = go (scene_header section)
  where
    go : (o : Option (ℤ × Text)) → IsSlots (open_scene o s)
    go none = record { same = h.same; current = λ m e. cc }
    go (some scene) = record { same = h.same; current = λ m e. cc }

field_line-IsSlots :
    (current : Option ℤ) (stripped : Text) (s : Slots)
    → s.current_load ≡ current
    → IsSlots s
    → IsSlots (field_line current stripped s)
field_line-IsSlots none stripped s e h = h
field_line-IsSlots (some n) stripped s e h = elim (Bool-cases (has_char b'=' stripped)) [
  | inl field ↦ rw field (assign-IsSlots (partition b'=' stripped))
  | inr other ↦ rw other h
]
  where
    assign-IsSlots : (field : Text × Text) → IsSlots (assign n field s)
    assign-IsSlots (key, value) = elim (Bool-cases (text_eq (strip key) (codes "NAME"))) [
      | inl name ↦ rw name (record {
        same = λ k.
            ground
              (arith, has-put s.loads n k (strip value), h.same k, h.current n e, int_beq_iff n k);
        current = λ m c. ground (arith, has-put s.loads n m (strip value), h.current m c);
      })
      | inr no' ↦ rw no' (elim (Bool-cases (text_eq (strip key) (codes "DIMMER"))) [
        | inl dimmer ↦ rw dimmer (record {
          same = λ k. ground (
            arith,
            has-put s.dimmable n k (starts_with (map upper (strip value)) (codes "Y")),
            h.same k,
            h.current n e,
            int_beq_iff n k,
          );
          current = h.current;
        })
        | inr other ↦ rw other h
      ])
    ]

elg_line-IsSlots : (line : Text) (s : Slots) → IsSlots s → IsSlots (elg_line line s)
unfolding elg_line
elg_line-IsSlots line s h = elim (Bool-cases (is_empty (strip line))) [
  | inl blank ↦ rw blank h
  | inr other ↦ rw other (go (section_of line))
]
  where
    go : (section : Option Text) → IsSlots (slot_line section (strip line) s)
    go none = field_line-IsSlots s.current_load (strip line) s refl h
    go (some section) = open_section-IsSlots (load_header section) section s h

read_slots-IsSlots : (text : Text) → IsSlots (read_slots text)
unfolding read_slots has
read_slots-IsSlots text =
    each_line-keeps elg_line IsSlots elg_line-IsSlots (splitlines text) _
      (record { same = λ k. refl; current = λ n e. cc })

-- From every text come switches with indices 1 to 384 alone, each with a name that is not empty, and the
-- loads with a dimmer setting are exactly the loads.
pub parse_elg-ranges :
    (text : Text)
    → AreSwitches (parse_elg text).switches
      × ((k : ℤ) → has (parse_elg text).dimmable k ≡ has (parse_elg text).loads k)
unfolding parse_elg
parse_elg-ranges text = (named_switches-AreSwitches text, (read_slots-IsSlots text).same)
