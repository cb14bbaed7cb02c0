-- ===== src/Parsers/Elg/RoundTrip.antt =====
-- custom_components/centralite/parsers/elg.py: printed load sections, read back by parse_elg.
use centralite_ha.Base.{
  ℕ, ◌+◌, ◌/◌, ◌%◌, ◌<◌, ℤ, pos, Bool, true, false, some, List, [], ◌∷◌, ◌++◌, ◌≡◌, refl, ap, ◌∙◌,
  arith, if◌then◌else◌, Bool-cases, inl, inr, All,
}
use centralite_ha.Text.{Text, codes, is_break, rstrip_cr}
use centralite_ha.Text.Number.{pad}
use centralite_ha.Text.Number.Laws.{pad_three, int-split_three}
use centralite_ha.Text.Match.{is_digit, value_or_zero}
use centralite_ha.Dict.{Dict, put, has, int_eq, int_beq_iff}
use centralite_ha.Parsers.Elg.Sections.{each_line}
use centralite_ha.Parsers.Elg.Slots.{Slots, setdefault, open_load, elg_line, read_slots}
use centralite_ha.Parsers.Elg.Lines.{
  is_unbroken, all_unbroken, crlf_lines, splitlines-crlf_lines, rstrip_cr_unbroken, IsStripped,
  elg_line-load_line, elg_line-name, elg_line-dimmer,
}
use centralite_ha.Parsers.Elg.{parse_elg}

-- A load as the Elegance software writes it.
pub record Section : Type 0 where
  pub number : ℕ
  pub name : Text
  pub dimmer : Bool

abbrev pub IsSection : Section → Type 0
IsSection s = (s.number < 1000) × IsStripped s.name × (is_unbroken s.name ≡ true)

abbrev pub header_line : Section → Text
header_line s = codes "[LOAD " ++ (pad 3 s.number ++ codes "]")

abbrev pub name_line : Section → Text
name_line s = codes "NAME=" ++ s.name

abbrev pub dimmer_line : Section → Text
dimmer_line s = codes "DIMMER=" ++ (if s.dimmer then codes "Y" else codes "N")

unfoldable section_lines : List Section → List Text
unfolding pad
section_lines [] = []
section_lines (s ∷ ss) = header_line s ∷ name_line s ∷ dimmer_line s ∷ section_lines ss

-- [LOAD 001], NAME=..., DIMMER=..., each line ended by CRLF.
unfoldable pub print_loads : List Section → Text
unfolding section_lines crlf_lines
print_loads ss = crlf_lines (section_lines ss)

-- What a dict of these sections holds, a later section of the same number in place of an earlier one.
abbrev pub names_of : List Section → Dict ℤ Text → Dict ℤ Text
names_of [] d = d
names_of (s ∷ ss) d = names_of ss (put d (pos s.number) s.name)

abbrev pub dimmers_of : List Section → Dict ℤ Bool → Dict ℤ Bool
dimmers_of [] d = d
dimmers_of (s ∷ ss) d = dimmers_of ss (put d (pos s.number) s.dimmer)

put-put : {V : Type 0} (d : Dict ℤ V) (k : ℤ) (v w : V) → put (put d k v) k w ≡ put d k w
unfolding put
put-put [] k v w = ground (arith, int_beq_iff k k)
put-put ((j, u) ∷ d) k v w = ground (arith, int_beq_iff k k, int_beq_iff j k, put-put d k v w)

put-setdefault :
    {V : Type 0} (d : Dict ℤ V) (k : ℤ) (v w : V) → put (setdefault d k v) k w ≡ put d k w
unfolding setdefault
put-setdefault d k v w = elim (Bool-cases (has d k)) [
  | inl old ↦ rw old refl
  | inr new ↦ rw new (put-put d k v w)
]

-- The slots behind a section.
abbrev pub entered : Section → Slots → Slots
entered s t = record t {
  loads = put t.loads (pos s.number) s.name;
  dimmable = put t.dimmable (pos s.number) s.dimmer;
  current_load = some (pos s.number);
}

pub digit_unbroken : (k : ℕ) → k < 10 → (is_digit (b'0' + k) ≡ true) × (is_break (b'0' + k) ≡ false)
digit_unbroken k h = ground arith

elg_line-header :
    (s : Section) (t : Slots)
    → s.number < 1000
    → elg_line (header_line s) t ≡ open_load (pos s.number) t
elg_line-header s t h = rw (pad_three s.number h) (
    elg_line-load_line _ _ _ t (digit_unbroken (s.number / 100) (omega arith)).0
      (digit_unbroken (s.number / 10 % 10) (omega arith)).0
      (digit_unbroken (s.number % 10) (omega arith)).0
    ∙ ap (λ o. open_load (value_or_zero o) t) (int-split_three s.number h))

pub header_unbroken : (s : Section) → s.number < 1000 → is_unbroken (header_line s) ≡ true
header_unbroken s h = rw (pad_three s.number h) (
    rw
      (
        (digit_unbroken (s.number / 100) (omega arith)).1,
        (digit_unbroken (s.number / 10 % 10) (omega arith)).1,
        (digit_unbroken (s.number % 10) (omega arith)).1,
      )
      refl)

pub name_unbroken : (s : Section) → is_unbroken s.name ≡ true → is_unbroken (name_line s) ≡ true
name_unbroken s u = u

pub dimmer_unbroken : (s : Section) → is_unbroken (dimmer_line s) ≡ true
dimmer_unbroken s = elim (Bool-cases s.dimmer) [ inl on ↦ rw on refl | inr off ↦ rw off refl ]

section_lines-all_unbroken :
    (ss : List Section) → All IsSection ss → all_unbroken (section_lines ss) ≡ true
unfolding section_lines
section_lines-all_unbroken [] h = refl
section_lines-all_unbroken (s ∷ ss) ((n, e, u), h) =
    rw (header_unbroken s n, name_unbroken s u, dimmer_unbroken s, section_lines-all_unbroken ss h)
      refl

-- The three lines of a section, one after another.
pub section-entered :
    (s : Section) (t : Slots)
    → IsSection s
    → elg_line
        (rstrip_cr (dimmer_line s))
        (elg_line (rstrip_cr (name_line s)) (elg_line (rstrip_cr (header_line s)) t))
      ≡ entered s t
section-entered s t (n, e, u) =
    let k : ℤ = pos s.number in
    let t2 : Slots = record (open_load k t) { loads = put (setdefault t.loads k []) k s.name } in
    rw
      (
        rstrip_cr_unbroken (dimmer_line s) (dimmer_unbroken s),
        rstrip_cr_unbroken (name_line s) (name_unbroken s u),
        rstrip_cr_unbroken (header_line s) (header_unbroken s n),
        elg_line-header s t n,
        elg_line-name s.name k (open_load k t) e refl,
        elg_line-dimmer s.dimmer k t2 refl,
        put-setdefault t.loads k [] s.name,
        put-setdefault t.dimmable k true s.dimmer,
      )
      refl

each_line-sections :
    (ss : List Section) (t : Slots)
    → All IsSection ss
    → ((each_line elg_line (section_lines ss) t).loads ≡ names_of ss t.loads)
      × ((each_line elg_line (section_lines ss) t).dimmable ≡ dimmers_of ss t.dimmable)
      × ((each_line elg_line (section_lines ss) t).scenes ≡ t.scenes)
unfolding section_lines each_line
each_line-sections [] t h = (refl, refl, refl)
each_line-sections (s ∷ ss) t (is, h) =
    let entering : each_line elg_line (section_lines (s ∷ ss)) t
        ≡ each_line elg_line (section_lines ss) (entered s t) =
      ap (each_line elg_line (section_lines ss)) (section-entered s t is) in
    let (loads, dimmable, scenes) = each_line-sections ss (entered s t) h in
    (
      ap (λ (x : Slots). x.loads) entering ∙ loads,
      ap (λ (x : Slots). x.dimmable) entering ∙ dimmable,
      ap (λ (x : Slots). x.scenes) entering ∙ scenes,
    )

-- The loads and the dimmer settings of any printed load sections, their numbers below 1000 and their names
-- without a line break or a blank at either end, are read back as they are, a later section of the same
-- number in place of an earlier one, and no scene with them.
pub parse_elg-print_loads :
    (ss : List Section)
    → All IsSection ss
    → ((parse_elg (print_loads ss)).loads ≡ names_of ss [])
      × ((parse_elg (print_loads ss)).dimmable ≡ dimmers_of ss [])
      × ((parse_elg (print_loads ss)).scenes ≡ [])
unfolding parse_elg read_slots print_loads
parse_elg-print_loads ss h =
    rw (splitlines-crlf_lines (section_lines ss) (section_lines-all_unbroken ss h))
      (each_line-sections ss _ h)
