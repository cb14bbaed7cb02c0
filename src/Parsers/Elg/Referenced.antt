-- ===== src/Parsers/Elg/Referenced.antt =====
-- custom_components/centralite/parsers/elg.py: _referenced_load_ids.
use centralite_ha.Base.{ℤ, Bool, false, ◌&&◌, Option, none, some, List, [], if◌then◌else◌}
use centralite_ha.Text.{Text, codes, starts_with, text_eq, strip, splitlines}
use centralite_ha.Text.Match.{group_value, has_char, partition, is_number}
use centralite_ha.Dict.{Dict, get, put, int_eq, text_key}
use centralite_ha.Sets.{add}
use centralite_ha.Parsers.Elg.Sections.{
  section_of, scene_load, is_button, section_is_button, each_line,
}

-- The variables of _referenced_load_ids.
pub record References : Type 0 where
  pub section : Option Text
  pub fields : Dict Text Text
  pub referenced : List ℤ

abbrev pub field_or_empty : Option Text → Text
field_or_empty none = []
field_or_empty (some t) = t

abbrev pub field_is : Dict Text Text → Text → Text → Bool
field_is fields key value = elim (get fields key) [ none ↦ false | some v ↦ text_eq v value ]

abbrev pub assigned : Dict Text Text → Bool
assigned fields =
    field_is fields (codes "LOAD/SCENE") (codes "L")
    && (field_is fields (codes "ACTIVE") (codes "1")
        && is_number (field_or_empty (get fields (codes "#"))))

unfoldable pub flush_button : References → References
unfolding get
flush_button r =
    if section_is_button r.section && assigned r.fields
    then record r {
      referenced = add (group_value (field_or_empty (get r.fields (codes "#")))) r.referenced;
    }
    else r

abbrev pub body_line : Text → Text → References → References
body_line section line r =
    if starts_with section (codes "SCENE ")
    then elim (scene_load (strip line)) [
      | none ↦ r
      | some n ↦ record r { referenced = add n r.referenced }
    ]
    else if is_button section && has_char b'=' line
    then (let (key, value) = partition b'=' (strip line) in
        record r { fields = put r.fields (strip key) (strip value) })
    else r

unfoldable pub reference_line : Text → References → References
unfolding flush_button put
reference_line line r = elim (section_of line) [
  | some section ↦ record (flush_button r) { section = some section; fields = [] }
  | none ↦ elim r.section [ none ↦ r | some section ↦ body_line section line r ]
]

abbrev pub no_references : References
no_references = record { section = none; fields = []; referenced = [] }

unfoldable pub referenced_load_ids : Text → List ℤ
unfolding each_line reference_line
referenced_load_ids text =
    (flush_button (each_line reference_line (splitlines text) no_references)).referenced
