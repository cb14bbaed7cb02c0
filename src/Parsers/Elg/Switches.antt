-- ===== src/Parsers/Elg/Switches.antt =====
-- custom_components/centralite/parsers/elg.py: _named_switches.
use centralite_ha.Base.{
  ℕ, ◌+◌, ◌*◌, ℤ, pos, ◌&&◌, Option, none, some, [], if◌then◌else◌, within_one,
}
use centralite_ha.Text.{Text, or_none, codes, starts_with, strip, splitlines}
use centralite_ha.Text.Match.{partition}
use centralite_ha.Dict.{Dict, put, int_eq, text_key}
use centralite_ha.Parsers.Elg.Sections.{section_of, button_header, section_is_button, each_line}

-- The variables of _named_switches.
pub record Named : Type 0 where
  pub section : Option Text
  pub name : Option Text
  pub switches : Dict ℤ Text

-- (ord(letter) - ord("A")) * 24 + number
abbrev pub switch_idx : ℕ → ℤ → ℤ
switch_idx letter (pos n) = pos (letter * 24 + n)
switch_idx letter n = n

abbrev pub add_switch : Text → ℕ × ℤ → Dict ℤ Text → Dict ℤ Text
add_switch name (letter, number) switches =
    if within_one 24 number then put switches (switch_idx letter number) name else switches

abbrev pub add_button : Option (ℕ × ℤ) → Text → Dict ℤ Text → Dict ℤ Text
add_button none name switches = switches
add_button (some button) name switches = add_switch name button switches

abbrev pub flush_named : Option Text → Option Text → Dict ℤ Text → Dict ℤ Text
flush_named none name switches = switches
flush_named (some section) none switches = switches
flush_named (some section) (some name) switches = add_button (button_header section) name switches

unfoldable pub flush : Named → Named
flush r = record r { switches = flush_named r.section r.name r.switches }

abbrev pub name_line : Text → Named → Named
name_line stripped r =
    if section_is_button r.section && starts_with stripped (codes "NAME=")
    then record r { name = or_none (strip (partition b'=' stripped).1) }
    else r

abbrev pub in_section : Option Text → Text → Named → Named
in_section none stripped r = name_line stripped r
in_section (some section) stripped r = record (flush r) { section = some section; name = none }

unfoldable pub switch_line : Text → Named → Named
unfolding flush
switch_line line r = in_section (section_of line) (strip line) r

unfoldable pub named_switches : Text → Dict ℤ Text
unfolding each_line switch_line
named_switches text =
    (flush (
      each_line switch_line (splitlines text)
        (record { section = none; name = none; switches = [] }))).switches
