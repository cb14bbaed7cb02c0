-- ===== src/Parsers/Jts/Tree.antt =====
-- xml.etree.ElementTree, as custom_components/centralite/parsers/jts.py reads a tree, and the fields of a
-- .jts element.
use centralite_ha.Base.{
  ℤ, Bool, Option, none, some, List, [], ◌∷◌, Result, ok, err, value_error, bind, ◌==◌,
  if◌then◌else◌, is_positive, map,
}
use centralite_ha.Text.{Text, codes, text_eq, strip}
use centralite_ha.Text.Number.{int}
use centralite_ha.Text.Match.{is_number}
use centralite_ha.Dict.{Dict, int_eq, pair_eq}
use centralite_ha.Migrate.{lower}

-- xml.etree.ElementTree.Element: its tag, its text, and its children.
mutual
  pub data Element : Type 0 where
    element : Text → Option Text → Elements → Element

  pub data Elements : Type 0 where
    no_elements : Elements
    child : Element → Elements → Elements

abbrev pub tag_of : Element → Text
tag_of (element tag text children) = tag

abbrev pub children_of : Element → Elements
children_of (element tag text children) = children

-- e.text or ""
abbrev pub text_of : Element → Text
text_of (element tag none children) = []
text_of (element tag (some text) children) = text

unfoldable pub all_with : Text → Elements → List Element
all_with tag no_elements = []
all_with tag (child e rest) =
    let others = all_with tag rest in if text_eq (tag_of e) tag then e ∷ others else others

-- e.findall(tag)
abbrev pub findall : Text → Element → List Element
findall tag e = all_with tag (children_of e)

abbrev pub head_of : {A : Type 0} → List A → Option A
head_of [] = none
head_of (a ∷ as') = some a

-- e.find(tag)
abbrev pub find : Text → Element → Option Element
find tag e = head_of (findall tag e)

abbrev pub text_of_found : Option Element → Option Text
text_of_found none = none
text_of_found (some e) = some (text_of e)

-- e.findtext(tag): empty where the child has no text
abbrev pub findtext : Text → Element → Option Text
findtext tag e = text_of_found (find tag e)

-- (e.findtext(tag) or "").strip()
abbrev pub stripped : Option Text → Text
stripped none = []
stripped (some t) = strip t

pub record JtsConfig : Type 0 where
  pub loads : Dict ℤ Text
  pub scenes : Dict ℤ Text
  pub dimmable : Dict ℤ Bool
  pub buttons : Dict (ℤ × ℤ) Text

-- _is_true
abbrev pub is_true : Bool → Option Text → Bool
is_true default none = default
is_true default (some value) = text_eq (map lower (strip value)) (codes "true")

-- s.lstrip("-")
unfoldable pub lstrip_minus : Text → Text
lstrip_minus [] = []
lstrip_minus (c ∷ t) = let rest = lstrip_minus t in if c == b'-' then rest else c ∷ t

-- int(text)
abbrev pub read_int : Text → Result ℤ
read_int text = elim (int text) [ none ↦ err value_error | some z ↦ ok z ]

abbrev pub positive : ℤ → Option ℤ
positive num = if is_positive num then some num else none

-- _as_index. Of two minus signs in front, `isdigit` takes no notice and `int` raises a ValueError.
unfoldable pub as_index : Option Text → Result (Option ℤ)
unfolding lstrip_minus
as_index none = ok none
as_index (some value) =
    if is_number (lstrip_minus (strip value))
    then bind (read_int (strip value)) (λ num. ok (positive num))
    else ok none
