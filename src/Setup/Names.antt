-- ===== src/Setup/Names.antt =====
-- custom_components/centralite/config_flow.py and light.py: the names of the lights of an imported .elg file.
use centralite_ha.Base.{ℤ, Bool, not, Option, List, [], ◌∷◌, ◌++◌, map, ◌≡◌, refl}
use centralite_ha.Text.{Text, codes, strip}
use centralite_ha.Text.Number.{pad_int, show_int}
use centralite_ha.Dict.{Dict, get, int_eq, text_key}
use centralite_ha.Sets.{member}
use centralite_ha.Parsers.Jts.Tree.{Element}
use centralite_ha.Parsers.Elg.{ElgConfig, parse_elg}
use centralite_ha.ConfigFlow.Draft.{elegance, Attempt, done}
use centralite_ha.ConfigFlow.Steps.{UserInput, step_import}
use centralite_ha.ConfigFlow.Names.{name_in, step_import-name_in}
use centralite_ha.Setup.Entry.{ConfigEntry, or_else}
use centralite_ha.Setup.Entities.{Entity, attributes_of, create_light, setup_light}

abbrev pub name_of : Entity → Text
name_of e = (attributes_of e).name

-- The name in the file, or the default.
abbrev pub light_name : ElgConfig → ℤ → Text
light_name cfg idx = or_else (name_in cfg idx) (codes "Load " ++ pad_int 3 idx)

-- The names of the loads of the entry are those of the file.
abbrev pub NamedAfter : ElgConfig → ConfigEntry → Type 0
NamedAfter cfg entry = (y : ℤ) → get entry.config.load_names (show_int y) ≡ name_in cfg y

map_name :
    (cfg : ElgConfig) (entry : ConfigEntry) (ids : List ℤ) (dimmable enabled : ℤ → Bool)
    → NamedAfter cfg entry
    → map name_of (map (λ idx. create_light entry idx (dimmable idx) (enabled idx)) ids)
      ≡ map (light_name cfg) ids
unfolding create_light
map_name cfg entry [] dimmable enabled h = refl
map_name cfg entry (idx ∷ ids) dimmable enabled h =
    rw (h idx, map_name cfg entry ids dimmable enabled h) refl

-- If the import step makes the entry of an Elegance system, whatever its file holds and whatever ids are typed
-- besides, then the lights that the light platform adds for it are called, one after the other, by the
-- names that the parser reads in the file, and those without one "Load" and their three-digit number.
pub step_import-light_name :
    (fromstring : Text → Option Element) (input : UserInput) (scan : Attempt (Dict ℤ Text))
    (entry : ConfigEntry)
    → step_import fromstring elegance input scan ≡ done entry.config
    → map name_of (setup_light entry)
      ≡ map (light_name (parse_elg (strip input.elg_text))) entry.config.load_ids
unfolding setup_light
step_import-light_name fromstring input scan entry made =
    map_name (parse_elg (strip input.elg_text)) entry entry.config.load_ids
      (λ idx. not (member idx entry.config.nondimmable_loads))
      (λ idx. not (member idx entry.config.disabled_loads))
      (λ y. step_import-name_in fromstring input scan entry.config y made)
