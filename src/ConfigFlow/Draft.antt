-- ===== src/ConfigFlow/Draft.antt =====
-- custom_components/centralite/config_flow.py: the limits of the systems, and what the import step
-- collects from a file.
use centralite_ha.Base.{
  ℕ, ℤ, Bool, true, false, ◌&&◌, Option, none, some, List, [], ◌∷◌, ◌++◌, map, Result, ok, err,
  within_one, if◌then◌else◌,
}
use centralite_ha.Text.{Text, is_empty, codes}
use centralite_ha.Text.Number.{pad_int, show_int}
use centralite_ha.Dict.{Dict, get, put, int_eq, pair_eq, text_key}
use centralite_ha.Sets.{add, update, intersection, int_order, pair_order}
use centralite_ha.Protocol.Bitmap.{max_loads, max_switches}
use centralite_ha.Protocol.Elegance.{max_scenes}
use centralite_ha.Protocol.JetStream.{
  jetstream_max_loads, jetstream_max_scenes, jetstream_max_switches,
}
use centralite_ha.Parsers.Elg.{ElgConfig}
use centralite_ha.Parsers.Jts.Tree.{JtsConfig}

-- The systems of SYSTEM_OPTIONS.
pub data System : Type 0 where
  elegance jetstream : System

pub data Kind : Type 0 where
  load scene switch : Kind

-- _SYSTEM_LIMITS
abbrev pub limit : System → Kind → ℕ
limit elegance load = max_loads
limit elegance scene = max_scenes
limit elegance switch = max_switches
limit jetstream load = jetstream_max_loads
limit jetstream scene = jetstream_max_scenes
limit jetstream switch = jetstream_max_switches

-- The three exceptions that the import step catches, by the message that it shows.
pub data ImportError : Type 0 where
  scan_failed ids_out_of_range import_failed : ImportError

pub data Attempt (A : Type 0) : Type 0 where
  done : A → Attempt A
  fails : ImportError → Attempt A

infixl 5 ◌>>=◌ ◌>>◌
abbrev pub ◌>>=◌ : {A B : Type 0} → Attempt A → (A → Attempt B) → Attempt B
done a >>= f = f a
fails e >>= f = fails e

abbrev pub ◌>>◌ : {B : Type 0} → Attempt (Unit {0}) → Attempt B → Attempt B
m >> n = m >>= λ _. n

-- What a parser raises is a ValueError.
abbrev pub parsed : {A : Type 0} → Result A → Attempt A
parsed (ok a) = done a
parsed (err e) = fails import_failed

unfoldable pub all_within : ℕ → List ℤ → Bool
all_within hi [] = true
all_within hi (x ∷ xs) = let rest = all_within hi xs in if within_one hi x then rest else false

-- _check_range
abbrev pub check_range : Kind → List ℤ → System → Attempt (Unit {0})
check_range kind ids system =
    if all_within (limit system kind) ids then done tt else fails ids_out_of_range

-- The sets and dicts that the import step fills.
pub record Draft : Type 0 where
  pub load_names : Dict Text Text
  pub scene_names : Dict Text Text
  pub switch_names : Dict Text Text
  pub load_ids : List ℤ
  pub scene_ids : List ℤ
  pub switch_ids : List ℤ
  pub button_pairs : List (ℤ × ℤ)
  pub nondimmable : List ℤ
  pub disabled : List ℤ

abbrev pub nothing : Draft
nothing = record {
  load_names = [];
  scene_names = [];
  switch_names = [];
  load_ids = [];
  scene_ids = [];
  switch_ids = [];
  button_pairs = [];
  nondimmable = [];
  disabled = [];
}

-- `if name: names[key] = name`
abbrev pub name_unless_blank : Dict Text Text → Text → Text → Dict Text Text
name_unless_blank names key name = if is_empty name then names else put names key name

-- `if not dimmable.get(idx, True): nondimmable.add(idx)`
abbrev pub mark : Dict ℤ Bool → ℤ → List ℤ → List ℤ
mark dimmable idx nondimmable = elim (get dimmable idx) [
  | none ↦ nondimmable
  | some d ↦ if d then nondimmable else add idx nondimmable
]

unfoldable pub jts_loads : Dict ℤ Bool → Dict ℤ Text → Draft → Draft
unfolding add get put
jts_loads dimmable [] i = i
jts_loads dimmable ((idx, name) ∷ rest) i = jts_loads dimmable rest (record i {
  load_ids = add idx i.load_ids;
  load_names = name_unless_blank i.load_names (show_int idx) name;
  nondimmable = mark dimmable idx i.nondimmable;
})

unfoldable pub add_scenes : Dict ℤ Text → Draft → Draft
unfolding add put
add_scenes [] i = i
add_scenes ((idx, name) ∷ rest) i = add_scenes rest (record i {
  scene_ids = add idx i.scene_ids;
  scene_names = name_unless_blank i.scene_names (show_int idx) name;
})

unfoldable pub add_buttons : Dict (ℤ × ℤ) Text → Draft → Draft
unfolding add put
add_buttons [] i = i
add_buttons ((button, label) ∷ rest) i = add_buttons rest (record i {
  button_pairs = add button i.button_pairs;
  switch_names =
      name_unless_blank i.switch_names (pad_int 3 button.0 ++ (codes "." ++ pad_int 2 button.1))
        label;
})

abbrev pub is_nil : {A : Type 0} → List A → Bool
is_nil [] = true
is_nil (a ∷ as') = false

-- The branch of a .jts text.
unfoldable pub import_jts : JtsConfig → Attempt Draft
unfolding jts_loads add_scenes add_buttons
import_jts jts =
    if is_nil jts.loads && is_nil jts.scenes
    then fails import_failed
    else done
        (add_buttons jts.buttons (add_scenes jts.scenes (jts_loads jts.dimmable jts.loads nothing)))

-- {idx for idx, name in loads.items() if name}
unfoldable pub named_loads : Dict ℤ Text → List ℤ
unfolding add
named_loads [] = []
named_loads ((idx, name) ∷ rest) =
    let others = named_loads rest in if is_empty name then others else add idx others

-- named | (referenced & set(loads))
unfoldable pub used_loads : ElgConfig → List ℤ
unfolding named_loads intersection update
used_loads cfg =
    update (named_loads cfg.loads)
      (intersection cfg.referenced_loads (map (λ entry. entry.0) cfg.loads))

abbrev pub name_or_empty : Option Text → Text
name_or_empty none = []
name_or_empty (some name) = name

unfoldable pub elg_loads : ElgConfig → List ℤ → Draft → Draft
unfolding add get put
elg_loads cfg [] i = i
elg_loads cfg (idx ∷ rest) i =
    let name = name_or_empty (get cfg.loads idx) in
    elg_loads cfg rest (record i {
      load_ids = add idx i.load_ids;
      load_names = name_unless_blank i.load_names (show_int idx) name;
      disabled = if is_empty name then add idx i.disabled else i.disabled;
      nondimmable = mark cfg.dimmable idx i.nondimmable;
    })

unfoldable pub add_switches : Dict ℤ Text → Draft → Draft
unfolding add put
add_switches [] i = i
add_switches ((idx, name) ∷ rest) i = add_switches rest (record i {
  switch_ids = add idx i.switch_ids;
  switch_names = put i.switch_names (show_int idx) name;
})

-- The branch of a .elg text.
unfoldable pub import_elg : ElgConfig → Attempt Draft
unfolding used_loads elg_loads add_scenes add_switches
import_elg cfg =
    if is_nil cfg.loads && is_nil cfg.scenes
    then fails import_failed
    else done
        (add_switches cfg.switches (add_scenes cfg.scenes (elg_loads cfg (used_loads cfg) nothing)))
