-- ===== src/Parsers/Jts/RoundTrip.antt =====
-- custom_components/centralite/parsers/jts.py: the tree of a printed file, read by parse_jts.
use centralite_ha.Base.{
  ◌≤◌, ◌≡◌, refl, ap, ◌∙◌, arith, pos, ℤ, Bool, true, false, ◌&&◌, Option, none, some, List, [],
  ◌∷◌, leb, ltb, All, if◌then◌else◌, Result, ok, bind, length,
}
use centralite_ha.Text.{Text, codes, strip}
use centralite_ha.Dict.{Dict, put, int_eq, pair_eq}
use centralite_ha.Parsers.Jts.Tree.{Element, JtsConfig, all_with, is_true}
use centralite_ha.Parsers.Jts.Reader.{
  collect_buttons, usable, add_device, with_index, one_device, one_scene, each_element, no_config,
  read_tree, max_jts_bytes, parse_jts,
}
use centralite_ha.Parsers.Jts.Print.{
  Device, Scene, IsDevice, IsScene, flag, device_tree, device_trees, scene_tree, scene_trees,
  tree_of, buttons_of, devices_of, scenes_of,
}
use centralite_ha.Parsers.Jts.PrintButtons.{as_index-show, is_true-flag, collect_buttons-tree}

usable-tree : (d : Device) → usable (device_tree d) ≡ (d.third_party && d.active)
unfolding all_with
usable-tree d = rw (is_true-flag false d.third_party, is_true-flag true d.active) refl

abbrev with_device : Device → JtsConfig → JtsConfig
with_device d c = record c {
  loads = put c.loads (pos d.number) d.name;
  dimmable = put c.dimmable (pos d.number) d.dimmer;
  buttons = buttons_of d.number d.name d.buttons c.buttons;
}

add_device-tree :
    (d : Device) (c : JtsConfig)
    → IsDevice d
    → add_device (device_tree d) (pos d.number) c ≡ ok (with_device d c)
unfolding all_with
add_device-tree d c (n, s, h) =
    let made : Text → Bool → Dict (ℤ × ℤ) Text → Result JtsConfig = λ name dimmer buttons.
      ok (record c {
        loads = put c.loads (pos d.number) name;
        dimmable = put c.dimmable (pos d.number) dimmer;
        buttons = buttons;
      }) in
    let read : Bool = is_true true (some (flag d.dimmer)) in
    ap
      (λ name.
        bind (collect_buttons (device_tree d) (pos d.number) name c.buttons) (made name read))
      s
    ∙ ap
        (λ dimmer.
          bind (collect_buttons (device_tree d) (pos d.number) d.name c.buttons)
            (made d.name dimmer))
        (is_true-flag true d.dimmer)
    ∙ ap (λ r. bind r (made d.name d.dimmer)) (collect_buttons-tree d c.buttons (n, s, h))

-- One device, and all of them.
one_device-tree :
    (d : Device) (c : JtsConfig)
    → IsDevice d
    → one_device (device_tree d) c ≡ ok (devices_of (d ∷ []) c)
unfolding one_device all_with
one_device-tree d c (n, s, h) =
    ap (λ r. bind r (λ index. with_index index add c)) (as_index-show d.number n)
    ∙ by_number (leb 1 d.number)
  where
    add : ℤ → JtsConfig → Result JtsConfig
    add idx c' = if usable (device_tree d) then add_device (device_tree d) idx c' else ok c'

    by_use :
        (used : Bool)
        → Path
            (Result JtsConfig)
            (if used then ok (with_device d c) else ok c)
            (ok (if used then with_device d c else c))
    by_use true = refl
    by_use false = refl

    by_number :
        (some_number : Bool)
        → with_index (if some_number then some (pos d.number) else none) add c
          ≡ ok (if some_number && (d.third_party && d.active) then with_device d c else c)
    by_number false = refl
    by_number true =
        rw (usable-tree d, add_device-tree d c (n, s, h)) (by_use (d.third_party && d.active))

each_device-trees :
    (ds : List Device) (c : JtsConfig)
    → All IsDevice ds
    → each_element one_device (all_with (codes "Device") (device_trees ds)) c ≡ ok (devices_of ds c)
unfolding all_with device_trees each_element
each_device-trees [] c h = refl
each_device-trees (d ∷ ds) c (is, h) =
    ap (λ r. bind r (each_element one_device (all_with (codes "Device") (device_trees ds))))
      (one_device-tree d c is)
    ∙ each_device-trees ds (devices_of (d ∷ []) c) h

one_scene-tree :
    (s : Scene) (c : JtsConfig) → IsScene s → one_scene (scene_tree s) c ≡ ok (scenes_of (s ∷ []) c)
unfolding one_scene all_with
one_scene-tree s c (n, e) =
    ap (λ r. bind r (λ index. with_index index add c)) (as_index-show s.number n)
    ∙ by_number (leb 1 s.number)
  where
    add : ℤ → JtsConfig → Result JtsConfig
    add idx c' = ok (record c' { scenes = put c'.scenes idx (strip s.name) })

    by_number :
        (some_number : Bool)
        → with_index (if some_number then some (pos s.number) else none) add c
          ≡ ok (if some_number then record c { scenes = put c.scenes (pos s.number) s.name } else c)
    by_number false = refl
    by_number true = ap (λ name. ok (record c { scenes = put c.scenes (pos s.number) name })) e

each_scene-trees :
    (ss : List Scene) (c : JtsConfig)
    → All IsScene ss
    → each_element one_scene (all_with (codes "Scene") (scene_trees ss)) c ≡ ok (scenes_of ss c)
unfolding all_with scene_trees each_element
each_scene-trees [] c h = refl
each_scene-trees (s ∷ ss) c (is, h) =
    ap (λ r. bind r (each_element one_scene (all_with (codes "Scene") (scene_trees ss))))
      (one_scene-tree s c is)
    ∙ each_scene-trees ss (scenes_of (s ∷ []) c) h

-- Where the XML parser makes of a text of at most 8 MiB the tree of a file as the JetStream software
-- writes it, with numbers below 1000 and names without a blank at either end, parse_jts returns what it
-- says: of the devices that are active and sent to third parties, with a number of at least 1, the names,
-- the dimmer settings and their buttons 0 to 2 that have an action, numbered from 1, and the scenes. Of
-- two names or settings of one device, button or scene number the later counts; the buttons of two
-- devices of one number are merged.
pub parse_jts-tree_of :
    (fromstring : Text → Option Element) (text : Text) (ds : List Device) (ss : List Scene)
    → fromstring text ≡ some (tree_of ds ss)
    → length text ≤ max_jts_bytes
    → All IsDevice ds
    → All IsScene ss
    → parse_jts fromstring text ≡ ok (scenes_of ss (devices_of ds no_config))
unfolding parse_jts read_tree all_with
parse_jts-tree_of fromstring text ds ss parsed small hd hs =
    let fits : ltb max_jts_bytes (length text) ≡ false = ground arith in
    rw (fits, parsed)
      (ap (λ r. bind r (each_element one_scene (all_with (codes "Scene") (scene_trees ss))))
          (each_device-trees ds no_config hd)
        ∙ each_scene-trees ss (devices_of ds no_config) hs)
