-- ===== src/Parsers/Jts/Print.antt =====
-- custom_components/centralite/parsers/jts.py: the tree of a .jts file as the JetStream software writes
-- it, and what it says.
use centralite_ha.Base.{
  ℕ, ◌+◌, ◌<◌, ◌≡◌, pos, ℤ, Bool, true, false, not, ◌&&◌, ◌||◌, none, some, List, [], ◌∷◌, ◌==◌,
  leb, All, if◌then◌else◌,
}
use centralite_ha.Text.{Text, codes, strip}
use centralite_ha.Text.Number.{show}
use centralite_ha.Dict.{Dict, put, int_eq, pair_eq}
use centralite_ha.Parsers.Jts.Tree.{Element, Elements, element, no_elements, child, JtsConfig}
use centralite_ha.Parsers.Jts.Reader.{label}

-- A button of a device: its number from 0, the number of its inner device, and the actions of a tap, of a press
-- and hold, and of a double tap, 0 for none.
pub record Button : Type 0 where
  pub number : ℕ
  pub inner : ℕ
  pub tap : ℕ
  pub hold : ℕ
  pub double : ℕ

pub record Device : Type 0 where
  pub number : ℕ
  pub name : Text
  pub active : Bool
  pub third_party : Bool
  pub dimmer : Bool
  pub buttons : List Button

pub record Scene : Type 0 where
  pub number : ℕ
  pub name : Text

abbrev pub IsButton : Button → Type 0
IsButton b = (b.number < 1000) × (b.tap < 1000) × (b.hold < 1000) × (b.double < 1000)

abbrev pub IsDevice : Device → Type 0
IsDevice d = (d.number < 1000) × (strip d.name ≡ d.name) × All IsButton d.buttons

abbrev pub IsScene : Scene → Type 0
IsScene s = (s.number < 1000) × (strip s.name ≡ s.name)

abbrev pub leaf : Text → Text → Element
leaf tag text = element tag (some text) no_elements

abbrev pub node : Text → Elements → Element
node tag children = element tag none children

abbrev pub flag : Bool → Text
flag true = codes "true"
flag false = codes "false"

abbrev pub action_tree : Text → ℕ → Element
action_tree name action = node name (child (leaf (codes "BtnAction") (show action)) no_elements)

abbrev pub button_tree : Button → Element
button_tree b = node (codes "Button") (
    child (leaf (codes "ID") (show b.number)) (
      child (leaf (codes "DeviceID") (show b.inner)) (
        child (action_tree (codes "tap") b.tap) (
          child (action_tree (codes "pressandhold") b.hold)
            (child (action_tree (codes "doubletap") b.double) no_elements)))))

unfoldable pub button_trees : List Button → Elements
unfolding show
button_trees [] = no_elements
button_trees (b ∷ bs) = child (button_tree b) (button_trees bs)

abbrev pub device_tree : Device → Element
device_tree d = node (codes "Device") (
    child (leaf (codes "DeviceID") (show d.number)) (
      child (leaf (codes "Name") d.name) (
        child (leaf (codes "Active") (flag d.active)) (
          child (leaf (codes "SendThirdParty") (flag d.third_party)) (
            child (leaf (codes "Dimmer") (flag d.dimmer))
              (child (node (codes "buttonList") (button_trees d.buttons)) no_elements))))))

unfoldable pub device_trees : List Device → Elements
unfolding button_trees show
device_trees [] = no_elements
device_trees (d ∷ ds) = child (device_tree d) (device_trees ds)

abbrev pub scene_tree : Scene → Element
scene_tree s =
    node (codes "Scene")
      (child (leaf (codes "ID") (show s.number)) (child (leaf (codes "Name") s.name) no_elements))

unfoldable pub scene_trees : List Scene → Elements
unfolding show
scene_trees [] = no_elements
scene_trees (s ∷ ss) = child (scene_tree s) (scene_trees ss)

abbrev pub tree_of : List Device → List Scene → Element
tree_of ds ss = node (codes "GulfStreamCL") (
    child (node (codes "DeviceList") (device_trees ds))
      (child (node (codes "SceneList") (scene_trees ss)) no_elements))

abbrev pub has_action : Button → Bool
has_action b = not (b.tap == 0) || (not (b.hold == 0) || not (b.double == 0))

-- The buttons that the protocol can address and that do something, numbered from 1.
abbrev pub buttons_of : ℕ → Text → List Button → Dict (ℤ × ℤ) Text → Dict (ℤ × ℤ) Text
buttons_of device name [] out = out
buttons_of device name (b ∷ bs) out = buttons_of device name bs (
    if leb b.number 2 && has_action b
    then put out (pos device, pos (b.number + 1)) (label name (pos (b.number + 1)))
    else out)

-- The devices that are active and sent to third parties.
abbrev pub devices_of : List Device → JtsConfig → JtsConfig
devices_of [] c = c
devices_of (d ∷ ds) c = devices_of ds (
    if leb 1 d.number && (d.third_party && d.active)
    then record c {
      loads = put c.loads (pos d.number) d.name;
      dimmable = put c.dimmable (pos d.number) d.dimmer;
      buttons = buttons_of d.number d.name d.buttons c.buttons;
    }
    else c)

abbrev pub scenes_of : List Scene → JtsConfig → JtsConfig
scenes_of [] c = c
scenes_of (s ∷ ss) c =
    scenes_of ss
      (if leb 1 s.number then record c { scenes = put c.scenes (pos s.number) s.name } else c)
