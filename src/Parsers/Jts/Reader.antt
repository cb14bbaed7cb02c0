-- ===== src/Parsers/Jts/Reader.antt =====
-- custom_components/centralite/parsers/jts.py: the buttons, the devices and the scenes of a tree.
use centralite_ha.Base.{
  ℕ, ◌+◌, ◌*◌, ℤ, pos, negsuc, Bool, true, false, not, ◌&&◌, Option, none, some, List, [], ◌∷◌,
  ◌++◌, Result, ok, err, value_error, bind, length, ltb, if◌then◌else◌,
}
use centralite_ha.Text.{Text, is_empty, codes}
use centralite_ha.Text.Number.{show_int}
use centralite_ha.Text.Match.{is_number}
use centralite_ha.Dict.{Dict, put, int_eq, pair_eq}
use centralite_ha.Coordinator.Loads.{is_zero}
use centralite_ha.Parsers.Jts.Tree.{
  Element, JtsConfig, all_with, as_index, find, findall, findtext, is_true, lstrip_minus, read_int,
  stripped,
}

abbrev pub action_names : List Text
action_names = codes "tap" ∷ codes "pressandhold" ∷ codes "doubletap" ∷ []

-- The test of one action that is there.
abbrev pub action_configured : Text → Result Bool
action_configured raw =
    if is_number (lstrip_minus raw)
    then bind (read_int raw) (λ z. ok (not (is_zero z)))
    else ok false

-- The loop of _button_configured.
unfoldable pub any_configured : List Text → Element → Result Bool
unfolding lstrip_minus
any_configured [] button = ok false
any_configured (name ∷ names) button = elim (find name button) [
  | none ↦ any_configured names button
  | some action ↦
      bind (action_configured (stripped (findtext (codes "BtnAction") action)))
        (λ configured. if configured then ok true else any_configured names button)
]

unfoldable pub button_configured : Element → Result Bool
unfolding any_configured
button_configured = any_configured action_names

abbrev pub Buttons : Type 0
Buttons = Dict (ℤ × ℤ) Text

-- f"{device_name} Button {protocol_button}" if device_name else ""
abbrev pub label : Text → ℤ → Text
label device_name protocol_button =
    if is_empty device_name
    then []
    else device_name ++ (codes " Button " ++ show_int protocol_button)

-- What is done with one <Button> of number `bid`.
abbrev pub add_button : ℤ → Text → Element → ℤ → Buttons → Result Buttons
add_button device_idx device_name button (negsuc n) out = ok out
add_button device_idx device_name button (pos bid) out =
    if ltb 2 bid
    then ok out
    else bind (button_configured button) (λ configured.
      if configured
      then ok (put out (device_idx, pos (bid + 1)) (label device_name (pos (bid + 1))))
      else ok out)

abbrev pub one_button : ℤ → Text → Element → Buttons → Result Buttons
one_button device_idx device_name button out =
    let raw_id = stripped (findtext (codes "ID") button) in
    if is_number raw_id
    then bind (read_int raw_id) (λ bid. add_button device_idx device_name button bid out)
    else ok out

unfoldable pub each_button : ℤ → Text → List Element → Buttons → Result Buttons
unfolding button_configured put
each_button device_idx device_name [] out = ok out
each_button device_idx device_name (button ∷ rest) out =
    bind (one_button device_idx device_name button out) (each_button device_idx device_name rest)

-- _collect_buttons
unfoldable pub collect_buttons : Element → ℤ → Text → Buttons → Result Buttons
unfolding each_button all_with
collect_buttons dev device_idx device_name out = elim (find (codes "buttonList") dev) [
  | none ↦ ok out
  | some button_list ↦ each_button device_idx device_name (findall (codes "Button") button_list) out
]

-- A device that can be watched and controlled over the serial line.
abbrev pub usable : Element → Bool
usable dev =
    is_true false (findtext (codes "SendThirdParty") dev)
    && is_true true (findtext (codes "Active") dev)

abbrev pub device_name : Element → Text
device_name dev = stripped (findtext (codes "Name") dev)

abbrev pub add_device : Element → ℤ → JtsConfig → Result JtsConfig
add_device dev idx c = bind (collect_buttons dev idx (device_name dev) c.buttons) (λ buttons.
    ok (record c {
      loads = put c.loads idx (device_name dev);
      dimmable = put c.dimmable idx (is_true true (findtext (codes "Dimmer") dev));
      buttons = buttons;
    }))

abbrev pub with_index : {S : Type 0} → Option ℤ → (ℤ → S → Result S) → S → Result S
with_index none f s = ok s
with_index (some idx) f s = f idx s

-- One round of the loop over the devices.
unfoldable pub one_device : Element → JtsConfig → Result JtsConfig
unfolding all_with as_index collect_buttons put
one_device dev c =
    bind (as_index (findtext (codes "DeviceID") dev))
      (λ index. with_index index (λ idx c'. if usable dev then add_device dev idx c' else ok c') c)

unfoldable pub one_scene : Element → JtsConfig → Result JtsConfig
unfolding all_with as_index put
one_scene scene c = bind (as_index (findtext (codes "ID") scene)) (λ index.
    with_index index
      (λ idx c'.
        ok (record c' { scenes = put c'.scenes idx (stripped (findtext (codes "Name") scene)) }))
      c)

unfoldable pub each_element : {S : Type 0} → (Element → S → Result S) → List Element → S → Result S
each_element body [] s = ok s
each_element body (e ∷ rest) s = bind (body e s) (each_element body rest)

abbrev pub in_list : Option Element → Text → List Element
in_list none tag = []
in_list (some e) tag = findall tag e

abbrev pub no_config : JtsConfig
no_config = record { loads = []; scenes = []; dimmable = []; buttons = [] }

unfoldable pub read_tree : Element → Result JtsConfig
unfolding all_with one_device one_scene each_element
read_tree root =
    bind
      (each_element one_device (in_list (find (codes "DeviceList") root) (codes "Device"))
        no_config)
      (each_element one_scene (in_list (find (codes "SceneList") root) (codes "Scene")))

abbrev pub max_jts_bytes : ℕ
max_jts_bytes = 8 * 1024 * 1024

-- The parser returns a tree, or nothing where the text is not well formed.
unfoldable pub parse_jts : (Text → Option Element) → Text → Result JtsConfig
unfolding read_tree
parse_jts fromstring text =
    if ltb max_jts_bytes (length text)
    then err value_error
    else elim (fromstring text) [ none ↦ err value_error | some root ↦ read_tree root ]
