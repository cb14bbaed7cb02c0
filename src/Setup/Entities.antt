-- ===== src/Setup/Entities.antt =====
-- custom_components/centralite/light.py, switch.py, button.py and entity.py: the entities that the platforms
-- add for a config entry, as their constructors leave them.
use centralite_ha.Base.{ℤ, Bool, true, not, List, [], ◌∷◌, ◌++◌, map, if◌then◌else◌}
use centralite_ha.Text.{Text, codes, text_eq}
use centralite_ha.Text.Number.{pad_int, show_int}
use centralite_ha.Dict.{get, int_eq, text_key}
use centralite_ha.Sets.{member}
use centralite_ha.Light.{Light}
use centralite_ha.Switch.{SwitchEntity, elegance_button, jetstream_button, scene_switch}
use centralite_ha.Migrate.Registry.{domain}
use centralite_ha.Setup.Entry.{
  ConfigEntry, or_else, manufacturer, system_jetstream, system_label, device_name,
}
use centralite_ha.Light
use centralite_ha.Switch

-- DeviceInfo(...), its identifiers a set of one pair.
pub record DeviceInfo : Type 0 where
  pub identifiers : Text × Text
  pub name : Text
  pub manufacturer : Text
  pub model : Text

pub data ColorMode : Type 0 where
  brightness onoff : ColorMode

-- The attributes that the constructors set; the supported color modes are the set of the one color mode.
pub record Attributes : Type 0 where
  pub device_info : DeviceInfo
  pub unique_id : Text
  pub name : Text
  pub enabled_default : Bool

pub data Entity : Type 0 where
  light_entity : Light → ColorMode → Attributes → Entity
  switch_entity : SwitchEntity → Attributes → Entity
  sync_clock_button : Attributes → Entity

abbrev pub attributes_of : Entity → Attributes
attributes_of (light_entity light mode a) = a
attributes_of (switch_entity switch a) = a
attributes_of (sync_clock_button a) = a

abbrev pub unique_id_of : Entity → Text
unique_id_of e = (attributes_of e).unique_id

-- CentraliteBaseEntity
abbrev pub device_info_of : ConfigEntry → DeviceInfo
device_info_of entry = record {
  identifiers = (domain, entry.entry_id);
  name = device_name entry;
  manufacturer = manufacturer;
  model = system_label entry;
}

abbrev pub base_entity : ConfigEntry → Text → Text → Attributes
base_entity entry unique_id name = record {
  device_info = device_info_of entry;
  unique_id = unique_id;
  name = name;
  enabled_default = true;
}

-- CentraliteLight
unfoldable pub create_light : ConfigEntry → ℤ → Bool → Bool → Entity
unfolding Light.unique_id get
create_light entry idx dimmable enabled_default =
    let light : Light = record { idx = idx; dimmable = dimmable } in
    light_entity light (if dimmable then brightness else onoff)
      (record (base_entity entry (Light.unique_id entry.entry_id light)
        (or_else (get entry.config.load_names (show_int idx)) (codes "Load " ++ pad_int 3 idx))) {
          enabled_default = enabled_default;
        })

-- The name of a switch, from the options or the default.
abbrev pub switch_name : ConfigEntry → SwitchEntity → Text
switch_name entry (elegance_button idx) =
    or_else (get entry.config.switch_names (show_int idx)) (codes "Switch " ++ pad_int 3 idx)
switch_name entry (jetstream_button device button) =
    or_else (get entry.config.switch_names (pad_int 3 device ++ (codes "." ++ pad_int 2 button)))
      (codes "Switch " ++ (pad_int 3 device ++ (codes " Button " ++ show_int button)))
switch_name entry (scene_switch idx) =
    or_else (get entry.config.scene_names (show_int idx)) (codes "Scene " ++ pad_int 3 idx)

-- CentraliteEleganceButtonSwitch, CentraliteJetStreamButtonSwitch and CentraliteSceneSwitch
unfoldable pub create_switch : ConfigEntry → SwitchEntity → Entity
unfolding Switch.unique_id get
create_switch entry switch =
    switch_entity switch
      (base_entity entry (Switch.unique_id entry.entry_id switch) (switch_name entry switch))

-- CentraliteSyncClockButton
abbrev pub create_sync_clock : ConfigEntry → Entity
create_sync_clock entry =
    sync_clock_button
      (base_entity entry (entry.entry_id ++ codes "_sync_clock") (codes "Sync Clock"))

-- async_setup_entry of the light platform: what it adds.
unfoldable pub setup_light : ConfigEntry → List Entity
unfolding create_light member
setup_light entry =
    map
      (λ idx.
        create_light entry idx (not (member idx entry.config.nondimmable_loads))
          (not (member idx entry.config.disabled_loads)))
      entry.config.load_ids

-- The buttons of a JetStream or of an Elegance system.
abbrev pub button_switches : ConfigEntry → List SwitchEntity
button_switches entry =
    if text_eq entry.system_type system_jetstream
    then map (λ pair. jetstream_button pair.0 pair.1) entry.config.button_ids
    else map elegance_button entry.config.switch_ids

-- async_setup_entry of the switch platform.
unfoldable pub setup_switch : ConfigEntry → List Entity
unfolding create_switch
setup_switch entry =
    map (create_switch entry) (button_switches entry ++ map scene_switch entry.config.scene_ids)

-- async_setup_entry of the button platform.
unfoldable pub setup_button : Bool → ConfigEntry → List Entity
setup_button supports_clock entry = if supports_clock then create_sync_clock entry ∷ [] else []

pub data Platform : Type 0 where
  button light switch : Platform

-- PLATFORMS
abbrev pub platforms : List Platform
platforms = button ∷ light ∷ switch ∷ []

-- What a platform passes to `async_add_entities`.
unfoldable pub setup_platform : Bool → ConfigEntry → Platform → List Entity
unfolding setup_light setup_switch setup_button
setup_platform supports_clock entry button = setup_button supports_clock entry
setup_platform supports_clock entry light = setup_light entry
setup_platform supports_clock entry switch = setup_switch entry

-- async_forward_entry_setups runs the platforms' async_setup_entry.
unfoldable pub setup_platforms : Bool → ConfigEntry → List Platform → List Entity
unfolding setup_platform
setup_platforms supports_clock entry [] = []
setup_platforms supports_clock entry (p ∷ ps) =
    setup_platform supports_clock entry p ++ setup_platforms supports_clock entry ps

unfoldable pub entities_of : Bool → ConfigEntry → List Entity
unfolding setup_platforms
entities_of supports_clock entry = setup_platforms supports_clock entry platforms
