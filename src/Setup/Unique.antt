-- ===== src/Setup/Unique.antt =====
-- The unique ids of the entities of an entry.
use centralite_ha.Base.{
  ℕ, pos, Bool, true, false, not, List, [], ◌∷◌, ◌++◌, map, ◌≡◌, refl, sym, ap, ◌∙◌, drop, ◌==◌,
}
use centralite_ha.Text.{Text, codes}
use centralite_ha.Dict.{int_eq, pair_eq, text_key}
use centralite_ha.Sets.{member, int_order, pair_order}
use centralite_ha.Sets.Sorted.{is_distinct, is_ascending-is_distinct, pair_order-IsLinear}
use centralite_ha.Sets.Distinct.{append-is_distinct, map-is_distinct, map-map}
use centralite_ha.Switch.{SwitchEntity, elegance_button, jetstream_button, scene_switch}
use centralite_ha.ConfigFlow.Draft.{System, elegance, jetstream, limit, load, scene, switch}
use centralite_ha.ConfigFlow.Steps.{Entry}
use centralite_ha.ConfigFlow.Limits.{IsEntry}
use centralite_ha.Setup.Entry.{ConfigEntry, system_elegance, system_jetstream}
use centralite_ha.Setup.Entities.{
  unique_id_of, create_light, create_switch, button_switches, setup_light, setup_switch,
  setup_button, entities_of,
}
use centralite_ha.Setup.Suffixes.{
  load_suffix, switch_suffix, button_suffix, scene_suffix, clock_suffixes, load_suffixes,
  button_suffixes, scene_suffixes, tag, Tags, limit_small, map-Tags, append-Tags,
  numbered-is_distinct, button_suffix-injective,
}
use mathlib.Core.List.{map-append, append-nil}

module _ (system : System) (e : Entry) (h : IsEntry system e) where
  button_suffixes-is_distinct : is_distinct (button_suffixes system e) ≡ true
  button_suffixes-is_distinct = by_system system h
    where
      by_system : (s : System) → IsEntry s e → is_distinct (button_suffixes s e) ≡ true
      by_system elegance h =
          numbered-is_distinct 8 (codes "_switch_") (limit elegance switch) e.switch_ids (λ t. refl)
            (limit_small elegance switch) h.switches_within h.switches_ascending
      by_system jetstream h =
          map-is_distinct button_suffix e.button_ids
            (is_ascending-is_distinct pair_order-IsLinear e.button_ids h.buttons_ascending)
            (λ p q m n.
              button_suffix-injective (limit jetstream switch) p q (limit_small jetstream switch)
                (h.devices_within p.0 p.1 m) (h.devices_within q.0 q.1 n)
                (h.buttons_within p.0 p.1 m) (h.buttons_within q.0 q.1 n))

  button_suffixes-Tags :
      (c : ℕ) → (b'w' == c) ≡ false → (b'u' == c) ≡ false → Tags c false (button_suffixes system e)
  button_suffixes-Tags c w u = by_system system
    where
      by_system : (s : System) → Tags c false (button_suffixes s e)
      by_system elegance = map-Tags switch_suffix c false e.switch_ids (λ x. w)
      by_system jetstream = map-Tags button_suffix c false e.button_ids (λ x. u)

  -- The suffixes of the switch platform: those of the scenes have a tag of their own.
  switch_platform-is_distinct : is_distinct (button_suffixes system e ++ scene_suffixes e) ≡ true
  switch_platform-is_distinct =
      append-is_distinct (λ z. not (tag z == b'c')) (button_suffixes system e) (scene_suffixes e)
        button_suffixes-is_distinct
        (numbered-is_distinct 7 (codes "_scene_") (limit system scene) e.scene_ids (λ t. refl)
          (limit_small system scene) h.scenes_within h.scenes_ascending)
        (λ z m. ap not (button_suffixes-Tags b'c' refl refl z m))
        (λ z m. ap not (map-Tags scene_suffix b'c' true e.scene_ids (λ x. refl) z m))

  switch_platform-Tags :
      (c : ℕ)
      → (b'w' == c) ≡ false
      → (b'u' == c) ≡ false
      → (b'c' == c) ≡ false
      → Tags c false (button_suffixes system e ++ scene_suffixes e)
  switch_platform-Tags c w u s =
      append-Tags c false (button_suffixes system e) (scene_suffixes e) (button_suffixes-Tags c w u)
        (map-Tags scene_suffix c false e.scene_ids (λ x. s))

  light_and_switch-is_distinct :
      is_distinct (load_suffixes e ++ (button_suffixes system e ++ scene_suffixes e)) ≡ true
  light_and_switch-is_distinct =
      append-is_distinct (λ z. tag z == b'o') (load_suffixes e) _
        (numbered-is_distinct 6 (codes "_load_") (limit system load) e.load_ids (λ t. refl)
          (limit_small system load) h.loads_within h.loads_ascending)
        switch_platform-is_distinct (map-Tags load_suffix b'o' true e.load_ids (λ x. refl))
        (switch_platform-Tags b'o' refl refl refl)

abbrev suffixes : System → Entry → Bool → List Text
suffixes system e clock =
    clock_suffixes clock ++ (load_suffixes e ++ (button_suffixes system e ++ scene_suffixes e))

suffixes-is_distinct :
    (system : System) (e : Entry)
    → IsEntry system e
    → (clock : Bool) → is_distinct (suffixes system e clock) ≡ true
unfolding is_distinct member
suffixes-is_distinct system e h false = light_and_switch-is_distinct system e h
suffixes-is_distinct system e h true =
    append-is_distinct (λ z. tag z == b'y') (clock_suffixes true) _ refl
      (light_and_switch-is_distinct system e h)
      (map-Tags (λ x. codes "_sync_clock") b'y' true (pos 0 ∷ []) (λ x. refl))
      (append-Tags b'y' false (load_suffixes e) _
        (map-Tags load_suffix b'y' false e.load_ids (λ x. refl))
        (switch_platform-Tags system e h b'y' refl refl refl))

abbrev suffix_of : SwitchEntity → Text
suffix_of (elegance_button idx) = switch_suffix idx
suffix_of (jetstream_button device button) = button_suffix (device, button)
suffix_of (scene_switch idx) = scene_suffix idx

abbrev pub type_of : System → Text
type_of elegance = system_elegance
type_of jetstream = system_jetstream

-- The id of the entry in front of a suffix.
abbrev behind_id : ConfigEntry → Text → Text
behind_id entry t = entry.entry_id ++ t

module _ (entry : ConfigEntry) where
  lights-ids :
      map unique_id_of (setup_light entry) ≡ map (behind_id entry) (load_suffixes entry.config)
  unfolding setup_light create_light
  lights-ids =
      map-map unique_id_of _ (λ idx. behind_id entry (load_suffix idx)) (λ idx. refl)
        entry.config.load_ids
      ∙ sym (map-map (behind_id entry) load_suffix _ (λ idx. refl) entry.config.load_ids)

  switch-id :
      (s : SwitchEntity) → unique_id_of (create_switch entry s) ≡ behind_id entry (suffix_of s)
  unfolding create_switch
  switch-id (elegance_button idx) = refl
  switch-id (jetstream_button device button) = refl
  switch-id (scene_switch idx) = refl

  button_switches-suffixes :
      (system : System)
      → entry.system_type ≡ type_of system
      → map suffix_of (button_switches entry) ≡ button_suffixes system entry.config
  button_switches-suffixes elegance t =
      rw t (map-map suffix_of elegance_button switch_suffix (λ idx. refl) entry.config.switch_ids)
  button_switches-suffixes jetstream t =
      rw t (map-map suffix_of _ button_suffix (λ pair. refl) entry.config.button_ids)

  switches-ids :
      (system : System)
      → entry.system_type ≡ type_of system
      → map unique_id_of (setup_switch entry)
        ≡ map (behind_id entry) (button_suffixes system entry.config ++ scene_suffixes entry.config)
  unfolding setup_switch
  switches-ids system t =
      let scenes : List SwitchEntity = map scene_switch entry.config.scene_ids in
      map-map unique_id_of (create_switch entry) _ switch-id (button_switches entry ++ scenes)
      ∙ sym (map-map (behind_id entry) suffix_of _ (λ s. refl) (button_switches entry ++ scenes))
      ∙ ap (map (behind_id entry)) (
          map-append suffix_of (button_switches entry) scenes
          ∙ rw
              (
                button_switches-suffixes system t,
                map-map suffix_of scene_switch scene_suffix (λ idx. refl) entry.config.scene_ids,
              )
              refl)

  clock-ids :
      (clock : Bool)
      → map unique_id_of (setup_button clock entry) ≡ map (behind_id entry) (clock_suffixes clock)
  unfolding setup_button
  clock-ids false = refl
  clock-ids true = refl

  entities-ids :
      (system : System) (clock : Bool)
      → entry.system_type ≡ type_of system
      → map unique_id_of (entities_of clock entry)
        ≡ map (behind_id entry) (suffixes system entry.config clock)
  unfolding entities_of
  entities-ids system clock t =
      rw
        (
          append-nil (setup_switch entry),
          map-append unique_id_of (setup_button clock entry)
              (setup_light entry ++ setup_switch entry),
          map-append unique_id_of (setup_light entry) (setup_switch entry),
          clock-ids clock,
          lights-ids,
          switches-ids system t,
          map-append (behind_id entry) (clock_suffixes clock) (
              load_suffixes entry.config
              ++ (button_suffixes system entry.config ++ scene_suffixes entry.config)),
          map-append (behind_id entry) (load_suffixes entry.config)
              (button_suffixes system entry.config ++ scene_suffixes entry.config),
        )
        refl

  behind_id-injective : (id s t : Text) → id ++ s ≡ id ++ t → s ≡ t
  behind_id-injective [] s t e = e
  behind_id-injective (c ∷ id) s t e = behind_id-injective id s t (ap (drop 1) e)

  -- No two of the entities that the platforms add for an entry of a system, whose ids are as the import
  -- step leaves them, have the same unique id.
  pub unique_ids-is_distinct :
      (system : System) (clock : Bool)
      → entry.system_type ≡ type_of system
      → IsEntry system entry.config
      → is_distinct (map unique_id_of (entities_of clock entry)) ≡ true
  unique_ids-is_distinct system clock t h = rw (entities-ids system clock t) (
      map-is_distinct (behind_id entry) (suffixes system entry.config clock)
        (suffixes-is_distinct system entry.config h clock)
        (λ x y m n e. behind_id-injective entry.entry_id x y e))
