-- ===== src/Setup/Adopted.antt =====
-- custom_components/centralite/migrate.py and the platforms: the entity that takes the place of a device of version 1.
use centralite_ha.Base.{ℕ, pos, Bool, true, false, List, [], ◌∷◌, ◌++◌, map, ◌≡◌, refl, ap, arith}
use centralite_ha.Text.{Text, text_eq}
use centralite_ha.Dict.{Eq, text_eq_iff, int_eq, pair_eq, text_key}
use centralite_ha.Sets.{member}
use centralite_ha.Sets.Sorted.{member-append}
use centralite_ha.Sets.Distinct.{map-map, map-member}
use mathlib.Core.List.{map-append}
use centralite_ha.Light
use centralite_ha.Switch.{SwitchEntity, elegance_button, jetstream_button, scene_switch}
use centralite_ha.Migrate.Adoption.{
  Legacy, elegance_load, elegance_switch, jetstream_load, jetstream_press, successor_id,
}
use centralite_ha.Setup.Entry.{ConfigEntry, system_jetstream, system_elegance}
use centralite_ha.Setup.Entities.{
  Entity, unique_id_of, create_light, create_switch, setup_light, setup_switch, setup_button,
  entities_of,
}

-- The load, switch or button is one of the entry, of the system that has it.
abbrev pub IsConfigured : ConfigEntry → Legacy → Type 0
IsConfigured entry (elegance_load n) =
    (text_eq entry.system_type system_elegance ≡ true)
    × (member (pos n) entry.config.load_ids ≡ true)
IsConfigured entry (elegance_switch n) =
    (text_eq entry.system_type system_elegance ≡ true)
    × (member (pos n) entry.config.switch_ids ≡ true)
IsConfigured entry (jetstream_load n) =
    (text_eq entry.system_type system_jetstream ≡ true)
    × (member (pos n) entry.config.load_ids ≡ true)
IsConfigured entry (jetstream_press d b) =
    (text_eq entry.system_type system_jetstream ≡ true)
    × (member (pos d, pos b) entry.config.button_ids ≡ true)

module _ (entry : ConfigEntry) (clock : Bool) where
  abbrev pub ids : List Entity → List Text
  ids added = map unique_id_of added

  map-append_ids : (xs ys : List Entity) → ids (xs ++ ys) ≡ ids xs ++ ids ys
  map-append_ids [] ys = refl
  map-append_ids (x ∷ xs) ys = ap (◌∷◌ (unique_id_of x)) (map-append_ids xs ys)

  -- The ids of one platform are ids of the entry.
  light_id-added :
      (t : Text)
      → member t (ids (setup_light entry)) ≡ true
      → member t (ids (entities_of clock entry)) ≡ true
  unfolding entities_of
  light_id-added t m =
      rw
        (
          map-append_ids (setup_button clock entry)
              (setup_light entry ++ (setup_switch entry ++ [])),
          map-append_ids (setup_light entry) (setup_switch entry ++ []),
          member-append t (ids (setup_button clock entry))
              (ids (setup_light entry) ++ ids (setup_switch entry ++ [])),
          member-append t (ids (setup_light entry)) (ids (setup_switch entry ++ [])),
          m,
        )
        (ground arith)

  switch_id-added :
      (t : Text)
      → member t (ids (setup_switch entry)) ≡ true
      → member t (ids (entities_of clock entry)) ≡ true
  unfolding entities_of
  switch_id-added t m =
      rw
        (
          map-append_ids (setup_button clock entry)
              (setup_light entry ++ (setup_switch entry ++ [])),
          map-append_ids (setup_light entry) (setup_switch entry ++ []),
          map-append_ids (setup_switch entry) [],
          member-append t (ids (setup_button clock entry))
              (ids (setup_light entry) ++ (ids (setup_switch entry) ++ [])),
          member-append t (ids (setup_light entry)) (ids (setup_switch entry) ++ []),
          member-append t (ids (setup_switch entry)) [],
          m,
        )
        (ground arith)

  switch-added :
      {A : Type 0} ⦃e : Eq A⦄ (f : A → SwitchEntity) (xs : List A) (rest : List SwitchEntity)
      (x : A)
      → member x xs ≡ true
      → member
          (unique_id_of (create_switch entry (f x)))
          (ids (map (create_switch entry) (map f xs ++ rest)))
        ≡ true
  switch-added f xs rest x m =
      let id : _ → Text = λ y. unique_id_of (create_switch entry (f y)) in
      rw
        (
          map-append (create_switch entry) (map f xs) rest,
          map-append_ids (map (create_switch entry) (map f xs)) (map (create_switch entry) rest),
          map-map (create_switch entry) f (λ y. create_switch entry (f y)) (λ y. refl) xs,
          map-map unique_id_of (λ y. create_switch entry (f y)) id (λ y. refl) xs,
          member-append (id x) (map id xs) (ids (map (create_switch entry) rest)),
          map-member id x xs m,
        )
        refl

  light-added :
      (n : ℕ)
      → member (pos n) entry.config.load_ids ≡ true
      → member
          (Light.unique_id entry.entry_id (record { idx = pos n; dimmable = true }))
          (ids (entities_of clock entry))
        ≡ true
  unfolding setup_light create_light Light.unique_id
  light-added n h =
      light_id-added (Light.unique_id entry.entry_id (record { idx = pos n; dimmable = true })) (
        rw
          (map-map unique_id_of _
            (λ idx. Light.unique_id entry.entry_id (record { idx = idx; dimmable = true }))
            (λ idx. refl) entry.config.load_ids)
          (map-member
            (λ idx. Light.unique_id entry.entry_id (record { idx = idx; dimmable = true })) (pos n)
            entry.config.load_ids h))

  not_jetstream :
      text_eq entry.system_type system_elegance ≡ true
      → text_eq entry.system_type system_jetstream ≡ false
  not_jetstream e = rw ((text_eq_iff entry.system_type system_elegance).0 e) refl

  pub successor-added :
      (l : Legacy)
      → IsConfigured entry l
      → member (successor_id entry.entry_id l) (ids (entities_of clock entry)) ≡ true
  unfolding setup_switch create_switch
  successor-added (elegance_load n) (t, h) = light-added n h
  successor-added (jetstream_load n) (t, h) = light-added n h
  successor-added (elegance_switch n) (t, h) = switch_id-added _ (
      rw (not_jetstream t) (
        switch-added elegance_button entry.config.switch_ids
          (map scene_switch entry.config.scene_ids) (pos n) h))
  successor-added (jetstream_press d b) (t, h) = switch_id-added _ (
      rw t (
        switch-added (λ pair. jetstream_button pair.0 pair.1) entry.config.button_ids
          (map scene_switch entry.config.scene_ids) (pos d, pos b) h))
