-- ===== src/Setup/TakenOver.antt =====
-- custom_components/centralite/migrate.py and the platforms: a migrated row and the entity that takes it over.
use centralite_ha.Base.{
  Bool, true, false, not, Option, none, some, ◌||◌, if◌then◌else◌, none, some, List, ◌∷◌, ◌++◌, ◌≡◌,
  refl, ap, ◌∙◌, arith,
}
use centralite_ha.Text.{Text, text_eq}
use centralite_ha.Dict.{text_eq_iff, int_eq, pair_eq, text_key}
use centralite_ha.Sets.{member}
use centralite_ha.Migrate.Registry.{
  new_uid, Row, Registry, Progress, domain, is_candidate, by_result,
}
use centralite_ha.Migrate.Candidate.{Meets, by_result-Meets}
use centralite_ha.Migrate.Effect.{
  IsRegistry, in_rows, is_free, adopted, is_candidate_lem, is_orphan_of, taken, fate, Fate, keeps,
  goes, stops, moved_row,
}
use centralite_ha.Migrate.{migrate, classify}
use centralite_ha.Migrate.Adoption.{
  Legacy, elegance_load, elegance_switch, jetstream_load, jetstream_press, legacy_id, InRange,
  successor_id, classify-legacy,
}
use centralite_ha.Setup.Entry.{ConfigEntry, system_jetstream, system_elegance}
use centralite_ha.Setup.Entities.{entities_of}
use centralite_ha.Setup.Adopted.{IsConfigured, ids, successor-added}

module _ (entry : ConfigEntry) (clock : Bool) where
  -- It is a candidate of the system of the entry.
  legacy-is_orphan :
      (l : Legacy) (row : Row)
      → IsConfigured entry l
      → row.unique_id ≡ legacy_id l
      → row.config_entry_id ≡ none
      → is_orphan_of entry.system_type row ≡ true
  legacy-is_orphan (elegance_load n) row (t, h) e o =
      rw (e, o, (text_eq_iff entry.system_type system_elegance).0 t) refl
  legacy-is_orphan (elegance_switch n) row (t, h) e o =
      rw (e, o, (text_eq_iff entry.system_type system_elegance).0 t) refl
  legacy-is_orphan (jetstream_load n) row (t, h) e o =
      rw (e, o, (text_eq_iff entry.system_type system_jetstream).0 t) refl
  legacy-is_orphan (jetstream_press d b) row (t, h) e o =
      rw (e, o, (text_eq_iff entry.system_type system_jetstream).0 t) refl

  -- The row gets the key by which an entity of the entry takes it over.
  abbrev pub TakenOver : Row → Fate → Type 0
  TakenOver row (keeps row') =
      (row'.entity_id ≡ row.entity_id)
      × (row'.platform ≡ domain)
      × (row'.config_entry_id ≡ some entry.entry_id)
      × (member row'.unique_id (ids entry clock (entities_of clock entry)) ≡ true)
  TakenOver row goes = ⊥
  TakenOver row stops = ⊥

  -- No other row has its new key.
  abbrev pub is_clear : (Text → Bool) → List Row → Row → Text → Bool
  is_clear loaded all row uid =
      if text_eq row.platform domain
      then not (taken row.entity_id domain uid all)
      else not (loaded row.entity_id)

  -- Its fate in a run.
  fate-added :
      (loaded : Text → Bool) (all : List Row) (l : Legacy) (row : Row)
      → InRange l
      → IsConfigured entry l
      → row.unique_id ≡ legacy_id l
      → row.config_entry_id ≡ none
      → is_clear loaded all row (successor_id entry.entry_id l) ≡ true
      → TakenOver row (fate loaded entry.system_type entry.entry_id all row)
  fate-added loaded all l row r h e o clear =
      let (suffix, classified, same) = classify-legacy entry.entry_id l r in
      let added =
        ap (λ t. member t (ids entry clock (entities_of clock entry))) same
        ∙ successor-added entry clock l h in
      let migrates : classify row.unique_id ≡ migrate suffix = ap classify e ∙ classified in
      rw (legacy-is_orphan l row h e o, migrates)
        (by_tests suffix (text_eq row.platform domain)
          (taken row.entity_id domain (new_uid entry.entry_id suffix) all) (loaded row.entity_id)
          (rw (← same) at clear) added)
    where
      by_tests :
          (suffix : Text) (own taken' loaded' : Bool)
          → (if own then not taken' else not loaded') ≡ true
          → member (new_uid entry.entry_id suffix) (ids entry clock (entities_of clock entry))
            ≡ true
          → TakenOver row (
              if own
              then (if taken' then stops else keeps (moved_row entry.entry_id suffix row))
              else if loaded'
              then keeps row
              else keeps (moved_row entry.entry_id suffix row))
      by_tests suffix true true l c added = cc
      by_tests suffix true false l c added = (refl, refl, refl, added)
      by_tests suffix false t true c added = cc
      by_tests suffix false t false c added = (refl, refl, refl, added)

  module _ {S : Type 0} (home : Registry S) (loaded : Text → Bool) (laws : IsRegistry home loaded)
      (before rest : List Row) (row : Row) where
    abbrev now : List Row
    now = before ++ row ∷ rest

    -- The loop goes on with the row changed in place.
    abbrev pub IsTakenOver : Option (Progress S) → Type 0
    IsTakenOver o =
        (p : Progress S) × (row' : Row) × (o ≡ some p)
        × (home.entities p.registry ≡ before ++ row' ∷ rest)
        × (row'.entity_id ≡ row.entity_id)
        × (row'.platform ≡ domain)
        × (row'.config_entry_id ≡ some entry.entry_id)
        × (member row'.unique_id (ids entry clock (entities_of clock entry)) ≡ true)

    met :
        (f : Fate) (o : Option (Progress S))
        → Meets home loaded laws entry.entry_id before rest f o
        → TakenOver row f
        → IsTakenOver o
    met (keeps row') o (p, e, rows) (id, platform, owner, added) =
        (p, row', e, rows, id, platform, owner, added)
    met goes o m t = absurd t
    met stops o m t = absurd t

    -- Where the registry does what is documented of its calls, the orphaned row of a load, switch or button of
    -- version 1, of the system of the entry and configured in it, with numbers of three digits and button
    -- numbers of two, is a candidate, and the loop gives it the platform, the entry and the unique id of an
    -- entity that the platforms add for the entry: where that unique id is not taken, and the row is of the
    -- platform centralite or not loaded.
    pub by_result-IsTakenOver :
        (l : Legacy) (p : Progress S)
        → in_rows row.entity_id before ≡ false
        → in_rows row.entity_id rest ≡ false
        → home.entities p.registry ≡ now
        → InRange l
        → IsConfigured entry l
        → row.unique_id ≡ legacy_id l
        → row.config_entry_id ≡ none
        → taken row.entity_id row.platform (successor_id entry.entry_id l) now ≡ false
        → taken row.entity_id domain (successor_id entry.entry_id l) now ≡ false
        → (text_eq row.platform domain || not (loaded row.entity_id)) ≡ true
        → (is_candidate entry.system_type row ≡ true)
          × IsTakenOver (by_result home entry.entry_id row (classify row.unique_id) p)
    by_result-IsTakenOver l p b r rows range configured e o free there movable =
        let (suffix, classified, same) = classify-legacy entry.entry_id l range in
        let migrates : classify row.unique_id ≡ migrate suffix = ap classify e ∙ classified in
        let orphan = legacy-is_orphan l row configured e o in
        let free' : taken row.entity_id row.platform (new_uid entry.entry_id suffix) now ≡ false =
          ap (λ t. taken row.entity_id row.platform t now) same ∙ free in
        let there' : taken row.entity_id domain (new_uid entry.entry_id suffix) now ≡ false =
          ap (λ t. taken row.entity_id domain t now) same ∙ there in
        let clear : is_clear loaded now row (successor_id entry.entry_id l) ≡ true =
          ground (arith, there, movable) in
        let is_over : TakenOver row
            (adopted loaded entry.entry_id now (classify row.unique_id) row) =
          rw orphan at (fate-added loaded now l row range configured e o clear) in
        let frees : is_free entry.entry_id now (classify row.unique_id) row ≡ true =
          rw migrates (ground (arith, free', there')) in
        (
          is_candidate_lem entry.system_type row ∙ orphan,
          met _ _
              (by_result-Meets home loaded laws entry.entry_id before rest row b r p rows
                (classify row.unique_id) frees)
              is_over,
        )
