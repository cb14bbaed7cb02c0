-- ===== src/Migrate/Effect.antt =====
-- custom_components/centralite/migrate.py: what async_migrate_entries makes of the whole registry.
use centralite_ha.Base.{
  map, Bool, true, false, not, ◌&&◌, ◌||◌, Option, none, some, List, [], ◌∷◌, ◌++◌, ◌==◌, ◌≡◌, refl,
  if◌then◌else◌,
}
use centralite_ha.Text.{Text, codes, starts_with, text_eq}
use centralite_ha.Migrate.{lower, MigrationResult, migrate, delete, skip, classify}
use centralite_ha.Migrate.Registry.{has_none, Row, Registry, domain, is_candidate, new_uid}

-- The rows but that of `eid`.
unfoldable pub without : Text → List Row → List Row
without eid [] = []
without eid (row ∷ rows) =
    let rest = without eid rows in if text_eq row.entity_id eid then rest else row ∷ rest

-- The rows, with that of `eid` changed.
unfoldable pub change : Text → (Row → Row) → List Row → List Row
change eid f [] = []
change eid f (row ∷ rows) =
    let rest = change eid f rows in if text_eq row.entity_id eid then f row ∷ rest else row ∷ rest

abbrev pub update : Text → Text → Row → Row
update uid entry_id row = record row { unique_id = uid; config_entry_id = some entry_id }

-- The domain of an entity id: what stands before its dot.
unfoldable pub domain_of : Text → Text
domain_of [] = []
domain_of (c ∷ t) = let rest = domain_of t in if c == b'.' then [] else c ∷ rest

-- A row has the key of domain, platform and unique id.
abbrev pub has_key : Text → Text → Text → Row → Bool
has_key eid platform uid row =
    text_eq (domain_of row.entity_id) (domain_of eid)
    && (text_eq row.platform platform && text_eq row.unique_id uid)

unfoldable pub taken : Text → Text → Text → List Row → Bool
unfolding domain_of
taken eid platform uid [] = false
taken eid platform uid (row ∷ rows) = has_key eid platform uid row || taken eid platform uid rows

-- The platform of the entity.
unfoldable pub platform_of : Text → List Row → Text
platform_of eid [] = []
platform_of eid (row ∷ rows) =
    let rest = platform_of eid rows in if text_eq row.entity_id eid then row.platform else rest

unfoldable pub in_rows : Text → List Row → Bool
in_rows eid [] = false
in_rows eid (row ∷ rows) =
    let rest = in_rows eid rows in if text_eq row.entity_id eid then true else rest

-- What Home Assistant documents of the calls, for an entity of the registry. Its rows are keyed by
-- domain, platform and unique id: async_update_entity raises a ValueError where the key is taken. A
-- platform cannot be moved while the entity is loaded, or has a state, which `remove_state` drops; of a
-- move to a unique id that is taken under either platform nothing is assumed.
pub record IsRegistry {S : Type 0} (home : Registry S) (loaded : Text → Bool) : Type 0 where
  pub remove_rows :
      (eid : Text) (s : S)
      → in_rows eid (home.entities s) ≡ true
      → home.entities (home.remove eid s) ≡ without eid (home.entities s)
  pub update_rows :
      (eid uid entry_id : Text) (s : S)
      → in_rows eid (home.entities s) ≡ true
      → taken eid (platform_of eid (home.entities s)) uid (home.entities s) ≡ false
      → (s' : S) × (home.update_entity eid uid entry_id s ≡ some s')
        × (home.entities s' ≡ change eid (update uid entry_id) (home.entities s))
  pub update_refused :
      (eid uid entry_id : Text) (s : S)
      → in_rows eid (home.entities s) ≡ true
      → taken eid (platform_of eid (home.entities s)) uid (home.entities s) ≡ true
      → home.update_entity eid uid entry_id s ≡ none
  pub remove_state_rows :
      (eid : Text) (s : S) → home.entities (home.remove_state eid s) ≡ home.entities s
  pub move_rows :
      (eid platform entry_id uid : Text) (s : S)
      → in_rows eid (home.entities s) ≡ true
      → taken eid (platform_of eid (home.entities s)) uid (home.entities s) ≡ false
      → taken eid platform uid (home.entities s) ≡ false
      → loaded eid ≡ false
      → (s' : S) × (home.update_entity_platform eid platform entry_id uid (home.remove_state eid s)
          ≡ some s')
        × (home.entities s'
            ≡ change eid
                (λ row. record (update uid entry_id row) { platform = platform })
                (home.entities s))
  pub move_refused :
      (eid platform entry_id uid : Text) (s : S)
      → loaded eid ≡ true
      → home.update_entity_platform eid platform entry_id uid (home.remove_state eid s) ≡ none

-- What becomes of a row: it stays or changes, it goes, or the run ends in a ValueError at it.
pub data Fate : Type 0 where
  keeps : Row → Fate
  goes stops : Fate

abbrev pub moved_row : Text → Text → Row → Row
moved_row entry_id suffix row = record (update (new_uid entry_id suffix) entry_id row) {
  platform = domain;
}

-- Of a candidate among `all` rows.
abbrev pub adopted : (Text → Bool) → Text → List Row → MigrationResult → Row → Fate
adopted loaded entry_id all skip row = keeps row
adopted loaded entry_id all delete row = goes
adopted loaded entry_id all (migrate suffix) row =
    if text_eq row.platform domain
    then (if taken row.entity_id domain (new_uid entry_id suffix) all
        then stops
        else keeps (moved_row entry_id suffix row))
    else if loaded row.entity_id
    then keeps row
    else keeps (moved_row entry_id suffix row)

abbrev unless_owned : Option Text → Bool → Bool
unless_owned none orphan = orphan
unless_owned (some entry_id) orphan = false

-- A row without a config entry whose unique id begins with the system's name, in any case.
abbrev pub is_orphan_of : Text → Row → Bool
is_orphan_of system row =
    unless_owned row.config_entry_id
      (starts_with (map lower row.unique_id) (map lower (system ++ codes ".")))

pub is_candidate_lem :
    (system : Text) (row : Row) → is_candidate system row ≡ is_orphan_of system row
is_candidate_lem system row =
    either row.config_entry_id
      (starts_with (map lower row.unique_id) (map lower (system ++ codes ".")))
  where
    either : (o : Option Text) (b : Bool) → (has_none o && b) ≡ unless_owned o b
    either none b = refl
    either (some e) b = refl

abbrev pub fate : (Text → Bool) → Text → Text → List Row → Row → Fate
fate loaded system entry_id all row =
    if is_orphan_of system row
    then adopted loaded entry_id all (classify row.unique_id) row
    else keeps row

-- The registry after a run that has come to `rows`, row by row, and whether the run raises.
unfoldable pub after : (Text → Bool) → Text → Text → List Row → List Row → List Row × Bool
unfolding classify taken
after loaded system entry_id before [] = (before, false)
after loaded system entry_id before (row ∷ rows) =
    elim (fate loaded system entry_id (before ++ row ∷ rows) row) [
      | keeps row' ↦ after loaded system entry_id (before ++ row' ∷ []) rows
      | goes ↦ after loaded system entry_id before rows
      | stops ↦ (before ++ row ∷ rows, true)
    ]

-- No orphan of another platform comes to a unique id that is taken.
abbrev pub is_free : Text → List Row → MigrationResult → Row → Bool
is_free entry_id all skip row = true
is_free entry_id all delete row = true
is_free entry_id all (migrate suffix) row =
    text_eq row.platform domain
    || (not (taken row.entity_id row.platform (new_uid entry_id suffix) all)
        && not (taken row.entity_id domain (new_uid entry_id suffix) all))

unfoldable pub moves_free : (Text → Bool) → Text → Text → List Row → List Row → Bool
unfolding classify taken
moves_free loaded system entry_id before [] = true
moves_free loaded system entry_id before (row ∷ rows) =
    (not (is_orphan_of system row)
      || is_free entry_id (before ++ row ∷ rows) (classify row.unique_id) row)
    && elim (fate loaded system entry_id (before ++ row ∷ rows) row) [
      | keeps row' ↦ moves_free loaded system entry_id (before ++ row' ∷ []) rows
      | goes ↦ moves_free loaded system entry_id before rows
      | stops ↦ true
    ]

-- No entity id of `rows` comes twice, or is one of `before`.
unfoldable pub distinct : List Row → List Row → Bool
unfolding in_rows
distinct before [] = true
distinct before (row ∷ rows) =
    not (in_rows row.entity_id before) && (not (in_rows row.entity_id rows) && distinct before rows)
