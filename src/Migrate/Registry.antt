-- ===== src/Migrate/Registry.antt =====
-- custom_components/centralite/migrate.py: async_migrate_entries. Home Assistant's entity registry and its
-- state machine are a parameter.
use centralite_ha.Base.{
  pos, Bool, true, false, ◌&&◌, Option, none, some, List, [], ◌∷◌, ◌++◌, length, map, if◌then◌else◌,
}
use centralite_ha.Text.{Text, codes, starts_with, text_eq}
use centralite_ha.Text.Number.{show_int}
use centralite_ha.Migrate.{MigrationResult, migrate, delete, skip, lower, classify}

-- A row of the entity registry.
pub record Row : Type 0 where
  pub entity_id : Text
  pub unique_id : Text
  pub platform : Text
  pub config_entry_id : Option Text

-- What the migration calls: registry.entities, async_remove, async_update_entity and
-- async_update_entity_platform, each nothing where it raises a ValueError, and states.async_remove.
pub record Registry (S : Type 0) : Type 0 where
  pub entities : S → List Row
  pub remove : Text → S → S
  pub update_entity : Text → Text → Text → S → Option S
  pub update_entity_platform : Text → Text → Text → Text → S → Option S
  pub remove_state : Text → S → S

-- registry, migrated and deleted
pub record Progress (S : Type 0) : Type 0 where
  pub registry : S
  pub migrated : List (Text × Text × Text)
  pub deleted : List (Text × Text)

-- The placeholders of the issue v1_migration.
pub record Issue : Type 0 where
  pub migrated_count : Text
  pub deleted_count : Text
  pub summary : Text

abbrev pub domain : Text
domain = codes "centralite"

abbrev pub has_none : Option Text → Bool
has_none none = true
has_none (some t) = false

-- The test that picks the candidates.
abbrev pub is_candidate : Text → Row → Bool
is_candidate system ent =
    has_none ent.config_entry_id
    && starts_with (map lower ent.unique_id) (map lower (system ++ codes "."))

unfoldable pub candidates : Text → List Row → List Row
candidates system [] = []
candidates system (ent ∷ rest) =
    let others = candidates system rest in if is_candidate system ent then ent ∷ others else others

abbrev pub new_uid : Text → Text → Text
new_uid entry_id suffix = entry_id ++ (codes "_" ++ suffix)

module _ {S : Type 0} (home : Registry S) (entry_id : Text) where
  abbrev pub note_migrated : Row → Text → S → Progress S → Progress S
  note_migrated ent uid s p = record p {
    registry = s;
    migrated = p.migrated ++ (ent.entity_id, ent.unique_id, uid) ∷ [];
  }

  -- `continue` where the move raises a ValueError
  abbrev pub moved : Row → Text → Option S → S → Progress S → Progress S
  moved ent uid none s p = record p { registry = s }
  moved ent uid (some s') s p = note_migrated ent uid s' p

  abbrev pub move : Row → Text → S → Progress S → Progress S
  move ent uid s p =
      moved ent uid (home.update_entity_platform ent.entity_id domain entry_id uid s) s p

  -- The ValueError of async_update_entity is not caught.
  abbrev pub updated : Row → Text → Option S → Progress S → Option (Progress S)
  updated ent uid none p = none
  updated ent uid (some s) p = some (note_migrated ent uid s p)

  abbrev pub adopt : Row → Text → Progress S → Option (Progress S)
  adopt ent uid p =
      if text_eq ent.platform domain
      then updated ent uid (home.update_entity ent.entity_id uid entry_id p.registry) p
      else some (move ent uid (home.remove_state ent.entity_id p.registry) p)

  abbrev pub by_result : Row → MigrationResult → Progress S → Option (Progress S)
  by_result ent skip p = some p
  by_result ent delete p = some (record p {
    registry = home.remove ent.entity_id p.registry;
    deleted = p.deleted ++ (ent.entity_id, ent.unique_id) ∷ [];
  })
  by_result ent (migrate suffix) p = adopt ent (new_uid entry_id suffix) p

  -- for ent in candidates, and whether the loop raises.
  unfoldable pub each_candidate : List Row → Progress S → Progress S × Bool
  unfolding classify
  each_candidate [] p = (p, false)
  each_candidate (ent ∷ rest) p = elim (by_result ent (classify ent.unique_id) p) [
    | none ↦ (p, true)
    | some p' ↦ each_candidate rest p'
  ]

abbrev pub start : {S : Type 0} → S → Progress S
start s = record { registry = s; migrated = []; deleted = [] }

abbrev pub migrated_line : Text × Text × Text → Text
migrated_line (eid, old, new) =
    codes "- " ++ (eid ++ (codes ": `" ++ (old ++ (codes "` -> `" ++ (new ++ codes "`")))))

abbrev pub deleted_line : Text × Text → Text
deleted_line (eid, old) =
    codes "- ~~" ++ (eid ++ (codes "~~ (was `" ++ (old ++ codes "`) - removed")))

-- "\n".join(lines)
abbrev pub join_lines : List Text → Text
join_lines [] = []
join_lines (l ∷ []) = l
join_lines (l ∷ m ∷ ls) = l ++ 10 ∷ join_lines (m ∷ ls)

abbrev pub issue_of : List (Text × Text × Text) → List (Text × Text) → Option Issue
issue_of [] [] = none
issue_of migrated deleted = some (record {
  migrated_count = show_int (pos (length migrated));
  deleted_count = show_int (pos (length deleted));
  summary = join_lines (map migrated_line migrated ++ map deleted_line deleted);
})

-- How a run ends: with the ValueError, or with the issue that it creates.
pub data Ending : Type 0 where
  raises : Ending
  finishes : Option Issue → Ending

abbrev pub ending : {S : Type 0} → Progress S × Bool → Ending
ending (p, true) = raises
ending (p, false) = finishes (issue_of p.migrated p.deleted)

-- async_migrate_entries: the registry behind it, and its end.
unfoldable pub migrate_entries : {S : Type 0} → Registry S → Text → Text → S → S × Ending
unfolding candidates each_candidate
migrate_entries home system entry_id s =
    let run = each_candidate home entry_id (candidates system (home.entities s)) (start s) in
    (run.0.registry, ending run)
