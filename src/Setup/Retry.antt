-- ===== src/Setup/Retry.antt =====
-- custom_components/centralite/__init__.py and migrate.py: Home Assistant sets an entry up again until the port
-- opens, and the migration runs each time.
use centralite_ha.Base.{Bool, true, false, none, some, List, [], ◌∷◌, ◌≡◌, refl, ap, ◌∙◌}
use centralite_ha.Text.{Text}
use centralite_ha.Migrate.Registry.{Issue, Row, Ending, raises, finishes, migrate_entries}
use centralite_ha.Migrate.Once.{has_raised}
use centralite_ha.Migrate.Effect.{IsRegistry, distinct, moves_free}
use centralite_ha.Migrate.Again.{all_settled, migrate_entries-settled, migrate_entries-all_settled}
use centralite_ha.Setup.{
  HomeAssistant, Hass, Opening, async_init, async_setup_entry, migrate_first, finish_setup,
  after_migration, report,
}
use centralite_ha.Setup.Entry.{ConfigEntry, Protocol, protocol_of}

module _ {S : Type 0} (ha : HomeAssistant S) (entry : ConfigEntry) where
  -- The set-ups of the entry, one after the other.
  abbrev pub attempts : List Opening → Hass S → Hass S
  attempts [] hass = hass
  attempts (o ∷ outcomes) hass = attempts outcomes (async_setup_entry ha entry o hass).1

  abbrev pub AllClosed : List Opening → Type 0
  AllClosed [] = Unit
  AllClosed (o ∷ outcomes) = (o.opened ≡ false) × AllClosed outcomes

  -- The rows of the registry.
  abbrev pub rows : Hass S → List Row
  rows hass = ha.registry.entities hass.home

  -- How the migration ends in a set-up.
  abbrev pub migration : Hass S → Ending
  migration hass = (migrate_entries ha.registry entry.system_type entry.entry_id hass.home).1

  module _ (loaded : Text → Bool) (laws : IsRegistry ha.registry loaded)
      (create_issue_rows : (issue : Issue) (s : S)
        → ha.registry.entities (ha.create_issue issue s) ≡ ha.registry.entities s)
      {protocol : Protocol} (known : protocol_of entry ≡ some protocol) where
    abbrev Settled : Hass S → Type 0
    Settled hass = all_settled loaded entry.system_type (rows hass) ≡ true

    report-rows :
        (end : Ending) (s : S) → ha.registry.entities (report ha end s) ≡ ha.registry.entities s
    report-rows raises s = refl
    report-rows (finishes none) s = refl
    report-rows (finishes (some issue)) s = create_issue_rows issue s

    -- A set-up that fails is its migration.
    closed_behind :
        (o : Opening) (migrated : Hass S × Ending)
        → o.opened ≡ false
        → (after_migration ha entry protocol o migrated).1 ≡ migrated.0
    unfolding finish_setup async_init
    closed_behind o (hass, raises) down = refl
    closed_behind o (hass, finishes issue) down = rw down refl

    closed-migrates :
        (o : Opening) (hass : Hass S)
        → o.opened ≡ false
        → (async_setup_entry ha entry o hass).1 ≡ (migrate_first ha entry hass).0
    unfolding async_setup_entry
    closed-migrates o hass down = rw known (closed_behind o (migrate_first ha entry hass) down)

    migrate_first-rows :
        (hass : Hass S)
        → rows (migrate_first ha entry hass).0
          ≡ ha.registry.entities
              (migrate_entries ha.registry entry.system_type entry.entry_id hass.home).0
    unfolding migrate_first
    migrate_first-rows hass =
        report-rows (migrate_entries ha.registry entry.system_type entry.entry_id hass.home).1
          (migrate_entries ha.registry entry.system_type entry.entry_id hass.home).0

    attempts-Settled :
        (outcomes : List Opening) (hass : Hass S)
        → AllClosed outcomes
        → Settled hass
        → (rows (attempts outcomes hass) ≡ rows hass)
          × (migration (attempts outcomes hass) ≡ finishes none)
    attempts-Settled [] hass all settled = (
      refl,
      (migrate_entries-settled ha.registry loaded laws entry.entry_id entry.system_type hass.home
          settled).0,
    )
    attempts-Settled (o ∷ outcomes) hass (down, all) settled =
        let (quiet, kept) =
          migrate_entries-settled ha.registry loaded laws entry.entry_id entry.system_type hass.home
            settled in
        let same : rows (async_setup_entry ha entry o hass).1 ≡ rows hass =
          ap rows (closed-migrates o hass down) ∙ migrate_first-rows hass ∙ kept in
        let (rest, issue) =
          attempts-Settled outcomes (async_setup_entry ha entry o hass).1 all
            (ap (all_settled loaded entry.system_type) same ∙ settled) in
        (rest ∙ same, issue)

    -- Where no entity id comes twice, the registry does what is documented of its calls, and no orphan of
    -- another platform is to be moved to a unique id that is taken, the first set-up of an entry whose port
    -- does not open and whose migration does not raise migrates the registry once and for all: however often
    -- the set-up fails again, with the same entities loaded, the rows of the registry stay as it left them,
    -- and the migration of the set-up after that does not raise and creates no issue.
    pub attempts-migrate_once :
        (o : Opening) (outcomes : List Opening) (hass : Hass S)
        → o.opened ≡ false
        → AllClosed outcomes
        → distinct [] (rows hass) ≡ true
        → moves_free loaded entry.system_type entry.entry_id [] (rows hass) ≡ true
        → has_raised (migration hass) ≡ false
        → (rows (attempts (o ∷ outcomes) hass)
            ≡ ha.registry.entities
                (migrate_entries ha.registry entry.system_type entry.entry_id hass.home).0)
          × (migration (attempts (o ∷ outcomes) hass) ≡ finishes none)
    attempts-migrate_once o outcomes hass down all d free quiet =
        let first : rows (async_setup_entry ha entry o hass).1
            ≡ ha.registry.entities
                (migrate_entries ha.registry entry.system_type entry.entry_id hass.home).0 =
          ap rows (closed-migrates o hass down) ∙ migrate_first-rows hass in
        let settled : Settled (async_setup_entry ha entry o hass).1 =
          ap (all_settled loaded entry.system_type) first
          ∙ migrate_entries-all_settled ha.registry loaded laws entry.entry_id entry.system_type
              hass.home d free quiet in
        let (kept, quiet) =
          attempts-Settled outcomes (async_setup_entry ha entry o hass).1 all settled in
        (kept ∙ first, quiet)
