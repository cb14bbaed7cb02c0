-- ===== src/Migrate/Tests.antt =====
-- Unique ids of version 1, and the theorems about them at concrete ones.
use centralite_ha.Base.{
  Bool, false, not, ◌||◌, none, some, List, [], ◌∷◌, ◌≡◌, refl, arith, if◌then◌else◌,
}
use centralite_ha.Text.{Text, codes, text_eq}
use centralite_ha.Dict.{text_key}
use centralite_ha.Sets.{member, keep}
use centralite_ha.Sets.Sorted.{member-keep}
use centralite_ha.Text.Number.{int, pad_int}
use centralite_ha.Migrate.Case.{classify-lower}
use centralite_ha.Migrate.Registry.{Row, Registry, raises, finishes, migrate_entries}
use centralite_ha.Migrate.Effect.{
  without, change, update, IsRegistry, after, distinct, in_rows, taken, domain_of, platform_of,
  moves_free,
}
use centralite_ha.Migrate.Rows.{same_text}
use centralite_ha.Migrate.Once.{migrate_entries-after, has_raised}
use centralite_ha.Migrate.Again.{migrate_entries-again}
use centralite_ha.Migrate.{classify, migrate, delete, skip}

classify_test :
    (classify (codes "ELEGANCE.l5") ≡ migrate (codes "load_005"))
    × (classify (codes "jetstream.JSSW04401") ≡ migrate (codes "button_044_01"))
    × (classify (codes "jetstream.JSSW0440") ≡ skip)
    × (classify (codes "elegance.scene4ON") ≡ delete)
    × (classify (codes "abc_load_001") ≡ skip)
unfolding classify int pad_int
classify_test = (refl, refl, refl, refl, refl)

classify-lower_example : classify (codes "ELEGANCE.sw044") ≡ classify (codes "elegance.SW044")
classify-lower_example = classify-lower (codes "ELEGANCE.sw044") (codes "elegance.SW044") refl

-- A registry and a state machine: its rows, and the entities that have a state.
abbrev pub Home : Type 0
Home = List Row × List Text

-- The entity that is still loaded.
abbrev pub loaded : Text → Bool
loaded eid = text_eq eid (codes "light.den")

abbrev pub home : Registry Home
home = record {
  entities = λ s. s.0;
  remove = λ eid s. (without eid s.0, s.1);
  update_entity = λ eid uid entry_id s.
      if taken eid (platform_of eid s.0) uid s.0
      then none
      else some (change eid (update uid entry_id) s.0, s.1);
  update_entity_platform = λ eid platform entry_id uid s.
      if loaded eid || member eid s.1
      then none
      else some
          (change eid (λ row. record (update uid entry_id row) { platform = platform }) s.0, s.1);
  remove_state = λ eid s. (s.0, keep (λ x. not (text_eq x eid)) s.1);
}

no_state :
    (eid : Text) (states : List Text) → member eid (keep (λ x. not (text_eq x eid)) states) ≡ false
no_state eid states =
    ground (arith, member-keep (λ x. not (text_eq x eid)) eid states, same_text eid)

pub home-IsRegistry : IsRegistry home loaded
home-IsRegistry = record {
  remove_rows = λ eid s known. refl;
  update_rows = λ eid uid entry_id s known free.
      ((change eid (update uid entry_id) s.0, s.1), rw free refl, refl);
  update_refused = λ eid uid entry_id s known used. rw used refl;
  remove_state_rows = λ eid s. refl;
  move_rows = λ eid platform entry_id uid s known free free_there h. (
    (
      change eid (λ row. record (update uid entry_id row) { platform = platform }) s.0,
      keep (λ x. not (text_eq x eid)) s.1,
    ),
    rw (h, no_state eid s.1) refl,
    refl,
  );
  move_refused = λ eid platform entry_id uid s h. rw h refl;
}

abbrev orphan : Text → Text → Text → Row
orphan eid uid platform = record {
  entity_id = eid;
  unique_id = uid;
  platform = platform;
  config_entry_id = none;
}

abbrev pub old_home : Home
old_home = (
  orphan (codes "light.hall") (codes "jetstream.JSL001") (codes "centralite-jetstream")
      ∷ orphan (codes "light.den") (codes "jetstream.JSL002") (codes "centralite-jetstream")
      ∷ orphan (codes "scene.all") (codes "jetstream.scene4ON") (codes "centralite-jetstream")
      ∷ orphan (codes "light.porch") (codes "elegance.L001") (codes "centralite")
      ∷ [],
  codes "light.hall" ∷ codes "scene.all" ∷ [],
)

migrate_entries-after_example :
    ((migrate_entries home (codes "jetstream") (codes "abc") old_home).0.0
      ≡ (after loaded (codes "jetstream") (codes "abc") [] old_home.0).0)
    × (has_raised (migrate_entries home (codes "jetstream") (codes "abc") old_home).1
        ≡ (after loaded (codes "jetstream") (codes "abc") [] old_home.0).1)
unfolding in_rows distinct moves_free taken domain_of classify int pad_int
migrate_entries-after_example =
    migrate_entries-after home loaded home-IsRegistry (codes "abc") (codes "jetstream") old_home
      refl refl

migrate_entries-again_example :
    ((migrate_entries home
        (codes "jetstream")
        (codes "abc")
        (migrate_entries home (codes "jetstream") (codes "abc") old_home).0).1
      ≡ finishes none)
    × ((migrate_entries home
          (codes "jetstream")
          (codes "abc")
          (migrate_entries home (codes "jetstream") (codes "abc") old_home).0).0.0
        ≡ (migrate_entries home (codes "jetstream") (codes "abc") old_home).0.0)
unfolding in_rows distinct moves_free taken domain_of classify int pad_int migrate_entries member
    keep
migrate_entries-again_example =
    migrate_entries-again home loaded home-IsRegistry (codes "abc") (codes "jetstream") old_home
      refl refl refl

-- Two rows of one new unique id: the run raises at the second.
migrate_raises_test :
    (migrate_entries home (codes "elegance") (codes "abc") (
      orphan (codes "light.a") (codes "elegance.L1") (codes "centralite")
          ∷ orphan (codes "light.b") (codes "elegance.L001") (codes "centralite")
          ∷ [],
      [],
    )).1
    ≡ raises
unfolding migrate_entries classify int pad_int without change taken domain_of platform_of
migrate_raises_test = refl

-- The loaded light stays an orphan, the scene goes, and the other system's light is left alone.
migrate_entries_test :
    (migrate_entries home (codes "jetstream") (codes "abc") old_home).0.0
    ≡ (record {
      entity_id = codes "light.hall";
      unique_id = codes "abc_load_001";
      platform = codes "centralite";
      config_entry_id = some (codes "abc");
    })
      ∷ orphan (codes "light.den") (codes "jetstream.JSL002") (codes "centralite-jetstream")
      ∷ orphan (codes "light.porch") (codes "elegance.L001") (codes "centralite")
      ∷ []
unfolding migrate_entries classify int pad_int without change member keep
migrate_entries_test = refl
