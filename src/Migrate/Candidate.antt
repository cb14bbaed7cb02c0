-- ===== src/Migrate/Candidate.antt =====
-- custom_components/centralite/migrate.py: one round of the loop of async_migrate_entries.
use centralite_ha.Base.{
  Bool, true, false, Option, none, some, List, ◌∷◌, ◌++◌, ◌≡◌, refl, ap, ◌∙◌, arith, if◌then◌else◌,
  Bool-cases, inl, inr,
}
use centralite_ha.Text.{Text, text_eq}
use centralite_ha.Dict.{text_eq_iff}
use centralite_ha.Migrate.{MigrationResult, migrate, delete, skip}
use centralite_ha.Migrate.Registry.{
  Row, Registry, Progress, domain, new_uid, move, updated, adopt, by_result,
}
use centralite_ha.Migrate.Effect.{
  without, change, update, IsRegistry, adopted, Fate, keeps, goes, stops, in_rows, taken,
  platform_of, is_free, moved_row,
}
use centralite_ha.Migrate.Rows.{
  without-append, change-append, same_text, platform_of-here, in_rows-here,
}

module _ {S : Type 0} (home : Registry S) (loaded : Text → Bool) (laws : IsRegistry home loaded)
    (entry_id : Text) where
  -- What the loop makes of a candidate, by its fate.
  abbrev pub Meets : List Row → List Row → Fate → Option (Progress S) → Type 0
  Meets before rest (keeps row) o =
      (p : Progress S) × (o ≡ some p) × (home.entities p.registry ≡ before ++ row ∷ rest)
  Meets before rest goes o =
      (p : Progress S) × (o ≡ some p) × (home.entities p.registry ≡ before ++ rest)
  Meets before rest stops o = o ≡ none

  -- One candidate, with the rows that have been looked at before it and those behind it.
  module _ (before rest : List Row) (ent : Row) (b : in_rows ent.entity_id before ≡ false)
      (r : in_rows ent.entity_id rest ≡ false) (p : Progress S)
      (now : home.entities p.registry ≡ before ++ ent ∷ rest) where
    abbrev all : List Row
    all = before ++ ent ∷ rest

    change_here :
        (f : Row → Row) → change ent.entity_id f (home.entities p.registry) ≡ before ++ f ent ∷ rest
    change_here f =
        ap (change ent.entity_id f) now
        ∙ change-append ent.entity_id f before ent rest b r (same_text ent.entity_id)

    known : in_rows ent.entity_id (home.entities p.registry) ≡ true
    known = ap (in_rows ent.entity_id) now ∙ in_rows-here before ent rest

    taken_here :
        (uid : Text)
        → taken ent.entity_id
            (platform_of ent.entity_id (home.entities p.registry))
            uid
            (home.entities p.registry)
          ≡ taken ent.entity_id ent.platform uid all
    taken_here uid = rw (now, platform_of-here before ent rest b) refl

    moves :
        (suffix : Text) (o : Bool)
        → loaded ent.entity_id ≡ o
        → is_free entry_id all (migrate suffix) ent ≡ true
        → text_eq ent.platform domain ≡ false
        → Meets before rest (if o then keeps ent else keeps (moved_row entry_id suffix ent)) (
            some (
              move home entry_id ent
                (new_uid entry_id suffix)
                (home.remove_state ent.entity_id p.registry)
                p))
    moves suffix true l free other =
        rw (laws.move_refused ent.entity_id domain entry_id (new_uid entry_id suffix) p.registry l)
          (_, refl, laws.remove_state_rows ent.entity_id p.registry ∙ now)
    moves suffix false l free other =
        let uid : Text = new_uid entry_id suffix in
        let free_domain : taken ent.entity_id domain uid (home.entities p.registry) ≡ false =
          ap (taken ent.entity_id domain uid) now ∙ ground (arith, free, other) in
        let (s', done', rows) =
          laws.move_rows ent.entity_id domain entry_id uid p.registry known
            (taken_here uid ∙ ground (arith, free, other)) free_domain l in
        rw done' (_, refl, rows ∙ change_here _)

    updates :
        (suffix : Text) (t : Bool)
        → taken ent.entity_id domain (new_uid entry_id suffix) all ≡ t
        → text_eq ent.platform domain ≡ true
        → Meets before rest
            (if t then stops else keeps (moved_row entry_id suffix ent))
            (adopt home entry_id ent (new_uid entry_id suffix) p)
    updates suffix t h e =
        let uid : Text = new_uid entry_id suffix in
        let same : ent.platform ≡ domain = (text_eq_iff ent.platform domain).0 e in
        let here = taken_here uid ∙ ap (λ q. taken ent.entity_id q uid all) same ∙ h in
        rw e (by_key t here)
      where
        by_key :
            (t : Bool)
            → taken ent.entity_id
                (platform_of ent.entity_id (home.entities p.registry))
                (new_uid entry_id suffix)
                (home.entities p.registry)
              ≡ t
            → Meets before rest (if t then stops else keeps (moved_row entry_id suffix ent)) (
                updated home entry_id ent
                  (new_uid entry_id suffix)
                  (home.update_entity ent.entity_id (new_uid entry_id suffix) entry_id p.registry)
                  p)
        by_key true k =
            rw
              (laws.update_refused ent.entity_id (new_uid entry_id suffix) entry_id p.registry known
                k)
              refl
        by_key false k =
            let (s', done', rows) =
              laws.update_rows ent.entity_id (new_uid entry_id suffix) entry_id p.registry known
                k in
            rw done' (
              _,
              refl,
              rows
                  ∙ change_here _
                  ∙ ap
                      (λ q.
                        before
                        ++ record (update (new_uid entry_id suffix) entry_id ent) { platform = q }
                          ∷ rest)
                      ((text_eq_iff ent.platform domain).0 e),
            )

    pub by_result-Meets :
        (result : MigrationResult)
        → is_free entry_id all result ent ≡ true
        → Meets before rest
            (adopted loaded entry_id all result ent)
            (by_result home entry_id ent result p)
    by_result-Meets skip free = (p, refl, now)
    by_result-Meets delete free = (
      _,
      refl,
      laws.remove_rows ent.entity_id p.registry known
          ∙ ap (without ent.entity_id) now
          ∙ without-append ent.entity_id before ent rest b r (same_text ent.entity_id),
    )
    by_result-Meets (migrate suffix) free = elim (Bool-cases (text_eq ent.platform domain)) [
      | inl own ↦ rw own (
          rw own at
            (updates suffix (taken ent.entity_id domain (new_uid entry_id suffix) all) refl own))
      | inr other ↦ rw other (moves suffix (loaded ent.entity_id) refl free other)
    ]
