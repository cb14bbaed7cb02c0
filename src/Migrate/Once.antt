-- ===== src/Migrate/Once.antt =====
-- custom_components/centralite/migrate.py: one run of async_migrate_entries.
use centralite_ha.Base.{
  Bool, true, false, not, ◌&&◌, ◌||◌, Option, none, some, List, [], ◌∷◌, ◌++◌, ◌≡◌, refl, sym, ap,
  ◌∙◌, arith, if◌then◌else◌, Bool-cases, inl, inr,
}
use centralite_ha.Text.{Text, text_eq}
use centralite_ha.Migrate.{MigrationResult, migrate, delete, skip, classify}
use centralite_ha.Migrate.Registry.{
  Row, Registry, Progress, domain, is_candidate, candidates, new_uid, by_result, each_candidate,
  start, migrate_entries, Ending, raises, finishes, ending,
}
use centralite_ha.Migrate.Effect.{
  is_orphan_of, is_candidate_lem, IsRegistry, adopted, fate, Fate, keeps, goes, stops, after,
  in_rows, distinct, taken, is_free, moves_free, moved_row,
}
use centralite_ha.Migrate.Rows.{distinct-move, append-cons}
use centralite_ha.Migrate.Candidate.{Meets, by_result-Meets}

append_nil : (xs : List Row) → xs ++ [] ≡ xs
append_nil [] = refl
append_nil (x ∷ xs) = ap (◌∷◌ x) (append_nil xs)

pub and_parts : (a b : Bool) → (a && b) ≡ true → (a ≡ true) × (b ≡ true)
and_parts a b h = ground arith

-- Whether a run ends in a ValueError.
abbrev pub has_raised : Ending → Bool
has_raised raises = true
has_raised (finishes issue) = false

has_raised-ending : {S : Type 0} (run : Progress S × Bool) → has_raised (ending run) ≡ run.1
has_raised-ending (p, true) = refl
has_raised-ending (p, false) = refl

module _ {S : Type 0} (home : Registry S) (loaded : Text → Bool) (laws : IsRegistry home loaded)
    (entry_id : Text) where
  -- What is kept of a row stands under its entity id.
  abbrev KeepsId : Row → Fate → Type 0
  KeepsId row (keeps row') = row'.entity_id ≡ row.entity_id
  KeepsId row goes = Unit
  KeepsId row stops = Unit

  adopted-KeepsId :
      (others : List Row) (row : Row) (result : MigrationResult)
      → KeepsId row (adopted loaded entry_id others result row)
  adopted-KeepsId others row skip = refl
  adopted-KeepsId others row delete = tt
  adopted-KeepsId others row (migrate suffix) =
      by_tests (text_eq row.platform domain)
        (taken row.entity_id domain (new_uid entry_id suffix) others) (loaded row.entity_id)
    where
      by_tests :
          (own taken' loaded' : Bool)
          → KeepsId row (
              if own
              then (if taken' then stops else keeps (moved_row entry_id suffix row))
              else if loaded'
              then keeps row
              else keeps (moved_row entry_id suffix row))
      by_tests true true l = tt
      by_tests true false l = refl
      by_tests false t true = refl
      by_tests false t false = refl

  -- A run of the loop and what is said of it.
  abbrev Agrees : Progress S × Bool → List Row × Bool → Type 0
  Agrees run said = (home.entities run.0.registry ≡ said.0) × (run.1 ≡ said.1)

  abbrev run_of : Text → List Row → Progress S → Progress S × Bool
  run_of system todo p = each_candidate home entry_id (candidates system todo) p

  -- The rows behind a row, where they are done right.
  abbrev Rest : Text → List Row → Type 0
  Rest system todo =
      (before : List Row) (p : Progress S)
      → home.entities p.registry ≡ before ++ todo
      → distinct before todo ≡ true
      → moves_free loaded system entry_id before todo ≡ true
      → Agrees (run_of system todo p) (after loaded system entry_id before todo)

  -- After a row that is kept.
  behind_kept :
      (system : Text) (before todo : List Row) (row row' : Row) (p : Progress S)
      → Rest system todo
      → row'.entity_id ≡ row.entity_id
      → distinct before (row ∷ todo) ≡ true
      → home.entities p.registry ≡ before ++ row' ∷ todo
      → moves_free loaded system entry_id (before ++ row' ∷ []) todo ≡ true
      → Agrees (run_of system todo p) (after loaded system entry_id (before ++ row' ∷ []) todo)
  unfolding distinct
  behind_kept system before todo row row' p rest same d now free =
      let missing : in_rows row'.entity_id todo ≡ false =
        ap (λ t. in_rows t todo) same ∙ ground arith in
      rest (before ++ row' ∷ []) p (now ∙ sym (append-cons before row' todo))
        (distinct-move before row' todo missing (ground arith)) free

  -- A candidate and the rows behind it.
  candidate_step :
      (system : Text) (before todo : List Row) (row : Row) (p : Progress S) (f : Fate)
      (o : Option (Progress S))
      → Meets home loaded laws entry_id before todo f o
      → KeepsId row f
      → Rest system todo
      → distinct before (row ∷ todo) ≡ true
      → home.entities p.registry ≡ before ++ row ∷ todo
      → elim f as (λ x. Bool) [
        | keeps row' ↦ moves_free loaded system entry_id (before ++ row' ∷ []) todo
        | goes ↦ moves_free loaded system entry_id before todo
        | stops ↦ true
      ]
        ≡ true
      → Agrees
          (elim o as (λ x. Progress S × Bool) [
            | none ↦ (p, true)
            | some p' ↦ run_of system todo p'
          ])
          (elim f as (λ x. List Row × Bool) [
            | keeps row' ↦ after loaded system entry_id (before ++ row' ∷ []) todo
            | goes ↦ after loaded system entry_id before todo
            | stops ↦ (before ++ row ∷ todo, true)
          ])
  unfolding distinct
  candidate_step system before todo row p (keeps row') o (p', e, rows) same rest d now free =
      rw e (behind_kept system before todo row row' p' rest same d rows free)
  candidate_step system before todo row p goes o (p', e, rows) same rest d now free =
      rw e (rest before p' rows (ground arith) free)
  candidate_step system before todo row p stops o e same rest d now free = rw e (now, refl)

  each_candidate-Agrees : (system : Text) (todo : List Row) → Rest system todo
  unfolding each_candidate candidates after moves_free distinct
  each_candidate-Agrees system [] before p now d free = (now ∙ append_nil before, refl)
  each_candidate-Agrees system (row ∷ todo) before p now d free =
      let rows_now : List Row = before ++ row ∷ todo in
      let f : Fate = fate loaded system entry_id rows_now row in
      let (here, behind) =
        and_parts
          (not (is_orphan_of system row) || is_free entry_id rows_now (classify row.unique_id) row)
          _ free in
      elim (Bool-cases (is_candidate system row)) [
        | inl yes' ↦
            let result : MigrationResult = classify row.unique_id in
            let orphan : is_orphan_of system row ≡ true =
              sym (is_candidate_lem system row) ∙ yes' in
            let meets : Meets home loaded laws entry_id before todo f
                (by_result home entry_id row result p) =
              rw orphan (
                by_result-Meets home loaded laws entry_id before todo row (ground arith)
                  (ground arith) p now result (ground (arith, here, orphan))) in
            let same : KeepsId row f = rw orphan (adopted-KeepsId rows_now row result) in
            rw yes' (
              candidate_step system before todo row p f (by_result home entry_id row result p) meets
                same (each_candidate-Agrees system todo) d now behind)
        | inr no' ↦
            let other : is_orphan_of system row ≡ false = sym (is_candidate_lem system row) ∙ no' in
            let meets : Meets home loaded laws entry_id before todo f (some p) =
              rw other (p, refl, now) in
            let same : KeepsId row f = rw other refl in
            rw no' (
              candidate_step system before todo row p f (some p) meets same
                (each_candidate-Agrees system todo) d now behind)
      ]

  -- Where no entity id comes twice, the registry does what is documented of its calls, and no orphan of
  -- another platform is to be moved to a unique id that is taken, a run goes through the rows in order:
  -- the rows of other systems and those with a config entry it leaves as they are, an orphan that the
  -- rules delete it takes out, and one that they migrate it gives its new unique id, the entry and the
  -- platform centralite, or leaves as it is where that platform is not its own and it is loaded. At an
  -- orphan of that platform whose new unique id is taken by then it raises a ValueError, and leaves that
  -- row and those behind it as they are.
  pub migrate_entries-after :
      (system : Text) (s : S)
      → distinct [] (home.entities s) ≡ true
      → moves_free loaded system entry_id [] (home.entities s) ≡ true
      → (home.entities (migrate_entries home system entry_id s).0
          ≡ (after loaded system entry_id [] (home.entities s)).0)
        × (has_raised (migrate_entries home system entry_id s).1
            ≡ (after loaded system entry_id [] (home.entities s)).1)
  unfolding migrate_entries
  migrate_entries-after system s d free =
      let (rows, raised) =
        each_candidate-Agrees system (home.entities s) [] (start s) refl d free in
      (rows, has_raised-ending (run_of system (home.entities s) (start s)) ∙ raised)
