-- ===== src/Migrate/Again.antt =====
-- custom_components/centralite/migrate.py: another run of async_migrate_entries behind a run.
use centralite_ha.Base.{
  Bool, true, false, not, ◌&&◌, ◌||◌, none, some, List, [], ◌∷◌, ◌++◌, ◌≡◌, refl, sym, ap, ◌∙◌,
  arith, Bool-cases, inl, inr, if◌then◌else◌,
}
use centralite_ha.Text.{Text, text_eq}
use centralite_ha.Migrate.{MigrationResult, migrate, delete, skip, classify}
use centralite_ha.Migrate.Registry.{
  Row, Registry, Progress, domain, is_candidate, candidates, new_uid, by_result, each_candidate,
  start, migrate_entries, finishes, ending,
}
use centralite_ha.Migrate.Effect.{
  is_orphan_of, is_candidate_lem, IsRegistry, adopted, fate, Fate, keeps, goes, stops, after,
  distinct, taken, moved_row, moves_free,
}
use centralite_ha.Migrate.Once.{migrate_entries-after, has_raised, and_parts}

-- What a run leaves of a row is left alone by the next.
abbrev stays : (Text → Bool) → MigrationResult → Row → Bool
stays loaded skip row = true
stays loaded delete row = false
stays loaded (migrate suffix) row = not (text_eq row.platform domain) && loaded row.entity_id

abbrev is_settled : (Text → Bool) → Text → Row → Bool
is_settled loaded system row =
    not (is_candidate system row) || stays loaded (classify row.unique_id) row

unfoldable pub all_settled : (Text → Bool) → Text → List Row → Bool
unfolding classify
all_settled loaded system [] = true
all_settled loaded system (row ∷ rows) =
    is_settled loaded system row && all_settled loaded system rows

settled_parts :
    (candidate left rest : Bool)
    → ((not candidate || left) && rest) ≡ true
    → (rest ≡ true) × (candidate ≡ true → left ≡ true)
settled_parts candidate left rest h = ground arith

all_settled-append :
    (loaded : Text → Bool) (system : Text) (before : List Row) (row : Row)
    → all_settled loaded system before ≡ true
    → is_settled loaded system row ≡ true
    → all_settled loaded system (before ++ row ∷ []) ≡ true
unfolding all_settled
all_settled-append loaded system [] row h e = rw e refl
all_settled-append loaded system (r ∷ before) row h e =
    let (first, rest) =
      and_parts (is_settled loaded system r) (all_settled loaded system before) h in
    rw (first, all_settled-append loaded system before row rest e) refl

module _ {S : Type 0} (home : Registry S) (loaded : Text → Bool) (laws : IsRegistry home loaded)
    (entry_id system : Text) where
  -- What is kept of a row is left alone by the next run.
  abbrev KeepsSettled : Fate → Type 0
  KeepsSettled (keeps row) = is_settled loaded system row ≡ true
  KeepsSettled goes = Unit
  KeepsSettled stops = Unit

  owned-is_settled :
      (row : Row) (suffix : Text) → is_settled loaded system (moved_row entry_id suffix row) ≡ true
  owned-is_settled row suffix = refl

  adopted-KeepsSettled :
      (others : List Row) (row : Row) (result : MigrationResult)
      → classify row.unique_id ≡ result
      → KeepsSettled (adopted loaded entry_id others result row)
  adopted-KeepsSettled others row skip c =
      let left : stays loaded (classify row.unique_id) row ≡ true = rw c refl in
      ground (arith, left)
  adopted-KeepsSettled others row delete c = tt
  adopted-KeepsSettled others row (migrate suffix) c =
      by_tests (text_eq row.platform domain)
        (taken row.entity_id domain (new_uid entry_id suffix) others) (loaded row.entity_id) refl
        refl
    where
      by_tests :
          (own taken' loaded' : Bool)
          → text_eq row.platform domain ≡ own
          → loaded row.entity_id ≡ loaded'
          → KeepsSettled (
              if own
              then (if taken' then stops else keeps (moved_row entry_id suffix row))
              else if loaded'
              then keeps row
              else keeps (moved_row entry_id suffix row))
      by_tests true true l e f = tt
      by_tests true false l e f = owned-is_settled row suffix
      by_tests false t true e f =
          let left : stays loaded (classify row.unique_id) row ≡ true = rw c (rw (e, f) refl) in
          ground (arith, left)
      by_tests false t false e f = owned-is_settled row suffix

  fate-KeepsSettled :
      (others : List Row) (row : Row) → KeepsSettled (fate loaded system entry_id others row)
  fate-KeepsSettled others row = elim (Bool-cases (is_orphan_of system row)) [
    | inl yes' ↦ rw yes' (adopted-KeepsSettled others row (classify row.unique_id) refl)
    | inr no' ↦
        let left : is_candidate system row ≡ false = is_candidate_lem system row ∙ no' in
        rw no' (rw left refl)
  ]

  -- What a run that does not raise leaves.
  after-all_settled :
      (before rows : List Row)
      → all_settled loaded system before ≡ true
      → (after loaded system entry_id before rows).1 ≡ false
      → all_settled loaded system (after loaded system entry_id before rows).0 ≡ true
  unfolding after
  after-all_settled before [] h quiet = h
  after-all_settled before (row ∷ rows) h quiet =
      by_fate (fate loaded system entry_id (before ++ row ∷ rows) row)
        (fate-KeepsSettled (before ++ row ∷ rows) row) (λ b. after-all_settled b rows) quiet
    where
      said : Fate → List Row × Bool
      said f = elim f as (λ x. List Row × Bool) [
        | keeps row' ↦ after loaded system entry_id (before ++ row' ∷ []) rows
        | goes ↦ after loaded system entry_id before rows
        | stops ↦ (before ++ row ∷ rows, true)
      ]

      by_fate :
          (f : Fate)
          → KeepsSettled f
          → ((b : List Row)
              → all_settled loaded system b ≡ true
              → (after loaded system entry_id b rows).1 ≡ false
              → all_settled loaded system (after loaded system entry_id b rows).0 ≡ true)
          → (said f).1 ≡ false
          → all_settled loaded system (said f).0 ≡ true
      by_fate (keeps row') e run q =
          run (before ++ row' ∷ []) (all_settled-append loaded system before row' h e) q
      by_fate goes e run q = run before h q
      by_fate stops e run q = cc

  -- A run that touches nothing.
  abbrev Idle : Progress S → Progress S → Type 0
  Idle p p' =
      (home.entities p'.registry ≡ home.entities p.registry)
      × (p'.migrated ≡ p.migrated)
      × (p'.deleted ≡ p.deleted)

  by_result-Idle :
      (row : Row) (result : MigrationResult) (p : Progress S)
      → stays loaded result row ≡ true
      → (p' : Progress S) × (by_result home entry_id row result p ≡ some p') × Idle p p'
  by_result-Idle row skip p h = (p, refl, (refl, refl, refl))
  by_result-Idle row delete p h = cc
  by_result-Idle row (migrate suffix) p h =
      let other : text_eq row.platform domain ≡ false = ground arith in
      let refused =
        laws.move_refused row.entity_id domain entry_id (new_uid entry_id suffix) p.registry
          (ground arith) in
      rw (other, refused) (_, refl, (laws.remove_state_rows row.entity_id p.registry, refl, refl))

  -- A loop that touches nothing and does not raise.
  abbrev IdleRun : Progress S → Progress S × Bool → Type 0
  IdleRun p run = Idle p run.0 × (run.1 ≡ false)

  each_candidate-Idle :
      (rows : List Row) (p : Progress S)
      → all_settled loaded system rows ≡ true
      → IdleRun p (each_candidate home entry_id (candidates system rows) p)
  unfolding each_candidate candidates all_settled
  each_candidate-Idle [] p h = ((refl, refl, refl), refl)
  each_candidate-Idle (row ∷ rows) p h =
      let (more, here) =
        settled_parts (is_candidate system row) (stays loaded (classify row.unique_id) row)
          (all_settled loaded system rows) h in
      elim (Bool-cases (is_candidate system row)) [
        | inl yes' ↦
            let (p', same, (e, m, d)) = by_result-Idle row (classify row.unique_id) p (here yes') in
            let ((e', m', d'), quiet) = each_candidate-Idle rows p' more in
            rw (yes', same) ((e' ∙ e, m' ∙ m, d' ∙ d), quiet)
        | inr no' ↦ rw no' (each_candidate-Idle rows p more)
      ]

  -- A run on settled rows.
  pub migrate_entries-settled :
      (s : S)
      → all_settled loaded system (home.entities s) ≡ true
      → ((migrate_entries home system entry_id s).1 ≡ finishes none)
        × (home.entities (migrate_entries home system entry_id s).0 ≡ home.entities s)
  unfolding migrate_entries
  migrate_entries-settled s settled =
      let run : Progress S × Bool =
        each_candidate home entry_id (candidates system (home.entities s)) (start s) in
      let ((e, m, x), quiet) = each_candidate-Idle (home.entities s) (start s) settled in
      (quiet_ending run quiet m x, e)
    where
      quiet_ending :
          (run : Progress S × Bool)
          → run.1 ≡ false
          → run.0.migrated ≡ []
          → run.0.deleted ≡ []
          → ending run ≡ finishes none
      quiet_ending (p, true) q m x = cc
      quiet_ending (p, false) q m x = rw (m, x) refl

  pub migrate_entries-all_settled :
      (s : S)
      → distinct [] (home.entities s) ≡ true
      → moves_free loaded system entry_id [] (home.entities s) ≡ true
      → has_raised (migrate_entries home system entry_id s).1 ≡ false
      → all_settled loaded system (home.entities (migrate_entries home system entry_id s).0) ≡ true
  unfolding all_settled
  migrate_entries-all_settled s d free quiet =
      let (rows, raised) = migrate_entries-after home loaded laws entry_id system s d free in
      ap (all_settled loaded system) rows
      ∙ after-all_settled [] (home.entities s) refl (sym raised ∙ quiet)

  -- Where no entity id comes twice, the registry does what is documented of its calls, and no orphan of
  -- another platform is to be moved to a unique id that is taken, a second run behind a run that does not
  -- raise, with the same entities loaded, does not raise either, creates no issue and leaves every row of
  -- the registry as it is.
  pub migrate_entries-again :
      (s : S)
      → distinct [] (home.entities s) ≡ true
      → moves_free loaded system entry_id [] (home.entities s) ≡ true
      → has_raised (migrate_entries home system entry_id s).1 ≡ false
      → ((migrate_entries home system entry_id (migrate_entries home system entry_id s).0).1
          ≡ finishes none)
        × (home.entities
              (migrate_entries home system entry_id (migrate_entries home system entry_id s).0).0
            ≡ home.entities (migrate_entries home system entry_id s).0)
  migrate_entries-again s d free quiet =
      migrate_entries-settled (migrate_entries home system entry_id s).0
        (migrate_entries-all_settled s d free quiet)
