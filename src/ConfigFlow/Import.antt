-- ===== src/ConfigFlow/Import.antt =====
-- The import step from the form to the entry.
use centralite_ha.Base.{
  ℤ, true, false, not, ◌&&◌, Option, List, [], ◌∷◌, ◌≡◌, ap, ◌∙◌, arith, Bool-cases, inl, inr,
  Result, ok, err,
}
use centralite_ha.Text.{Text, strip}
use centralite_ha.Dict.{Dict, int_eq, pair_eq}
use centralite_ha.Sets.{member, update, difference, int_order, pair_order}
use centralite_ha.Sets.Sorted.{member-update, member-keep, member-sorted_set}
use centralite_ha.Parsers.Csv.{parse_csv_ids}
use centralite_ha.Parsers.Elg.{parse_elg}
use centralite_ha.Parsers.Jts.Tree.{Element}
use centralite_ha.Parsers.Jts.Reader.{parse_jts}
use centralite_ha.Parsers.Jts.Devices.{parse_jts-IsConfig}
use centralite_ha.ConfigFlow.Buttons.{
  AreNumbers, nothing-AreNumbers, import_elg-AreNumbers, import_jts-AreNumbers,
  add_scanned-button_pairs,
}
use centralite_ha.ConfigFlow.Draft.{
  System, elegance, jetstream, Attempt, done, parsed, Draft, nothing, import_jts,
}
use centralite_ha.ConfigFlow.Steps.{
  UserInput, import_text, import_csv, add_scanned, import_scan, Entry, make_entry, step_import,
  is_jetstream,
}
use centralite_ha.ConfigFlow.Limits.{IsEntry, DisabledLoads}
use centralite_ha.ConfigFlow.Checks.{>>=-done, make_entry-IsEntry, make_entry_loads}
use centralite_ha.ConfigFlow.Disabled.{
  member-add_old, add_scanned-DisabledLoads, nothing-DisabledLoads, import_jts-DisabledLoads,
  import_elg-DisabledLoads,
}

import_text-DisabledLoads :
    (fromstring : Text → Option Element) (system : System) (text : Text) (i : Draft)
    → import_text fromstring system text ≡ done i
    → DisabledLoads i
unfolding import_text
import_text-DisabledLoads fromstring system [] i h =
    let same : nothing ≡ i = cc in rw (← same) nothing-DisabledLoads
import_text-DisabledLoads fromstring jetstream (c ∷ text) i h =
    let (jts, read, made) = >>=-done (parsed (parse_jts fromstring (c ∷ text))) import_jts h in
    import_jts-DisabledLoads jts i made
import_text-DisabledLoads fromstring elegance (c ∷ text) i h =
    import_elg-DisabledLoads (parse_elg (c ∷ text)) i h

parsed-done : {A : Type 0} (r : Result A) {a : A} → parsed r ≡ done a → r ≡ ok a
parsed-done (ok a) h = cc
parsed-done (err e) h = cc

import_text-AreNumbers :
    (fromstring : Text → Option Element) (system : System) (text : Text) (i : Draft)
    → import_text fromstring system text ≡ done i
    → AreNumbers i.button_pairs
unfolding import_text
import_text-AreNumbers fromstring system [] i h =
    let same : nothing ≡ i = cc in rw (← same) nothing-AreNumbers
import_text-AreNumbers fromstring jetstream (c ∷ text) i h =
    let (jts, read, made) = >>=-done (parsed (parse_jts fromstring (c ∷ text))) import_jts h in
    import_jts-AreNumbers jts i made (
      parse_jts-IsConfig fromstring (c ∷ text) jts
        (parsed-done (parse_jts fromstring (c ∷ text)) read))
import_text-AreNumbers fromstring elegance (c ∷ text) i h =
    import_elg-AreNumbers (parse_elg (c ∷ text)) i h

-- The draft after the typed ids.
abbrev pub typed : List ℤ → List ℤ → List ℤ → Draft → Draft
typed loads scenes switches i = record i {
  load_ids = update i.load_ids loads;
  disabled = difference i.disabled loads;
  scene_ids = update i.scene_ids scenes;
  switch_ids = update i.switch_ids switches;
}

member-difference :
    (y : ℤ) (s t : List ℤ) → member y (difference s t) ≡ (member y s && not (member y t))
unfolding difference
member-difference y s t = member-keep (λ x. not (member x t)) y s

typed-DisabledLoads :
    (loads scenes switches : List ℤ) (i : Draft)
    → DisabledLoads i
    → DisabledLoads (typed loads scenes switches i)
typed-DisabledLoads loads scenes switches i h y m =
    ground (arith, h y, member-difference y i.disabled loads, member-update y i.load_ids loads)

-- A typed load is a load of the draft, and is not disabled.
abbrev Enabled : List ℤ → Draft → Type 0
Enabled loads i =
    (y : ℤ) → member y loads ≡ true → (member y i.load_ids ≡ true) × (member y i.disabled ≡ false)

typed-Enabled :
    (loads scenes switches : List ℤ) (i : Draft) → Enabled loads (typed loads scenes switches i)
typed-Enabled loads scenes switches i y m =
    ground (arith, member-difference y i.disabled loads, member-update y i.load_ids loads)

add_scanned-Enabled :
    (loads : List ℤ) (names : Dict ℤ Text) (i : Draft)
    → Enabled loads i
    → Enabled loads (add_scanned names i)
unfolding add_scanned
add_scanned-Enabled loads [] i h = h
add_scanned-Enabled loads ((idx, name) ∷ rest) i h =
    add_scanned-Enabled loads rest _ (λ y m. (member-add_old y idx i.load_ids (h y m).0, (h y m).1))

-- What is known of the draft before the checks.
record Ready (loads : List ℤ) (i : Draft) : Type 0 where
  sub : DisabledLoads i
  enabled : Enabled loads i
  numbers : AreNumbers i.button_pairs

import_scan-Ready :
    (system : System) (input : UserInput) (scan : Attempt (Dict ℤ Text)) (loads : List ℤ)
    (i k : Draft)
    → import_scan system input scan i ≡ done k
    → Ready loads i
    → Ready loads k
import_scan-Ready system input scan loads i k h r =
    elim (Bool-cases (input.scan_jetstream && is_jetstream system)) [
      | inl on ↦
          let (names, found, made) =
            >>=-done scan (λ names. done (add_scanned names i)) (rw on at h) in
          let same : add_scanned names i ≡ k = cc in
          rw (← same) (record {
            sub = add_scanned-DisabledLoads names i r.sub;
            enabled = add_scanned-Enabled loads names i r.enabled;
            numbers = rw (add_scanned-button_pairs names i) r.numbers;
          })
      | inr off ↦ let made : done i ≡ done k = rw off at h in let same : i ≡ k = cc in rw (← same) r
    ]

import_csv-Ready :
    (input : UserInput) (i j : Draft)
    → import_csv input i ≡ done j
    → DisabledLoads i
    → AreNumbers i.button_pairs
    → (loads : List ℤ) × (parse_csv_ids input.load_ids_csv ≡ ok loads) × Ready loads j
unfolding import_csv
import_csv-Ready input i j h sub numbers =
    let (loads, read, h1) = >>=-done (parsed (parse_csv_ids input.load_ids_csv)) _ h in
    let (scenes, read2, h2) = >>=-done (parsed (parse_csv_ids input.scene_ids_csv)) _ h1 in
    let (switches, read3, h3) = >>=-done (parsed (parse_csv_ids input.switch_ids_csv)) _ h2 in
    let same : typed loads scenes switches i ≡ j = cc in
    (
      loads,
      parsed-done (parse_csv_ids input.load_ids_csv) read,
      rw (← same) (record {
        sub = typed-DisabledLoads loads scenes switches i sub;
        enabled = typed-Enabled loads scenes switches i;
        numbers = numbers;
      }),
    )

module _ (fromstring : Text → Option Element) (system : System) (input : UserInput)
    (scan : Attempt (Dict ℤ Text)) (e : Entry)
    (h : step_import fromstring system input scan ≡ done e) where
  step_import-Ready :
      (loads : List ℤ) × (k : Draft) × (parse_csv_ids input.load_ids_csv ≡ ok loads)
      × Ready loads k
      × (make_entry system k ≡ done e)
  unfolding step_import
  step_import-Ready =
      let (i, read, h1) = >>=-done (import_text fromstring system (strip input.elg_text)) _ h in
      let (j, added, h2) = >>=-done (import_csv input i) _ h1 in
      let (k, found, made) = >>=-done (import_scan system input scan j) _ h2 in
      let (loads, typed', ready) =
        import_csv-Ready input i j added
          (import_text-DisabledLoads fromstring system (strip input.elg_text) i read)
          (import_text-AreNumbers fromstring system (strip input.elg_text) i read) in
      (loads, k, typed', import_scan-Ready system input scan loads j k found ready, made)

  -- Whatever was imported, typed or scanned, every entry that the import step makes has loads, scenes,
  -- switches and buttons that the protocol of its system accepts, its loads, scenes and switches
  -- stand in ascending order with none twice, and its disabled and its non-dimmable loads are loads of it.
  pub step_import-IsEntry : IsEntry system e
  step_import-IsEntry =
      let (loads, k, typed', ready, made) = step_import-Ready in
      make_entry-IsEntry system k e made ready.sub ready.numbers

  -- If the import step makes an entry, then the field of load ids holds a list of ids, and every one of
  -- them is a load of the entry that is not disabled, also where the file leaves it without a name.
  pub step_import_typed :
      (loads : List ℤ) × (parse_csv_ids input.load_ids_csv ≡ ok loads)
      × ((y : ℤ)
          → member y loads ≡ true
          → (member y e.load_ids ≡ true) × (member y e.disabled_loads ≡ false))
  step_import_typed =
      let (loads, k, typed', ready, made) = step_import-Ready in
      let (ids, off, _) = make_entry_loads system k e made in
      (
        loads,
        typed',
        λ y m. (
          ap (member y) ids ∙ member-sorted_set y k.load_ids ∙ (ready.enabled y m).0,
          ap (member y) off ∙ member-sorted_set y k.disabled ∙ (ready.enabled y m).1,
        ),
      )
