-- ===== src/Coordinator/Loads/Merge.antt =====
-- The load table after a bulk query, entry by entry.
use centralite_ha.Base.{
  ℕ, zero, suc, ℤ, pos, Bool, true, false, Option, none, some, [], ◌∷◌, ◌≡◌, refl, sym, ap, ◌∙◌,
  arith, if◌then◌else◌, ltb, leb, negsuc, Bool-cases, inl, inr,
}
use centralite_ha.Dict.{get, put, get-put, int_beq, int_beq_iff, int_eq}
use centralite_ha.Protocol.Bitmap.{BitMap}
use centralite_ha.Coordinator.State.{LoadState}
use centralite_ha.Coordinator.Loads.{
  Loads, bool_eq, entry_or_off, corrected, prime, poll_load, merge, load_changed,
}

-- No key comes twice, as in every `dict`.
abbrev pub IsDict : BitMap → Type 0
IsDict [] = Unit
IsDict ((idx, on) ∷ d) = (get d idx ≡ none) × IsDict d

-- The level of a load that is found on: full, where none was known.
abbrev pub level_on : ℤ → ℤ
level_on (pos zero) = pos 99
level_on (pos (suc n)) = pos (suc n)
level_on (negsuc n) = negsuc n

-- What a poll makes of an entry, by what it was and what is reported.
abbrev pub merged_entry : Option LoadState → Option Bool → Option LoadState
merged_entry old none = old
merged_entry none (some true) = some (record { on = true; level = pos 99 })
merged_entry none (some false) = none
merged_entry (some cur) (some true) =
    if cur.on then some cur else some (record { on = true; level = level_on cur.level })
merged_entry (some cur) (some false) =
    if cur.on then some (record { on = false; level = pos 0 }) else some cur

corrected_on :
    (cur : LoadState) → corrected cur true ≡ record { on = true; level = level_on cur.level }
corrected_on cur = by_level cur.level
  where
    by_level :
        (level : ℤ)
        → corrected (record cur { level = level }) true
          ≡ record { on = true; level = level_on level }
    by_level (pos zero) = refl
    by_level (pos (suc n)) = ground arith
    by_level (negsuc n) = refl

-- The same, as the loop computes it.
abbrev polled_entry : Option LoadState → Option Bool → Option LoadState
polled_entry old none = old
polled_entry old (some on) =
    if bool_eq (entry_or_off old).on on then old else some (corrected (entry_or_off old) on)

polled_entry-merged :
    (old : Option LoadState) (report : Option Bool)
    → polled_entry old report ≡ merged_entry old report
polled_entry-merged old none = refl
polled_entry-merged none (some true) = refl
polled_entry-merged none (some false) = refl
polled_entry-merged (some cur) (some true) = elim (Bool-cases cur.on) [
  | inl on ↦ rw on refl
  | inr off ↦ rw (off, corrected_on cur) refl
]
polled_entry-merged (some cur) (some false) = elim (Bool-cases cur.on) [
  | inl on ↦ rw on refl
  | inr off ↦ rw off refl
]

get-poll_load_polled :
    (idx k : ℤ) (on dirty : Bool) (loads : Loads)
    → get (poll_load idx on (loads, dirty)).0 k
      ≡ polled_entry (get loads k) (if int_beq idx k then some on else none)
unfolding poll_load
get-poll_load_polled idx k on dirty loads = elim (Bool-cases (int_beq idx k)) [
  | inl same ↦
      let e : idx ≡ k = (int_beq_iff idx k).0 same in
      ground
        (arith, ap (get loads) e, get-put loads idx k (corrected (entry_or_off (get loads idx)) on))
  | inr other ↦ ground (arith, get-put loads idx k (corrected (entry_or_off (get loads idx)) on))
]

get-poll_load :
    (idx k : ℤ) (on dirty : Bool) (loads : Loads)
    → get (poll_load idx on (loads, dirty)).0 k
      ≡ merged_entry (get loads k) (if int_beq idx k then some on else none)
get-poll_load idx k on dirty loads =
    get-poll_load_polled idx k on dirty loads
    ∙ polled_entry-merged (get loads k) (if int_beq idx k then some on else none)

-- After a safety poll whose report has no key twice, every entry is what the poll makes of the one before
-- it: unreported loads and loads whose state agrees keep theirs, level included, and the others are
-- corrected.
pub get-merge :
    (states : BitMap) (loads : Loads) (dirty : Bool) (k : ℤ)
    → IsDict states
    → get (merge (loads, dirty) states).0 k ≡ merged_entry (get loads k) (get states k)
unfolding merge get
get-merge [] loads dirty k h = refl
get-merge ((idx, on) ∷ states) loads dirty k (fresh, h) =
    get-merge states (poll_load idx on (loads, dirty)).0 (poll_load idx on (loads, dirty)).1 k h
    ∙ elim (Bool-cases (int_beq idx k)) [
      | inl same ↦
          let e : idx ≡ k = (int_beq_iff idx k).0 same in
          let once : get states k ≡ none = ap (get states) (sym e) ∙ fresh in
          rw (once, same) (rw same at (get-poll_load idx k on dirty loads))
      | inr other ↦ rw other (
          ap (λ o. merged_entry o (get states k))
            (rw other at (get-poll_load idx k on dirty loads)))
    ]

abbrev pub primed_entry : Bool → LoadState
primed_entry on = record { on = on; level = if on then pos 99 else pos 0 }

abbrev pub primed : Option LoadState → Option Bool → Option LoadState
primed old none = old
primed old (some on) = some (primed_entry on)

-- After priming with a report that has no key twice, every reported load is full on or off, whatever was
-- known of it, and no other entry has changed.
pub get-prime :
    (states : BitMap) (loads : Loads) (k : ℤ)
    → IsDict states
    → get (prime loads states) k ≡ primed (get loads k) (get states k)
unfolding prime get
get-prime [] loads k h = refl
get-prime ((idx, on) ∷ states) loads k (fresh, h) =
    let written = get-put loads idx k (primed_entry on) in
    get-prime states (put loads idx (primed_entry on)) k h ∙ elim (Bool-cases (int_beq idx k)) [
      | inl same ↦
          let e : idx ≡ k = (int_beq_iff idx k).0 same in
          let once : get states k ≡ none = ap (get states) (sym e) ∙ fresh in
          rw (once, same) (rw same at written)
      | inr other ↦ rw other (ground (arith, rw other at written))
    ]

-- An entry as the bridge can report it: on exactly where its level is above 0.
abbrev pub consistent : ℤ → Bool → Bool
consistent (pos n) on = bool_eq on (ltb 0 n)
consistent (negsuc n) on = false

abbrev pub consistent_entry : Option LoadState → Bool
consistent_entry none = true
consistent_entry (some l) = consistent l.level l.on

corrected-consistent :
    (m : LoadState) (on : Bool)
    → consistent m.level m.on ≡ true
    → consistent (corrected m on).level (corrected m on).on ≡ true
corrected-consistent m on h = ground arith

corrected_off-consistent :
    (on : Bool) → let l = corrected (entry_or_off none) on in consistent l.level l.on ≡ true
corrected_off-consistent true = refl
corrected_off-consistent false = refl

polled_entry-consistent :
    (old : Option LoadState) (report : Option Bool)
    → consistent_entry old ≡ true
    → consistent_entry (polled_entry old report) ≡ true
polled_entry-consistent old none h = h
polled_entry-consistent none (some on) h = ground (arith, corrected_off-consistent on)
polled_entry-consistent (some m) (some on) h = ground (arith, corrected-consistent m on)

merged_entry-consistent :
    (old : Option LoadState) (report : Option Bool)
    → consistent_entry old ≡ true
    → consistent_entry (merged_entry old report) ≡ true
merged_entry-consistent old report h =
    rw (← polled_entry-merged old report) (polled_entry-consistent old report h)

-- A safety poll whose report has no key twice leaves an entry on exactly where its level is above 0, if
-- it finds it so or finds none.
pub merge-consistent :
    (states : BitMap) (loads : Loads) (dirty : Bool) (k : ℤ)
    → IsDict states
    → consistent_entry (get loads k) ≡ true
    → consistent_entry (get (merge (loads, dirty) states).0 k) ≡ true
merge-consistent states loads dirty k d h =
    rw (get-merge states loads dirty k d) (merged_entry-consistent (get loads k) (get states k) h)

-- A load event with a level that is not negative leaves every entry on exactly where its level is
-- above 0, if it finds the entry so or finds none.
pub load_changed-consistent :
    (loads : Loads) (idx k : ℤ) (level : ℕ)
    → consistent_entry (get loads k) ≡ true
    → consistent_entry (get (load_changed loads (record { idx = idx; level = pos level })) k) ≡ true
unfolding load_changed
load_changed-consistent loads idx k level h =
    ground (arith, get-put loads idx k (record { on = leb 1 level; level = pos level }))
