-- ===== src/Migrate/Rows.antt =====
-- The rows of the registry around the one that a call changes.
use centralite_ha.Base.{true, false, ◌||◌, List, [], ◌∷◌, ◌++◌, ◌≡◌, refl, ap, arith}
use centralite_ha.Text.{Text, text_eq}
use centralite_ha.Dict.{text_eq_iff}
use centralite_ha.Migrate.Registry.{Row}
use centralite_ha.Migrate.Effect.{without, change, in_rows, distinct, platform_of}

pub same_text : (t : Text) → text_eq t t ≡ true
same_text t = (text_eq_iff t t).1 refl

without_missing :
    (eid : Text) (rows : List Row) → in_rows eid rows ≡ false → without eid rows ≡ rows
unfolding in_rows without
without_missing eid [] h = refl
without_missing eid (row ∷ rows) h = ground (arith, without_missing eid rows)

change_missing :
    (eid : Text) (f : Row → Row) (rows : List Row)
    → in_rows eid rows ≡ false
    → change eid f rows ≡ rows
unfolding in_rows change
change_missing eid f [] h = refl
change_missing eid f (row ∷ rows) h = ground (arith, change_missing eid f rows)

pub without-append :
    (eid : Text) (before : List Row) (row : Row) (rows : List Row)
    → in_rows eid before ≡ false
    → in_rows eid rows ≡ false
    → text_eq row.entity_id eid ≡ true
    → without eid (before ++ row ∷ rows) ≡ before ++ rows
unfolding in_rows without
without-append eid [] row rows b h e = ground (arith, without_missing eid rows h)
without-append eid (r ∷ before) row rows b h e = ground (arith, without-append eid before row rows)

pub change-append :
    (eid : Text) (f : Row → Row) (before : List Row) (row : Row) (rows : List Row)
    → in_rows eid before ≡ false
    → in_rows eid rows ≡ false
    → text_eq row.entity_id eid ≡ true
    → change eid f (before ++ row ∷ rows) ≡ before ++ f row ∷ rows
unfolding in_rows change
change-append eid f [] row rows b h e = ground (arith, change_missing eid f rows h)
change-append eid f (r ∷ before) row rows b h e =
    ground (arith, change-append eid f before row rows)

pub in_rows-append :
    (eid : Text) (xs ys : List Row) → in_rows eid (xs ++ ys) ≡ (in_rows eid xs || in_rows eid ys)
unfolding in_rows
in_rows-append eid [] ys = refl
in_rows-append eid (x ∷ xs) ys = ground (arith, in_rows-append eid xs ys)

text_eq_sym : (s t : Text) → text_eq s t ≡ text_eq t s
text_eq_sym s t = ground (arith, text_eq_iff s t, text_eq_iff t s)

pub in_rows-here :
    (before : List Row) (row : Row) (rows : List Row)
    → in_rows row.entity_id (before ++ row ∷ rows) ≡ true
unfolding in_rows
in_rows-here [] row rows = rw (same_text row.entity_id) refl
in_rows-here (r ∷ before) row rows = ground (arith, in_rows-here before row rows)

pub platform_of-here :
    (before : List Row) (row : Row) (rows : List Row)
    → in_rows row.entity_id before ≡ false
    → platform_of row.entity_id (before ++ row ∷ rows) ≡ row.platform
unfolding in_rows platform_of
platform_of-here [] row rows h = rw (same_text row.entity_id) refl
platform_of-here (r ∷ before) row rows h = ground (arith, platform_of-here before row rows)

pub distinct-move :
    (before : List Row) (row : Row) (rows : List Row)
    → in_rows row.entity_id rows ≡ false
    → distinct before rows ≡ true
    → distinct (before ++ row ∷ []) rows ≡ true
unfolding distinct in_rows
distinct-move before row [] h d = refl
distinct-move before row (r ∷ rows) h d = ground (
  arith,
  distinct-move before row rows,
  in_rows-append r.entity_id before (row ∷ []),
  text_eq_sym r.entity_id row.entity_id,
)

pub append-cons :
    (before : List Row) (row : Row) (rows : List Row)
    → (before ++ row ∷ []) ++ rows ≡ before ++ row ∷ rows
append-cons [] row rows = refl
append-cons (r ∷ before) row rows = ap (◌∷◌ r) (append-cons before row rows)
