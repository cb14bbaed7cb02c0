-- ===== src/Setup/Suffixes.antt =====
-- The parts of the unique ids behind the id of the entry: those of one kind, and what tells the kinds apart.
use centralite_ha.Base.{
  ℕ, ◌<◌, ℤ, Bool, true, List, [], ◌∷◌, ◌++◌, map, ◌≡◌, sym, ap, ◌∙◌, arith, drop, take, ◌==◌,
  if◌then◌else◌, within_one, inl, inr, Bool-cases,
}
use centralite_ha.Text.{Text, codes}
use centralite_ha.Text.Number.{pad_int}
use centralite_ha.Text.Number.Padded.{
  pad_int_three-injective, pad_int_two-injective, take-pad_int_three,
}
use centralite_ha.Dict.{Eq, int_eq, pair_eq, text_key}
use centralite_ha.Sets.{member, int_order, pair_order}
use centralite_ha.Sets.Sorted.{
  is_ascending, is_distinct, is_ascending-is_distinct, int_order-IsLinear, member-append,
}
use centralite_ha.Sets.Distinct.{map-is_distinct, member-map}
use centralite_ha.ConfigFlow.Draft.{System, elegance, jetstream, limit, Kind, load, scene, switch}
use centralite_ha.ConfigFlow.Steps.{Entry}

-- The parts of the unique ids behind the id of the entry.
abbrev pub load_suffix : ℤ → Text
load_suffix idx = codes "_load_" ++ pad_int 3 idx

abbrev pub switch_suffix : ℤ → Text
switch_suffix idx = codes "_switch_" ++ pad_int 3 idx

abbrev pub button_suffix : ℤ × ℤ → Text
button_suffix pair = codes "_button_" ++ (pad_int 3 pair.0 ++ (codes "_" ++ pad_int 2 pair.1))

abbrev pub scene_suffix : ℤ → Text
scene_suffix idx = codes "_scene_" ++ pad_int 3 idx

-- The suffixes of an entry.
abbrev pub clock_suffixes : Bool → List Text
clock_suffixes supports_clock = if supports_clock then codes "_sync_clock" ∷ [] else []

abbrev pub load_suffixes : Entry → List Text
load_suffixes e = map load_suffix e.load_ids

abbrev pub button_suffixes : System → Entry → List Text
button_suffixes elegance e = map switch_suffix e.switch_ids
button_suffixes jetstream e = map button_suffix e.button_ids

abbrev pub scene_suffixes : Entry → List Text
scene_suffixes e = map scene_suffix e.scene_ids

-- A suffix is told by its third character.
abbrev pub tag : Text → ℕ
tag [] = 0
tag (a ∷ []) = 0
tag (a ∷ b ∷ []) = 0
tag (a ∷ b ∷ c ∷ t) = c

pub limit_small : (system : System) (k : Kind) → limit system k < 1000
limit_small elegance load = omega arith
limit_small elegance scene = omega arith
limit_small elegance switch = omega arith
limit_small jetstream load = omega arith
limit_small jetstream scene = omega arith
limit_small jetstream switch = omega arith

-- Whether a suffix of a list has a tag, the same for all of them.
abbrev pub Tags : ℕ → Bool → List Text → Type 0
Tags c b suffixes = (z : Text) → member z suffixes ≡ true → (tag z == c) ≡ b

pub map-Tags :
    {A : Type 0} ⦃e : Eq A⦄ (f : A → Text) (c : ℕ) (b : Bool) (xs : List A)
    → ((x : A) → (tag (f x) == c) ≡ b)
    → Tags c b (map f xs)
map-Tags f c b xs h z m = let (x, listed, eq) = member-map f z xs m in ap (λ t. tag t == c) eq ∙ h x

pub append-Tags :
    (c : ℕ) (b : Bool) (xs ys : List Text) → Tags c b xs → Tags c b ys → Tags c b (xs ++ ys)
append-Tags c b xs ys hx hy z m = elim (Bool-cases (member z xs)) [
  | inl left ↦ hx z left
  | inr right ↦ hy z (ground (arith, m, right, member-append z xs ys))
]

-- Suffixes that end in a padded id.
pub numbered-is_distinct :
    (k : ℕ) (prefix : Text) (hi : ℕ) (ids : List ℤ)
    → ((t : Text) → drop k (prefix ++ t) ≡ t)
    → hi < 1000
    → ((y : ℤ) → member y ids ≡ true → within_one hi y ≡ true)
    → is_ascending ids ≡ true
    → is_distinct (map (λ idx. prefix ++ pad_int 3 idx) ids) ≡ true
numbered-is_distinct k prefix hi ids cut small within asc =
    map-is_distinct (λ idx. prefix ++ pad_int 3 idx) ids
      (is_ascending-is_distinct int_order-IsLinear ids asc)
      (λ x y m n e.
        pad_int_three-injective hi x y small (within x m) (within y n)
          (sym (cut (pad_int 3 x)) ∙ ap (drop k) e ∙ cut (pad_int 3 y)))

pub button_suffix-injective :
    (hi : ℕ) (p q : ℤ × ℤ)
    → hi < 1000
    → within_one hi p.0 ≡ true
    → within_one hi q.0 ≡ true
    → within_one 3 p.1 ≡ true
    → within_one 3 q.1 ≡ true
    → button_suffix p ≡ button_suffix q
    → p ≡ q
button_suffix-injective hi (d, b) (x, y) small wd wx wb wy e =
    let e' : pad_int 3 d ++ (codes "_" ++ pad_int 2 b) ≡ pad_int 3 x ++ (codes "_" ++ pad_int 2 y) =
      ap (drop 8) e in
    let (first, rest) = take-pad_int_three hi d (codes "_" ++ pad_int 2 b) small wd in
    let (first', rest') = take-pad_int_three hi x (codes "_" ++ pad_int 2 y) small wx in
    let device : d ≡ x =
      pad_int_three-injective hi d x small wd wx (sym first ∙ ap (take 3) e' ∙ first') in
    let button : b ≡ y =
      pad_int_two-injective 3 b y (omega arith) wb wy
        (ap (drop 1) (sym rest ∙ ap (drop 3) e' ∙ rest')) in
    cc
