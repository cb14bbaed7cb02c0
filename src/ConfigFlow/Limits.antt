-- ===== src/ConfigFlow/Limits.antt =====
-- What an entry holds, whatever was imported, typed or scanned.
use centralite_ha.Base.{
  ℕ, ℤ, true, List, [], ◌∷◌, ◌≡◌, refl, sym, ap, ◌∙◌, arith, within_one, if◌then◌else◌, Bool-cases,
  inl, inr,
}
use centralite_ha.Dict.{int_eq, pair_eq, int_beq, int_beq_iff}
use centralite_ha.Sets.{member, intersection, sorted_set, int_order, pair_order}
use centralite_ha.Sets.Sorted.{
  is_ascending, sorted_set-is_ascending, member-keep, member-sorted_set, int_order-IsLinear,
}
use centralite_ha.ConfigFlow.Buttons.{AreNumbers}
use centralite_ha.ConfigFlow.Draft.{
  System, elegance, jetstream, load, scene, switch, limit, all_within, Draft,
}
use centralite_ha.ConfigFlow.Steps.{Entry, device_numbers, is_jetstream}

pub all_within-member :
    (hi : ℕ) (xs : List ℤ) (y : ℤ)
    → all_within hi xs ≡ true
    → member y xs ≡ true
    → within_one hi y ≡ true
unfolding all_within member
all_within-member hi [] y a m = cc
all_within-member hi (x ∷ xs) y a m = elim (Bool-cases (int_beq y x)) [
  | inl same ↦
      let e : within_one hi y ≡ within_one hi x = ap (within_one hi) ((int_beq_iff y x).0 same) in
      e ∙ ground arith
  | inr other ↦ all_within-member hi xs y (ground arith) (ground arith)
]

pub member-device_numbers :
    (pairs : List (ℤ × ℤ)) (d b : ℤ)
    → member (d, b) pairs ≡ true
    → member d (device_numbers pairs) ≡ true
unfolding member
member-device_numbers [] d b m = cc
member-device_numbers ((e, c) ∷ pairs) d b m = ground (arith, member-device_numbers pairs d b)

-- An entry that can be set up: every id is one that the protocol of the system accepts, the ids stand in
-- order and none comes twice, and what is disabled or not dimmable is a load of the entry.
pub record IsEntry (system : System) (e : Entry) : Type 0 where
  pub loads_within : (y : ℤ) → member y e.load_ids ≡ true → within_one (limit system load) y ≡ true
  pub scenes_within :
      (y : ℤ) → member y e.scene_ids ≡ true → within_one (limit system scene) y ≡ true
  pub switches_within :
      (y : ℤ) → member y e.switch_ids ≡ true → within_one (limit system switch) y ≡ true
  pub devices_within :
      (d b : ℤ) → member (d, b) e.button_ids ≡ true → within_one (limit system switch) d ≡ true
  pub buttons_within : AreNumbers e.button_ids
  pub loads_ascending : is_ascending e.load_ids ≡ true
  pub scenes_ascending : is_ascending e.scene_ids ≡ true
  pub switches_ascending : is_ascending e.switch_ids ≡ true
  pub buttons_ascending : is_ascending e.button_ids ≡ true
  pub disabled_loads : (y : ℤ) → member y e.disabled_loads ≡ true → member y e.load_ids ≡ true
  pub nondimmable_loads : (y : ℤ) → member y e.nondimmable_loads ≡ true → member y e.load_ids ≡ true

-- Every disabled load is a load.
abbrev pub DisabledLoads : Draft → Type 0
DisabledLoads i = (y : ℤ) → member y i.disabled ≡ true → member y i.load_ids ≡ true

-- The checks that have passed.
pub record Checked (system : System) (i : Draft) : Type 0 where
  pub loads : all_within (limit system load) i.load_ids ≡ true
  pub scenes : all_within (limit system scene) i.scene_ids ≡ true
  pub switches : all_within (limit system switch) i.switch_ids ≡ true

-- The entry of a draft, but for its buttons.
abbrev pub entry_of : System → Draft → List (ℤ × ℤ) → Entry
entry_of system i pairs = record {
  load_ids = sorted_set i.load_ids;
  disabled_loads = sorted_set i.disabled;
  scene_ids = sorted_set i.scene_ids;
  button_ids = pairs;
  switch_ids = if is_jetstream system then [] else sorted_set i.switch_ids;
  load_names = i.load_names;
  scene_names = i.scene_names;
  switch_names = i.switch_names;
  nondimmable_loads = sorted_set (intersection i.nondimmable i.load_ids);
}

within-sorted :
    (hi : ℕ) (xs : List ℤ) (y : ℤ)
    → all_within hi xs ≡ true
    → member y (sorted_set xs) ≡ true
    → within_one hi y ≡ true
within-sorted hi xs y a m = all_within-member hi xs y a (sym (member-sorted_set y xs) ∙ m)

member-intersection :
    (s t : List ℤ) (y : ℤ) → member y (intersection s t) ≡ true → member y t ≡ true
unfolding intersection
member-intersection s t y m = ground (arith, member-keep (λ x. member x t) y s)

switches_of-within :
    (system : System) (ids : List ℤ)
    → all_within (limit system switch) ids ≡ true
    → (y : ℤ) → member y (if is_jetstream system then [] else sorted_set ids) ≡ true
    → within_one (limit system switch) y ≡ true
unfolding member
switches_of-within elegance ids a y m = within-sorted _ ids y a m
switches_of-within jetstream ids a y m = cc

switches_of-is_ascending :
    (system : System) (ids : List ℤ)
    → is_ascending (if is_jetstream system then [] else sorted_set ids) ≡ true
switches_of-is_ascending elegance ids = sorted_set-is_ascending int_order-IsLinear ids
switches_of-is_ascending jetstream ids = refl

pub entry_of-IsEntry :
    (system : System) (i : Draft) (pairs : List (ℤ × ℤ))
    → Checked system i
    → DisabledLoads i
    → ((d b : ℤ) → member (d, b) pairs ≡ true → within_one (limit system switch) d ≡ true)
    → AreNumbers pairs
    → is_ascending pairs ≡ true
    → IsEntry system (entry_of system i pairs)
unfolding member sorted_set
entry_of-IsEntry system i pairs c h w n o = record {
  loads_within = λ y m. within-sorted _ i.load_ids y c.loads m;
  scenes_within = λ y m. within-sorted _ i.scene_ids y c.scenes m;
  switches_within = switches_of-within system i.switch_ids c.switches;
  devices_within = w;
  buttons_within = n;
  loads_ascending = sorted_set-is_ascending int_order-IsLinear i.load_ids;
  scenes_ascending = sorted_set-is_ascending int_order-IsLinear i.scene_ids;
  switches_ascending = switches_of-is_ascending system i.switch_ids;
  buttons_ascending = o;
  disabled_loads =
      λ y m. member-sorted_set y i.load_ids ∙ h y (sym (member-sorted_set y i.disabled) ∙ m);
  nondimmable_loads = λ y m.
      member-sorted_set y i.load_ids
      ∙ member-intersection i.nondimmable i.load_ids y
          (sym (member-sorted_set y (intersection i.nondimmable i.load_ids)) ∙ m);
}
