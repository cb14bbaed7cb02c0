-- ===== src/ConfigFlow/Checks.antt =====
-- custom_components/centralite/config_flow.py: the checks of the import step, and the entry behind them.
use centralite_ha.Base.{
  ℤ, true, List, [], ◌≡◌, refl, sym, ap, ◌∙◌, within_one, Bool-cases, inl, inr,
}
use centralite_ha.Dict.{int_eq, pair_eq}
use centralite_ha.Sets.{member, sorted_set, int_order, pair_order}
use centralite_ha.Sets.Sorted.{
  is_ascending, sorted_set-is_ascending, member-sorted_set, pair_order-IsLinear,
}
use centralite_ha.ConfigFlow.Buttons.{AreNumbers, nothing-AreNumbers, all_pairs-AreNumbers}
use centralite_ha.ConfigFlow.Draft.{
  System, elegance, jetstream, Kind, load, scene, switch, limit, Attempt, done, fails, ◌>>=◌, ◌>>◌,
  all_within, check_range, Draft,
}
use centralite_ha.ConfigFlow.Steps.{Entry, device_numbers, all_pairs, buttons_of, make_entry}
use centralite_ha.ConfigFlow.Limits.{
  IsEntry, entry_of, entry_of-IsEntry, DisabledLoads, all_within-member, member-device_numbers,
}

pub >>=-done :
    {A B : Type 0} (m : Attempt A) (f : A → Attempt B) {b : B}
    → (m >>= f) ≡ done b
    → (a : A) × (m ≡ done a) × (f a ≡ done b)
>>=-done (done a) f h = (a, refl, h)
>>=-done (fails e) f h = cc

check_range-done :
    {B : Type 0} (kind : Kind) (ids : List ℤ) (system : System) (m : Attempt B) {b : B}
    → (check_range kind ids system >> m) ≡ done b
    → (all_within (limit system kind) ids ≡ true) × (m ≡ done b)
check_range-done kind ids system m h = elim (Bool-cases (all_within (limit system kind) ids)) [
  | inl a ↦ (a, rw a at h)
  | inr no' ↦ cc (rw no' at h)
]

buttons_of-within :
    (system : System) (i : Draft) {pairs : List (ℤ × ℤ)}
    → buttons_of system i ≡ done pairs
    → (d b : ℤ) → member (d, b) pairs ≡ true
    → within_one (limit system switch) d ≡ true
unfolding member
buttons_of-within elegance i {pairs} h d b m =
    let empty : pairs ≡ [] = cc in
    let m' : member {A = ℤ × ℤ} (d, b) [] ≡ true = rw empty at m in cc
buttons_of-within jetstream i {pairs} h d b m =
    let (a, e) =
      check_range-done switch (device_numbers (all_pairs i)) jetstream
        (done (sorted_set (all_pairs i))) h in
    let same : sorted_set (all_pairs i) ≡ pairs = cc in
    all_within-member (limit jetstream switch) (device_numbers (all_pairs i)) d a (
      member-device_numbers (all_pairs i) d b
        (sym (member-sorted_set (d, b) (all_pairs i)) ∙ ap (member (d, b)) same ∙ m))

buttons_of-AreNumbers :
    (system : System) (i : Draft) {pairs : List (ℤ × ℤ)}
    → buttons_of system i ≡ done pairs
    → AreNumbers i.button_pairs
    → AreNumbers pairs
buttons_of-AreNumbers elegance i {pairs} h n =
    let empty : [] ≡ pairs = cc in rw (← empty) nothing-AreNumbers
buttons_of-AreNumbers jetstream i {pairs} h n =
    let (a, e) =
      check_range-done switch (device_numbers (all_pairs i)) jetstream
        (done (sorted_set (all_pairs i))) h in
    let same : sorted_set (all_pairs i) ≡ pairs = cc in rw (← same) (all_pairs-AreNumbers i n)

buttons_of-is_ascending :
    (system : System) (i : Draft) {pairs : List (ℤ × ℤ)}
    → buttons_of system i ≡ done pairs
    → is_ascending pairs ≡ true
buttons_of-is_ascending elegance i {pairs} h = let empty : [] ≡ pairs = cc in rw (← empty) refl
buttons_of-is_ascending jetstream i {pairs} h =
    let (a, e) =
      check_range-done switch (device_numbers (all_pairs i)) jetstream
        (done (sorted_set (all_pairs i))) h in
    let same : sorted_set (all_pairs i) ≡ pairs = cc in
    rw (← same) (sorted_set-is_ascending pair_order-IsLinear (all_pairs i))

pub make_entry-IsEntry :
    (system : System) (i : Draft) (e : Entry)
    → make_entry system i ≡ done e
    → DisabledLoads i
    → AreNumbers i.button_pairs
    → IsEntry system e
unfolding make_entry
make_entry-IsEntry system i e h sub numbers =
    let (loads, h1) = check_range-done load i.load_ids system _ h in
    let (scenes, h2) = check_range-done scene i.scene_ids system _ h1 in
    let (switches, h3) = check_range-done switch i.switch_ids system _ h2 in
    let (pairs, buttons, h4) = >>=-done (buttons_of system i) _ h3 in
    let same : entry_of system i pairs ≡ e = cc in
    rw (← same) (
      entry_of-IsEntry system i pairs
        (record { loads = loads; scenes = scenes; switches = switches }) sub
        (buttons_of-within system i buttons) (buttons_of-AreNumbers system i buttons numbers)
        (buttons_of-is_ascending system i buttons))

pub make_entry_loads :
    (system : System) (i : Draft) (e : Entry)
    → make_entry system i ≡ done e
    → (e.load_ids ≡ sorted_set i.load_ids)
      × (e.disabled_loads ≡ sorted_set i.disabled)
      × (e.load_names ≡ i.load_names)
unfolding make_entry
make_entry_loads system i e h =
    let (loads, h1) = check_range-done load i.load_ids system _ h in
    let (scenes, h2) = check_range-done scene i.scene_ids system _ h1 in
    let (switches, h3) = check_range-done switch i.switch_ids system _ h2 in
    let (pairs, buttons, h4) = >>=-done (buttons_of system i) _ h3 in
    let same : entry_of system i pairs ≡ e = cc in
    (
      ap (λ (x : Entry). x.load_ids) (sym same),
      ap (λ (x : Entry). x.disabled_loads) (sym same),
      ap (λ (x : Entry). x.load_names) (sym same),
    )
