-- ===== src/ConfigFlow/Disabled.antt =====
-- custom_components/centralite/config_flow.py: what a file disables is among its loads.
use centralite_ha.Base.{
  ℤ, Bool, true, false, ◌&&◌, List, [], ◌∷◌, ◌≡◌, arith, if◌then◌else◌, Bool-cases, inl, inr,
}
use centralite_ha.Text.{Text}
use centralite_ha.Dict.{Dict, int_eq, pair_eq}
use centralite_ha.Sets.{member, add, int_order, pair_order}
use centralite_ha.Sets.Sorted.{member-add}
use centralite_ha.Parsers.Elg.{ElgConfig}
use centralite_ha.Parsers.Jts.Tree.{JtsConfig}
use centralite_ha.ConfigFlow.Draft.{
  done, Draft, nothing, jts_loads, add_scenes, add_buttons, import_jts, elg_loads, used_loads,
  add_switches, import_elg, is_nil,
}
use centralite_ha.ConfigFlow.Steps.{add_scanned}
use centralite_ha.ConfigFlow.Limits.{DisabledLoads}

-- What was in a set is in it after an `add`.
pub member-add_old : (y x : ℤ) (s : List ℤ) → member y s ≡ true → member y (add x s) ≡ true
member-add_old y x s h = ground (arith, member-add y x s)

jts_loads-DisabledLoads :
    (dimmable : Dict ℤ Bool) (loads : Dict ℤ Text) (i : Draft)
    → DisabledLoads i
    → DisabledLoads (jts_loads dimmable loads i)
unfolding jts_loads
jts_loads-DisabledLoads dimmable [] i h = h
jts_loads-DisabledLoads dimmable ((idx, name) ∷ rest) i h =
    jts_loads-DisabledLoads dimmable rest _ (λ y m. member-add_old y idx i.load_ids (h y m))

add_scenes-DisabledLoads :
    (scenes : Dict ℤ Text) (i : Draft) → DisabledLoads i → DisabledLoads (add_scenes scenes i)
unfolding add_scenes
add_scenes-DisabledLoads [] i h = h
add_scenes-DisabledLoads ((idx, name) ∷ rest) i h = add_scenes-DisabledLoads rest _ h

add_buttons-DisabledLoads :
    (buttons : Dict (ℤ × ℤ) Text) (i : Draft)
    → DisabledLoads i
    → DisabledLoads (add_buttons buttons i)
unfolding add_buttons
add_buttons-DisabledLoads [] i h = h
add_buttons-DisabledLoads ((b, label) ∷ rest) i h = add_buttons-DisabledLoads rest _ h

add_switches-DisabledLoads :
    (switches : Dict ℤ Text) (i : Draft) → DisabledLoads i → DisabledLoads (add_switches switches i)
unfolding add_switches
add_switches-DisabledLoads [] i h = h
add_switches-DisabledLoads ((idx, name) ∷ rest) i h = add_switches-DisabledLoads rest _ h

pub add_scanned-DisabledLoads :
    (names : Dict ℤ Text) (i : Draft) → DisabledLoads i → DisabledLoads (add_scanned names i)
unfolding add_scanned
add_scanned-DisabledLoads [] i h = h
add_scanned-DisabledLoads ((idx, name) ∷ rest) i h =
    add_scanned-DisabledLoads rest _ (λ y m. member-add_old y idx i.load_ids (h y m))

-- A used load is added to both sets, or to the loads only.
add-DisabledLoads :
    (blank : Bool) (idx : ℤ) (ids disabled : List ℤ)
    → ((y : ℤ) → member y disabled ≡ true → member y ids ≡ true)
    → (y : ℤ) → member y (if blank then add idx disabled else disabled) ≡ true
    → member y (add idx ids) ≡ true
add-DisabledLoads true idx ids disabled h y m =
    ground (arith, member-add y idx ids, member-add y idx disabled, h y)
add-DisabledLoads false idx ids disabled h y m = member-add_old y idx ids (h y m)

elg_loads-DisabledLoads :
    (cfg : ElgConfig) (used : List ℤ) (i : Draft)
    → DisabledLoads i
    → DisabledLoads (elg_loads cfg used i)
unfolding elg_loads
elg_loads-DisabledLoads cfg [] i h = h
elg_loads-DisabledLoads cfg (idx ∷ rest) i h =
    elg_loads-DisabledLoads cfg rest _ (add-DisabledLoads _ idx i.load_ids i.disabled h)

pub nothing-DisabledLoads : DisabledLoads nothing
unfolding member
nothing-DisabledLoads y m = cc

pub import_jts-DisabledLoads :
    (jts : JtsConfig) (i : Draft) → import_jts jts ≡ done i → DisabledLoads i
unfolding import_jts
import_jts-DisabledLoads jts i h = elim (Bool-cases (is_nil jts.loads && is_nil jts.scenes)) [
  | inl nil ↦ cc (rw nil at h)
  | inr full ↦
      let made : done (
            add_buttons jts.buttons
              (add_scenes jts.scenes (jts_loads jts.dimmable jts.loads nothing)))
          ≡ done i =
        rw full at h in
      let same : add_buttons jts.buttons
            (add_scenes jts.scenes (jts_loads jts.dimmable jts.loads nothing))
          ≡ i =
        cc in
      rw (← same) (
        add_buttons-DisabledLoads jts.buttons _ (
          add_scenes-DisabledLoads jts.scenes _
            (jts_loads-DisabledLoads jts.dimmable jts.loads nothing nothing-DisabledLoads)))
]

pub import_elg-DisabledLoads :
    (cfg : ElgConfig) (i : Draft) → import_elg cfg ≡ done i → DisabledLoads i
unfolding import_elg
import_elg-DisabledLoads cfg i h = elim (Bool-cases (is_nil cfg.loads && is_nil cfg.scenes)) [
  | inl nil ↦ cc (rw nil at h)
  | inr full ↦
      let made : done (
            add_switches cfg.switches
              (add_scenes cfg.scenes (elg_loads cfg (used_loads cfg) nothing)))
          ≡ done i =
        rw full at h in
      let same : add_switches cfg.switches
            (add_scenes cfg.scenes (elg_loads cfg (used_loads cfg) nothing))
          ≡ i =
        cc in
      rw (← same) (
        add_switches-DisabledLoads cfg.switches _ (
          add_scenes-DisabledLoads cfg.scenes _
            (elg_loads-DisabledLoads cfg (used_loads cfg) nothing nothing-DisabledLoads)))
]
