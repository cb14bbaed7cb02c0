-- ===== src/ConfigFlow/Buttons.antt =====
-- custom_components/centralite/config_flow.py: the button numbers that the import step collects.
use centralite_ha.Base.{
  ℤ, pos, Bool, true, false, ◌&&◌, ◌||◌, List, [], ◌∷◌, map, ◌≡◌, refl, sym, ap, ◌∙◌, arith,
  within_one, Bool-cases, inl, inr,
}
use centralite_ha.Text.{Text}
use centralite_ha.Dict.{Dict, has, int_eq, pair_eq, int_beq, pair_beq, int_beq_iff}
use centralite_ha.Sets.{member, sorted_set, int_order, pair_order}
use centralite_ha.Sets.Sorted.{member-add, member-update, member-sorted_set}
use centralite_ha.Parsers.Elg.{ElgConfig}
use centralite_ha.Parsers.Jts.Tree.{JtsConfig}
use centralite_ha.Parsers.Jts.Devices.{IsConfig}
use centralite_ha.ConfigFlow.Draft.{
  done, Draft, nothing, jts_loads, add_scenes, add_buttons, add_switches, elg_loads, used_loads,
  import_jts, import_elg, is_nil,
}
use centralite_ha.ConfigFlow.Steps.{add_scanned, all_pairs}

-- The three buttons that the protocol of a JetStream bridge can address.
abbrev pub AreNumbers : List (ℤ × ℤ) → Type 0
AreNumbers pairs = (d b : ℤ) → member (d, b) pairs ≡ true → within_one 3 b ≡ true

jts_loads-button_pairs :
    (dimmable : Dict ℤ Bool) (loads : Dict ℤ Text) (i : Draft)
    → (jts_loads dimmable loads i).button_pairs ≡ i.button_pairs
unfolding jts_loads
jts_loads-button_pairs dimmable [] i = refl
jts_loads-button_pairs dimmable ((idx, name) ∷ rest) i = jts_loads-button_pairs dimmable rest _

add_scenes-button_pairs :
    (scenes : Dict ℤ Text) (i : Draft) → (add_scenes scenes i).button_pairs ≡ i.button_pairs
unfolding add_scenes
add_scenes-button_pairs [] i = refl
add_scenes-button_pairs ((idx, name) ∷ rest) i = add_scenes-button_pairs rest _

add_switches-button_pairs :
    (switches : Dict ℤ Text) (i : Draft) → (add_switches switches i).button_pairs ≡ i.button_pairs
unfolding add_switches
add_switches-button_pairs [] i = refl
add_switches-button_pairs ((idx, name) ∷ rest) i = add_switches-button_pairs rest _

elg_loads-button_pairs :
    (cfg : ElgConfig) (used : List ℤ) (i : Draft)
    → (elg_loads cfg used i).button_pairs ≡ i.button_pairs
unfolding elg_loads
elg_loads-button_pairs cfg [] i = refl
elg_loads-button_pairs cfg (idx ∷ rest) i = elg_loads-button_pairs cfg rest _

pub add_scanned-button_pairs :
    (names : Dict ℤ Text) (i : Draft) → (add_scanned names i).button_pairs ≡ i.button_pairs
unfolding add_scanned
add_scanned-button_pairs [] i = refl
add_scanned-button_pairs ((idx, name) ∷ rest) i = add_scanned-button_pairs rest _

pair_beq_sym : (p q : ℤ × ℤ) → pair_beq p q ≡ pair_beq q p
pair_beq_sym (a, b) (c, d) =
    ground (arith, int_beq_iff a c, int_beq_iff c a, int_beq_iff b d, int_beq_iff d b)

member-add_buttons :
    (buttons : Dict (ℤ × ℤ) Text) (i : Draft) (p : ℤ × ℤ)
    → member p (add_buttons buttons i).button_pairs ≡ (has buttons p || member p i.button_pairs)
unfolding add_buttons has
member-add_buttons [] i p = refl
member-add_buttons ((button, label) ∷ rest) i p =
    member-add_buttons rest _ p
    ∙ rw (member-add p button i.button_pairs, pair_beq_sym button p) ground arith

pub nothing-AreNumbers : AreNumbers nothing.button_pairs
unfolding member
nothing-AreNumbers d b m = cc

pub import_elg-AreNumbers :
    (cfg : ElgConfig) (i : Draft) → import_elg cfg ≡ done i → AreNumbers i.button_pairs
unfolding import_elg
import_elg-AreNumbers cfg i h = elim (Bool-cases (is_nil cfg.loads && is_nil cfg.scenes)) [
  | inl nil ↦ cc (rw nil at h)
  | inr full ↦ go (rw full at h)
]
  where
    go :
        done (
            add_switches cfg.switches
              (add_scenes cfg.scenes (elg_loads cfg (used_loads cfg) nothing)))
          ≡ done i
        → AreNumbers i.button_pairs
    go made =
        let same : add_switches cfg.switches
              (add_scenes cfg.scenes (elg_loads cfg (used_loads cfg) nothing))
            ≡ i =
          cc in
        let e : i.button_pairs ≡ [] =
          ap (λ (x : Draft). x.button_pairs) (sym same)
          ∙ add_switches-button_pairs cfg.switches _
          ∙ add_scenes-button_pairs cfg.scenes _
          ∙ elg_loads-button_pairs cfg (used_loads cfg) nothing in
        rw e nothing-AreNumbers

pub import_jts-AreNumbers :
    (jts : JtsConfig) (i : Draft)
    → import_jts jts ≡ done i
    → IsConfig jts
    → AreNumbers i.button_pairs
unfolding import_jts member
import_jts-AreNumbers jts i h c = elim (Bool-cases (is_nil jts.loads && is_nil jts.scenes)) [
  | inl nil ↦ cc (rw nil at h)
  | inr full ↦ go (rw full at h)
]
  where
    go :
        done (
            add_buttons jts.buttons
              (add_scenes jts.scenes (jts_loads jts.dimmable jts.loads nothing)))
          ≡ done i
        → AreNumbers i.button_pairs
    go made d b m =
        let same : add_buttons jts.buttons
              (add_scenes jts.scenes (jts_loads jts.dimmable jts.loads nothing))
            ≡ i =
          cc in
        let before : (add_scenes jts.scenes (jts_loads jts.dimmable jts.loads nothing)).button_pairs
            ≡ [] =
          add_scenes-button_pairs jts.scenes _
          ∙ jts_loads-button_pairs jts.dimmable jts.loads nothing in
        let listed : member (d, b) i.button_pairs ≡ (has jts.buttons (d, b) || false) =
          ap (λ (x : Draft). member (d, b) x.button_pairs) (sym same)
          ∙ member-add_buttons jts.buttons
              (add_scenes jts.scenes (jts_loads jts.dimmable jts.loads nothing)) (d, b)
          ∙ ap (λ t. has jts.buttons (d, b) || member (d, b) t) before in
        (c.buttons d b (ground (arith, m, listed))).0

-- The pairs that the step adds for the ids typed by hand.
ones-AreNumbers : (ids : List ℤ) → AreNumbers (map (λ idx. (idx, pos 1)) ids)
unfolding member
ones-AreNumbers [] d b m = cc
ones-AreNumbers (x ∷ xs) d b m = elim (Bool-cases (int_beq b (pos 1))) [
  | inl first ↦ ap (within_one 3) ((int_beq_iff b (pos 1)).0 first)
  | inr other ↦ ones-AreNumbers xs d b (ground (arith, m, other))
]

pub all_pairs-AreNumbers :
    (i : Draft) → AreNumbers i.button_pairs → AreNumbers (sorted_set (all_pairs i))
all_pairs-AreNumbers i h d b m =
    let ones : List (ℤ × ℤ) = map (λ idx. (idx, pos 1)) i.switch_ids in
    let listed : member (d, b) (sorted_set (all_pairs i))
        ≡ (member (d, b) ones || member (d, b) i.button_pairs) =
      member-sorted_set (d, b) (all_pairs i) ∙ member-update (d, b) i.button_pairs ones in
    elim (Bool-cases (member (d, b) i.button_pairs)) [
      | inl old ↦ h d b old
      | inr new ↦ ones-AreNumbers i.switch_ids d b (ground (arith, m, listed, new))
    ]
