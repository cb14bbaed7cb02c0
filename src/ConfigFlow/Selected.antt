-- ===== src/ConfigFlow/Selected.antt =====
-- custom_components/centralite/config_flow.py: which devices the import step takes from a .elg file.
use centralite_ha.Base.{
  ℤ, Bool, true, false, not, ◌&&◌, ◌||◌, List, [], ◌∷◌, map, ◌≡◌, refl, ap, ◌∙◌, arith,
  if◌then◌else◌, Bool-cases, inl, inr,
}
use centralite_ha.Text.{Text, is_empty}
use centralite_ha.Dict.{Dict, get, has, int_eq, int_beq, int_beq_iff}
use centralite_ha.Sets.{member, add, intersection}
use centralite_ha.Sets.Sorted.{member-add, member-update, member-keep}
use centralite_ha.Parsers.Elg.{ElgConfig}
use centralite_ha.ConfigFlow.Draft.{
  Attempt, done, fails, import_failed, Draft, nothing, name_or_empty, add_scenes, add_switches,
  named_loads, used_loads, elg_loads, import_elg, is_nil,
}

-- A load with a name in the file.
unfoldable pub is_named : Dict ℤ Text → ℤ → Bool
is_named [] y = false
is_named ((k, name) ∷ d) y = (int_beq k y && not (is_empty name)) || is_named d y

-- A load that has a name, or that a scene or a button of the file uses.
abbrev pub is_used : ElgConfig → ℤ → Bool
is_used cfg y = is_named cfg.loads y || (member y cfg.referenced_loads && has cfg.loads y)

pub int_beq_sym : (a b : ℤ) → int_beq a b ≡ int_beq b a
int_beq_sym a b = ground (arith, int_beq_iff a b, int_beq_iff b a)

member-named_loads : (d : Dict ℤ Text) (y : ℤ) → member y (named_loads d) ≡ is_named d y
unfolding named_loads is_named member
member-named_loads [] y = refl
member-named_loads ((k, name) ∷ d) y =
    ground (arith, member-add y k (named_loads d), member-named_loads d y, int_beq_sym k y)

member-keys : {V : Type 0} (d : Dict ℤ V) (y : ℤ) → member y (map (λ entry. entry.0) d) ≡ has d y
unfolding has member
member-keys [] y = refl
member-keys ((k, v) ∷ d) y = rw (member-keys d y, int_beq_sym y k) refl

pub member-used_loads : (cfg : ElgConfig) (y : ℤ) → member y (used_loads cfg) ≡ is_used cfg y
unfolding used_loads intersection
member-used_loads cfg y =
    member-update y (named_loads cfg.loads)
      (intersection cfg.referenced_loads (map (λ entry. entry.0) cfg.loads))
    ∙ rw
        (
          member-keep (λ x. member x (map (λ entry. entry.0) cfg.loads)) y cfg.referenced_loads,
          member-keys cfg.loads y,
          member-named_loads cfg.loads y,
        )
        (ground arith)

-- A load without a name in the file, so that `get` gives none or an empty one.
abbrev pub is_unnamed : ElgConfig → ℤ → Bool
is_unnamed cfg y = is_empty (name_or_empty (get cfg.loads y))

-- One load more, in the ids and among the disabled.
one_more : (m b o : Bool) → (m || (b || o)) ≡ ((if b then true else m) || o)
one_more m b o = ground arith

one_more_off :
    (m b u o : Bool) → ((m && u) || ((b && u) || o)) ≡ (((if b then true else m) && u) || o)
one_more_off m b u o = ground arith

member-disabled :
    (cfg : ElgConfig) (idx y : ℤ) (off : List ℤ)
    → member y (if is_unnamed cfg idx then add idx off else off)
      ≡ ((int_beq y idx && is_unnamed cfg y) || member y off)
member-disabled cfg idx y off = elim (Bool-cases (int_beq y idx)) [
  | inl same ↦
      let e : is_unnamed cfg y ≡ is_unnamed cfg idx =
        ap (is_unnamed cfg) ((int_beq_iff y idx).0 same) in
      rw (same, e) (by_name (is_unnamed cfg idx) ∙ rw same refl)
  | inr other ↦ by_name (is_unnamed cfg idx) ∙ rw other refl
]
  where
    by_name :
        (u : Bool)
        → member y (if u then add idx off else off) ≡ ((int_beq y idx && u) || member y off)
    by_name true = member-add y idx off ∙ ground arith
    by_name false = ground arith

member-elg_loads :
    (cfg : ElgConfig) (ids : List ℤ) (i : Draft) (y : ℤ)
    → (member y (elg_loads cfg ids i).load_ids ≡ (member y ids || member y i.load_ids))
      × (member y (elg_loads cfg ids i).disabled
          ≡ ((member y ids && is_unnamed cfg y) || member y i.disabled))
      × ((elg_loads cfg ids i).scene_ids ≡ i.scene_ids)
      × ((elg_loads cfg ids i).switch_ids ≡ i.switch_ids)
unfolding elg_loads member
member-elg_loads cfg [] i y = (refl, refl, refl, refl)
member-elg_loads cfg (idx ∷ ids) i y =
    let (l, d, s, w) = member-elg_loads cfg ids _ y in
    (
      l
          ∙ rw (member-add y idx i.load_ids)
              (one_more (member y ids) (int_beq y idx) (member y i.load_ids)),
      d
          ∙ ap (λ b. (member y ids && is_unnamed cfg y) || b) (member-disabled cfg idx y i.disabled)
          ∙ one_more_off (member y ids) (int_beq y idx) (is_unnamed cfg y) (member y i.disabled),
      s,
      w,
    )

member-add_scenes :
    (scenes : Dict ℤ Text) (i : Draft) (y : ℤ)
    → (member y (add_scenes scenes i).scene_ids ≡ (has scenes y || member y i.scene_ids))
      × ((add_scenes scenes i).load_ids ≡ i.load_ids)
      × ((add_scenes scenes i).disabled ≡ i.disabled)
      × ((add_scenes scenes i).switch_ids ≡ i.switch_ids)
unfolding add_scenes has
member-add_scenes [] i y = (refl, refl, refl, refl)
member-add_scenes ((idx, name) ∷ rest) i y =
    let (m, l, d, w) = member-add_scenes rest _ y in
    (
      m
          ∙ rw (member-add y idx i.scene_ids, int_beq_sym idx y)
              (one_more (has rest y) (int_beq y idx) (member y i.scene_ids)),
      l,
      d,
      w,
    )

member-add_switches :
    (switches : Dict ℤ Text) (i : Draft) (y : ℤ)
    → (member y (add_switches switches i).switch_ids ≡ (has switches y || member y i.switch_ids))
      × ((add_switches switches i).load_ids ≡ i.load_ids)
      × ((add_switches switches i).disabled ≡ i.disabled)
      × ((add_switches switches i).scene_ids ≡ i.scene_ids)
unfolding add_switches has
member-add_switches [] i y = (refl, refl, refl, refl)
member-add_switches ((idx, name) ∷ rest) i y =
    let (m, l, d, w) = member-add_switches rest _ y in
    (
      m
          ∙ rw (member-add y idx i.switch_ids, int_beq_sym idx y)
              (one_more (has rest y) (int_beq y idx) (member y i.switch_ids)),
      l,
      d,
      w,
    )

-- Either the file has a load or a scene, and the draft holds what it uses, or the step fails.
abbrev pub Selects : ElgConfig → Attempt Draft → Type 0
Selects cfg (done i) =
    ((is_nil cfg.loads && is_nil cfg.scenes) ≡ false)
    × ((y : ℤ) → member y i.load_ids ≡ is_used cfg y)
    × ((y : ℤ) → member y i.disabled ≡ (is_used cfg y && is_unnamed cfg y))
    × ((y : ℤ) → member y i.scene_ids ≡ has cfg.scenes y)
    × ((y : ℤ) → member y i.switch_ids ≡ has cfg.switches y)
Selects cfg (fails x) = ((is_nil cfg.loads && is_nil cfg.scenes) ≡ true) × (x ≡ import_failed)

module _ (cfg : ElgConfig) (y : ℤ) where
  abbrev with_loads : Draft
  with_loads = elg_loads cfg (used_loads cfg) nothing

  abbrev with_scenes : Draft
  with_scenes = add_scenes cfg.scenes with_loads

  abbrev with_switches : Draft
  with_switches = add_switches cfg.switches with_scenes

  or_false : (b : Bool) → (b || false) ≡ b
  or_false b = ground arith

  -- The four lists of the draft.
  drafted :
      (member y with_switches.load_ids ≡ is_used cfg y)
      × (member y with_switches.disabled ≡ (is_used cfg y && is_unnamed cfg y))
      × (member y with_switches.scene_ids ≡ has cfg.scenes y)
      × (member y with_switches.switch_ids ≡ has cfg.switches y)
  unfolding member
  drafted =
      let (l, d, s, w) = member-elg_loads cfg (used_loads cfg) nothing y in
      let (m, l', d', w') = member-add_scenes cfg.scenes with_loads y in
      let (n, l'', d'', s'') = member-add_switches cfg.switches with_scenes y in
      let used = member-used_loads cfg y in
      (
        ap (member y) (l'' ∙ l') ∙ l ∙ or_false (member y (used_loads cfg)) ∙ used,
        ap (member y) (d'' ∙ d')
            ∙ d
            ∙ or_false (member y (used_loads cfg) && is_unnamed cfg y)
            ∙ ap (λ b. b && is_unnamed cfg y) used,
        ap (member y) s''
            ∙ m
            ∙ ap (λ t. has cfg.scenes y || member y t) s
            ∙ or_false (has cfg.scenes y),
        n ∙ ap (λ t. has cfg.switches y || member y t) (w' ∙ w) ∙ or_false (has cfg.switches y),
      )

-- Of a .elg file with a load or a scene, the import step takes the loads that have a name or that a scene
-- or a button of the file uses, disabled where they have no name, and all its scenes and named buttons; any
-- other file it refuses.
pub import_elg-Selects : (cfg : ElgConfig) → Selects cfg (import_elg cfg)
unfolding import_elg
import_elg-Selects cfg = elim (Bool-cases (is_nil cfg.loads && is_nil cfg.scenes)) [
  | inl empty ↦ rw empty (empty, refl)
  | inr some' ↦ rw some' (
    some',
    λ y. (drafted cfg y).0,
    λ y. (drafted cfg y).1,
    λ y. (drafted cfg y).2,
    λ y. (drafted cfg y).3,
  )
]
