-- ===== src/Parsers/Jts/Devices.antt =====
-- What every tree of devices yields.
use centralite_ha.Base.{
  ℤ, Bool, true, ◌||◌, Option, none, some, List, [], ◌∷◌, ◌≡◌, refl, sym, ap, ◌∙◌, arith, Result,
  ok, err, value_error, length, bind-ok, within_one, is_positive, ltb, if◌then◌else◌, Bool-cases,
  inl, inr,
}
use centralite_ha.Text.{Text, codes, strip}
use centralite_ha.Text.Match.{is_number}
use centralite_ha.Dict.{Dict, put, has, has-put, int_eq, pair_eq, int_beq, int_beq_iff}
use centralite_ha.Parsers.Jts.Tree.{
  Element, find, findtext, JtsConfig, as_index, read_int, stripped, lstrip_minus, is_true,
}
use centralite_ha.Parsers.Jts.Reader.{
  collect_buttons, usable, device_name, add_device, with_index, one_device, one_scene, each_element,
  no_config, read_tree, parse_jts, in_list, max_jts_bytes,
}
use centralite_ha.Parsers.Jts.Buttons.{AreButtons, collect_buttons-AreButtons}

-- A configuration that the import step can take: positive ids, a dimmer flag for each load and no other,
-- and buttons 1 to 3 of loads.
pub record IsConfig (c : JtsConfig) : Type 0 where
  pub positive_loads : (k : ℤ) → has c.loads k ≡ true → is_positive k ≡ true
  pub positive_scenes : (k : ℤ) → has c.scenes k ≡ true → is_positive k ≡ true
  pub flags : (k : ℤ) → has c.dimmable k ≡ has c.loads k
  pub buttons :
      (d b : ℤ) → has c.buttons (d, b) ≡ true → (within_one 3 b ≡ true) × (has c.loads d ≡ true)

positive-put :
    {V : Type 0} (d : Dict ℤ V) (idx : ℤ) (v : V)
    → is_positive idx ≡ true
    → ((k : ℤ) → has d k ≡ true → is_positive k ≡ true)
    → (k : ℤ) → has (put d idx v) k ≡ true
    → is_positive k ≡ true
positive-put d idx v q h k m = elim (Bool-cases (int_beq idx k)) [
  | inl same ↦ ap is_positive (sym ((int_beq_iff idx k).0 same)) ∙ q
  | inr other ↦ ground (arith, has-put d idx k v, h k)
]

as_index_positive :
    (t : Option Text) (idx : ℤ) → as_index t ≡ ok (some idx) → is_positive idx ≡ true
unfolding as_index
as_index_positive none idx h = cc
as_index_positive (some value) idx h = elim (Bool-cases (is_number (lstrip_minus (strip value)))) [
  | inl number ↦
      let (num, read, made) = bind-ok (read_int (strip value)) _ (rw number at h) in
      elim (Bool-cases (is_positive num)) [
        | inl yes' ↦
            let kept : ok (some num) ≡ ok (some idx) = rw yes' at made in
            let same : idx ≡ num = cc in ap is_positive same ∙ yes'
        | inr no' ↦ cc (rw no' at made)
      ]
  | inr other ↦ cc (rw other at h)
]

add_device-IsConfig :
    (dev : Element) (idx : ℤ) (c c' : JtsConfig)
    → add_device dev idx c ≡ ok c'
    → is_positive idx ≡ true
    → IsConfig c
    → IsConfig c'
add_device-IsConfig dev idx c c' h q i =
    let (buttons, read, made) = bind-ok (collect_buttons dev idx (device_name dev) c.buttons) _ h in
    let flag : Bool = is_true true (findtext (codes "Dimmer") dev) in
    let loads : Dict ℤ Text = put c.loads idx (device_name dev) in
    let same : record c { loads = loads; dimmable = put c.dimmable idx flag; buttons = buttons }
        ≡ c' =
      cc in
    let listed : (d : ℤ) → has loads d ≡ (int_beq idx d || has c.loads d) =
      λ d. has-put c.loads idx d (device_name dev) in
    let are : AreButtons (λ d. has loads d) buttons =
      collect_buttons-AreButtons (λ d. has loads d) dev idx (device_name dev) c.buttons buttons read
        (ground (arith, listed idx, int_beq_iff idx idx))
        (λ d b m. ground (arith, listed d, i.buttons d b)) in
    rw (← same) (record {
      positive_loads = positive-put c.loads idx (device_name dev) q i.positive_loads;
      positive_scenes = i.positive_scenes;
      flags = λ k. ground (arith, has-put c.dimmable idx k flag, listed k, i.flags k);
      buttons = are;
    })

one_device-IsConfig :
    (dev : Element) (c c' : JtsConfig) → one_device dev c ≡ ok c' → IsConfig c → IsConfig c'
unfolding one_device
one_device-IsConfig dev c c' h i =
    let (index, read, made) = bind-ok (as_index (findtext (codes "DeviceID") dev)) _ h in
    go index read made
  where
    go :
        (index : Option ℤ)
        → as_index (findtext (codes "DeviceID") dev) ≡ ok index
        → with_index index (λ idx d. if usable dev then add_device dev idx d else ok d) c ≡ ok c'
        → IsConfig c'
    go none read made = let same : c ≡ c' = cc in rw (← same) i
    go (some idx) read made = elim (Bool-cases (usable dev)) [
      | inl used ↦
          add_device-IsConfig dev idx c c' (rw used at made) (as_index_positive _ idx read) i
      | inr unused ↦
          let kept : ok c ≡ ok c' = rw unused at made in let same : c ≡ c' = cc in rw (← same) i
    ]

one_scene-IsConfig :
    (scene : Element) (c c' : JtsConfig) → one_scene scene c ≡ ok c' → IsConfig c → IsConfig c'
unfolding one_scene
one_scene-IsConfig scene c c' h i =
    let (index, read, made) = bind-ok (as_index (findtext (codes "ID") scene)) _ h in
    go index read made
  where
    go :
        (index : Option ℤ)
        → as_index (findtext (codes "ID") scene) ≡ ok index
        → with_index index
            (λ idx (d : JtsConfig).
              ok
                (record d { scenes = put d.scenes idx (stripped (findtext (codes "Name") scene)) }))
            c
          ≡ ok c'
        → IsConfig c'
    go none read made = let same : c ≡ c' = cc in rw (← same) i
    go (some idx) read made =
        let scenes : Dict ℤ Text = put c.scenes idx (stripped (findtext (codes "Name") scene)) in
        let same : record c { scenes = scenes } ≡ c' = cc in
        rw (← same) (record {
          positive_loads = i.positive_loads;
          positive_scenes =
              positive-put c.scenes idx (stripped (findtext (codes "Name") scene))
                (as_index_positive _ idx read) i.positive_scenes;
          flags = i.flags;
          buttons = i.buttons;
        })

each_element-keeps :
    (body : Element → JtsConfig → Result JtsConfig)
    → ((e : Element) (c c' : JtsConfig) → body e c ≡ ok c' → IsConfig c → IsConfig c')
    → (es : List Element) (c c' : JtsConfig) → each_element body es c ≡ ok c'
    → IsConfig c
    → IsConfig c'
unfolding each_element
each_element-keeps body keep [] c c' h i = let same : c ≡ c' = cc in rw (← same) i
each_element-keeps body keep (e ∷ es) c c' h i =
    let (mid, once, more) = bind-ok (body e c) (each_element body es) h in
    each_element-keeps body keep es mid c' more (keep e c mid once i)

no_config-IsConfig : IsConfig no_config
unfolding has
no_config-IsConfig = record {
  positive_loads = λ k m. cc;
  positive_scenes = λ k m. cc;
  flags = λ k. refl;
  buttons = λ d b m. cc;
}

read_tree-IsConfig : (root : Element) (c : JtsConfig) → read_tree root ≡ ok c → IsConfig c
unfolding read_tree
read_tree-IsConfig root c h =
    let (mid, devices, scenes) =
      bind-ok
        (each_element one_device (in_list (find (codes "DeviceList") root) (codes "Device"))
          no_config)
        _ h in
    each_element-keeps one_scene one_scene-IsConfig
      (in_list (find (codes "SceneList") root) (codes "Scene")) mid c scenes
      (each_element-keeps one_device one_device-IsConfig
        (in_list (find (codes "DeviceList") root) (codes "Device")) no_config mid devices
        no_config-IsConfig)

-- Whatever tree the XML parser makes of the text, a .jts file that is read has positive load and scene ids,
-- a dimmer flag for each of its loads and for nothing else, and only buttons 1 to 3 of loads that it has.
pub parse_jts-IsConfig :
    (fromstring : Text → Option Element) (text : Text) (c : JtsConfig)
    → parse_jts fromstring text ≡ ok c
    → IsConfig c
unfolding parse_jts
parse_jts-IsConfig fromstring text c h = elim (Bool-cases (ltb max_jts_bytes (length text))) [
  | inl large ↦ cc (rw large at h)
  | inr small ↦ go (fromstring text) (rw small at h)
]
  where
    go :
        (root : Option Element)
        → elim root as (λ x. Result JtsConfig) [ none ↦ err value_error | some r ↦ read_tree r ]
          ≡ ok c
        → IsConfig c
    go none made = cc
    go (some r) made = read_tree-IsConfig r c made
