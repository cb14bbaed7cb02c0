-- ===== src/Light/RoundTrip.antt =====
-- Brightness and level.
use centralite_ha.Base.{ℕ, ◌*◌, ◌/◌, ◌≤◌, pos, true, some, ◌≡◌, arith}
use centralite_ha.Dict.{get, int_eq}
use centralite_ha.Coordinator.State.{LoadState}
use centralite_ha.Coordinator.Loads.{Loads}
use centralite_ha.Light.{Light, brightness, level_for, turn_on, set_load_level}

-- A dimmable light at level 1 to 99 that is turned on again at the brightness that it shows gets that level.
pub turn_on-brightness :
    (loads : Loads) (light : Light) (l : LoadState) (level : ℕ)
    → light.dimmable ≡ true
    → get loads light.idx ≡ some l
    → l.level ≡ pos level
    → 1 ≤ level
    → level ≤ 99
    → (b : ℕ) × (brightness loads light ≡ some (pos b))
      × (b ≤ 255)
      × (turn_on light (some b) ≡ set_load_level light.idx level)
unfolding brightness turn_on level_for
turn_on-brightness loads light l level d e v low high =
    (level * 255 / 99, ground arith, omega arith, ground arith)

-- A level command from any brightness 0 to 255 has a level from 1 to 99, and a brighter request never
-- has a lower level: turning on never writes the level 0, which the bridge takes for off.
pub level_for_bounds :
    (a b : ℕ)
    → a ≤ b
    → b ≤ 255
    → (1 ≤ level_for a) × (level_for a ≤ level_for b) × (level_for b ≤ 99)
unfolding level_for
level_for_bounds a b h k = (omega arith, omega arith, omega arith)
