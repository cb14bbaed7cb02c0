-- ===== src/Light.antt =====
-- custom_components/centralite/light.py: a load as a light. `level / 99 * 255` and
-- `brightness / 255 * 99` are floats in the source; over the levels -99 to 99 and the brightnesses 0 to
-- 255 their `int` and `round` are the integer quotients below, and no quotient is a tie.
pub mod RoundTrip
mod Tests
use centralite_ha.Base.{
  ℕ, suc, ◌+◌, ◌-◌, ◌*◌, ◌/◌, ℤ, pos, negsuc, neg, Bool, true, false, not, Option, none, some, List,
  ◌++◌, if◌then◌else◌, ◌==◌, min, max,
}
use centralite_ha.Text.{Text, codes}
use centralite_ha.Text.Number.{pad_int}
use centralite_ha.Dict.{get, int_eq}
use centralite_ha.Coordinator.State.{LoadState}
use centralite_ha.Coordinator.Loads.{Loads, is_zero}

pub record Light : Type 0 where
  pub idx : ℤ
  pub dimmable : Bool

-- f"{entry_id}_load_{idx:03d}"
unfoldable pub unique_id : Text → Light → Text
unique_id entry_id light = entry_id ++ (codes "_load_" ++ pad_int 3 light.idx)

abbrev pub on_of : Option LoadState → Bool
on_of none = false
on_of (some l) = l.on

abbrev pub level_or_zero : Option LoadState → ℤ
level_or_zero none = pos 0
level_or_zero (some l) = l.level

unfoldable pub is_on : Loads → Light → Bool
is_on loads light = on_of (get loads light.idx)

-- min(255, int(level / 99 * 255)), where `int` drops the fraction towards 0.
unfoldable pub scale_level : ℤ → ℤ
scale_level (pos n) = pos (min 255 (n * 255 / 99))
scale_level (negsuc n) = neg ((n + 1) * 255 / 99)

unfoldable pub brightness : Loads → Light → Option ℤ
unfolding scale_level
brightness loads light =
    if not light.dimmable
    then none
    else (let level = level_or_zero (get loads light.idx) in
        if is_zero level then some (pos 0) else some (scale_level level))

-- max(1, round(brightness / 255 * 99))
unfoldable pub level_for : ℕ → ℕ
level_for b = max 1 ((2 * b * 99 + 255) / 510)

-- The protocol call of a command.
pub data LightCall : Type 0 where
  set_load_level : ℤ → ℕ → LightCall
  activate_load : ℤ → LightCall
  deactivate_load : ℤ → LightCall

-- async_turn_on, with the brightness that the call may carry.
unfoldable pub turn_on : Light → Option ℕ → LightCall
turn_on light none = activate_load light.idx
turn_on light (some b) =
    if light.dimmable then set_load_level light.idx (level_for b) else activate_load light.idx

unfoldable pub turn_off : Light → LightCall
turn_off light = deactivate_load light.idx
