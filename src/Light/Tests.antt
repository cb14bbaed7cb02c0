-- ===== src/Light/Tests.antt =====
-- The theorems about a light at concrete levels.
use centralite_ha.Base.{ℕ, ◌≤◌, pos, true, some, [], ◌∷◌, ◌≡◌, refl, arith}
use centralite_ha.Dict.{get}
use centralite_ha.Coordinator.Loads.{Loads}
use centralite_ha.Light.{Light, brightness, turn_on, set_load_level}
use centralite_ha.Light.RoundTrip.{turn_on-brightness}

abbrev lamp : Light
lamp = record { idx = pos 12; dimmable = true }

abbrev table : Loads
table = (pos 12, record { on = true; level = pos 50 }) ∷ []

brightness_run : brightness table lamp ≡ some (pos 128)
unfolding brightness get
brightness_run = refl

turn_on-brightness_example :
    (b : ℕ) × (brightness table lamp ≡ some (pos b))
    × (b ≤ 255)
    × (turn_on lamp (some b) ≡ set_load_level (pos 12) 50)
unfolding get
turn_on-brightness_example =
    turn_on-brightness table lamp (record { on = true; level = pos 50 }) 50 refl refl refl
      (omega arith) (omega arith)
