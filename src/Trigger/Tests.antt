-- ===== src/Trigger/Tests.antt =====
-- The theorems about device triggers at concrete entries.
use centralite_ha.Base.{pos, true, false, some, [], ◌∷◌, ◌≡◌, refl, arith, All}
use centralite_ha.Protocol.Event.{press, tap}
use centralite_ha.Coordinator.Handlers.{fire_button_event, button_subtype}
use centralite_ha.Text.Number.{pad_int, show_int}
use centralite_ha.Dict.{int_eq}
use centralite_ha.Sets.{sorted_set, int_order}
use centralite_ha.Trigger.{Entry, get_triggers, fires}
use centralite_ha.Trigger.Coverage.{any, get_triggers-jetstream}

sorted_set_run : sorted_set (pos 5 ∷ pos 2 ∷ pos 5 ∷ []) ≡ pos 2 ∷ pos 5 ∷ []
unfolding sorted_set
sorted_set_run = refl

-- Device 7 is known by its button switch only.
abbrev jetstream_entry : Entry
jetstream_entry = record {
  is_jetstream = true;
  load_ids = pos 5 ∷ pos 2 ∷ [];
  button_ids = (pos 7, pos 1) ∷ [];
  switch_ids = [];
}

abbrev elegance_entry : Entry
elegance_entry = record {
  is_jetstream = false;
  load_ids = [];
  button_ids = [];
  switch_ids = pos 12 ∷ pos 44 ∷ [];
}

get_triggers-jetstream_example :
    All
      (λ event. any (fires event) (get_triggers (some jetstream_entry)) ≡ true)
      (fire_button_event true (record { idx = pos 7; action = tap; board = pos 0; button = pos 3 }))
get_triggers-jetstream_example =
    get_triggers-jetstream jetstream_entry true tap (pos 7) (pos 0) 3 refl refl (omega arith)
      (omega arith)

fires_itself :
    fires
      (record { action = press; subtype = button_subtype (pos 12) (pos 2) })
      (record { trigger_type = press; subtype = button_subtype (pos 12) (pos 2) })
    ≡ true
unfolding button_subtype pad_int show_int
fires_itself = refl
