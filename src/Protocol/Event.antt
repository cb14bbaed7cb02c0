-- ===== src/Protocol/Event.antt =====
-- custom_components/centralite/protocol/__init__.py: the push events.
use centralite_ha.Base.{ℤ, Bool}

-- The strings "tap", "press" and "release".
pub data Action : Type 0 where
  tap press release : Action

pub record LoadEvent : Type 0 where
  pub idx : ℤ
  pub level : ℤ

pub record SwitchEvent : Type 0 where
  pub idx : ℤ
  pub action : Action
  pub board : ℤ
  pub button : ℤ

pub record SceneEvent : Type 0 where
  pub idx : ℤ
  pub active : Bool

-- A call of one of the four callbacks. What a callback raises is logged and dropped by its caller.
pub data Call : Type 0 where
  on_load : LoadEvent → Call
  on_switch : SwitchEvent → Call
  on_scene : SceneEvent → Call
  on_disconnect : Call
