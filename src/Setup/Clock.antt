-- ===== src/Setup/Clock.antt =====
-- custom_components/centralite/button.py and protocol/__init__.py: the button that sets the clock of the
-- bridge, and what the base class of the protocols does where a bridge has none.
use centralite_ha.Base.{
  true, false, inl, inr, List, [], ◌∷◌, ◌++◌, ◌≡◌, refl, ok, err, not_implemented,
}
use mathlib.Core.Logic.{◌⊎◌}
use centralite_ha.Text.{Text, codes}
use centralite_ha.Protocol.Session.{Session, Method, Inbound, raise, send}
use centralite_ha.Protocol.Clock.{encode_bcd_clock, parse_bcd_clock}
use centralite_ha.Protocol.Clock.Date.{DateTime, IsDateTime}
use centralite_ha.Protocol.Clock.RoundTrip.{as_read, parse-encode}
use centralite_ha.ConfigFlow.Draft.{System, elegance, jetstream}
use centralite_ha.Setup.Entry.{capabilities}
use centralite_ha.Protocol.Elegance

-- Those of the base class, which JetStream keeps.
abbrev pub base_set_clock : DateTime → Method (Unit {0})
base_set_clock dt = raise not_implemented

abbrev pub base_get_clock : List Inbound → Method DateTime
base_get_clock arrivals = raise not_implemented

unfoldable pub set_clock : System → DateTime → Method (Unit {0})
unfolding Elegance.set_clock
set_clock elegance dt = Elegance.set_clock dt
set_clock jetstream dt = base_set_clock dt

unfoldable pub get_clock : System → List Inbound → Method DateTime
unfolding Elegance.get_clock
get_clock elegance arrivals = Elegance.get_clock arrivals
get_clock jetstream arrivals = base_get_clock arrivals

-- async_press: `now` is dt_util.now().
unfoldable pub async_press : System → DateTime → Method (Unit {0})
unfolding set_clock
async_press system now = set_clock system now

-- Where the protocol has a clock, so that there is a button, a press of it on an open session writes ^L and
-- a text that the reader of the clock takes back as the time of the press, but for its century and
-- its microseconds; where it has none, setting the clock raises NotImplementedError and writes nothing.
pub async_press-read :
    (system : System) (now : DateTime) (s : Session)
    → IsDateTime now
    → s.writer ≡ true
    → (((capabilities system).supports_clock ≡ true)
        × (payload : Text) × (async_press system now s
            ≡ (ok tt, record s { sent = s.sent ++ (codes "^L" ++ payload) ∷ [] }))
        × (parse_bcd_clock payload ≡ ok (as_read now)))
      ⊎ (((capabilities system).supports_clock ≡ false)
          × (async_press system now s ≡ (err not_implemented, s)))
unfolding async_press set_clock Elegance.set_clock send
async_press-read elegance now s v open' =
    inl (refl, encode_bcd_clock now, rw open' refl, parse-encode now v)
async_press-read jetstream now s v open' = inr (refl, refl)
