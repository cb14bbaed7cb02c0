-- ===== src/ConfigFlow/Scan.antt =====
-- The discovery scan of the import step, on a connection of its own.
use centralite_ha.Base.{
  ℕ, ℤ, pos, Bool, true, false, not, ◌&&◌, none, List, ◌≡◌, refl, arith, Result, ok, err, Error,
  leb, ltb, if◌then◌else◌,
}
use centralite_ha.Text.{Text}
use centralite_ha.Dict.{Dict, get, int_eq}
use centralite_ha.Protocol.Session.{Session, Inbound, fresh, connect, disconnect}
use centralite_ha.Protocol.JetStream.{scan_device_names}
use centralite_ha.Protocol.JetStream.Scan.{
  IsLive, breaks, found_name, scan_device_names-found, scan_device_names_aborted,
}
use centralite_ha.ConfigFlow.Draft.{done, fails, scan_failed}
use centralite_ha.ConfigFlow.Steps.{scanned, scan_names}

-- The connection after an open that succeeded.
abbrev opened : Session
opened = record fresh { lost = false; writer = true; reading = true }

opened-IsLive : IsLive opened
opened-IsLive = record { writer = refl; reading = refl; lost = refl }

abbrev pub IsClosed : Session → Type 0
IsClosed s = (s.writer ≡ false) × (s.reading ≡ false)

scanned-IsClosed : (r : Result (Dict ℤ Text) × Session) → IsClosed (scanned r).1
unfolding disconnect
scanned-IsClosed (ok names, s) = (refl, refl)
scanned-IsClosed (err e, s) = (refl, refl)

-- A scan that reaches the bridge and whose connection does not break finds a name for exactly those of the
-- devices 1 to 96 that answered with one, and leaves its connection closed.
pub scan_names-found :
    (arrivals : ℕ → List Inbound)
    → breaks arrivals 1 96 ≡ false
    → (d : Dict ℤ Text) × ((scan_names true arrivals).0 ≡ done d)
      × ((k : ℕ)
          → get d (pos k) ≡ (if leb 1 k && ltb k 97 then found_name k (arrivals k) else none))
      × IsClosed (scan_names true arrivals).1
unfolding scan_names connect
scan_names-found arrivals h =
    let (d, ran, finds) = scan_device_names-found arrivals opened opened-IsLive h in
    (
      d,
      scanned-done (scan_device_names arrivals opened) d ran,
      finds,
      scanned-IsClosed (scan_device_names arrivals opened),
    )
  where
    scanned-done :
        (r : Result (Dict ℤ Text) × Session) (d : Dict ℤ Text) → r.0 ≡ ok d → (scanned r).0 ≡ done d
    scanned-done (ok names, s) d e = cc
    scanned-done (err x, s) d e = cc

scanned-fails :
    (r : Result (Dict ℤ Text) × Session) {x : Error}
    → r.0 ≡ err x
    → (scanned r).0 ≡ fails scan_failed
scanned-fails (ok names, s) e = cc
scanned-fails (err x, s) e = refl

-- A scan that cannot open the port, or whose connection breaks during the probe of one of the devices 1 to
-- 96, fails as a scan, with no names, and leaves its connection closed.
pub scan_names_failed :
    (opens : Bool) (arrivals : ℕ → List Inbound)
    → (opens && not (breaks arrivals 1 96)) ≡ false
    → ((scan_names opens arrivals).0 ≡ fails scan_failed) × IsClosed (scan_names opens arrivals).1
unfolding scan_names connect disconnect
scan_names_failed false arrivals h = (refl, (refl, refl))
scan_names_failed true arrivals h = (
  scanned-fails (scan_device_names arrivals opened)
      (scan_device_names_aborted arrivals opened opened-IsLive (ground arith)),
  scanned-IsClosed (scan_device_names arrivals opened),
)
