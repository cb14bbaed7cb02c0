-- ===== src/ConfigFlow/Steps.antt =====
-- custom_components/centralite/config_flow.py: the import step from its form to the entry, the user step
-- and the options.
use centralite_ha.Base.{
  ℕ, ℤ, pos, Bool, true, false, ◌&&◌, Option, none, some, List, [], ◌∷◌, ◌++◌, map, Result, ok, err,
  if◌then◌else◌,
}
use centralite_ha.Text.{Text, codes, strip}
use centralite_ha.Text.Number.{show_int}
use centralite_ha.Dict.{Dict, put, int_eq, pair_eq, text_key}
use centralite_ha.Sets.{
  member, add, update, difference, intersection, sorted_set, int_order, pair_order,
}
use centralite_ha.Protocol.Session.{Session, Inbound, fresh, connect, disconnect}
use centralite_ha.Protocol.JetStream.{scan_device_names}
use centralite_ha.Parsers.Csv.{parse_csv_ids}
use centralite_ha.Parsers.Elg.{parse_elg}
use centralite_ha.Parsers.Jts.Tree.{Element}
use centralite_ha.Parsers.Jts.Reader.{parse_jts}
use centralite_ha.ConfigFlow.Draft.{
  Attempt, Draft, System, all_within, check_range, done, elegance, fails, import_elg, import_jts,
  jetstream, load, nothing, parsed, scan_failed, scene, switch, ◌>>=◌, ◌>>◌,
}

-- The form of the import step.
pub record UserInput : Type 0 where
  pub elg_text : Text
  pub load_ids_csv : Text
  pub scene_ids_csv : Text
  pub switch_ids_csv : Text
  pub scan_jetstream : Bool

unfoldable pub import_text : (Text → Option Element) → System → Text → Attempt Draft
unfolding import_jts import_elg parse_jts parse_elg
import_text fromstring system [] = done nothing
import_text fromstring jetstream (c ∷ text) =
    parsed (parse_jts fromstring (c ∷ text)) >>= import_jts
import_text fromstring elegance (c ∷ text) = import_elg (parse_elg (c ∷ text))

-- The ids typed by hand.
unfoldable pub import_csv : UserInput → Draft → Attempt Draft
unfolding parse_csv_ids update difference
import_csv input i = do
  csv_loads ← parsed (parse_csv_ids input.load_ids_csv)
  csv_scenes ← parsed (parse_csv_ids input.scene_ids_csv)
  csv_switches ← parsed (parse_csv_ids input.switch_ids_csv)
  done (record i {
    load_ids = update i.load_ids csv_loads;
    disabled = difference i.disabled csv_loads;
    scene_ids = update i.scene_ids csv_scenes;
    switch_ids = update i.switch_ids csv_switches;
  })

abbrev pub scanned : Result (Dict ℤ Text) × Session → Attempt (Dict ℤ Text) × Session
scanned (ok names, s) = (done names, disconnect s)
scanned (err e, s) = (fails scan_failed, disconnect s)

abbrev pub scan_open :
    (ℕ → List Inbound) → Result (Unit {0}) × Session → Attempt (Dict ℤ Text) × Session
scan_open arrivals (ok _, s) = scanned (scan_device_names arrivals s)
scan_open arrivals (err e, s) = (fails scan_failed, disconnect s)

-- _scan_jetstream_names: whether the port opens in time, and what arrives during each probe.
unfoldable pub scan_names : Bool → (ℕ → List Inbound) → Attempt (Dict ℤ Text) × Session
unfolding connect disconnect scan_device_names
scan_names opens arrivals = scan_open arrivals (connect opens fresh)

unfoldable pub add_scanned : Dict ℤ Text → Draft → Draft
unfolding add put
add_scanned [] i = i
add_scanned ((idx, name) ∷ rest) i =
    add_scanned rest (record i {
      load_ids = add idx i.load_ids;
      load_names = put i.load_names (show_int idx) name;
    })

abbrev pub is_jetstream : System → Bool
is_jetstream elegance = false
is_jetstream jetstream = true

abbrev pub import_scan : System → UserInput → Attempt (Dict ℤ Text) → Draft → Attempt Draft
import_scan system input scan i =
    if input.scan_jetstream && is_jetstream system
    then scan >>= (λ names. done (add_scanned names i))
    else done i

-- The data and the options of the entry that the import step makes; a list that the step leaves out is
-- empty.
pub record Entry : Type 0 where
  pub load_ids : List ℤ
  pub disabled_loads : List ℤ
  pub scene_ids : List ℤ
  pub button_ids : List (ℤ × ℤ)
  pub switch_ids : List ℤ
  pub load_names : Dict Text Text
  pub scene_names : Dict Text Text
  pub switch_names : Dict Text Text
  pub nondimmable_loads : List ℤ

abbrev pub device_numbers : List (ℤ × ℤ) → List ℤ
device_numbers pairs = map (λ p. p.0) pairs

-- button_pairs |= {(idx, 1) for idx in switch_ids}
abbrev pub all_pairs : Draft → List (ℤ × ℤ)
all_pairs i = update i.button_pairs (map (λ idx. (idx, pos 1)) i.switch_ids)

abbrev pub buttons_of : System → Draft → Attempt (List (ℤ × ℤ))
buttons_of elegance i = done []
buttons_of jetstream i = do
  check_range switch (device_numbers (all_pairs i)) jetstream
  done (sorted_set (all_pairs i))

-- The checks and what is behind them.
unfoldable pub make_entry : System → Draft → Attempt Entry
unfolding all_within sorted_set update intersection
make_entry system i = do
  check_range load i.load_ids system
  check_range scene i.scene_ids system
  check_range switch i.switch_ids system
  pairs ← buttons_of system i
  done (record {
    load_ids = sorted_set i.load_ids;
    disabled_loads = sorted_set i.disabled;
    scene_ids = sorted_set i.scene_ids;
    button_ids = pairs;
    switch_ids = if is_jetstream system then [] else sorted_set i.switch_ids;
    load_names = i.load_names;
    scene_names = i.scene_names;
    switch_names = i.switch_names;
    nondimmable_loads = sorted_set (intersection i.nondimmable i.load_ids);
  })

-- async_step_import with the form filled in: the entry, or the error that the form shows again.
unfoldable pub step_import :
    (Text → Option Element) → System → UserInput → Attempt (Dict ℤ Text) → Attempt Entry
unfolding import_text import_csv make_entry add_scanned
step_import fromstring system input scan = do
  i ← import_text fromstring system (strip input.elg_text)
  j ← import_csv input i
  k ← import_scan system input scan j
  make_entry system k

-- f"{system}@{port}"
unfoldable pub entry_id : System → Text → Text
entry_id elegance port = codes "elegance@" ++ port
entry_id jetstream port = codes "jetstream@" ++ port

-- What async_step_user keeps.
pub record Connection : Type 0 where
  pub system : System
  pub port : Text
  pub baud : ℤ

-- async_step_user with the form filled in: the step aborts where the unique id is taken.
unfoldable pub step_user : List Text → System → Text → ℤ → Option Connection
unfolding member entry_id
step_user configured system port baud =
    if member (entry_id system (strip port)) configured
    then none
    else some (record { system = system; port = strip port; baud = baud })

-- The options of an entry that the options flow reads or keeps; `none` where the key is missing.
pub record Options : Type 0 where
  pub names : Dict Text Text
  pub poll_interval : Option ℤ
  pub sync_clock_on_connect : Option Bool

abbrev pub or_no : Option Bool → Bool
or_no none = false
or_no (some b) = b

-- async_step_init of the options flow with the form filled in.
unfoldable pub step_init : System → Options → ℤ → Option Bool → Options
step_init elegance options poll_interval sync = record options {
  poll_interval = some poll_interval;
  sync_clock_on_connect = some (or_no sync);
}
step_init jetstream options poll_interval sync = record options {
  poll_interval = some poll_interval;
}
