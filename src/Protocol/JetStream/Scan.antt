-- ===== src/Protocol/JetStream/Scan.antt =====
-- The discovery scan of JetStream, over the arrivals of its probes.
use centralite_ha.Base.{
  ℕ, zero, suc, ◌+◌, ◌≤◌, ℤ, pos, Bool, true, false, not, ◌&&◌, ◌||◌, Option, none, some, List, [],
  ◌∷◌, ◌++◌, ◌≡◌, refl, ap, ◌∙◌, arith, Result, ok, err, protocol_error, within_one, if◌then◌else◌,
  leb, ltb, ◌==◌, ==_iff, length, drop, Bool-cases, inl, inr,
}
use centralite_ha.Text.{Text, or_none, codes, starts_with, strip}
use centralite_ha.Text.Number.{pad_int}
use centralite_ha.Dict.{Dict, get, get-put, int_eq}
use centralite_ha.Protocol.Session.{Session, Inbound, line, broken}
use centralite_ha.Protocol.Session.Waiting.{first_answer, sendrecv-first_answer}
use centralite_ha.Protocol.Session.Frame.{has_broken, sendrecv-Frame}
use centralite_ha.Protocol.JetStream.{
  dispatch, name_prefix, name_of, get_device_name, scan_loop, scan_device_names, add_name,
  jetstream_max_loads,
}
use centralite_ha.Protocol.JetStream.Events.{dispatch-IsDispatch}

abbrev reply_name : ℤ → Result Text → Option Text
reply_name idx (ok response) = or_none (strip (drop (length (name_prefix idx)) response))
reply_name idx (err e) = none

-- The name that a probe finds: that of the first NAM line for the device, if it is not blank.
abbrev pub found_name : ℕ → List Inbound → Option Text
found_name idx arrivals =
    reply_name (pos idx) (first_answer (λ t. starts_with t (name_prefix (pos idx))) arrivals)

-- The session can be used, and has not lost its connection.
pub record IsLive (s : Session) : Type 0 where
  pub writer : s.writer ≡ true
  pub reading : s.reading ≡ true
  pub lost : s.lost ≡ false

-- The only error of a request is the ProtocolError that a probe takes for silence.
name_of-first_answer :
    (idx : ℤ) (accepts : Text → Bool) (arrivals : List Inbound)
    → name_of idx (first_answer accepts arrivals)
      ≡ ok (reply_name idx (first_answer accepts arrivals))
name_of-first_answer idx accepts [] = refl
name_of-first_answer idx accepts (line [] ∷ rest) = name_of-first_answer idx accepts rest
name_of-first_answer idx accepts (line (c ∷ t) ∷ rest) = elim (Bool-cases (accepts (c ∷ t))) [
  | inl accepted ↦ rw accepted
  | inr passed ↦ rw passed (name_of-first_answer idx accepts rest)
]
name_of-first_answer idx accepts (broken ∷ rest) = refl

-- A probe returns what it found, and the session says whether the connection broke.
get_device_name-found :
    (idx : ℕ) (arrivals : List Inbound) (s : Session)
    → 1 ≤ idx
    → idx ≤ 199
    → IsLive s
    → ((get_device_name (pos idx) arrivals s).0 ≡ ok (found_name idx arrivals))
      × ((get_device_name (pos idx) arrivals s).1.writer ≡ true)
      × ((get_device_name (pos idx) arrivals s).1.reading ≡ not (has_broken arrivals))
      × ((get_device_name (pos idx) arrivals s).1.lost ≡ has_broken arrivals)
unfolding get_device_name
get_device_name-found idx arrivals s a b live =
    let test : within_one jetstream_max_loads (pos idx) ≡ true = ground arith in
    let accepts : Text → Bool = λ t. starts_with t (name_prefix (pos idx)) in
    let command : Text = codes "^N" ++ pad_int 3 (pos idx) in
    let (frame, _) =
      sendrecv-Frame dispatch (λ t. true) dispatch-IsDispatch command accepts arrivals s
        live.writer in
    rw test (
      ap (name_of (pos idx)) (
            sendrecv-first_answer dispatch (λ t. true) dispatch-IsDispatch command accepts arrivals
              s live.writer live.reading)
          ∙ name_of-first_answer (pos idx) accepts arrivals,
      frame.writer ∙ live.writer,
      ground (arith, frame, live),
      ground (arith, frame, live),
    )

-- Whether a connection breaks during one of the probes `idx` to `idx + rounds - 1`.
abbrev pub breaks : (ℕ → List Inbound) → ℕ → ℕ → Bool
breaks arrivals idx zero = false
breaks arrivals idx (suc rounds) = has_broken (arrivals idx) || breaks arrivals (suc idx) rounds

abbrev pub or_else {ℓ} : {A : Type ℓ} → Option A → Option A → Option A
or_else none o = o
or_else (some a) o = some a

-- Exactly the names that the probes from `idx` on find are added.
abbrev pub Finds : (ℕ → List Inbound) → ℕ → ℕ → Dict ℤ Text → Dict ℤ Text → Type 0
Finds arrivals idx rounds found d =
    (k : ℕ)
    → get d (pos k) ≡ (
        if leb idx k && ltb k (idx + rounds)
        then or_else (found_name k (arrivals k)) (get found (pos k))
        else get found (pos k))

get-add_name :
    (name : Option Text) (idx k : ℕ) (found : Dict ℤ Text)
    → get (add_name name idx found) (pos k)
      ≡ (if idx == k then or_else name (get found (pos k)) else get found (pos k))
get-add_name none idx k found = ground arith
get-add_name (some name) idx k found = rw get-put (ground arith)

Finds-add_name :
    (arrivals : ℕ → List Inbound) (idx rounds : ℕ) (found d : Dict ℤ Text)
    → Finds arrivals (suc idx) rounds (add_name (found_name idx (arrivals idx)) idx found) d
    → Finds arrivals idx (suc rounds) found d
Finds-add_name arrivals idx rounds found d h k = elim (Bool-cases (idx == k)) [
  | inl here ↦
      let same : idx ≡ k = (==_iff idx k).0 here in
      ground (
        arith,
        h k,
        get-add_name (found_name idx (arrivals idx)) idx k found,
        ap (λ i. found_name i (arrivals i)) same,
      )
  | inr there ↦ ground (arith, h k, get-add_name (found_name idx (arrivals idx)) idx k found)
]

scan_loop-found :
    (arrivals : ℕ → List Inbound) (idx rounds : ℕ) (found : Dict ℤ Text) (s : Session)
    → 1 ≤ idx
    → idx + rounds ≤ 200
    → IsLive s
    → breaks arrivals idx rounds ≡ false
    → (d : Dict ℤ Text) × ((scan_loop arrivals idx rounds found s).0 ≡ ok d)
      × Finds arrivals idx rounds found d
unfolding scan_loop
scan_loop-found arrivals idx zero found s a b live h = (found, refl, λ k. ground arith)
scan_loop-found arrivals idx (suc rounds) found s a b live h =
    let (name, writer, reading, lost) =
      get_device_name-found idx (arrivals idx) s a (omega arith) live in
    let probed : IsLive (get_device_name (pos idx) (arrivals idx) s).1 = record {
      writer = writer;
      reading = ground arith;
      lost = ground arith;
    } in
    let (d, ran, finds) =
      scan_loop-found arrivals (suc idx) rounds (add_name (found_name idx (arrivals idx)) idx found)
        (get_device_name (pos idx) (arrivals idx) s).1 (omega arith) (omega arith) probed
        (ground arith) in
    (d, rw name (rw probed.lost ran), Finds-add_name arrivals idx rounds found d finds)

scan_loop_aborted :
    (arrivals : ℕ → List Inbound) (idx rounds : ℕ) (found : Dict ℤ Text) (s : Session)
    → 1 ≤ idx
    → idx + rounds ≤ 200
    → IsLive s
    → breaks arrivals idx rounds ≡ true
    → (scan_loop arrivals idx rounds found s).0 ≡ err protocol_error
unfolding scan_loop
scan_loop_aborted arrivals idx zero found s a b live h = cc
scan_loop_aborted arrivals idx (suc rounds) found s a b live h =
    let (name, writer, reading, lost) =
      get_device_name-found idx (arrivals idx) s a (omega arith) live in
    elim (Bool-cases (has_broken (arrivals idx))) [
      | inl now ↦ rw name (rw (lost ∙ now))
      | inr later ↦
          let probed : IsLive (get_device_name (pos idx) (arrivals idx) s).1 = record {
            writer = writer;
            reading = ground arith;
            lost = ground arith;
          } in
          rw name (
            rw probed.lost (
              scan_loop_aborted arrivals (suc idx) rounds
                (add_name (found_name idx (arrivals idx)) idx found)
                (get_device_name (pos idx) (arrivals idx) s).1 (omega arith) (omega arith) probed
                (ground arith)))
    ]

-- On a live connection that does not break, the scan returns a name for exactly those of the devices
-- 1 to 96 whose probe was answered by a NAM line for that device with a name that is not blank.
pub scan_device_names-found :
    (arrivals : ℕ → List Inbound) (s : Session)
    → IsLive s
    → breaks arrivals 1 96 ≡ false
    → (d : Dict ℤ Text) × ((scan_device_names arrivals s).0 ≡ ok d)
      × ((k : ℕ)
          → get d (pos k) ≡ (if leb 1 k && ltb k 97 then found_name k (arrivals k) else none))
unfolding scan_device_names get
scan_device_names-found arrivals s live h =
    let (d, ran, finds) = scan_loop-found arrivals 1 96 [] s (omega arith) (omega arith) live h in
    (d, ran, λ k. ground (arith, finds k))

-- On a connection that is live at first, if it breaks during the probe of one of the devices 1 to 96, the
-- scan raises a ProtocolError instead of returning the names so far.
pub scan_device_names_aborted :
    (arrivals : ℕ → List Inbound) (s : Session)
    → IsLive s
    → breaks arrivals 1 96 ≡ true
    → (scan_device_names arrivals s).0 ≡ err protocol_error
unfolding scan_device_names
scan_device_names_aborted arrivals s live h =
    scan_loop_aborted arrivals 1 96 [] s (omega arith) (omega arith) live h
