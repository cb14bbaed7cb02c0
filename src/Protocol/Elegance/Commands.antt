-- ===== src/Protocol/Elegance/Commands.antt =====
-- What the Elegance commands write and return.
use centralite_ha.Base.{
  ℕ, ◌≤◌, ℤ, pos, true, false, ◌&&◌, some, List, [], ◌∷◌, ◌++◌, ◌≡◌, refl, ap, ◌∙◌, arith, ok, err,
  value_error, bind, length, within_one, within_zero,
}
use centralite_ha.Text.{Text, codes, slice, strip}
use centralite_ha.Text.Number.{int, pad, pad_int}
use centralite_ha.Text.Number.Laws.{pad_two, pad_three, int-split, int-split_three}
use centralite_ha.Protocol.Bitmap.{max_loads, parse_load_bitmap}
use centralite_ha.Protocol.Session.{Session, Inbound, send, sendrecv, match_any, decode-bind}
use centralite_ha.Protocol.Session.Waiting.{first_answer, sendrecv-first_answer}
use centralite_ha.Protocol.Elegance.{dispatch, set_load_level, press_switch, get_all_load_states}
use centralite_ha.Protocol.Elegance.Events.{is_answer, dispatch-IsDispatch}

-- On an open session, a level command with its load in 1 to 192, its level up to 99 and its rate up to
-- 31 writes nine characters, ^E and three numbers that read back as these.
pub set_load_level-sent :
    (idx level rate : ℕ) (s : Session)
    → 1 ≤ idx
    → idx ≤ 192
    → level ≤ 99
    → rate ≤ 31
    → s.writer ≡ true
    → (command : Text) × (set_load_level (pos idx) (pos level) (pos rate) s
        ≡ (ok tt, record s { sent = s.sent ++ command ∷ [] }))
      × (length command ≡ 9)
      × (slice 0 2 command ≡ codes "^E")
      × (int (slice 2 5 command) ≡ some (pos idx))
      × (int (slice 5 7 command) ≡ some (pos level))
      × (int (slice 7 9 command) ≡ some (pos rate))
unfolding set_load_level send pad_int
set_load_level-sent idx level rate s a b c d w = (
  codes "^E" ++ (pad 3 idx ++ (pad 2 level ++ pad 2 rate)),
  ground arith,
  rw (pad_three idx (omega arith), pad_two level (omega arith), pad_two rate (omega arith)),
  refl,
  rw (pad_three idx (omega arith)) (int-split_three idx (omega arith)),
  rw (pad_three idx (omega arith), pad_two level (omega arith)) (int-split level (omega arith)),
  rw (pad_three idx (omega arith), pad_two level (omega arith), pad_two rate (omega arith))
      (int-split rate (omega arith)),
)

-- A level command with its load outside 1 to 192, its level outside 0 to 99 or its rate outside 0 to 31
-- raises a ValueError and writes nothing.
pub set_load_level_refused :
    (idx level rate : ℤ) (s : Session)
    → (within_one max_loads idx && (within_zero 99 level && within_zero 31 rate)) ≡ false
    → set_load_level idx level rate s ≡ (err value_error, s)
unfolding set_load_level
set_load_level_refused idx level rate s h = ground arith

-- For switch 1 to 384 on an open session, a press with auto-release writes the release of the same switch
-- right behind the press.
pub press_switch-released :
    (idx : ℕ) (s : Session)
    → 1 ≤ idx
    → idx ≤ 384
    → s.writer ≡ true
    → press_switch (pos idx) true s ≡ (
      ok tt,
      record s {
        sent = (s.sent ++ (codes "^I" ++ pad 3 idx) ∷ []) ++ (codes "^J" ++ pad 3 idx) ∷ [];
      },
    )
unfolding press_switch send pad_int
press_switch-released idx s a b w = ground arith

-- On an open session, the bulk query returns what the first line that is no push event decodes to, or
-- fails as that line's request does.
pub get_all_load_states-first_answer :
    (arrivals : List Inbound) (s : Session)
    → s.writer ≡ true
    → s.reading ≡ true
    → (get_all_load_states arrivals s).0
      ≡ bind (first_answer (λ t. is_answer t && true) arrivals) (λ t. parse_load_bitmap (strip t))
unfolding get_all_load_states
get_all_load_states-first_answer arrivals s w r =
    decode-bind (sendrecv dispatch (codes "^G") match_any arrivals s)
      (λ t. parse_load_bitmap (strip t))
    ∙ ap (λ a. bind a (λ t. parse_load_bitmap (strip t)))
        (sendrecv-first_answer dispatch is_answer dispatch-IsDispatch (codes "^G") match_any
          arrivals s w r)
