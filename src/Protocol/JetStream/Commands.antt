-- ===== src/Protocol/JetStream/Commands.antt =====
-- What the JetStream commands write and return.
use centralite_ha.Base.{
  ℕ, suc, ◌==◌, ◌&&◌, Bool, length, take, refl, ◌≤◌, ◌<◌, pos, true, List, [], ◌∷◌, ◌++◌, ◌≡◌, ap,
  ◌∙◌, arith, ok, err, protocol_error, All, bind, within_one,
}
use centralite_ha.Text.{Text, codes, starts_with, text_eq}
use centralite_ha.Text.Number.{pad, pad_int}
use centralite_ha.Text.Number.Laws.{pad_two, pad_three, int-split}
use centralite_ha.Protocol.Session.{Session, Inbound, line, send, sendrecv, decode-bind}
use centralite_ha.Protocol.Session.Waiting.{
  Passes, first_answer, first_answer-append, first_answer_timeout, sendrecv-first_answer,
}
use centralite_ha.Protocol.JetStream.{
  dispatch, get_load_level, level_of, level_matches, press_switch, jetstream_max_loads,
}
use centralite_ha.Protocol.JetStream.Events.{dispatch-IsDispatch, dev_line}

-- A DEV line for the load, as the protocol's manual lays it out: eight characters, of which the first
-- six are DEV and the load's three digits.
abbrev pub is_level_line : ℕ → Text → Bool
is_level_line idx t = length t == 8 && text_eq (take 6 t) (codes "DEV" ++ pad 3 idx)

starts_with-take : (t p : Text) → starts_with t p ≡ text_eq (take (length p) t) p
starts_with-take t [] = refl
starts_with-take [] (c ∷ p) = refl
starts_with-take (b ∷ t) (c ∷ p) = ap (λ e. b == c && e) (starts_with-take t p)

level_matches-is_level_line :
    (idx : ℕ) → idx < 1000 → (t : Text) → level_matches (pos idx) t ≡ is_level_line idx t
unfolding pad_int
level_matches-is_level_line idx h t =
    let three : length (pad 3 idx) ≡ 3 = rw (pad_three idx h) in
    ap (λ e. length t == 8 && e) (starts_with-take t (codes "DEV" ++ pad 3 idx))
    ∙ ap (λ n. length t == 8 && text_eq (take (suc (suc (suc n))) t) (codes "DEV" ++ pad 3 idx))
        three

is_level_line-dev_line :
    (idx level : ℕ) → idx < 1000 → level < 100 → is_level_line idx (dev_line idx level) ≡ true
is_level_line-dev_line idx level h k = rw (pad_three idx h, pad_two level k) (ground arith)

level_of-dev_line :
    (idx level : ℕ) → idx < 1000 → level < 100 → level_of (dev_line idx level) ≡ ok (pos level)
unfolding level_of
level_of-dev_line idx level h k =
    rw (pad_three idx h, pad_two level k) (rw (int-split level k, level_of))

module _ (idx : ℕ) (s : Session) (low : 1 ≤ idx) (high : idx ≤ 199) (w : s.writer ≡ true)
    (r : s.reading ≡ true) where
  get_load_level-first_answer :
      (arrivals : List Inbound)
      → (get_load_level (pos idx) arrivals s).0
        ≡ bind (first_answer (is_level_line idx) arrivals) level_of
  unfolding get_load_level
  get_load_level-first_answer arrivals =
      let test : within_one jetstream_max_loads (pos idx) ≡ true = ground arith in
      rw test (
        decode-bind (sendrecv dispatch _ _ arrivals s) level_of
        ∙ ap (λ a. bind a level_of)
            (sendrecv-first_answer dispatch (λ t. true) dispatch-IsDispatch _
                (level_matches (pos idx)) arrivals s w r
              ∙ ap (λ m. first_answer m arrivals)
                  (λ i t. level_matches-is_level_line idx (omega arith) t i)))

  -- On an open session, the level of load 1 to 199 is that of the first DEV line for it, whatever other lines
  -- come before it, the DEV lines of other loads among them, and whatever comes behind it.
  pub get_load_level_reply :
      (level : ℕ) (before after : List Inbound)
      → level < 100
      → All (Passes (is_level_line idx)) before
      → (get_load_level (pos idx) (before ++ (line (dev_line idx level) ∷ after)) s).0
        ≡ ok (pos level)
  get_load_level_reply level before after k h =
      get_load_level-first_answer (before ++ (line (dev_line idx level) ∷ after))
      ∙ rw
          (first_answer-append (is_level_line idx) before after _ _ h
            (is_level_line-dev_line idx level (omega arith) k))
          (level_of-dev_line idx level (omega arith) k)

  -- For load 1 to 199 on an open session, if no DEV line for that load arrives, and the connection does
  -- not break either, the query ends in a ProtocolError.
  pub get_load_level_timeout :
      (arrivals : List Inbound)
      → All (Passes (is_level_line idx)) arrivals
      → (get_load_level (pos idx) arrivals s).0 ≡ err protocol_error
  get_load_level_timeout arrivals h =
      get_load_level-first_answer arrivals
      ∙ rw (first_answer_timeout (is_level_line idx) arrivals h)

-- On an open session, a press with auto-release writes the release of the same button right behind the
-- press, for every device 1 to 199 and button 1 to 3.
pub press_button-released :
    (idx button : ℕ) (s : Session)
    → 1 ≤ idx
    → idx ≤ 199
    → 1 ≤ button
    → button ≤ 3
    → s.writer ≡ true
    → press_switch (pos idx) (pos button) true s ≡ (
      ok tt,
      record s {
        sent =
            (s.sent ++ (codes "^P" ++ (pad 3 idx ++ pad 2 button)) ∷ [])
            ++ (codes "^R" ++ (pad 3 idx ++ pad 2 button)) ∷ [];
      },
    )
unfolding press_switch send pad_int
press_button-released idx button s a b c d w = ground arith
