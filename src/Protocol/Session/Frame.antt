-- ===== src/Protocol/Session/Frame.antt =====
-- What a request does to the session beside its result: the connection flags and the transcript.
use centralite_ha.Base.{
  Bool, true, false, not, ◌&&◌, ◌||◌, none, some, List, [], ◌∷◌, ◌++◌, ◌≡◌, arith,
}
use centralite_ha.Text.{Text}
use centralite_ha.Protocol.Session.{
  Session, waiting, Dispatch, Inbound, line, broken, receive, receive_all, sendrecv,
}
use centralite_ha.Protocol.Session.Waiting.{IsDispatch}

abbrev pub has_broken : List Inbound → Bool
has_broken [] = false
has_broken (line t ∷ rest) = has_broken rest
has_broken (broken ∷ rest) = true

-- The writer and the transcript stay; the flags follow whether the connection breaks.
pub record Frame (s s' : Session) (broke : Bool) : Type 0 where
  pub writer : s'.writer ≡ s.writer
  pub sent : s'.sent ≡ s.sent
  pub reading : s'.reading ≡ (s.reading && not broke)
  pub lost : s'.lost ≡ (s.lost || (s.reading && broke))

module _ (dispatch : Dispatch) (offers : Text → Bool) (d : IsDispatch dispatch offers) where
  receive-Frame : (i : Inbound) (s : Session) → Frame s (receive dispatch s i) (has_broken (i ∷ []))
  unfolding receive
  receive-Frame (line []) s = ground arith
  receive-Frame (line (c ∷ t)) s =
      ground (arith, d.writer s (c ∷ t), d.sent s (c ∷ t), d.reading s (c ∷ t), d.lost s (c ∷ t))
  receive-Frame broken s = ground arith

  pub receive_all-Frame :
      (arrivals : List Inbound) (s : Session)
      → Frame s (receive_all dispatch s arrivals) (has_broken arrivals)
  unfolding receive_all
  receive_all-Frame [] s = ground arith
  receive_all-Frame (line t ∷ rest) s =
      ground (arith, receive-Frame (line t) s, receive_all-Frame rest (receive dispatch s (line t)))
  receive_all-Frame (broken ∷ rest) s =
      ground (arith, receive-Frame broken s, receive_all-Frame rest (receive dispatch s broken))

  -- After a request the transcript has its command, and no request is pending.
  pub sendrecv-Frame :
      (command : Text) (matches : Text → Bool) (arrivals : List Inbound) (s : Session)
      → s.writer ≡ true
      → Frame
          (record s { sent = s.sent ++ command ∷ [] })
          (sendrecv dispatch command matches arrivals s).1
          (has_broken arrivals)
        × ((sendrecv dispatch command matches arrivals s).1.pending ≡ none)
  unfolding sendrecv
  sendrecv-Frame command matches arrivals s w =
      let asked : Session = record s {
        pending = some (record { future = waiting; matches = matches });
        sent = s.sent ++ command ∷ [];
      } in
      ground (arith, receive_all-Frame arrivals asked)
