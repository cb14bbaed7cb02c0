-- ===== src/Protocol/Session/Waiting.antt =====
-- What a request returns, whichever bridge it goes to: the first line that its dispatcher offers to
-- the request and its matcher accepts.
use centralite_ha.Base.{
  ℕ, Bool, true, false, ◌&&◌, some, List, [], ◌∷◌, ◌++◌, ◌≡◌, ◌≢◌, refl, ap, ◌∙◌, arith, Result, ok,
  err, protocol_error, if◌then◌else◌, inl, inr, Bool-cases, All,
}
use mathlib.Core.Option
use centralite_ha.Text.{Text}
use centralite_ha.Protocol.Session.{
  Session, Pending, waiting, answered, failed, Dispatch, Inbound, line, broken, fulfill, receive,
  receive_all, outcome, sendrecv,
}

-- What a dispatcher does to the session, callbacks aside: it offers the line to the pending request
-- or leaves the request alone.
pub record IsDispatch (dispatch : Dispatch) (offers : Text → Bool) : Type 0 where
  pub pending :
      (s : Session) (t : Text)
      → (dispatch s t).pending
        ≡ (if offers t then Option.map (λ p. (fulfill p t).0) s.pending else s.pending)
  pub reading : (s : Session) (t : Text) → (dispatch s t).reading ≡ s.reading
  pub writer : (s : Session) (t : Text) → (dispatch s t).writer ≡ s.writer
  pub lost : (s : Session) (t : Text) → (dispatch s t).lost ≡ s.lost
  pub sent : (s : Session) (t : Text) → (dispatch s t).sent ≡ s.sent

-- The specification of a request: the first accepted line before the connection breaks.
abbrev pub first_answer : (Text → Bool) → List Inbound → Result Text
first_answer accepts [] = err protocol_error
first_answer accepts (line [] ∷ rest) = first_answer accepts rest
first_answer accepts (line (c ∷ t) ∷ rest) =
    if accepts (c ∷ t) then ok (c ∷ t) else first_answer accepts rest
first_answer accepts (broken ∷ rest) = err protocol_error

module _ (dispatch : Dispatch) (offers : Text → Bool) (d : IsDispatch dispatch offers) where
  done_receive :
      (i : Inbound) (s : Session) (p : Pending)
      → s.pending ≡ some p
      → p.future ≢ waiting
      → (receive dispatch s i).pending ≡ some p
  unfolding receive
  done_receive (line []) s p e h = e
  done_receive (line (c ∷ t)) s p e h = ground (arith, d.pending s (c ∷ t))
  done_receive broken s p e h = ground arith

  -- A future that is done stays as it is, whatever arrives.
  done_stays :
      (arrivals : List Inbound) (s : Session) (p : Pending)
      → s.pending ≡ some p
      → p.future ≢ waiting
      → (receive_all dispatch s arrivals).pending ≡ some p
  unfolding receive_all
  done_stays [] s p e h = e
  done_stays (i ∷ rest) s p e h =
      done_stays rest (receive dispatch s i) p (done_receive i s p e h) h

  receive_accepted :
      (c : ℕ) (t : Text) (s : Session) (matches : Text → Bool)
      → s.reading ≡ true
      → s.pending ≡ some (record { future = waiting; matches = matches })
      → (offers (c ∷ t) && matches (c ∷ t)) ≡ true
      → (receive dispatch s (line (c ∷ t))).pending
        ≡ some (record { future = answered (c ∷ t); matches = matches })
  unfolding receive
  receive_accepted c t s matches r e h = ground (arith, d.pending s (c ∷ t))

  receive_passed :
      (c : ℕ) (t : Text) (s : Session) (matches : Text → Bool)
      → s.reading ≡ true
      → s.pending ≡ some (record { future = waiting; matches = matches })
      → (offers (c ∷ t) && matches (c ∷ t)) ≡ false
      → (receive dispatch s (line (c ∷ t))).pending
        ≡ some (record { future = waiting; matches = matches })
  unfolding receive
  receive_passed c t s matches r e h = ground (arith, d.pending s (c ∷ t))

  receive_broken :
      (s : Session) (matches : Text → Bool)
      → s.reading ≡ true
      → s.pending ≡ some (record { future = waiting; matches = matches })
      → (receive dispatch s broken).pending ≡ some (record { future = failed; matches = matches })
  unfolding receive
  receive_broken s matches r e = ground arith

  reading-receive : (t : Text) (s : Session) → (receive dispatch s (line t)).reading ≡ s.reading
  unfolding receive
  reading-receive [] s = refl
  reading-receive (c ∷ t) s = ground (arith, d.reading s (c ∷ t))

  receive_all-first_answer :
      (arrivals : List Inbound) (s : Session) (matches : Text → Bool)
      → s.reading ≡ true
      → s.pending ≡ some (record { future = waiting; matches = matches })
      → outcome (receive_all dispatch s arrivals).pending
        ≡ first_answer (λ t. offers t && matches t) arrivals
  unfolding receive_all
  receive_all-first_answer [] s matches r e = ap outcome e
  receive_all-first_answer (line [] ∷ rest) s matches r e =
      receive_all-first_answer rest (receive dispatch s (line [])) matches
        (reading-receive [] s ∙ r) (unfold receive in e)
  receive_all-first_answer (line (c ∷ t) ∷ rest) s matches r e =
      elim (Bool-cases (offers (c ∷ t) && matches (c ∷ t))) [
        | inl yes' ↦
            rw yes'
              (ap outcome (done_stays rest _ _ (receive_accepted c t s matches r e yes') (λ q. cc)))
        | inr no' ↦ rw no' (
            receive_all-first_answer rest (receive dispatch s (line (c ∷ t))) matches
              (reading-receive (c ∷ t) s ∙ r) (receive_passed c t s matches r e no'))
      ]
  receive_all-first_answer (broken ∷ rest) s matches r e =
      ap outcome (done_stays rest _ _ (receive_broken s matches r e) (λ q. cc))

  -- On an open session, the response of a request is the first line among the arrivals that the
  -- dispatcher offers and the matcher of the request accepts, where no break comes before it; where there
  -- is no such line, or a break comes first, it is a ProtocolError.
  pub sendrecv-first_answer :
      (command : Text) (matches : Text → Bool) (arrivals : List Inbound) (s : Session)
      → s.writer ≡ true
      → s.reading ≡ true
      → (sendrecv dispatch command matches arrivals s).0
        ≡ first_answer (λ t. offers t && matches t) arrivals
  unfolding sendrecv
  sendrecv-first_answer command matches arrivals s w r =
      rw w (receive_all-first_answer arrivals _ matches r refl)

-- An arrival that leaves a request waiting.
abbrev pub Passes : (Text → Bool) → Inbound → Type 0
Passes accepts (line []) = Unit
Passes accepts (line (c ∷ t)) = accepts (c ∷ t) ≡ false
Passes accepts broken = ⊥

-- The first acceptable line is the answer, whatever comes behind it.
pub first_answer-append :
    (accepts : Text → Bool) (before after : List Inbound) (c : ℕ) (t : Text)
    → All (Passes accepts) before
    → accepts (c ∷ t) ≡ true
    → first_answer accepts (before ++ (line (c ∷ t) ∷ after)) ≡ ok (c ∷ t)
first_answer-append accepts [] after c t h a = rw a
first_answer-append accepts (line [] ∷ before) after c t h a =
    first_answer-append accepts before after c t h.1 a
first_answer-append accepts (line (b ∷ u) ∷ before) after c t h a =
    rw h.0 (first_answer-append accepts before after c t h.1 a)
first_answer-append accepts (broken ∷ before) after c t h a = absurd h.0

-- With no acceptable line the request times out.
pub first_answer_timeout :
    (accepts : Text → Bool) (arrivals : List Inbound)
    → All (Passes accepts) arrivals
    → first_answer accepts arrivals ≡ err protocol_error
first_answer_timeout accepts [] h = refl
first_answer_timeout accepts (line [] ∷ rest) h = first_answer_timeout accepts rest h.1
first_answer_timeout accepts (line (c ∷ t) ∷ rest) h =
    rw h.0 (first_answer_timeout accepts rest h.1)
first_answer_timeout accepts (broken ∷ rest) h = absurd h.0
