-- ===== src/Protocol/Session/Ending.antt =====
-- custom_components/centralite/protocol/_base.py: `_reader_loop` comes to its end on every stream that does.
use centralite_ha.Base.{
  ℕ, zero, suc, ◌+◌, ◌≤◌, ◌<◌, Bool, true, false, ◌&&◌, Option, none, some, List, [], ◌∷◌, ◌++◌,
  ◌≡◌, refl, ap, sym, ◌∙◌, arith, map, length, length-append, leb, ◌==◌, Bool-cases, inl, inr,
}
use centralite_ha.Text.{Text}
use centralite_ha.Protocol.Session.{Inbound, line, broken}
use centralite_ha.Protocol.Session.Framing.{
  cr, lf, read_max_buffer, decode_byte, read_line, next_lines, reader_loop, inbound,
}

-- Lines of at most 100 characters, and then the break and nothing more.
abbrev pub ends : List Inbound → Bool
ends [] = false
ends (line t ∷ rest) = leb (length t) read_max_buffer && ends rest
ends (broken ∷ []) = true
ends (broken ∷ x ∷ rest) = false

length-decode : (t : Text) → length (map decode_byte t) ≡ length t
length-decode [] = refl
length-decode (b ∷ t) = ap suc (length-decode t)

-- What is read, where these bytes make the line.
taken :
    (bytes stream : List ℕ) (t rest : List ℕ)
    → ◌≡◌ {A = Option (Text × List ℕ)} (some (map decode_byte bytes, stream)) (some (t, rest))
    → length bytes ≤ read_max_buffer
    → (length rest ≤ length stream) × (length t ≤ read_max_buffer)
taken bytes stream t rest h k =
    let text : map decode_byte bytes ≡ t = cc in
    let behind : stream ≡ rest = cc in
    let decoded : length t ≡ length bytes = ap length (sym text) ∙ length-decode bytes in
    let left : length rest ≡ length stream = ap length (sym behind) in (omega arith, omega arith)

read_line_takes :
    (buf : Text) (stream : List ℕ) (t : Text) (rest : List ℕ)
    → length buf < read_max_buffer
    → read_line buf stream ≡ some (t, rest)
    → (length rest < length stream) × (length t ≤ read_max_buffer)
unfolding read_line
read_line_takes buf [] t rest b h = cc
read_line_takes buf (byte ∷ stream) t rest b h =
    let n : length (buf ++ byte ∷ []) ≡ length buf + 1 = length-append buf (byte ∷ []) in
    elim (Bool-cases (byte == cr)) [
      | inl end' ↦ weaken (taken buf stream t rest (rw end' at h) (omega arith))
      | inr no_cr ↦ elim (Bool-cases (byte == lf)) [
        | inl skip' ↦ weaken' (read_line_takes buf stream t rest b (rw (no_cr, skip') at h))
        | inr no_lf ↦ elim (Bool-cases (leb read_max_buffer (length (buf ++ byte ∷ [])))) [
          | inl full ↦
              weaken (
                taken (buf ++ byte ∷ []) stream t rest (rw (no_cr, no_lf, full) at h) (omega arith))
          | inr room ↦ weaken' (
              read_line_takes (buf ++ byte ∷ []) stream t rest (ground arith)
                (rw (no_cr, no_lf, room) at h))
        ]
      ]
    ]
  where
    weaken :
        (length rest ≤ length stream) × (length t ≤ read_max_buffer)
        → (length rest < suc (length stream)) × (length t ≤ read_max_buffer)
    weaken (p, q) = (omega arith, q)

    weaken' :
        (length rest < length stream) × (length t ≤ read_max_buffer)
        → (length rest < suc (length stream)) × (length t ≤ read_max_buffer)
    weaken' (p, q) = (omega arith, q)

reader_loop-fuel :
    (m n : ℕ) (stream : List ℕ)
    → length stream < m
    → length stream < n
    → (reader_loop m stream ≡ reader_loop n stream) × (ends (reader_loop n stream) ≡ true)
unfolding reader_loop
reader_loop-fuel zero n stream p q = absurd (omega arith)
reader_loop-fuel (suc m) zero stream p q = absurd (omega arith)
reader_loop-fuel (suc m) (suc n) stream p q =
    go (read_line [] stream) refl
      (λ rest shorter. reader_loop-fuel m n rest (omega arith) (omega arith))
  where
    go :
        (o : Option (Text × List ℕ))
        → read_line [] stream ≡ o
        → ((rest : List ℕ)
            → length rest < length stream
            → (reader_loop m rest ≡ reader_loop n rest) × (ends (reader_loop n rest) ≡ true))
        → (next_lines (reader_loop m) o ≡ next_lines (reader_loop n) o)
          × (ends (next_lines (reader_loop n) o) ≡ true)
    go none e run = (refl, refl)
    go (some (t, rest)) e run =
        let (shorter, bounded) = read_line_takes [] stream t rest (omega arith) e in
        let (same, ended) = run rest shorter in (ap (◌∷◌ (line t)) same, ground arith)

-- On every stream of bytes that ends, whatever they are, any fuel above its length runs the reader loop to
-- its end, with the same outcome: lines of at most 100 characters each, and then the break alone.
pub reader_loop-inbound :
    (fuel : ℕ) (stream : List ℕ)
    → length stream < fuel
    → (reader_loop fuel stream ≡ inbound stream) × (ends (inbound stream) ≡ true)
unfolding inbound
reader_loop-inbound fuel stream h =
    reader_loop-fuel fuel (suc (length stream)) stream h (omega arith)
