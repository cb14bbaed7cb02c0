-- ===== src/Protocol/Session/Framing.antt =====
-- custom_components/centralite/protocol/_base.py: `_read_line`, and the lines that `_reader_loop`
-- takes from a stream of bytes.
use centralite_ha.Base.{
  ℕ, zero, suc, ◌+◌, ◌≤◌, ◌<◌, Bool, true, false, ◌&&◌, not, Option, none, some, List, [], ◌∷◌,
  ◌++◌, ◌≡◌, refl, ap, arith, map, length, length-append, All, ltb, leb, ◌==◌, if◌then◌else◌,
}
use mathlib.Core.List.{append-nil, append_assoc}
use centralite_ha.Text.{Text, codes}
use centralite_ha.Protocol.Session.{Inbound, line, broken}

abbrev pub cr : ℕ
cr = 0x0D

abbrev pub lf : ℕ
lf = 0x0A

abbrev pub read_max_buffer : ℕ
read_max_buffer = 100

-- One byte of bytes.decode("ascii", errors="replace").
abbrev pub decode_byte : ℕ → ℕ
decode_byte b = if ltb b 128 then b else 0xFFFD

-- A line and the bytes behind it; `none` is the IncompleteReadError of a stream that ends first.
unfoldable pub read_line : Text → List ℕ → Option (Text × List ℕ)
read_line buf [] = none
read_line buf (byte ∷ stream) =
    let skipped = read_line buf stream in
    let appended = buf ++ byte ∷ [] in
    let longer = read_line appended stream in
    if byte == cr
    then some (map decode_byte buf, stream)
    else if byte == lf
    then skipped
    else if leb read_max_buffer (length appended)
    then some (map decode_byte appended, stream)
    else longer

abbrev pub next_lines : (List ℕ → List Inbound) → Option (Text × List ℕ) → List Inbound
next_lines rest none = broken ∷ []
next_lines rest (some (t, stream)) = line t ∷ rest stream

-- What the loop meets on a stream that then breaks; each round takes at least one byte.
unfoldable pub reader_loop : ℕ → List ℕ → List Inbound
reader_loop zero stream = []
reader_loop (suc fuel) stream = next_lines (reader_loop fuel) (read_line [] stream)

unfoldable pub inbound : List ℕ → List Inbound
unfolding reader_loop
inbound stream = reader_loop (suc (length stream)) stream

reads_crlf : inbound (codes "P0012\r\n\r\n^K") ≡ line (codes "P0012") ∷ line [] ∷ broken ∷ []
unfolding inbound read_line
reads_crlf = refl

-- A byte that a bridge sends within a line.
abbrev pub is_plain : ℕ → Bool
is_plain b = ltb b 128 && (not (b == cr) && not (b == lf))

-- The bytes of a text that goes over the wire as one line.
abbrev pub IsPlain : Text → Type 0
IsPlain t = All (λ b. is_plain b ≡ true) t

decode-plain : (t : Text) → IsPlain t → map decode_byte t ≡ t
decode-plain [] h = refl
decode-plain (b ∷ t) (p, h) = ground (arith, decode-plain t h)

-- A plain text is read up to its CR, behind what is in the buffer.
read_line-plain :
    (buf t : Text) (stream : List ℕ)
    → IsPlain t
    → length buf + length t < read_max_buffer
    → read_line buf (t ++ (cr ∷ stream)) ≡ some (map decode_byte (buf ++ t), stream)
unfolding read_line
read_line-plain buf [] stream p h = rw append-nil
read_line-plain buf (b ∷ t) stream (p, ps) h = ground (
  arith,
  length-append buf (b ∷ []),
  append_assoc buf (b ∷ []) t,
  read_line-plain (buf ++ b ∷ []) t stream ps (omega (arith, length-append buf (b ∷ []))),
)

read_line-lf : (stream : List ℕ) → read_line [] (lf ∷ stream) ≡ read_line [] stream
unfolding read_line
read_line-lf stream = refl

-- Lines with their line ends, one after the other on the wire.
abbrev pub stream_of : List (Bool × Text) → List ℕ
stream_of [] = []
stream_of ((crlf, t) ∷ ls) = t ++ (cr ∷ (if crlf then lf ∷ stream_of ls else stream_of ls))

abbrev pub lines_of : List (Bool × Text) → List Inbound
lines_of [] = broken ∷ []
lines_of ((crlf, t) ∷ ls) = line t ∷ lines_of ls

-- Plain, and shorter than the buffer.
abbrev pub IsLine : Bool × Text → Type 0
IsLine (crlf, t) = IsPlain t × (length t < read_max_buffer)

-- `behind` says that the LF of the line before is still unread.
reader_loop-lines :
    (ls : List (Bool × Text)) (fuel : ℕ) (behind : Bool)
    → All IsLine ls
    → length ls < fuel
    → reader_loop fuel (if behind then lf ∷ stream_of ls else stream_of ls) ≡ lines_of ls
unfolding reader_loop
reader_loop-lines ls zero behind h k = elim k [ ]
reader_loop-lines [] (suc fuel) true h k = unfold read_line in refl
reader_loop-lines [] (suc fuel) false h k = unfold read_line in refl
reader_loop-lines ((crlf, t) ∷ ls) (suc fuel) true ((p, short), h) k =
    rw
      (
        read_line-lf (stream_of ((crlf, t) ∷ ls)),
        read_line-plain [] t (if crlf then lf ∷ stream_of ls else stream_of ls) p (omega arith),
        decode-plain t p,
      )
      (ap (◌∷◌ (line t)) (reader_loop-lines ls fuel crlf h (omega arith)))
reader_loop-lines ((crlf, t) ∷ ls) (suc fuel) false ((p, short), h) k =
    rw
      (
        read_line-plain [] t (if crlf then lf ∷ stream_of ls else stream_of ls) p (omega arith),
        decode-plain t p,
      )
      (ap (◌∷◌ (line t)) (reader_loop-lines ls fuel crlf h (omega arith)))

length-stream_of : (ls : List (Bool × Text)) → length ls ≤ length (stream_of ls)
length-stream_of [] = omega arith
length-stream_of ((true, t) ∷ ls) =
    omega (arith, length-stream_of ls, length-append t (cr ∷ lf ∷ stream_of ls))
length-stream_of ((false, t) ∷ ls) =
    omega (arith, length-stream_of ls, length-append t (cr ∷ stream_of ls))

-- Lines of fewer than 100 plain ASCII bytes, each ended by CR or by CRLF in any mixture, reach the
-- dispatcher one by one, in order and unchanged, and the end of the stream comes after them.
pub inbound-stream_of :
    (ls : List (Bool × Text)) → All IsLine ls → inbound (stream_of ls) ≡ lines_of ls
unfolding inbound
inbound-stream_of ls h =
    reader_loop-lines ls (suc (length (stream_of ls))) false h (omega (arith, length-stream_of ls))
