-- ===== src/Protocol/Bitmap/RoundTrip.antt =====
-- The manual's own description of a bitmap, as a printer of states, and the parsers against it.
use centralite_ha.Base.{
  ℕ, zero, suc, ◌+◌, ◌-◌, ◌*◌, ◌/◌, ◌%◌, ◌≤◌, ◌<◌, pos, Bool, ◌&&◌, none, some, [], ◌∷◌, ◌≡◌, refl,
  ap, ◌∙◌, ◌==◌, ◌^◌, Bool-cases, leb→le, inl, inr, arith, Result, ok, leb, ltb, if◌then◌else◌,
  length, take, drop,
}
use centralite_ha.Text.{Text}
use centralite_ha.Text.Number.{int_base}
use centralite_ha.Dict.{get, int_eq}
use centralite_ha.Protocol.Bitmap.{
  BitMap, test_bit, max_loads, max_switches, parse_load_bitmap, parse_switch_bitmap,
}
use centralite_ha.Protocol.Bitmap.Fill.{bit_of}
use centralite_ha.Protocol.Bitmap.Decode.{
  Pairs, Fills, parse_load_bitmap-Fills, parse_switch_bitmap-Fills,
}

abbrev hex_digit : ℕ → ℕ
hex_digit d = if ltb d 10 then b'0' + d else b'A' + (d - 10)

hex_pair : ℕ → Text
hex_pair v = hex_digit (v / 16) ∷ hex_digit (v % 16) ∷ []

flag : Bool → ℕ
flag b = if b then 1 else 0

flag_le : (b : Bool) → flag b ≤ 1
unfolding flag
flag_le b = ground arith

flag-one : (b : Bool) → (flag b == 1) ≡ b
unfolding flag
flag-one b = ground arith

-- The byte with number `j`: the state of entry `j * 8 + 1` is its lowest bit.
byte_of : (ℕ → Bool) → ℕ → ℕ
byte_of states j =
    flag (states (j * 8 + 0 + 1))
    + 2 * flag (states (j * 8 + 1 + 1))
    + 4 * flag (states (j * 8 + 2 + 1))
    + 8 * flag (states (j * 8 + 3 + 1))
    + 16 * flag (states (j * 8 + 4 + 1))
    + 32 * flag (states (j * 8 + 5 + 1))
    + 64 * flag (states (j * 8 + 6 + 1))
    + 128 * flag (states (j * 8 + 7 + 1))

pub print_bytes : (ℕ → Bool) → ℕ → ℕ → Text
unfolding hex_pair
print_bytes states start zero = []
print_bytes states start (suc count) =
    hex_digit (byte_of states start / 16)
    ∷ hex_digit (byte_of states start % 16)
    ∷ print_bytes states (suc start) count

byte_of-lt : (states : ℕ → Bool) (j : ℕ) → byte_of states j < 256
unfolding byte_of
byte_of-lt states j = omega (arith, flag_le)

int_base-hex :
    (a b : ℕ)
    → a < 16
    → b < 16
    → int_base 16 (hex_digit a ∷ hex_digit b ∷ []) ≡ some (pos (a * 16 + b))
unfolding int_base
int_base-hex a b h k = ground arith

length-print_bytes :
    (states : ℕ → Bool) (start count : ℕ) → length (print_bytes states start count) ≡ count * 2
unfolding print_bytes
length-print_bytes states start zero = refl
length-print_bytes states start (suc count) =
    omega (arith, length-print_bytes states (suc start) count)

slice-print_bytes :
    (states : ℕ → Bool) (start count j : ℕ)
    → j < count
    → take 2 (drop (j * 2) (print_bytes states start count))
      ≡ hex_digit (byte_of states (start + j) / 16)
        ∷ hex_digit (byte_of states (start + j) % 16)
        ∷ []
unfolding print_bytes
slice-print_bytes states start zero j h = absurd (omega arith)
slice-print_bytes states start (suc count) zero h =
    let same : start + 0 ≡ start = omega arith in rw same
slice-print_bytes states start (suc count) (suc j) h =
    let twice : suc j * 2 ≡ suc (suc (j * 2)) = omega arith in
    let next : start + suc j ≡ suc start + j = omega arith in
    rw (twice, next) (slice-print_bytes states (suc start) count j (omega arith))

print_bytes-Pairs :
    (states : ℕ → Bool) (count : ℕ)
    → Pairs (print_bytes states 0 count) (λ j. pos (byte_of states j)) count
print_bytes-Pairs states count j h =
    let two : j * 2 + 2 - j * 2 ≡ 2 = omega arith in
    let byte = byte_of states (0 + j) in
    let same : 0 + j ≡ j = omega arith in
    rw (two, slice-print_bytes states 0 count j h, same)
      (rw
        (int_base-hex (byte_of states j / 16) (byte_of states j % 16)
          (omega (arith, byte_of-lt states j)) (omega (arith, byte_of-lt states j)))
        (ap (λ n. some (pos n)) (omega arith)))

byte_bit :
    (states : ℕ → Bool) (j b : ℕ)
    → b < 8
    → byte_of states j / 2 ^ b % 2 ≡ flag (states (j * 8 + b + 1))
unfolding byte_of
byte_bit states j zero h = omega (arith, flag_le)
byte_bit states j (suc zero) h = omega (arith, flag_le)
byte_bit states j (suc (suc zero)) h = omega (arith, flag_le)
byte_bit states j (suc (suc (suc zero))) h = omega (arith, flag_le)
byte_bit states j (suc (suc (suc (suc zero)))) h = omega (arith, flag_le)
byte_bit states j (suc (suc (suc (suc (suc zero))))) h = omega (arith, flag_le)
byte_bit states j (suc (suc (suc (suc (suc (suc zero)))))) h = omega (arith, flag_le)
byte_bit states j (suc (suc (suc (suc (suc (suc (suc zero))))))) h = omega (arith, flag_le)
byte_bit states j (suc (suc (suc (suc (suc (suc (suc (suc b)))))))) h = absurd (omega arith)

-- The bit of a printed byte is the state that it stands for.
bit_of-byte_of :
    (states : ℕ → Bool) (k : ℕ) → 1 ≤ k → bit_of (λ j. pos (byte_of states j)) k ≡ states k
unfolding test_bit
bit_of-byte_of states k h =
    let index : (k - 1) / 8 * 8 + (k - 1) % 8 + 1 ≡ k = omega arith in
    rw (byte_bit states ((k - 1) / 8) ((k - 1) % 8) (omega arith)) (flag-one _ ∙ ap states index)

-- What a parser returned has exactly the keys 1 to `count`, each with its state.
abbrev pub Holds : (ℕ → Bool) → ℕ → Result BitMap → Type 0
Holds states count r =
    (d : BitMap) × (r ≡ ok d)
    × ((k : ℕ) → get d (pos k) ≡ (if leb 1 k && leb k count then some (states k) else none))

Fills-Holds :
    (states : ℕ → Bool) (n : ℕ) (r : Result BitMap)
    → Fills (λ j. pos (byte_of states j)) n r
    → Holds states n r
Fills-Holds states n r (d, e, f) = (
  d,
  e,
  λ k. elim (Bool-cases (leb 1 k)) [
    | inl within ↦ rw (← bit_of-byte_of states k (leb→le 1 k within)) (f k)
    | inr outside ↦ f k ∙ rw outside
  ],
)

-- The ^G answer for any 192 load states reads back as exactly these states, under the keys 1 to 192.
pub parse_load_bitmap-print :
    (states : ℕ → Bool) → Holds states max_loads (parse_load_bitmap (print_bytes states 0 24))
parse_load_bitmap-print states = Fills-Holds states 192 _ (
    parse_load_bitmap-Fills (print_bytes states 0 24) (λ j. pos (byte_of states j))
      (length-print_bytes states 0 24) (print_bytes-Pairs states 24))

-- The ^H answer for any 384 switch states reads back as exactly these states, under the keys 1 to 384.
pub parse_switch_bitmap-print :
    (states : ℕ → Bool) → Holds states max_switches (parse_switch_bitmap (print_bytes states 0 48))
parse_switch_bitmap-print states = Fills-Holds states 384 _ (
    parse_switch_bitmap-Fills (print_bytes states 0 48) (λ j. pos (byte_of states j))
      (length-print_bytes states 0 48) (print_bytes-Pairs states 48))
