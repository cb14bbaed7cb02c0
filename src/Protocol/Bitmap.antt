-- ===== src/Protocol/Bitmap.antt =====
-- custom_components/centralite/protocol/common.py: the hex bitmaps that answer ^G and ^H.
pub mod Fill
pub mod Decode
pub mod RoundTrip
use centralite_ha.Base.{
  ℕ, suc, ◌+◌, ◌*◌, ◌/◌, ◌%◌, ◌^◌, ℤ, pos, negsuc, Bool, not, none, some, List, [], ◌∷◌, Result, ok,
  err, value_error, bind, length, range_from, if◌then◌else◌, ◌==◌,
}
use centralite_ha.Text.{Text, slice}
use centralite_ha.Text.Number.{int_base}
use centralite_ha.Dict.{Dict, put, int_eq}

abbrev pub load_bitmap_hex_len : ℕ
load_bitmap_hex_len = 48

abbrev pub loads_per_board : ℕ
loads_per_board = 24

abbrev pub max_boards : ℕ
max_boards = 8

abbrev pub max_loads : ℕ
max_loads = loads_per_board * max_boards

abbrev pub switch_bitmap_hex_len : ℕ
switch_bitmap_hex_len = 96

abbrev pub stars_per_entry : ℕ
stars_per_entry = 16

abbrev pub switch_entries : ℕ
switch_entries = 24

abbrev pub max_switches : ℕ
max_switches = stars_per_entry * switch_entries

abbrev pub BitMap : Type 0
BitMap = Dict ℤ Bool

-- bool(byte_value & (1 << bit)), in two's complement where `int(pair, 16)` is negative.
unfoldable pub test_bit : ℤ → ℕ → Bool
test_bit (pos n) bit = n / 2 ^ bit % 2 == 1
test_bit (negsuc n) bit = not (n / 2 ^ bit % 2 == 1)

-- A `for` loop whose body may raise.
unfoldable pub for_each {ℓ κ} :
    {A : Type ℓ} {S : Type κ} → List A → (A → S → Result S) → S → Result S
for_each [] body s = ok s
for_each (a ∷ as') body s = bind (body a s) (λ s'. for_each as' body s')

-- int(hex_pair, 16)
unfoldable pub hex_value : Text → Result ℤ
hex_value hex_pair = elim (int_base 16 hex_pair) [ none ↦ err value_error | some v ↦ ok v ]

-- enumerate(byte_pairs)
abbrev pub enumerate {ℓ} : {A : Type ℓ} → ℕ → List A → List (ℕ × A)
enumerate i [] = []
enumerate i (a ∷ as') = (i, a) ∷ enumerate (suc i) as'

-- The loop body for one byte of a board.
abbrev pub load_byte : ℕ → ℕ × Text → BitMap → Result BitMap
load_byte board (pair_idx, hex_pair) result = bind (hex_value hex_pair) (λ byte_value.
    for_each (range_from 0 8)
      (λ bit r.
        let local_idx = pair_idx * 8 + bit + 1 in
        let global_idx = board * loads_per_board + local_idx in
        ok (put r (pos global_idx) (test_bit byte_value bit)))
      result)

abbrev pub load_board : Text → ℕ → BitMap → Result BitMap
load_board hex_response board result =
    let chunk = slice (board * 6) (board * 6 + 6) hex_response in
    let byte_pairs = slice 0 2 chunk ∷ slice 2 4 chunk ∷ slice 4 6 chunk ∷ [] in
    for_each (enumerate 0 byte_pairs) (load_byte board) result

unfoldable pub parse_load_bitmap : Text → Result BitMap
parse_load_bitmap hex_response =
    if length hex_response == load_bitmap_hex_len
    then for_each (range_from 0 max_boards) (load_board hex_response) []
    else err value_error

-- The loop body for one byte of a switch entry.
abbrev pub switch_byte : ℕ → ℕ × Text → BitMap → Result BitMap
switch_byte entry (pair_idx, hex_pair) result = bind (hex_value hex_pair) (λ byte_value.
    for_each (range_from 0 8)
      (λ bit r.
        let stars_position = pair_idx * 8 + bit in
        let switch_idx = entry * stars_per_entry + stars_position + 1 in
        ok (put r (pos switch_idx) (test_bit byte_value bit)))
      result)

abbrev pub switch_entry : Text → ℕ → BitMap → Result BitMap
switch_entry hex_response entry result =
    let chunk = slice (entry * 4) (entry * 4 + 4) hex_response in
    let byte_pairs = slice 0 2 chunk ∷ slice 2 4 chunk ∷ [] in
    for_each (enumerate 0 byte_pairs) (switch_byte entry) result

unfoldable pub parse_switch_bitmap : Text → Result BitMap
parse_switch_bitmap hex_response =
    if length hex_response == switch_bitmap_hex_len
    then for_each (range_from 0 switch_entries) (switch_entry hex_response) []
    else err value_error
