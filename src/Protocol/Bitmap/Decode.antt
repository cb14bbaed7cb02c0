-- ===== src/Protocol/Bitmap/Decode.antt =====
-- Both bitmap parsers on hex bytes, bit by bit.
use centralite_ha.Base.{
  ℕ, zero, suc, ◌+◌, ◌*◌, ◌≤◌, ◌<◌, ℤ, [], some, ◌≡◌, refl, arith, Result, ok, bind, range_from,
  length,
}
use centralite_ha.Text.{Text, slice}
use centralite_ha.Text.Number.{int_base}
use centralite_ha.Protocol.Bitmap.{
  BitMap, for_each, hex_value, load_byte, load_board, switch_byte, switch_entry, parse_load_bitmap,
  parse_switch_bitmap,
}
use centralite_ha.Protocol.Bitmap.Fill.{Filled, Filled-zero, bits-Filled, slice-slice}

-- The hex pair with number `j` reads as `bytes j`, for each of the `count` pairs.
abbrev pub Pairs : Text → (ℕ → ℤ) → ℕ → Type 0
Pairs hex bytes count =
    (j : ℕ) → j < count → int_base 16 (slice (j * 2) (j * 2 + 2) hex) ≡ some (bytes j)

-- A loop step ends with the keys up to `n`.
abbrev pub Fills : (ℕ → ℤ) → ℕ → Result BitMap → Type 0
Fills bytes n r = (d : BitMap) × (r ≡ ok d) × Filled bytes n d

for_each_step :
    (start rounds : ℕ) (body : ℕ → BitMap → Result BitMap) (d d' : BitMap)
    → body start d ≡ ok d'
    → for_each (range_from start (suc rounds)) body d
      ≡ for_each (range_from (suc start) rounds) body d'
unfolding for_each
for_each_step start rounds body d d' e = rw e

-- A loop of `rounds` rounds, each of which adds `width` keys.
rounds-Fills :
    (bytes : ℕ → ℤ) (width : ℕ) (body : ℕ → BitMap → Result BitMap) (limit : ℕ)
    → ((i : ℕ) (d : BitMap)
        → i < limit
        → Filled bytes (i * width) d
        → Fills bytes (suc i * width) (body i d))
    → (start rounds : ℕ) (d : BitMap) → start + rounds ≡ limit
    → Filled bytes (start * width) d
    → Fills bytes (limit * width) (for_each (range_from start rounds) body d)
unfolding for_each
rounds-Fills bytes width body limit step start zero d e f =
    (d, refl, let same : limit ≡ start = omega arith in rw same f)
rounds-Fills bytes width body limit step start (suc rounds) d e f =
    let (d', ran, filled) = step start d (omega arith) f in
    rw (for_each_step start rounds body d d' ran)
      (rounds-Fills bytes width body limit step (suc start) rounds d' (omega arith) filled)

hex_value-int_base : (pair : Text) (v : ℤ) → int_base 16 pair ≡ some v → hex_value pair ≡ ok v
unfolding hex_value
hex_value-int_base pair v e = rw (e, hex_value)

bind-Fills :
    (bytes : ℕ → ℤ) (n m : ℕ) (r : Result BitMap) (f : BitMap → Result BitMap)
    → Fills bytes n r
    → ((d : BitMap) → Filled bytes n d → Fills bytes m (f d))
    → Fills bytes m (bind r f)
bind-Fills bytes n m r f (d, e, filled) rest = rw e (rest d filled)

module _ (hex : Text) (bytes : ℕ → ℤ) where
  load_byte-Fills :
      (board p n m : ℕ) (pair : Text) (d : BitMap)
      → int_base 16 pair ≡ some (bytes (board * 3 + p))
      → n ≡ (board * 3 + p) * 8
      → m ≡ n + 8
      → Filled bytes n d
      → Fills bytes m (load_byte board (p, pair) d)
  load_byte-Fills board p n m pair d v e q f = rw (hex_value-int_base pair _ v) (
      bits-Filled bytes (board * 3 + p) (λ bit. board * 24 + (p * 8 + bit + 1)) (λ bit. omega arith)
        0 8 n m d (omega arith) q (omega arith) f)

  -- The pair with number `p` of a chunk is a pair of the whole text.
  chunk_pair :
      (count start stop a j : ℕ)
      → Pairs hex bytes count
      → j < count
      → start + a ≡ j * 2
      → start + (a + 2) ≤ stop
      → int_base 16 (slice a (a + 2) (slice start stop hex)) ≡ some (bytes j)
  chunk_pair count start stop a j pairs h e le =
      rw (slice-slice a (a + 2) start stop hex (omega arith) le) (
        let low : start + a ≡ j * 2 = e in
        let high : start + (a + 2) ≡ j * 2 + 2 = omega arith in rw (high, low) (pairs j h))

  load_board-Fills :
      (count : ℕ)
      → Pairs hex bytes (count * 3)
      → (board : ℕ) (d : BitMap) → board < count
      → Filled bytes (board * 24) d
      → Fills bytes (suc board * 24) (load_board hex board d)
  unfolding for_each
  load_board-Fills count pairs board d h f =
      bind-Fills bytes (board * 24 + 8) (suc board * 24) _ _
        (load_byte-Fills board 0 (board * 24) (board * 24 + 8) _ d
          (chunk_pair (count * 3) (board * 6) (board * 6 + 6) 0 (board * 3 + 0) pairs (omega arith)
            (omega arith) (omega arith))
          (omega arith) refl f)
        (λ d1 f1.
          bind-Fills bytes (board * 24 + 16) (suc board * 24) _ _
            (load_byte-Fills board 1 (board * 24 + 8) (board * 24 + 16) _ d1
              (chunk_pair (count * 3) (board * 6) (board * 6 + 6) 2 (board * 3 + 1) pairs
                (omega arith) (omega arith) (omega arith))
              (omega arith) (omega arith) f1)
            (λ d2 f2.
              bind-Fills bytes (suc board * 24) (suc board * 24) _ _
                (load_byte-Fills board 2 (board * 24 + 16) (suc board * 24) _ d2
                  (chunk_pair (count * 3) (board * 6) (board * 6 + 6) 4 (board * 3 + 2) pairs
                    (omega arith) (omega arith) (omega arith))
                  (omega arith) (omega arith) f2)
                (λ d3 f3. (d3, refl, f3))))

  switch_byte-Fills :
      (entry p n m : ℕ) (pair : Text) (d : BitMap)
      → int_base 16 pair ≡ some (bytes (entry * 2 + p))
      → n ≡ (entry * 2 + p) * 8
      → m ≡ n + 8
      → Filled bytes n d
      → Fills bytes m (switch_byte entry (p, pair) d)
  switch_byte-Fills entry p n m pair d v e q f = rw (hex_value-int_base pair _ v) (
      bits-Filled bytes (entry * 2 + p) (λ bit. entry * 16 + (p * 8 + bit) + 1) (λ bit. omega arith)
        0 8 n m d (omega arith) q (omega arith) f)

  switch_entry-Fills :
      (count : ℕ)
      → Pairs hex bytes (count * 2)
      → (entry : ℕ) (d : BitMap) → entry < count
      → Filled bytes (entry * 16) d
      → Fills bytes (suc entry * 16) (switch_entry hex entry d)
  unfolding for_each
  switch_entry-Fills count pairs entry d h f =
      bind-Fills bytes (entry * 16 + 8) (suc entry * 16) _ _
        (switch_byte-Fills entry 0 (entry * 16) (entry * 16 + 8) _ d
          (chunk_pair (count * 2) (entry * 4) (entry * 4 + 4) 0 (entry * 2 + 0) pairs (omega arith)
            (omega arith) (omega arith))
          (omega arith) refl f)
        (λ d1 f1.
          bind-Fills bytes (suc entry * 16) (suc entry * 16) _ _
            (switch_byte-Fills entry 1 (entry * 16 + 8) (suc entry * 16) _ d1
              (chunk_pair (count * 2) (entry * 4) (entry * 4 + 4) 2 (entry * 2 + 1) pairs
                (omega arith) (omega arith) (omega arith))
              (omega arith) (omega arith) f1)
            (λ d2 f2. (d2, refl, f2)))

  pub parse_load_bitmap-Fills :
      length hex ≡ 48 → Pairs hex bytes 24 → Fills bytes 192 (parse_load_bitmap hex)
  unfolding parse_load_bitmap
  parse_load_bitmap-Fills len pairs = rw len (
      rounds-Fills bytes 24 (load_board hex) 8 (load_board-Fills 8 pairs) 0 8 [] refl
        (Filled-zero bytes))

  pub parse_switch_bitmap-Fills :
      length hex ≡ 96 → Pairs hex bytes 48 → Fills bytes 384 (parse_switch_bitmap hex)
  unfolding parse_switch_bitmap
  parse_switch_bitmap-Fills len pairs = rw len (
      rounds-Fills bytes 16 (switch_entry hex) 24 (switch_entry-Fills 24 pairs) 0 24 [] refl
        (Filled-zero bytes))
