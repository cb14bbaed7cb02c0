-- ===== src/Protocol/Bitmap/Fill.antt =====
-- The dictionary that a bitmap loop builds, after `n` bits.
use centralite_ha.Base.{
  ℕ, zero, suc, ◌+◌, ◌-◌, ◌*◌, ◌/◌, ◌%◌, ◌≤◌, ◌<◌, ℤ, pos, Bool, ◌&&◌, none, some, [], ◌≡◌, refl,
  ap, arith, ok, range_from, leb, if◌then◌else◌, take, drop, take-take, drop-take, drop-drop, List,
}
use centralite_ha.Dict.{get, put, get-put, int_eq}
use centralite_ha.Protocol.Bitmap.{BitMap, test_bit, for_each}

-- The bit that stands for key `k`, where `bytes` are the values of the hex pairs.
abbrev pub bit_of : (ℕ → ℤ) → ℕ → Bool
bit_of bytes k = test_bit (bytes ((k - 1) / 8)) ((k - 1) % 8)

-- Exactly the keys 1 to n are there.
abbrev pub Filled : (ℕ → ℤ) → ℕ → BitMap → Type 0
Filled bytes n d =
    (k : ℕ) → get d (pos k) ≡ (if leb 1 k && leb k n then some (bit_of bytes k) else none)

pub Filled-zero : (bytes : ℕ → ℤ) → Filled bytes 0 []
unfolding get
Filled-zero bytes k = ground arith

pub Filled-put :
    (bytes : ℕ → ℤ) (n : ℕ) (d : BitMap)
    → Filled bytes n d
    → Filled bytes (suc n) (put d (pos (suc n)) (bit_of bytes (suc n)))
Filled-put bytes n d f k = rw get-put (ground (arith, f k))

pub slice-slice {ℓ} :
    {A : Type ℓ} (a b p q : ℕ) (xs : List A)
    → a ≤ b
    → p + b ≤ q
    → take (b - a) (drop a (take (q - p) (drop p xs))) ≡ take (p + b - (p + a)) (drop (p + a) xs)
slice-slice a b p q xs h k =
    rw
      (
        drop-take a (q - p) (q - p - a) (drop p xs) (omega arith),
        drop-drop a p (p + a) xs refl,
        take-take (b - a) (q - p - a) (drop (p + a) xs) (omega arith),
      )
      (ap (λ n. take n (drop (p + a) xs)) (omega arith))

bit_of_byte :
    (bytes : ℕ → ℤ) (j b n : ℕ)
    → n ≡ j * 8 + b
    → b < 8
    → bit_of bytes (suc n) ≡ test_bit (bytes j) b
bit_of_byte bytes j b n e h =
    let quotient : (suc n - 1) / 8 ≡ j = omega arith in
    let remainder : (suc n - 1) % 8 ≡ b = omega arith in rw (quotient, remainder)

-- The loop over the bits of one byte, the byte with number `j`.
module _ (bytes : ℕ → ℤ) (j : ℕ) (key : ℕ → ℕ) (keys : (bit : ℕ) → key bit ≡ j * 8 + bit + 1) where
  pub bits-Filled :
      (b k n m : ℕ) (d : BitMap)
      → n ≡ j * 8 + b
      → m ≡ n + k
      → b + k ≤ 8
      → Filled bytes n d
      → (d' : BitMap) × (for_each
            (range_from b k)
            (λ bit r. ok (put r (pos (key bit)) (test_bit (bytes j) bit)))
            d
          ≡ ok d')
        × Filled bytes m d'
  unfolding for_each
  bits-Filled b zero n m d e q h f = (d, refl, let same : m ≡ n = omega arith in rw same f)
  bits-Filled b (suc k) n m d e q h f =
      let index : key b ≡ suc n = omega (arith, keys b) in
      rw (index, ← bit_of_byte bytes j b n e (omega arith))
        (bits-Filled (suc b) k (suc n) m _ (omega arith) (omega arith) (omega arith)
          (Filled-put bytes n d f))
