-- ===== src/Text/Number/Padded.antt =====
-- Padded numbers tell the ids of a system apart.
use centralite_ha.Base.{
  ℕ, ◌<◌, ℤ, pos, negsuc, true, some, ◌++◌, ◌≡◌, refl, sym, ap, ◌∙◌, arith, take, drop, within_one,
}
use centralite_ha.Text.{Text}
use centralite_ha.Text.Number.{pad_int, int}
use centralite_ha.Text.Number.Laws.{pad_three, int-pad_two, int-pad_three}

pub pad_int_three-injective :
    (hi : ℕ) (i j : ℤ)
    → hi < 1000
    → within_one hi i ≡ true
    → within_one hi j ≡ true
    → pad_int 3 i ≡ pad_int 3 j
    → i ≡ j
unfolding pad_int
pad_int_three-injective hi (pos m) (pos n) small h k e =
    let both : some (pos m) ≡ some (pos n) =
      sym (int-pad_three m (ground arith)) ∙ ap int e ∙ int-pad_three n (ground arith) in
    cc
pad_int_three-injective hi (negsuc m) j small h k e = cc
pad_int_three-injective hi (pos m) (negsuc n) small h k e = cc

pub pad_int_two-injective :
    (hi : ℕ) (i j : ℤ)
    → hi < 100
    → within_one hi i ≡ true
    → within_one hi j ≡ true
    → pad_int 2 i ≡ pad_int 2 j
    → i ≡ j
unfolding pad_int
pad_int_two-injective hi (pos m) (pos n) small h k e =
    let both : some (pos m) ≡ some (pos n) =
      sym (int-pad_two m (ground arith)) ∙ ap int e ∙ int-pad_two n (ground arith) in
    cc
pad_int_two-injective hi (negsuc m) j small h k e = cc
pad_int_two-injective hi (pos m) (negsuc n) small h k e = cc

-- The first three characters of a text that begins with a padded id, and what is behind them.
pub take-pad_int_three :
    (hi : ℕ) (i : ℤ) (t : Text)
    → hi < 1000
    → within_one hi i ≡ true
    → (take 3 (pad_int 3 i ++ t) ≡ pad_int 3 i) × (drop 3 (pad_int 3 i ++ t) ≡ t)
unfolding pad_int
take-pad_int_three hi (pos n) t small h = rw (pad_three n (ground arith)) (refl, refl)
take-pad_int_three hi (negsuc n) t small h = cc
