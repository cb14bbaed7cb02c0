-- ===== src/Sets.antt =====
-- Python's `set` as a list in which no element comes twice, and `sorted` of one.
pub mod Sorted
pub mod Distinct
use centralite_ha.Base.{
  ℤ, pos, negsuc, Bool, true, false, not, ◌&&◌, ◌||◌, List, [], ◌∷◌, ◌++◌, leb, if◌then◌else◌,
}
use centralite_ha.Dict.{Eq, Dict, int_beq, int_eq, pair_eq}

-- x in s
unfoldable pub member {ℓ} : {A : Type ℓ} ⦃e : Eq A⦄ → A → List A → Bool
member x [] = false
member ⦃e⦄ x (y ∷ s) = let rest = member x s in if e.beq x y then true else rest

-- s.add(x)
unfoldable pub add {ℓ} : {A : Type ℓ} ⦃e : Eq A⦄ → A → List A → List A
unfolding member
add x s = if member x s then s else s ++ x ∷ []

-- s.update(xs)
unfoldable pub update {ℓ} : {A : Type ℓ} ⦃e : Eq A⦄ → List A → List A → List A
unfolding add
update s [] = s
update s (x ∷ xs) = update (add x s) xs

-- The elements that pass a test: `s - t` and `s & t` keep those not in t, and those in t.
unfoldable pub keep {ℓ} : {A : Type ℓ} → (A → Bool) → List A → List A
keep p [] = []
keep p (x ∷ s) = let rest = keep p s in if p x then x ∷ rest else rest

unfoldable pub difference {ℓ} : {A : Type ℓ} ⦃e : Eq A⦄ → List A → List A → List A
unfolding keep member
difference s t = keep (λ x. not (member x t)) s

unfoldable pub intersection {ℓ} : {A : Type ℓ} ⦃e : Eq A⦄ → List A → List A → List A
unfolding keep member
intersection s t = keep (λ x. member x t) s

-- The order that `sorted` uses.
pub record Order {ℓ} (A : Type ℓ) : Type ℓ where
  pub le : A → A → Bool

abbrev pub int_leb : ℤ → ℤ → Bool
int_leb (pos m) (pos n) = leb m n
int_leb (pos m) (negsuc n) = false
int_leb (negsuc m) (pos n) = true
int_leb (negsuc m) (negsuc n) = leb n m

instance abbrev pub int_order : Order ℤ
int_order = record { le = int_leb }

instance abbrev pub pair_order : Order (ℤ × ℤ)
pair_order = record { le = λ p q. if int_beq p.0 q.0 then int_leb p.1 q.1 else int_leb p.0 q.0 }

module _ {ℓ} {A : Type ℓ} ⦃e : Eq A⦄ ⦃o : Order A⦄ where
  unfoldable pub insert_sorted : A → List A → List A
  insert_sorted k [] = k ∷ []
  insert_sorted k (j ∷ xs) =
      let rest = insert_sorted k xs in
      if e.beq k j then j ∷ xs else if o.le k j then k ∷ j ∷ xs else j ∷ rest

  -- sorted(set(xs))
  unfoldable pub sorted_set : List A → List A
  unfolding insert_sorted
  sorted_set [] = []
  sorted_set (k ∷ xs) = insert_sorted k (sorted_set xs)
