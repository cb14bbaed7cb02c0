-- ===== src/Sets/Distinct.antt =====
-- Lists in which no element comes twice: joined, and mapped by a function that keeps elements apart.
use centralite_ha.Base.{
  Bool, true, false, List, [], ◌∷◌, ◌++◌, map, ◌≡◌, refl, ap, ◌∙◌, arith, Bool-cases, inl, inr,
}
use centralite_ha.Dict.{Eq, beq_refl}
use centralite_ha.Sets.{member}
use centralite_ha.Sets.Sorted.{is_distinct, member-append}

module _ {ℓ} {A : Type ℓ} ⦃e : Eq A⦄ where
  -- Two lists that a test tells apart.
  pub append-is_distinct :
      (p : A → Bool) (xs ys : List A)
      → is_distinct xs ≡ true
      → is_distinct ys ≡ true
      → ((z : A) → member z xs ≡ true → p z ≡ true)
      → ((z : A) → member z ys ≡ true → p z ≡ false)
      → is_distinct (xs ++ ys) ≡ true
  unfolding is_distinct member
  append-is_distinct p [] ys dx dy hx hy = dy
  append-is_distinct p (x ∷ xs) ys dx dy hx hy = elim (Bool-cases (member x ys)) [
    | inl shared ↦
        let here : p x ≡ true = hx x (ground (arith, beq_refl x)) in
        let there : p x ≡ false = hy x shared in absurd (ground arith)
    | inr apart ↦
        let rest : is_distinct (xs ++ ys) ≡ true =
          append-is_distinct p xs ys (ground arith) dy (λ z m. hx z (ground (arith, m))) hy in
        ground (arith, rest, apart, member-append x xs ys)
  ]

module _ {ℓ κ} {A : Type ℓ} {B : Type κ} ⦃e : Eq A⦄ ⦃e' : Eq B⦄ where
  -- A member of a mapped list is the value at a member.
  pub member-map :
      (f : A → B) (z : B) (xs : List A)
      → member z (map f xs) ≡ true
      → (x : A) × (member x xs ≡ true) × (z ≡ f x)
  unfolding member
  member-map f z [] m = cc
  member-map f z (x ∷ xs) m = elim (Bool-cases (e'.beq z (f x))) [
    | inl same ↦ (x, ground (arith, beq_refl x), (e'.beq_iff z (f x)).0 same)
    | inr other ↦
        let (y, listed, eq) = member-map f z xs (ground arith) in (y, ground (arith, listed), eq)
  ]

  pub map-is_distinct :
      (f : A → B) (xs : List A)
      → is_distinct xs ≡ true
      → ((x y : A) → member x xs ≡ true → member y xs ≡ true → f x ≡ f y → x ≡ y)
      → is_distinct (map f xs) ≡ true
  unfolding is_distinct member
  map-is_distinct f [] d h = refl
  map-is_distinct f (x ∷ xs) d h = elim (Bool-cases (member (f x) (map f xs))) [
    | inl shared ↦
        let (y, listed, eq) = member-map f (f x) xs shared in
        let same : x ≡ y = h x y (ground (arith, beq_refl x)) (ground (arith, listed)) eq in
        let twice : member x xs ≡ true = ap (λ t. member t xs) same ∙ listed in
        absurd (ground arith)
    | inr apart ↦
        let rest : is_distinct (map f xs) ≡ true =
          map-is_distinct f xs (ground arith)
            (λ a b m n. h a b (ground (arith, m)) (ground (arith, n))) in
        ground (arith, rest, apart)
  ]

  pub map-member :
      (f : A → B) (x : A) (xs : List A) → member x xs ≡ true → member (f x) (map f xs) ≡ true
  unfolding member
  map-member f x [] m = cc
  map-member f x (y ∷ xs) m = elim (Bool-cases (e.beq x y)) [
    | inl same ↦
        let eq : x ≡ y = (e.beq_iff x y).0 same in
        let here : e'.beq (f x) (f y) ≡ true = (e'.beq_iff (f x) (f y)).1 (ap f eq) in
        ground (arith, here)
    | inr other ↦ ground (arith, map-member f x xs (ground arith))
  ]

-- Two maps, one behind the other.
pub map-map {ℓ κ μ} :
    {A : Type ℓ} {B : Type κ} {C : Type μ} (f : B → C) (g : A → B) (k : A → C)
    → ((x : A) → f (g x) ≡ k x)
    → (xs : List A) → map f (map g xs) ≡ map k xs
map-map f g k h [] = refl
map-map f g k h (x ∷ xs) = rw (h x, map-map f g k h xs)
