-- ===== src/Sets/Sorted.antt =====
-- Members of the lists that stand for sets, and the order of a sorted one.
use centralite_ha.Base.{
  ℤ, Bool, true, false, not, ◌&&◌, ◌||◌, List, [], ◌∷◌, ◌++◌, ◌≡◌, refl, ap, ◌∙◌, arith, Bool-cases,
  inl, inr,
}
use centralite_ha.Dict.{Eq, int_eq, pair_eq, int_beq, beq_refl, int_beq_iff}
use centralite_ha.Sets.{
  member, add, update, keep, Order, int_leb, int_order, pair_order, insert_sorted, sorted_set,
}

module _ {ℓ} {A : Type ℓ} ⦃e : Eq A⦄ where
  pub member-append : (y : A) (s t : List A) → member y (s ++ t) ≡ (member y s || member y t)
  unfolding member
  member-append y [] t = refl
  member-append y (x ∷ s) t = ground (arith, member-append y s t)

  -- A test that holds of one of two equal elements holds of the other.
  same_test : (p : A → Bool) (x y : A) → e.beq x y ≡ true → p x ≡ p y
  same_test p x y h = ap p ((e.beq_iff x y).0 h)

  pub member-add : (y x : A) (s : List A) → member y (add x s) ≡ (e.beq y x || member y s)
  unfolding add member
  member-add y x s = elim (Bool-cases (member x s)) [
    | inl old ↦ elim (Bool-cases (e.beq y x)) [
      | inl same ↦ rw (old, same) (same_test (λ z. member z s) y x same ∙ old)
      | inr other ↦ rw (old, other)
    ]
    | inr new ↦ rw new (ground (arith, member-append y s (x ∷ [])))
  ]

  pub member-update : (y : A) (s xs : List A) → member y (update s xs) ≡ (member y xs || member y s)
  unfolding update member
  member-update y s [] = refl
  member-update y s (x ∷ xs) = member-update y (add x s) xs ∙ ground (arith, member-add y x s)

  pub member-keep : (p : A → Bool) (y : A) (s : List A) → member y (keep p s) ≡ (member y s && p y)
  unfolding keep member
  member-keep p y [] = refl
  member-keep p y (x ∷ s) = elim (Bool-cases (e.beq y x)) [
    | inl same ↦
        let q : p y ≡ p x = same_test p y x same in
        rw (same, q) (ground (arith, same, q, member-keep p y s))
    | inr other ↦ rw other (ground (arith, other, member-keep p y s))
  ]

  module _ ⦃o : Order A⦄ where
    member-insert_sorted :
        (y k : A) (xs : List A) → member y (insert_sorted k xs) ≡ (e.beq y k || member y xs)
    unfolding insert_sorted member
    member-insert_sorted y k [] = ground arith
    member-insert_sorted y k (j ∷ xs) = elim (Bool-cases (e.beq k j)) [
      | inl same ↦ rw same (rw ((e.beq_iff k j).0 same) (ground arith))
      | inr other ↦ rw other (ground (arith, member-insert_sorted y k xs))
    ]

    -- Sorting loses and adds nothing.
    pub member-sorted_set : (y : A) (xs : List A) → member y (sorted_set xs) ≡ member y xs
    unfolding sorted_set member
    member-sorted_set y [] = refl
    member-sorted_set y (k ∷ xs) =
        member-insert_sorted y k (sorted_set xs) ∙ ground (arith, member-sorted_set y xs)

-- What `sorted` needs of its order.
pub record IsLinear {ℓ} (A : Type ℓ) ⦃e : Eq A⦄ ⦃o : Order A⦄ : Type ℓ where
  pub total : (a b : A) → o.le a b ≡ false → o.le b a ≡ true
  pub antisym : (a b : A) → o.le a b ≡ true → o.le b a ≡ true → e.beq a b ≡ true
  pub trans : (a b c : A) → o.le a b ≡ true → o.le b c ≡ true → o.le a c ≡ true

-- Each element is less than the next, so none comes twice.
abbrev pub is_ascending {ℓ} : {A : Type ℓ} ⦃e : Eq A⦄ ⦃o : Order A⦄ → List A → Bool
is_ascending [] = true
is_ascending (x ∷ []) = true
is_ascending ⦃e⦄ ⦃o⦄ (x ∷ y ∷ xs) = o.le x y && (not (e.beq x y) && is_ascending (y ∷ xs))

-- No element comes twice.
unfoldable pub is_distinct {ℓ} : {A : Type ℓ} ⦃e : Eq A⦄ → List A → Bool
unfolding member
is_distinct [] = true
is_distinct (x ∷ xs) = not (member x xs) && is_distinct xs

pub beq_sym {ℓ} : {A : Type ℓ} ⦃e : Eq A⦄ (a b : A) → e.beq a b ≡ e.beq b a
beq_sym ⦃e⦄ a b = ground (arith, e.beq_iff a b, e.beq_iff b a)

module _ {ℓ} {A : Type ℓ} ⦃e : Eq A⦄ ⦃o : Order A⦄ (laws : IsLinear A) where
  insert_sorted-is_ascending :
      (k : A) (xs : List A) → is_ascending xs ≡ true → is_ascending (insert_sorted k xs) ≡ true
  unfolding insert_sorted
  insert_sorted-is_ascending k [] h = refl
  insert_sorted-is_ascending k (j ∷ []) h = ground (arith, beq_sym k j, laws.total k j)
  insert_sorted-is_ascending k (j ∷ i ∷ xs) h =
      ground
        (arith, beq_sym k j, beq_sym k i, laws.total k j, insert_sorted-is_ascending k (i ∷ xs))

  pub sorted_set-is_ascending : (xs : List A) → is_ascending (sorted_set xs) ≡ true
  unfolding sorted_set
  sorted_set-is_ascending [] = refl
  sorted_set-is_ascending (k ∷ xs) =
      insert_sorted-is_ascending k (sorted_set xs) (sorted_set-is_ascending xs)

  -- The head of an ascending list is less than every other element.
  head-is_least :
      (x : A) (xs : List A) (y : A)
      → is_ascending (x ∷ xs) ≡ true
      → member y xs ≡ true
      → (o.le x y ≡ true) × (e.beq x y ≡ false)
  unfolding member
  head-is_least x [] y h m = cc
  head-is_least x (z ∷ zs) y h m = elim (Bool-cases (e.beq y z)) [
    | inl same ↦ rw ((e.beq_iff y z).0 same) (ground arith)
    | inr other ↦
        let (le, ne) = head-is_least z zs y (ground arith) (ground arith) in
        let below : o.le x y ≡ true = laws.trans x z y (ground arith) le in
        (
          below,
          elim (Bool-cases (e.beq x y)) [
            | inl same ↦
                let back : o.le z x ≡ true = rw ((e.beq_iff x y).0 same) le in
                let equal = laws.antisym x z (ground arith) back in absurd (ground arith)
            | inr differ ↦ differ
          ],
        )
  ]

  pub is_ascending-is_distinct : (xs : List A) → is_ascending xs ≡ true → is_distinct xs ≡ true
  unfolding is_distinct member
  is_ascending-is_distinct [] h = refl
  is_ascending-is_distinct (x ∷ xs) h = elim (Bool-cases (member x xs)) [
    | inl twice ↦ let (le, ne) = head-is_least x xs x h twice in absurd (ground (arith, beq_refl x))
    | inr once ↦ ground (arith, is_ascending-is_distinct xs (tail-is_ascending x xs h))
  ]
    where
      tail-is_ascending :
          (x : A) (xs : List A) → is_ascending (x ∷ xs) ≡ true → is_ascending xs ≡ true
      tail-is_ascending x [] h = refl
      tail-is_ascending x (y ∷ xs) h = ground arith

int_leb_total : (a b : ℤ) → int_leb a b ≡ false → int_leb b a ≡ true
int_leb_total a b h = ground arith

int_leb_antisym : (a b : ℤ) → int_leb a b ≡ true → int_leb b a ≡ true → int_beq a b ≡ true
int_leb_antisym a b h k = ground arith

int_leb_trans : (a b c : ℤ) → int_leb a b ≡ true → int_leb b c ≡ true → int_leb a c ≡ true
int_leb_trans a b c h k = ground arith

pub int_order-IsLinear : IsLinear ℤ
int_order-IsLinear = record {
  total = int_leb_total;
  antisym = int_leb_antisym;
  trans = int_leb_trans;
}

pair_le_trans :
    (p q r : ℤ × ℤ) → pair_order.le p q ≡ true → pair_order.le q r ≡ true → pair_order.le p r ≡ true
pair_le_trans (a, b) (c, d) (x, y) h k = elim (Bool-cases (int_beq a c)) [
  | inl same ↦
      let level : int_leb b d ≡ true = ground arith in
      rw ((int_beq_iff a c).0 same) (ground (arith, int_leb_trans b d y))
  | inr other ↦ elim (Bool-cases (int_beq c x)) [
    | inl same ↦ ground (arith, int_beq_iff c x, int_beq_iff a x)
    | inr differ ↦
        ground
          (arith, int_leb_trans a c x, int_leb_antisym a c, int_beq_iff a x, int_leb_antisym c x)
  ]
]

pub pair_order-IsLinear : IsLinear (ℤ × ℤ)
pair_order-IsLinear = record {
  total = λ p q h. ground (arith, beq_sym p.0 q.0, int_leb_total p.0 q.0, int_leb_total p.1 q.1);
  antisym =
      λ p q h k. ground (arith, beq_sym p.0 q.0, int_leb_antisym p.0 q.0, int_leb_antisym p.1 q.1);
  trans = pair_le_trans;
}
