-- ===== src/Text/Strip.antt =====
-- Texts stripped of the blanks at their ends.
use centralite_ha.Base.{ℕ, false, [], ◌∷◌, ◌++◌, ◌≡◌, refl, ◌∙◌, if◌then◌else◌}
use centralite_ha.Text.{Text, is_space, strip, lstrip, rstrip}

-- A character other than a blank stays.
pub rstrip-cons : (c : ℕ) (t : Text) → is_space c ≡ false → rstrip (c ∷ t) ≡ c ∷ rstrip t
unfolding rstrip
rstrip-cons c t h = go (rstrip t)
  where
    go :
        (r : Text)
        → elim r as (λ x. Text) [ [] ↦ if is_space c then [] else c ∷ [] | d ∷ s ↦ c ∷ d ∷ s ]
          ≡ c ∷ r
    go [] = rw h refl
    go (d ∷ s) = refl

pub rstrip-cons_kept :
    (c : ℕ) (t : Text) (d : ℕ) (r : Text) → rstrip t ≡ d ∷ r → rstrip (c ∷ t) ≡ c ∷ d ∷ r
unfolding rstrip
rstrip-cons_kept c t d r h = rw h refl

pub rstrip-end : (t : Text) (z : ℕ) → is_space z ≡ false → rstrip (t ++ z ∷ []) ≡ t ++ z ∷ []
unfolding rstrip
rstrip-end [] z h = rw h refl
rstrip-end (c ∷ []) z h = rstrip-cons_kept c (z ∷ []) z [] (rstrip-end [] z h)
rstrip-end (c ∷ d ∷ t) z h =
    rstrip-cons_kept c (d ∷ t ++ z ∷ []) d (t ++ z ∷ []) (rstrip-end (d ∷ t) z h)

pub strip-full : (c : ℕ) (t : Text) → is_space c ≡ false → strip (c ∷ t) ≡ rstrip (c ∷ t)
unfolding strip lstrip
strip-full c t h = rw h refl

pub strip-cons : (c : ℕ) (t : Text) → is_space c ≡ false → strip (c ∷ t) ≡ c ∷ rstrip t
strip-cons c t h = strip-full c t h ∙ rstrip-cons c t h

-- The blanks at the end of a text are those of its last part.
pub rstrip-behind :
    (p : Text) (c : ℕ) (t : Text) → rstrip (c ∷ t) ≡ c ∷ t → rstrip (p ++ c ∷ t) ≡ p ++ c ∷ t
rstrip-behind [] c t h = h
rstrip-behind (d ∷ []) c t h = rstrip-cons_kept d (c ∷ t) c t h
rstrip-behind (d ∷ e ∷ p) c t h =
    rstrip-cons_kept d (e ∷ p ++ c ∷ t) e (p ++ c ∷ t) (rstrip-behind (e ∷ p) c t h)

-- A text is stripped behind a character that is no blank.
pub rstrip-past :
    (p : Text) (z : ℕ) (t : Text) → is_space z ≡ false → rstrip (p ++ z ∷ t) ≡ p ++ z ∷ rstrip t
rstrip-past [] z t h = rstrip-cons z t h
rstrip-past (c ∷ []) z t h = rstrip-cons_kept c (z ∷ t) z (rstrip t) (rstrip-past [] z t h)
rstrip-past (c ∷ d ∷ p) z t h =
    rstrip-cons_kept c (d ∷ p ++ z ∷ t) d (p ++ z ∷ rstrip t) (rstrip-past (d ∷ p) z t h)
