-- ===== src/Parsers/Csv/Reads.antt =====
-- custom_components/centralite/parsers/elg.py: parse_csv_ids against what a comma-separated list says.
use centralite_ha.Base.{
  ℕ, ℤ, Bool, true, false, ◌&&◌, ◌||◌, Option, none, some, List, [], ◌∷◌, Result, ok, err,
  value_error, bind, ◌≡◌, refl, sym, ap, ◌∙◌, arith, Bool-cases, inl, inr, if◌then◌else◌, ◌==◌,
}
use centralite_ha.Text.{Text, is_empty, is_space, lstrip, rstrip, strip, split}
use centralite_ha.Text.Number.{int}
use centralite_ha.Dict.{int_eq, int_beq, is_some}
use centralite_ha.Sets.{member, add, sorted_set, int_order}
use centralite_ha.Sets.Sorted.{
  is_ascending, int_order-IsLinear, sorted_set-is_ascending, member-add, member-sorted_set,
}
use centralite_ha.Parsers.Csv.{or_error, add_id, csv_tokens, parse_tokens, parse_csv_ids}

-- A blank token counts for nothing; any other has to be an integer.
abbrev is_readable : Text → Bool
is_readable token = is_empty (strip token) || is_some (int (strip token))

abbrev all_readable : List Text → Bool
all_readable [] = true
all_readable (token ∷ tokens) = is_readable token && all_readable tokens

abbrev reads_as : ℤ → Option ℤ → Bool
reads_as y none = false
reads_as y (some z) = int_beq y z

abbrev is_typed : ℤ → List Text → Bool
is_typed y [] = false
is_typed y (token ∷ tokens) = reads_as y (int (strip token)) || is_typed y tokens

-- Either every token can be read, and the ids are exactly the integers typed, or some token cannot.
abbrev ReadsOnto : List ℤ → List Text → Result (List ℤ) → Type 0
ReadsOnto old tokens (ok ids) =
    (all_readable tokens ≡ true) × ((y : ℤ) → member y ids ≡ (is_typed y tokens || member y old))
ReadsOnto old tokens (err e) = (all_readable tokens ≡ false) × (e ≡ value_error)

abbrev pub Reads : List Text → Result (List ℤ) → Type 0
Reads tokens (ok ids) =
    (all_readable tokens ≡ true)
    × (is_ascending ids ≡ true)
    × ((y : ℤ) → member y ids ≡ is_typed y tokens)
Reads tokens (err e) = (all_readable tokens ≡ false) × (e ≡ value_error)

-- The loop from a token that adds nothing on, and from one that adds its integer.
ReadsOnto-blank :
    (old : List ℤ) (token : Text) (tokens : List Text) (r : Result (List ℤ))
    → strip token ≡ []
    → ReadsOnto old tokens r
    → ReadsOnto old (token ∷ tokens) r
unfolding int
ReadsOnto-blank old token tokens (ok ids) e (all, members) = (rw e all, λ y. rw e (members y))
ReadsOnto-blank old token tokens (err x) e (some', same) = (rw e some', same)

readable-id :
    (token : Text) (z : ℤ) (tokens : List Text) (b : Bool)
    → int (strip token) ≡ some z
    → all_readable tokens ≡ b
    → (is_readable token && all_readable tokens) ≡ b
readable-id token z tokens b e h = rw (e, h) (ground arith)

swap :
    (y z : ℤ) (tokens : List Text) (old : List ℤ)
    → (is_typed y tokens || member y (add z old))
      ≡ ((int_beq y z || is_typed y tokens) || member y old)
swap y z tokens old = rw (member-add y z old) (ground arith)

ReadsOnto-id :
    (old : List ℤ) (token : Text) (z : ℤ) (tokens : List Text) (r : Result (List ℤ))
    → int (strip token) ≡ some z
    → ReadsOnto (add z old) tokens r
    → ReadsOnto old (token ∷ tokens) r
ReadsOnto-id old token z tokens (ok ids) e (all, members) =
    (readable-id token z tokens true e all, λ y. rw e (members y ∙ swap y z tokens old))
ReadsOnto-id old token z tokens (err x) e (some', same) =
    (readable-id token z tokens false e some', same)

csv_tokens-ReadsOnto :
    (tokens : List Text) (old : List ℤ) → ReadsOnto old tokens (csv_tokens tokens old)
unfolding csv_tokens
csv_tokens-ReadsOnto [] old = (refl, λ y. refl)
csv_tokens-ReadsOnto (token ∷ tokens) old = go (strip token) refl (csv_tokens-ReadsOnto tokens)
  where
    number :
        (c : ℕ) (t : Text) (o : Option ℤ)
        → int (strip token) ≡ o
        → is_empty (strip token) ≡ false
        → ((old' : List ℤ) → ReadsOnto old' tokens (csv_tokens tokens old'))
        → ReadsOnto old
            (token ∷ tokens)
            (bind (bind (or_error o) (λ z. ok (add z old))) (csv_tokens tokens))
    number c t none n filled rest = (rw (n, filled) refl, refl)
    number c t (some z) n filled rest =
        ReadsOnto-id old token z tokens (csv_tokens tokens (add z old)) n (rest (add z old))

    go :
        (stripped : Text)
        → strip token ≡ stripped
        → ((old' : List ℤ) → ReadsOnto old' tokens (csv_tokens tokens old'))
        → ReadsOnto old (token ∷ tokens) (bind (add_id stripped old) (csv_tokens tokens))
    go [] e rest = ReadsOnto-blank old token tokens (csv_tokens tokens old) e (rest old)
    go (c ∷ t) e rest = number c t (int (c ∷ t)) (ap int e) (ap is_empty e) rest

rstrip-blank : (c : ℕ) (t : Text) → rstrip (c ∷ t) ≡ [] → is_space c ≡ true
unfolding rstrip
rstrip-blank c t h = go (rstrip t) h
  where
    go :
        (r : Text)
        → elim r as (λ x. Text) [ [] ↦ if is_space c then [] else c ∷ [] | d ∷ s ↦ c ∷ d ∷ s ] ≡ []
        → is_space c ≡ true
    go [] e = ground arith
    go (d ∷ r) e = cc

not_comma : (c : ℕ) → is_space c ≡ true → (b',' == c) ≡ false
unfolding is_space
not_comma c blank = ground arith

-- A text that strips to nothing is one token.
strip-split : (t : Text) → strip t ≡ [] → split b',' t ≡ t ∷ []
unfolding strip lstrip split
strip-split [] h = refl
strip-split (c ∷ t) h = elim (Bool-cases (is_space c)) [
  | inl blank ↦ rw (not_comma c blank, strip-split t (rw blank at h)) refl
  | inr other ↦ cc (sym other ∙ rstrip-blank c t (rw other at h))
]

-- An id list either gives exactly the integers typed between its commas, blanks around them dropped, each
-- once and in ascending order, or, where something else than an integer or a blank is typed, a ValueError.
pub parse_csv_ids-Reads : (text : Text) → Reads (split b',' text) (parse_csv_ids text)
unfolding parse_csv_ids int member
parse_csv_ids-Reads text = go (strip text) refl
  where
    sorted :
        (r : Result (List ℤ))
        → ReadsOnto [] (split b',' text) r
        → Reads (split b',' text) (bind r (λ ids. ok (sorted_set ids)))
    sorted (ok ids) (all, members) = (
      all,
      sorted_set-is_ascending int_order-IsLinear ids,
      λ y. member-sorted_set y ids ∙ members y ∙ ground arith,
    )
    sorted (err e) h = h

    go :
        (stripped : Text)
        → strip text ≡ stripped
        → Reads (split b',' text) (parse_tokens text stripped)
    go [] e = rw (strip-split text e) (rw e refl, refl, λ y. rw e refl)
    go (c ∷ t) e =
        sorted (csv_tokens (split b',' text) []) (csv_tokens-ReadsOnto (split b',' text) [])
