-- ===== src/Parsers/Csv.antt =====
-- custom_components/centralite/parsers/elg.py: the ids that a user types.
pub mod Reads
use centralite_ha.Base.{
  ℤ, Bool, Option, none, some, List, [], ◌∷◌, Result, ok, err, value_error, bind, if◌then◌else◌,
}
use centralite_ha.Text.{Text, strip, split}
use centralite_ha.Text.Number.{int}
use centralite_ha.Dict.{int_eq}
use centralite_ha.Sets.{add, sorted_set, int_order}

-- int(t), or its ValueError
abbrev pub or_error : Option ℤ → Result ℤ
or_error none = err value_error
or_error (some z) = ok z

abbrev pub read_id : Text → Result ℤ
read_id t = or_error (int t)

abbrev pub add_id : Text → List ℤ → Result (List ℤ)
add_id [] ids = ok ids
add_id (c ∷ t) ids = bind (read_id (c ∷ t)) (λ z. ok (add z ids))

unfoldable pub csv_tokens : List Text → List ℤ → Result (List ℤ)
csv_tokens [] ids = ok ids
csv_tokens (token ∷ tokens) ids = bind (add_id (strip token) ids) (csv_tokens tokens)

abbrev pub parse_tokens : Text → Text → Result (List ℤ)
parse_tokens text [] = ok []
parse_tokens text (c ∷ t) = bind (csv_tokens (split b',' text) []) (λ ids. ok (sorted_set ids))

unfoldable pub parse_csv_ids : Text → Result (List ℤ)
unfolding csv_tokens
parse_csv_ids text = parse_tokens text (strip text)
