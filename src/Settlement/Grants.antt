-- ===== src/Settlement/Grants.antt =====
-- `_entry_grant_payload` of kry_settlement.py: the grant ids of a registry entry, checked, and the text
-- that the entry's hash binds.
use kry.Base.{Bool, true, false, ◌&&◌, not, if◌then◌else◌, Option, none, some, List, [], ◌∷◌}
use kry.Base.Texts.{Text, codes, has_code, mem_text, join, sorted, has_dup}
use kry.Base.Results.{Result, ok, err, value_error, ◌>>=◌}
use kry.Python.{Value, Values, nil, cons, str, list}

-- The ids of an entry: none in a legacy entry, one in a settlement, some in a checkpoint.
pub data Grants : Type 0 where
  legacy : Grants
  single : Text → Grants
  many : List Text → Grants

abbrev pub grant_texts : Grants → List Text
grant_texts legacy = []
grant_texts (single g) = g ∷ []
grant_texts (many gs) = gs

abbrev pub is_empty : Text → Bool
is_empty [] = true
is_empty (_ ∷ _) = false

-- A non-empty string without the separators of the hashed text.
unfoldable pub is_grant_id : Text → Bool
unfolding has_code
is_grant_id g = not (is_empty g) && not (has_code b':' g) && not (has_code b',' g)

-- One id of the loop in `any(...)`.
unfoldable pub grant_id_of : Value → Result Text
grant_id_of (str g) = if is_grant_id g then ok g else err value_error
grant_id_of _ = err value_error

unfoldable pub grant_ids_of : Values → Result (List Text)
unfolding grant_id_of
grant_ids_of nil = ok []
grant_ids_of (cons v vs) = do g ← grant_id_of v; gs ← grant_ids_of vs; ok (g ∷ gs)

unfoldable pub distinct : List Text → Result (List Text)
distinct gs = if has_dup gs then err value_error else ok gs

-- The checks, on the two optional keys of an entry.
unfoldable pub parse_grants : Option Value → Option Value → Result Grants
unfolding grant_ids_of grant_id_of distinct
parse_grants (some _) (some _) = err value_error
parse_grants none (some (list vs)) = do gs ← grant_ids_of vs; ds ← distinct gs; ok (many ds)
parse_grants none (some _) = err value_error
parse_grants (some v) none = do g ← grant_id_of v; ok (single g)
parse_grants none none = ok legacy

-- The text that the function returns.
unfoldable pub grants_payload : Grants → Text
grants_payload legacy = []
grants_payload (single g) = join (codes ",") (sorted (g ∷ []))
grants_payload (many gs) = join (codes ",") (sorted gs)

-- `grant_id == e.get("grant_id") or grant_id in e.get("grant_ids", ())`
unfoldable pub has_grant : Text → Grants → Bool
unfolding mem_text
has_grant g gs = mem_text g (grant_texts gs)
