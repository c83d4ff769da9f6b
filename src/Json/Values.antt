-- ===== src/Json/Values.antt =====
-- JSON values as `json.loads` gives them: an object is a dict in the order of the document.
use kry.Base.{zero, Bool, true, false, ◌&&◌, if◌then◌else◌, Option, none, some, List, [], ◌∷◌}
use kry.Base.Int.{ℤ}
use kry.Base.Texts.{Text, text_eq}
use kry.Double.{Double, is_finite}

mutual
  pub data Json : Type 0 where
    null : Json
    bool : Bool → Json
    int : ℤ → Json
    float : Double → Json
    str : Text → Json
    arr : Items → Json
    obj : Fields → Json

  pub data Items : Type 0 where
    nil : Items
    cons : Json → Items → Items

  pub data Fields : Type 0 where
    end : Fields
    field : Text → Json → Fields → Fields

-- `d.get(k)` of an object, None apart from null.
unfoldable pub get : Text → Fields → Option Json
unfolding text_eq
get k end = none
get k (field j v d) = if text_eq j k then some v else get k d

-- `d.get(k, default)`
abbrev pub or_json : Json → Option Json → Json
or_json d none = d
or_json d (some v) = v

unfoldable pub get_or : Text → Json → Fields → Json
unfolding get
get_or k v d = or_json v (get k d)

-- `v == s` for a text s.
abbrev pub is_text : Text → Json → Bool
is_text s (str t) = text_eq t s
is_text s _ = false

-- The texts of an array as a list.
abbrev pub items : Items → List Json
items nil = []
items (cons v vs) = v ∷ items vs

abbrev pub of_list : List Json → Items
of_list [] = nil
of_list (v ∷ vs) = cons v (of_list vs)

-- `bool(v)`
abbrev pub truthy : Json → Bool
truthy null = false
truthy (bool b) = b
truthy (int (ℤ.pos zero)) = false
truthy (float (Double.fin (ℤ.pos zero))) = false
truthy (str []) = false
truthy (arr nil) = false
truthy (obj end) = false
truthy _ = true

-- What `json.dumps(..., allow_nan=False)` accepts: every float is finite.
unfoldable mutual
  pub is_dumpable : Json → Bool
  is_dumpable null = true
  is_dumpable (bool b) = true
  is_dumpable (int n) = true
  is_dumpable (float x) = is_finite x
  is_dumpable (str s) = true
  is_dumpable (arr vs) = are_dumpable vs
  is_dumpable (obj d) = are_dumpable_fields d

  pub are_dumpable : Items → Bool
  are_dumpable nil = true
  are_dumpable (cons v vs) = is_dumpable v && are_dumpable vs

  pub are_dumpable_fields : Fields → Bool
  are_dumpable_fields end = true
  are_dumpable_fields (field k v d) = is_dumpable v && are_dumpable_fields d
