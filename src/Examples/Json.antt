-- ===== src/Examples/Json.antt =====
-- Two spellings of one payload (backend/src/shared/json.js).
use hook_tracker.Prelude.{◌≡◌, ◌≢◌, refl, [], ◌∷◌, ◌++◌, codes, ap, arith, ℕ}
use hook_tracker.Json.{
  Text, Json, scalar, array, object, item, no_items, undefined_value, field, no_fields,
  canonical_json, text_le, join_texts, sort_entries,
}
use hook_tracker.Json.Canonical.{same_object, swapped, canonical_json-same}

abbrev quote : Text → Text
quote s = b'"' ∷ s ++ b'"' ∷ []

abbrev values : Json
values = array (item undefined_value (item (scalar (codes "1")) no_items))

abbrev one_way : Json
one_way = object (field (codes "b") (scalar (codes "true")) (field (codes "a") values no_fields))

abbrev other_way : Json
other_way = object (field (codes "a") values (field (codes "b") (scalar (codes "true")) no_fields))

text_test : canonical_json quote one_way ≡ codes "{\"a\":[null,1],\"b\":true}"
unfolding canonical_json join_texts sort_entries text_le
text_test = refl

abbrev first : Text → ℕ
first [] = 0
first (c ∷ s) = c

keys_differ : codes "b" ≢ codes "a"
keys_differ = λ e. omega (arith, ap first e)

canonical_json-same_example : canonical_json quote one_way ≡ canonical_json quote other_way
canonical_json-same_example = canonical_json-same quote one_way other_way (
    same_object _ _
      (swapped (codes "b") (codes "a") (scalar (codes "true")) values no_fields keys_differ))
