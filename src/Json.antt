-- ===== src/Json.antt =====
-- backend/src/shared/json.js: the text of a JSON value from which the default idempotency key is
-- hashed. A text is the list of its UTF-16 code units, by which `sort` compares. `quote` is
-- `JSON.stringify` of a string; a string, a number, a boolean and null come as the text that
-- `JSON.stringify` gives.
pub mod Canonical
use hook_tracker.Prelude.{
  ℕ, Bool, true, false, List, [], ◌∷◌, ◌++◌, map, codes, ltb, ◌==◌, if◌then◌else◌,
}

abbrev pub Text : Type 0
Text = List ℕ

mutual
  pub data Json : Type 0 where
    undefined_value : Json
    scalar : Text → Json
    array : Items → Json
    object : Fields → Json

  pub data Items : Type 0 where
    no_items : Items
    item : Json → Items → Items

  -- The properties in the order in which the object has them.
  pub data Fields : Type 0 where
    no_fields : Fields
    field : Text → Json → Fields → Fields

-- The order of `sort`.
unfoldable pub text_le : Text → Text → Bool
text_le [] t = true
text_le (a ∷ s) [] = false
text_le (a ∷ s) (b ∷ t) = if ltb a b then true else if a == b then text_le s t else false

-- `.sort()` of the keys, with the texts of their values.
unfoldable pub insert_entry : Text × Text → List (Text × Text) → List (Text × Text)
insert_entry x [] = x ∷ []
insert_entry x (y ∷ ys) =
    let rest = insert_entry x ys in if text_le x.0 y.0 then x ∷ y ∷ ys else y ∷ rest

unfoldable pub sort_entries : List (Text × Text) → List (Text × Text)
unfolding insert_entry
sort_entries [] = []
sort_entries (x ∷ xs) = insert_entry x (sort_entries xs)

-- `.join(',')`
unfoldable pub join_texts : List Text → Text
join_texts [] = []
join_texts (s ∷ []) = s
join_texts (s ∷ t ∷ rest) = s ++ b',' ∷ join_texts (t ∷ rest)

abbrev pub bracketed : List Text → Text
bracketed texts = b'[' ∷ join_texts texts ++ b']' ∷ []

module _ (quote : Text → Text) where
  abbrev pub entry_text : Text × Text → Text
  entry_text (key, value) = quote key ++ b':' ∷ value

  abbrev pub braced : List (Text × Text) → Text
  braced entries = b'{' ∷ join_texts (map entry_text entries) ++ b'}' ∷ []

  unfoldable mutual
    pub canonical_json : Json → Text
    canonical_json undefined_value = codes "null"
    canonical_json (scalar text) = text
    canonical_json (array items) = bracketed (canonical_items items)
    canonical_json (object fields) = braced (sort_entries (canonical_fields fields))

    pub canonical_items : Items → List Text
    canonical_items no_items = []
    canonical_items (item value items) = canonical_json value ∷ canonical_items items

    pub canonical_fields : Fields → List (Text × Text)
    canonical_fields no_fields = []
    canonical_fields (field key value fields) =
        (key, canonical_json value) ∷ canonical_fields fields
