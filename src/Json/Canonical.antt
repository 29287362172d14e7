-- ===== src/Json/Canonical.antt =====
-- The order of the keys does not matter, at any depth (backend/src/shared/json.js).
use hook_tracker.Prelude.{
  ◌≡◌, ◌≢◌, refl, sym, ap, ◌∙◌, List, [], ◌∷◌, true, false, arith, Bool-cases, inl, inr,
}
use hook_tracker.Json.{
  Text, Json, undefined_value, scalar, array, object, Items, no_items, item, Fields, no_fields,
  field, text_le, insert_entry, sort_entries, canonical_json, canonical_items, canonical_fields,
  braced, bracketed,
}

-- The same value, but for the order in which objects have their properties.
mutual
  pub data SameJson : Json → Json → Type 0 where
    same_undefined : SameJson undefined_value undefined_value
    same_scalar : (text : Text) → SameJson (scalar text) (scalar text)
    same_array : (xs ys : Items) → SameItems xs ys → SameJson (array xs) (array ys)
    same_object : (xs ys : Fields) → SameFields xs ys → SameJson (object xs) (object ys)

  pub data SameItems : Items → Items → Type 0 where
    same_end : SameItems no_items no_items
    same_item :
        (v w : Json) (xs ys : Items)
        → SameJson v w
        → SameItems xs ys
        → SameItems (item v xs) (item w ys)

  pub data SameFields : Fields → Fields → Type 0 where
    same_last : SameFields no_fields no_fields
    same_field :
        (key : Text) (v w : Json) (xs ys : Fields)
        → SameJson v w
        → SameFields xs ys
        → SameFields (field key v xs) (field key w ys)
    swapped :
        (k l : Text) (v w : Json) (xs : Fields)
        → k ≢ l
        → SameFields (field k v (field l w xs)) (field l w (field k v xs))
    then_same : (xs ys zs : Fields) → SameFields xs ys → SameFields ys zs → SameFields xs zs

text_le_total : (s t : Text) → text_le s t ≡ false → text_le t s ≡ true
unfolding text_le
text_le_total [] t h = cc
text_le_total (a ∷ s) [] h = refl
text_le_total (a ∷ s) (b ∷ t) h = ground (arith, text_le_total s t)

text_le_antisym : (s t : Text) → text_le s t ≡ true → text_le t s ≡ true → s ≡ t
unfolding text_le
text_le_antisym [] [] h k = refl
text_le_antisym [] (b ∷ t) h k = cc
text_le_antisym (a ∷ s) [] h k = cc
text_le_antisym (a ∷ s) (b ∷ t) h k = ground (arith, text_le_antisym s t)

text_le_trans : (s t u : Text) → text_le s t ≡ true → text_le t u ≡ true → text_le s u ≡ true
unfolding text_le
text_le_trans [] t u h k = refl
text_le_trans (a ∷ s) [] u h k = cc
text_le_trans (a ∷ s) (b ∷ t) [] h k = cc
text_le_trans (a ∷ s) (b ∷ t) (c ∷ u) h k = ground (arith, text_le_trans s t u)

-- Two keys that differ are in one order or the other.
other_order : (s t : Text) → s ≢ t → text_le s t ≡ true → text_le t s ≡ false
other_order s t differ h = elim (Bool-cases (text_le t s)) [
  | inl k ↦ elim (differ (text_le_antisym s t h k)) [ ]
  | inr k ↦ k
]

insert_before :
    (x y : Text × Text) (l : List (Text × Text))
    → text_le x.0 y.0 ≡ true
    → insert_entry x (y ∷ l) ≡ x ∷ y ∷ l
unfolding insert_entry
insert_before x y l h = rw h refl

insert_after :
    (x y : Text × Text) (l : List (Text × Text))
    → text_le x.0 y.0 ≡ false
    → insert_entry x (y ∷ l) ≡ y ∷ insert_entry x l
unfolding insert_entry
insert_after x y l h = rw h refl

insert_alone : (x : Text × Text) → insert_entry x [] ≡ x ∷ []
unfolding insert_entry
insert_alone x = refl

insert-insert :
    (x y : Text × Text) (l : List (Text × Text))
    → text_le x.0 y.0 ≡ true
    → text_le y.0 x.0 ≡ false
    → insert_entry x (insert_entry y l) ≡ insert_entry y (insert_entry x l)
insert-insert x y [] h k =
    ap (insert_entry x) (insert_alone y)
    ∙ insert_before x y [] h
    ∙ sym (
        ap (insert_entry y) (insert_alone x)
        ∙ insert_after y x [] k
        ∙ ap (λ m. x ∷ m) (insert_alone y))
insert-insert x y (z ∷ l) h k = elim (Bool-cases (text_le y.0 z.0)) [
  | inl yz ↦
      ap (insert_entry x) (insert_before y z l yz)
      ∙ insert_before x y (z ∷ l) h
      ∙ sym (
          ap (insert_entry y) (insert_before x z l (text_le_trans x.0 y.0 z.0 h yz))
          ∙ insert_after y x (z ∷ l) k
          ∙ ap (λ m. x ∷ m) (insert_before y z l yz))
  | inr zy ↦ elim (Bool-cases (text_le x.0 z.0)) [
    | inl xz ↦
        ap (insert_entry x) (insert_after y z l zy)
        ∙ insert_before x z (insert_entry y l) xz
        ∙ sym (
            ap (insert_entry y) (insert_before x z l xz)
            ∙ insert_after y x (z ∷ l) k
            ∙ ap (λ m. x ∷ m) (insert_after y z l zy))
    | inr zx ↦
        ap (insert_entry x) (insert_after y z l zy)
        ∙ insert_after x z (insert_entry y l) zx
        ∙ ap (λ m. z ∷ m) (insert-insert x y l h k)
        ∙ sym (ap (insert_entry y) (insert_after x z l zx) ∙ insert_after y z (insert_entry x l) zy)
  ]
]

insert-swap :
    (x y : Text × Text) (l : List (Text × Text))
    → x.0 ≢ y.0
    → insert_entry x (insert_entry y l) ≡ insert_entry y (insert_entry x l)
insert-swap x y l differ = elim (Bool-cases (text_le x.0 y.0)) [
  | inl h ↦ insert-insert x y l h (other_order x.0 y.0 differ h)
  | inr h ↦ sym (insert-insert y x l (text_le_total x.0 y.0 h) h)
]

module _ (quote : Text → Text) where
  abbrev sorted : Fields → List (Text × Text)
  sorted fields = sort_entries (canonical_fields quote fields)

  mutual
    unfolding canonical_json canonical_items canonical_fields sort_entries

    value_same : (a b : Json) → SameJson a b → canonical_json quote a ≡ canonical_json quote b
    value_same a b same_undefined = refl
    value_same a b (same_scalar text) = refl
    value_same a b (same_array xs ys h) = ap bracketed (items_same xs ys h)
    value_same a b (same_object xs ys h) = ap (braced quote) (fields_same xs ys h)

    items_same :
        (xs ys : Items) → SameItems xs ys → canonical_items quote xs ≡ canonical_items quote ys
    items_same xs ys same_end = refl
    items_same xs ys (same_item v w vs ws h k) =
        ap (λ t. t ∷ canonical_items quote vs) (value_same v w h)
        ∙ ap (λ ts. canonical_json quote w ∷ ts) (items_same vs ws k)

    fields_same : (xs ys : Fields) → SameFields xs ys → sorted xs ≡ sorted ys
    fields_same xs ys same_last = refl
    fields_same xs ys (same_field key v w vs ws h k) =
        ap (λ t. insert_entry (key, t) (sorted vs)) (value_same v w h)
        ∙ ap (insert_entry (key, canonical_json quote w)) (fields_same vs ws k)
    fields_same xs ys (swapped k l v w vs differ) =
        insert-swap (k, canonical_json quote v) (l, canonical_json quote w) (sorted vs) differ
    fields_same xs ys (then_same us vs ws h k) = fields_same us vs h ∙ fields_same vs ws k

-- Values that differ only in the order of the properties of their objects, at any depth, have
-- the same text, and so the same default idempotency key.
pub canonical_json-same :
    (quote : Text → Text) (a b : Json)
    → SameJson a b
    → canonical_json quote a ≡ canonical_json quote b
canonical_json-same quote a b h = value_same quote a b h
