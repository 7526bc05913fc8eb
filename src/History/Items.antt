-- ===== src/History/Items.antt =====
-- `indexed_items` of src-tauri/src/history.rs. `serde_json::Value` enters through its accessors.
use duegood.Base.{
  Bool, ◌||◌, Option, none, some, List, [], ◌∷◌, Bytes, codes, same, any, text_le, is_some,
  some_and, Result, ok, err, ok_or, ◌>>=◌, if◌then◌else◌,
}

-- JSON values: an object's field, a string, an array, the value null, a string as a value, and
-- the comparison of two values
pub record Json : Type 1 where
  pub Value : Type 0
  pub get : Bytes → Value → Option Value
  pub as_str : Value → Option Bytes
  pub as_array : Value → Option (List Value)
  pub null : Value
  pub string : Bytes → Value
  pub same_value : Value → Value → Bool

-- `StoreError::Invalid`, by what is malformed
pub data StoreError : Type 0 where
  malformed_items malformed_identity duplicated_identity : StoreError

-- A `BTreeMap` from texts: its entries in the order of the keys.
abbrev pub Indexed : Type 0 → Type 0
Indexed A = List (Bytes × A)

module _ {A : Type 0} where
  unfoldable pub lookup : Bytes → Indexed A → Option A
  lookup key [] = none
  lookup key ((k, a) ∷ entries) =
      let later = lookup key entries in if same key k then some a else later

  abbrev pub contains_key : Bytes → Indexed A → Bool
  contains_key key entries = is_some (lookup key entries)

  -- a new key in its place
  unfoldable pub place_key : Bytes → A → Indexed A → Indexed A
  place_key key a [] = (key, a) ∷ []
  place_key key a ((k, b) ∷ entries) =
      let later = place_key key a entries in
      if text_le key k then (key, a) ∷ (k, b) ∷ entries else (k, b) ∷ later

abbrev is_text : Bytes → Option Bytes → Bool
is_text text s = some_and (same text) s

abbrev non_empty : Option Bytes → Option Bytes
non_empty none = none
non_empty (some []) = none
non_empty (some (c ∷ s)) = some (c ∷ s)

module _ (json : Json) where
  open json use {Value, get, as_str, as_array}

  abbrev pub text_field : Bytes → Value → Option Bytes
  text_field name item = elim (get name item) [ none ↦ none | some v ↦ as_str v ]

  abbrev references : Value → List Value
  references item = elim (get (codes "sourceReferences") item) [
    | none ↦ []
    | some v ↦ elim (as_array v) [ none ↦ [] | some rs ↦ rs ]
  ]

  abbrev is_feed : Value → Bool
  is_feed reference =
      is_text (codes "canvas") (text_field (codes "source") reference)
      || is_text (codes "ical") (text_field (codes "source") reference)

  unfoldable pub is_observed_source_item : Value → Bool
  is_observed_source_item item =
      is_text (codes "canvas") (text_field (codes "source") item) || any is_feed (references item)

  unfoldable pub stable_key : Value → Option Bytes
  stable_key item = non_empty (text_field (codes "id") item)

  -- one item of the loop
  unfoldable pub index_item : Value → Indexed Value → Result StoreError (Indexed Value)
  index_item item indexed =
      if is_observed_source_item item
      then (do
        key ← ok_or malformed_identity (stable_key item)
        if contains_key key indexed
            then err duplicated_identity
            else ok (place_key key item indexed))
      else ok indexed

  unfoldable pub index_items : List Value → Indexed Value → Result StoreError (Indexed Value)
  index_items [] indexed = ok indexed
  index_items (item ∷ items) indexed = do more ← index_item item indexed; index_items items more

  abbrev pub items_of : Value → Option (List Value)
  items_of value = elim (get (codes "items") value) [ none ↦ none | some v ↦ as_array v ]

  unfoldable pub indexed_items : Value → Result StoreError (Indexed Value)
  indexed_items value = do items ← ok_or malformed_items (items_of value); index_items items []
