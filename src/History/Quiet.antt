-- ===== src/History/Quiet.antt =====
-- `diff_coursework` of src-tauri/src/history.rs on a document and itself.
use duegood.Base.{
  true, false, some, List, [], ◌∷◌, Bytes, same, same_iff, same_refl, All, All-map, ok, ◌≡◌, refl,
  Bool-cases, Option-cases, inl, inr, arith,
}
use duegood.History.Items.{Json, Indexed, lookup, contains_key, indexed_items}
use duegood.History.Diff.{
  CourseworkDiff, no_diff, visit, visit_current, visit_previous, diff_indexed, diff_coursework,
  display_changes, changes_of, field_changes, visible_source_fields,
}
use duegood.History.Keys.{IsUnique, indexed_items-IsUnique}

-- an entry is what its key leads to
abbrev IsFound : {A : Type 0} → Indexed A → Bytes × A → Type 0
IsFound m e = lookup e.0 m ≡ some e.1

IsFound-later :
    {A : Type 0} (k : Bytes) (a : A) (m : Indexed A)
    → contains_key k m ≡ false
    → (e : Bytes × A) → IsFound m e
    → IsFound ((k, a) ∷ m) e
unfolding lookup
IsFound-later k a m h (j, b) f = elim (Bool-cases (same j k)) [
  | inl e ↦ absurd (ground (arith, (same_iff j k).0 e, h, f))
  | inr e ↦ ground (arith, e, f)
]

All-IsFound : {A : Type 0} (m : Indexed A) → IsUnique m → All (IsFound m) m
unfolding lookup
All-IsFound [] u = tt
All-IsFound ((k, a) ∷ m) (f, u) = (
  ground (arith, same_refl k),
  All-map (IsFound m) (IsFound ((k, a) ∷ m)) m (IsFound-later k a m f) (All-IsFound m u),
)

module _ (json : Json) (reflexive : (v : json.Value) → json.same_value v v ≡ true) where
  open json use {Value}

  changes_of-same : (names : List Bytes) (item : Value) → changes_of json names item item ≡ []
  unfolding changes_of field_changes
  changes_of-same [] item = refl
  changes_of-same (name ∷ names) item = elim (Option-cases (json.get name item)) [
    | inl e ↦ ground (arith, e, changes_of-same names item)
    | inr (v, e) ↦ ground (arith, e, reflexive v, changes_of-same names item)
  ]

  visit-same :
      (d : CourseworkDiff Value) (key : Bytes) (item : Value)
      → visit json d key item (some item) ≡ d
  unfolding visit display_changes
  visit-same d key item = rw (changes_of-same visible_source_fields item) refl

  visit_current-same :
      (m : Indexed Value) (d : CourseworkDiff Value) (items : Indexed Value)
      → All (IsFound m) items
      → visit_current json m d items ≡ d
  unfolding visit_current
  visit_current-same m d [] h = refl
  visit_current-same m d ((key, item) ∷ items) (f, h) =
      rw (f, visit-same d key item) (visit_current-same m d items h)

  visit_previous-same :
      (m : Indexed Value) (d : CourseworkDiff Value) (items : Indexed Value)
      → All (IsFound m) items
      → visit_previous json m d items ≡ d
  unfolding visit_previous
  visit_previous-same m d [] h = refl
  visit_previous-same m d ((key, item) ∷ items) (f, h) = rw (f) (visit_previous-same m d items h)

  -- A document that can be indexed has no differences from itself, if every JSON value equals
  -- itself.
  pub diff_coursework-same :
      (value : Value) (m : Indexed Value)
      → indexed_items json value ≡ ok m
      → diff_coursework json value value ≡ ok no_diff
  unfolding diff_coursework diff_indexed
  diff_coursework-same value m h =
      let found = All-IsFound m (indexed_items-IsUnique json value m h) in
      ground (arith, h, visit_current-same m no_diff m found, visit_previous-same m no_diff m found)
