-- ===== src/History/Balance.antt =====
-- The counts of `diff_coursework` of src-tauri/src/history.rs.
use duegood.Base.{
  ◌+◌, Option, none, some, [], ◌∷◌, Bytes, length, length-append, ok, ◌≡◌, refl, Bool-cases,
  Option-cases, Result-cases, inl, inr, arith,
}
use duegood.History.Items.{Json, Indexed, lookup, contains_key, indexed_items}
use duegood.History.Diff.{
  CourseworkDiff, row, added, changed, removed, is_empty, no_diff, visit, visit_current, drop_item,
  visit_previous, diff_indexed, diff_coursework, display_changes,
}
use duegood.History.Keys.{IsUnique, shared, shared_comm, indexed_items-IsUnique}

module _ (json : Json) where
  open json use {Value}

  -- Every row is counted once.
  abbrev IsCounted : CourseworkDiff Value → Type 0
  IsCounted d = length d.changes ≡ d.added + d.updated + d.removed

  visit-IsCounted :
      (d : CourseworkDiff Value) (key : Bytes) (item : Value) (o : Option Value)
      → IsCounted d
      → IsCounted (visit json d key item o)
  unfolding visit
  visit-IsCounted d key item none h =
      omega (arith, h, length-append d.changes (row json added key item [] ∷ []))
  visit-IsCounted d key item (some old) h =
      let fields = display_changes json old item in
      elim (Bool-cases (is_empty fields)) [
        | inl e ↦ rw (e) h
        | inr e ↦
            rw (e)
              (omega (arith, h, length-append d.changes (row json changed key item fields ∷ [])))
      ]

  visit_current-IsCounted :
      (previous : Indexed Value) (d : CourseworkDiff Value) (items : Indexed Value)
      → IsCounted d
      → IsCounted (visit_current json previous d items)
  unfolding visit_current
  visit_current-IsCounted previous d [] h = h
  visit_current-IsCounted previous d ((key, item) ∷ items) h =
      visit_current-IsCounted previous (visit json d key item (lookup key previous)) items
        (visit-IsCounted d key item (lookup key previous) h)

  visit_previous-IsCounted :
      (current : Indexed Value) (d : CourseworkDiff Value) (items : Indexed Value)
      → IsCounted d
      → IsCounted (visit_previous json current d items)
  unfolding visit_previous drop_item
  visit_previous-IsCounted current d [] h = h
  visit_previous-IsCounted current d ((key, item) ∷ items) h =
      elim (Bool-cases (contains_key key current)) [
        | inl k ↦ rw (k) (visit_previous-IsCounted current d items h)
        | inr k ↦ rw (k) (
            visit_previous-IsCounted current (drop_item json d key item) items
              (omega (arith, h, length-append d.changes (row json removed key item [] ∷ []))))
      ]

  visit_current-counts :
      (previous : Indexed Value) (d : CourseworkDiff Value) (items : Indexed Value)
      → ((visit_current json previous d items).added + shared items previous
          ≡ d.added + length items)
        × ((visit_current json previous d items).removed ≡ d.removed)
  unfolding visit_current visit
  visit_current-counts previous d [] = (omega arith, refl)
  visit_current-counts previous d ((key, item) ∷ items) =
      let rest =
        visit_current-counts previous (visit json d key item (lookup key previous)) items in
      elim (Option-cases (lookup key previous)) [
        | inl k ↦ ground (arith, k, rest)
        | inr (old, k) ↦ ground (arith, k, rest)
      ]

  visit_previous-counts :
      (current : Indexed Value) (d : CourseworkDiff Value) (items : Indexed Value)
      → ((visit_previous json current d items).removed + shared items current
          ≡ d.removed + length items)
        × ((visit_previous json current d items).added ≡ d.added)
  unfolding visit_previous drop_item
  visit_previous-counts current d [] = (omega arith, refl)
  visit_previous-counts current d ((key, item) ∷ items) =
      elim (Bool-cases (contains_key key current)) [
        | inl k ↦ ground (arith, k, visit_previous-counts current d items)
        | inr k ↦ ground (arith, k, visit_previous-counts current (drop_item json d key item) items)
      ]

  diff_indexed-balance :
      (previous current : Indexed Value)
      → IsUnique previous
      → IsUnique current
      → (diff_indexed json previous current).added + length previous
        ≡ (diff_indexed json previous current).removed + length current
  unfolding diff_indexed
  diff_indexed-balance previous current u v =
      let middle = visit_current json previous no_diff current in
      let (a, b) = visit_current-counts previous no_diff current in
      let (c, d) = visit_previous-counts current middle previous in
      omega (arith, a, b, c, d, shared_comm previous current u v)

  diff_indexed-IsCounted :
      (previous current : Indexed Value) → IsCounted (diff_indexed json previous current)
  unfolding diff_indexed
  diff_indexed-IsCounted previous current =
      visit_previous-IsCounted current (visit_current json previous no_diff current) previous
        (visit_current-IsCounted previous no_diff current (omega arith))

  -- Between two documents that can be indexed, the items that were added make up for those that
  -- were removed: added and previous items together are as many as removed and current ones. The
  -- rows are as many as the three counts together.
  pub diff_coursework-balance :
      (before after : Value) (d : CourseworkDiff Value)
      → diff_coursework json before after ≡ ok d
      → (previous : Indexed Value) × (current : Indexed Value) × (indexed_items json before
          ≡ ok previous)
        × (indexed_items json after ≡ ok current)
        × (d.added + length previous ≡ d.removed + length current)
        × (length d.changes ≡ d.added + d.updated + d.removed)
  unfolding diff_coursework
  diff_coursework-balance before after d h = elim (Result-cases (indexed_items json before)) [
    | inr (e, k) ↦ ground (arith, k)
    | inl (previous, k) ↦ elim (Result-cases (indexed_items json after)) [
      | inr (e, l) ↦ ground (arith, k, l)
      | inl (current, l) ↦
          let u = indexed_items-IsUnique json before previous k in
          let v = indexed_items-IsUnique json after current l in
          let q : diff_indexed json previous current ≡ d = ground (arith, k, l) in
          (
            previous,
            current,
            k,
            l,
            rw (← q) (diff_indexed-balance previous current u v),
            rw (← q) (diff_indexed-IsCounted previous current),
          )
    ]
  ]
