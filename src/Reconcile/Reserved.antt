-- ===== src/Reconcile/Reserved.antt =====
-- The IDs of a document that `reconcile_coursework` of src-tauri/src/reconcile.rs returns.
use duegood.Base.{
  ◌+◌, ◌≤◌, not, ◌||◌, some, List, Bytes, codes, count-append, ok, Bool-cases, ◌≡◌, sym, inl, inr,
  arith,
}
use duegood.Reconcile.Values.{Values, IsLawful, Clock, CourseAssignments}
use duegood.Reconcile.Archive.{keep_archived}
use duegood.Reconcile.Coursework.{is_nil, reconcile_coursework}
use duegood.Reconcile.Survivors.{has_id, id_count}
use duegood.Reconcile.Steps.{Run, steps_of}
use duegood.Reconcile.Checked.{list_in, archive_in, passed_of}
use duegood.Reconcile.Kept.{result-items, result-archive}
use duegood.Reconcile.Ids.{keep_archived-count}
use duegood.Reconcile.Unique.{document-IsSingle, document-IsReserved}
use duegood.Reconcile.Archived.{base-archive, same-archive, old-archive}

module _ (json : Values) (lawful : IsLawful json) (clock : Clock) (tokens : Bytes → List Bytes)
    (captured_at : clock.SystemTime) where
  open json use {Value, Map, get, as_object, as_array}

  -- the hypothesis on the base, on what the loops start with
  base-reserved :
      (base : Value) (courses : List (CourseAssignments json)) (result : Value)
      (r : Run json clock tokens captured_at base courses result) (local_items : List Value)
      (id : Bytes)
      → list_in json (codes "items") base ≡ some local_items
      → id_count json id local_items + id_count json id (archive_in json base) ≤ 1
      → id_count json id r.inputs.local_items + id_count json id r.inputs.archive ≤ 1
  base-reserved base courses result r local_items id l h =
      let checked = passed_of json base courses r.inputs r.checked in
      let has_items = checked.has_items in
      let q : local_items ≡ r.inputs.local_items = ground arith in
      rw (sym q, sym (base-archive json lawful clock tokens captured_at base courses result r)) h

  result-reserved :
      (base : Value) (courses : List (CourseAssignments json)) (result : Value)
      (r : Run json clock tokens captured_at base courses result) (id : Bytes)
      → id_count json id r.inputs.local_items + id_count json id r.inputs.archive ≤ 1
      → id_count json id r.document.items + id_count json id (archive_in json result) ≤ 1
  result-reserved base courses result r id h =
      let newly = r.places.newly_archived in
      let s = document-IsReserved json lawful clock tokens captured_at base courses result r id h in
      elim (Bool-cases (not (is_nil newly) || r.document.archive_changed)) [
        | inl e ↦ ground (
          arith,
          s,
          result-archive json lawful clock tokens captured_at base courses result r e,
          count-append (has_id json id) (keep_archived json newly r.document.archive) newly,
          keep_archived-count json id newly r.document.archive,
        )
        | inr e ↦
            let old =
              old-archive json lawful clock tokens captured_at base courses result r
                (ground (arith, e)) in
            ground (
              arith,
              s,
              same-archive json lawful clock tokens captured_at base courses result r e,
              old,
            )
      ]

  -- Where a document is reconciled, no ID has more than one of the items of the result.
  pub reconcile_coursework-distinct :
      (base : Value) (courses : List (CourseAssignments json)) (result : Value)
      → reconcile_coursework json clock tokens captured_at base courses ≡ ok result
      → (items : List Value) × (list_in json (codes "items") result ≡ some items)
        × ((id : Bytes) → id_count json id items ≤ 1)
  reconcile_coursework-distinct base courses result h =
      let r = steps_of json clock tokens captured_at base courses result h in
      (
        r.document.items,
        result-items json lawful clock tokens captured_at base courses result r,
        λ id. ground (
          arith,
          document-IsSingle json lawful clock tokens captured_at base courses result r id,
        ),
      )

  -- Where a document is reconciled in which no ID has two items, archived ones included, no ID has
  -- two in the result, archived ones included: an archived ID Stays reserved.
  pub reconcile_coursework-reserved :
      (base : Value) (courses : List (CourseAssignments json)) (result : Value)
      (local_items : List Value)
      → list_in json (codes "items") base ≡ some local_items
      → ((id : Bytes) → id_count json id local_items + id_count json id (archive_in json base) ≤ 1)
      → reconcile_coursework json clock tokens captured_at base courses ≡ ok result
      → (items : List Value) × (list_in json (codes "items") result ≡ some items)
        × ((id : Bytes) → id_count json id items + id_count json id (archive_in json result) ≤ 1)
  reconcile_coursework-reserved base courses result local_items l u h =
      let r = steps_of json clock tokens captured_at base courses result h in
      (
        r.document.items,
        result-items json lawful clock tokens captured_at base courses result r,
        λ id.
            result-reserved base courses result r id
              (base-reserved base courses result r local_items id l (u id)),
      )
