-- ===== src/Reconcile/Unique.antt =====
-- The IDs of a document that `reconcile_coursework` of src-tauri/src/reconcile.rs returns.
use duegood.Base.{
  ℕ, ◌+◌, ◌≤◌, Bool, false, ◌||◌, List, [], ◌∷◌, Bytes, same, same_iff, count-append, ok,
  Bool-cases, ◌≡◌, subst, inl, inr, if◌then◌else◌, arith,
}
use duegood.Reconcile.Values.{Values, IsLawful, Clock, CourseAssignments}
use duegood.Reconcile.Checks.{contains}
use duegood.Reconcile.Archive.{archived_ids}
use duegood.Reconcile.Document.{Document, make_item, push_item}
use duegood.Reconcile.Coursework.{start_document, nothing_placed}
use duegood.Reconcile.Updated.{update_item-field}
use duegood.Reconcile.Survivors.{has_id, id_count, work-has_id, place_items-count}
use duegood.Reconcile.Growth.{make_item-cases, push_item-found, add_courses-P}
use duegood.Reconcile.Steps.{Run}
use duegood.Reconcile.Checked.{passed_of}
use duegood.Reconcile.Ids.{
  take_at-count, contains-fresh, text-has_id, index_ids-count, archived_ids-count,
}

module _ (json : Values) (lawful : IsLawful json) (clock : Clock) (tokens : Bytes → List Bytes)
    (captured_at : clock.SystemTime) where
  open json use {Value, Map, get, as_object, as_array}

  module _ (archived_item_ids : List Bytes) (id : Bytes) where
    -- one item has the ID if the ID is in use
    abbrev IsSingle : Document json → Type 0
    IsSingle d = id_count json id d.items ≤ (if contains id d.item_ids then 1 else 0)

    -- the items, the archive and `n` more have the ID once if it is in use or reserved
    abbrev IsReserved : ℕ → Document json → Type 0
    IsReserved n d =
        id_count json id d.items + id_count json id d.archive + n
        ≤ (if contains id d.item_ids || contains id archived_item_ids then 1 else 0)

    push-IsSingle :
        (d d' : Document json) (identity : Bytes × Bytes) (item : Value) (rest : List Value)
        (was_revived : Bool)
        → push_item json clock tokens captured_at archived_item_ids d identity
            (item, (rest, was_revived))
          ≡ ok d'
        → IsSingle d
        → IsSingle d'
    push-IsSingle d d' identity item rest was_revived h s =
        let (new, t, c, _, q) =
          push_item-found json clock tokens captured_at archived_item_ids d d' identity item rest
            was_revived h in
        subst IsSingle q (
          ground (
            arith,
            s,
            count-append (has_id json id) d.items (item ∷ []),
            text-has_id json id new item t,
            contains-fresh id new d.item_ids c,
          ))

    push-IsReserved :
        (n : ℕ) (capture : CourseAssignments json) (assignment item : Value) (canvas_id : Bytes)
        (d d' : Document json) (rest : List Value) (was_revived : Bool)
        → make_item json clock tokens captured_at d.archive capture assignment canvas_id
          ≡ ok (item, (rest, was_revived))
        → push_item json clock tokens captured_at archived_item_ids d
            (capture.key, canvas_id)
            (item, (rest, was_revived))
          ≡ ok d'
        → IsReserved n d
        → IsReserved n d'
    push-IsReserved n capture assignment item canvas_id d d' rest was_revived m h s =
        let (new, t, c, a, q) =
          push_item-found json clock tokens captured_at archived_item_ids d d'
            (capture.key, canvas_id) item rest was_revived h in
        subst (IsReserved n) q
          (elim (make_item-cases json clock tokens captured_at archived_item_ids d.archive rest
            capture assignment item canvas_id was_revived m) [
              | inl (index, old, k, u, r) ↦
                  let same_id = work-has_id json id old item (λ name other.
                    update_item-field json lawful name other clock tokens old item assignment
                      capture canvas_id captured_at u) in
                  ground (
                    arith,
                    s,
                    count-append (has_id json id) d.items (item ∷ []),
                    take_at-count (has_id json id) index d.archive rest old k,
                    same_id,
                  )
              | inr (_, r, f) ↦ elim (Bool-cases (same id new)) [
                | inr e ↦ ground (
                  arith,
                  s,
                  r,
                  e,
                  count-append (has_id json id) d.items (item ∷ []),
                  text-has_id json id new item t,
                )
                | inl e ↦
                    let reserved : contains new archived_item_ids ≡ false = ground (arith, a, f) in
                    let i : id ≡ new = (same_iff id new).0 e in
                    let free : contains id d.item_ids ≡ false = rw (i) c in
                    let open_id : contains id archived_item_ids ≡ false = rw (i) reserved in
                    ground (
                      arith,
                      s,
                      r,
                      e,
                      free,
                      open_id,
                      count-append (has_id json id) d.items (item ∷ []),
                      text-has_id json id new item t,
                    )
              ]
            ])

  module _ (base : Value) (courses : List (CourseAssignments json)) (result : Value)
      (r : Run json clock tokens captured_at base courses result) (id : Bytes) where
    abbrev reserved_ids : List Bytes
    reserved_ids = archived_ids json r.inputs.archive

    -- what the loop over the items leaves of the ID
    placed-count :
        id_count json id r.places.next_items + id_count json id r.places.newly_archived
        ≡ (if contains id r.inputs.item_ids then 1 else 0)
    placed-count =
        let checked = passed_of json base courses r.inputs r.checked in
        omega (
          arith,
          place_items-count json lawful clock tokens captured_at r.inputs.local_courses
              r.inputs.captures r.matches id 0 r.inputs.local_items (nothing_placed json) r.places
              r.placed,
          index_ids-count json id r.inputs.local_items [] r.inputs.item_ids [] checked.has_ids,
        )

    pub document-IsSingle : IsSingle reserved_ids id r.document
    document-IsSingle =
        add_courses-P json clock tokens captured_at reserved_ids r.inputs.local_courses
          (IsSingle reserved_ids id) (λ d root index capture m p. p)
          (λ capture ignored assignment i d d' (item, (rest, revived)) g e c m h p.
            push-IsSingle reserved_ids id d d' (capture.key, i) item rest revived h p)
          r.inputs.course_indexes courses (start_document json r.inputs r.places) r.document r.added
          (omega (arith, placed-count))

    pub local-count :
        id_count json id r.inputs.local_items ≡ (if contains id r.inputs.item_ids then 1 else 0)
    local-count =
        let checked = passed_of json base courses r.inputs r.checked in
        omega (
          arith,
          index_ids-count json id r.inputs.local_items [] r.inputs.item_ids [] checked.has_ids,
        )

    pub document-IsReserved :
        id_count json id r.inputs.local_items + id_count json id r.inputs.archive ≤ 1
        → IsReserved reserved_ids id (id_count json id r.places.newly_archived) r.document
    document-IsReserved h =
        add_courses-P json clock tokens captured_at reserved_ids r.inputs.local_courses
          (IsReserved reserved_ids id (id_count json id r.places.newly_archived))
          (λ d root index capture m p. p)
          (λ capture ignored assignment i d d' (item, (rest, revived)) g e c m k p.
            push-IsReserved reserved_ids id (id_count json id r.places.newly_archived) capture
              assignment item i d d' rest revived m k p)
          r.inputs.course_indexes courses (start_document json r.inputs r.places) r.document r.added
          (elim (Bool-cases (contains id reserved_ids)) [
            | inl c ↦ ground (arith, c, placed-count, local-count)
            | inr c ↦
                ground (
                  arith,
                  c,
                  placed-count,
                  local-count,
                  archived_ids-count json id r.inputs.archive c,
                )
          ])
