-- ===== src/Reconcile/Archived.antt =====
-- The archive that a run of `reconcile_coursework` of src-tauri/src/reconcile.rs leaves.
use duegood.Base.{
  ℕ, Bool, false, not, ◌||◌, List, Bytes, codes, same, get_elem?, ok, Option-cases, Result-cases,
  ◌≡◌, ◌∙◌, refl, ap, subst, inl, inr, arith,
}
use duegood.Reconcile.Values.{Values, IsLawful, Clock, CourseAssignments, field-eq}
use duegood.Reconcile.Courses.{merge_course, merged_groups, set_at}
use duegood.Reconcile.Archive.{archived_ids}
use duegood.Reconcile.Document.{Document, make_item, push_item}
use duegood.Reconcile.Coursework.{Inputs, start_document, write_lists, is_nil, list_field}
use duegood.Reconcile.Growth.{make_item-cases, push_item-found, add_courses-P}
use duegood.Reconcile.Steps.{Run, stamp_root-field, write_lists-unchanged}
use duegood.Reconcile.Checked.{archive_in, archive_from, archive_of-from, passed_of}

module _ (json : Values) (lawful : IsLawful json) (clock : Clock) (tokens : Bytes → List Bytes)
    (captured_at : clock.SystemTime) where
  open json use {Value, Map, get, as_object, as_array}

  -- merging a course writes the courses only
  merge_course-field :
      (name : Bytes) (root root' : Map) (index : ℕ) (capture : CourseAssignments json)
      → same name (codes "courses") ≡ false
      → merge_course json root index capture ≡ ok root'
      → get name root' ≡ get name root
  unfolding merge_course
  merge_course-field name root root' index capture n h =
      elim (Option-cases (list_field json (codes "courses") root)) [
        | inl e ↦ ground (arith, e)
        | inr (cs, e) ↦ elim (Option-cases (get_elem? cs index)) [
          | inl k ↦ ground (arith, e, k)
          | inr (v, k) ↦ elim (Option-cases (as_object v)) [
            | inl o ↦ ground (arith, e, k, o)
            | inr (course, o) ↦ elim (Result-cases (merged_groups json course capture)) [
              | inr (x, g) ↦ ground (arith, e, k, o, g)
              | inl (groups, g) ↦
                  let merged = json.insert (codes "gradeGroups") (json.array groups) course in
                  let new = json.array (set_at json index (json.object merged) cs) in
                  let q : json.insert (codes "courses") new root ≡ root' =
                    ground (arith, e, k, o, g) in
                  subst (λ m. get name m ≡ get name root) q
                    (lawful.get-insert_other name (codes "courses") new root n)
            ]
          ]
        ]
      ]

  -- the archive of the root is the first one, and so is the archive as long as none is revived
  abbrev IsOld : Inputs json → Document json → Type 0
  IsOld i d =
      (get (codes "archivedForecastItems") d.root ≡ get (codes "archivedForecastItems") i.root)
      × (d.archive_changed ≡ false → d.archive ≡ i.archive)

  push-IsOld :
      (i : Inputs json) (ids : List Bytes) (capture : CourseAssignments json)
      (assignment item : Value) (canvas_id : Bytes) (d d' : Document json) (rest : List Value)
      (was_revived : Bool)
      → make_item json clock tokens captured_at d.archive capture assignment canvas_id
        ≡ ok (item, (rest, was_revived))
      → push_item json clock tokens captured_at ids d
          (capture.key, canvas_id)
          (item, (rest, was_revived))
        ≡ ok d'
      → IsOld i d
      → IsOld i d'
  push-IsOld i ids capture assignment item canvas_id d d' rest was_revived m h (a, b) =
      let (new, t, c, _, q) =
        push_item-found json clock tokens captured_at ids d d' (capture.key, canvas_id) item rest
          was_revived h in
      subst (IsOld i) q (
        a,
        λ u.
            elim (make_item-cases json clock tokens captured_at ids d.archive rest capture
              assignment item canvas_id was_revived m) [
                | inl (_, _, _, _, w) ↦ ground (arith, w)
                | inr (_, w, _) ↦ w ∙ b (ground arith)
              ],
      )

  module _ (base : Value) (courses : List (CourseAssignments json)) (result : Value)
      (r : Run json clock tokens captured_at base courses result) where
    document-IsOld : IsOld r.inputs r.document
    document-IsOld =
        let ids = archived_ids json r.inputs.archive in
        add_courses-P json clock tokens captured_at ids r.inputs.local_courses (IsOld r.inputs)
          (λ d root index capture m p. (
            merge_course-field (codes "archivedForecastItems") d.root root index capture refl m
                ∙ p.0,
            p.1,
          ))
          (λ capture ignored assignment i d d' (item, (rest, revived)) g e c m k p.
            push-IsOld r.inputs ids capture assignment item i d d' rest revived m k p)
          r.inputs.course_indexes courses (start_document json r.inputs r.places) r.document r.added
          (refl, λ _. refl)

    -- the archive of the base
    pub base-archive : archive_in json base ≡ r.inputs.archive
    base-archive =
        let checked = passed_of json base courses r.inputs r.checked in
        ap (archive_from json)
          (field-eq json (codes "archivedForecastItems") base r.inputs.root checked.is_root)
        ∙ archive_of-from json r.inputs.root r.inputs.archive checked.has_archive

    -- where nothing is archived or revived, the archive is that of the base
    pub same-archive :
        (not (is_nil r.places.newly_archived) || r.document.archive_changed) ≡ false
        → archive_in json result ≡ r.inputs.archive
    same-archive e =
        let checked = passed_of json base courses r.inputs r.checked in
        let newly = r.places.newly_archived in
        ap (archive_from json) (
          stamp_root-field json clock tokens captured_at lawful base result
            (write_lists json r.document newly) (codes "archivedForecastItems") refl r.stamped
          ∙ write_lists-unchanged json clock tokens captured_at lawful r.document newly e
          ∙ document-IsOld.0)
        ∙ archive_of-from json r.inputs.root r.inputs.archive checked.has_archive

    -- an archive that nothing was revived from
    pub old-archive : r.document.archive_changed ≡ false → r.document.archive ≡ r.inputs.archive
    old-archive = document-IsOld.1
