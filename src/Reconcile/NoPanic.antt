-- ===== src/Reconcile/NoPanic.antt =====
-- `reconcile_coursework` of src-tauri/src/reconcile.rs never panics.
use duegood.Base.{
  ℕ, false, some, List, [], Bytes, All, Bool-cases, Option-cases, Result-cases, ◌≡◌, refl, inl, inr,
  arith,
}
use duegood.Reconcile.Values.{Values, IsLawful, Clock, CourseAssignments}
use duegood.Reconcile.Checks.{find_key, index_local_courses, validate_source_references}
use duegood.Reconcile.Items.{match_courses, place_items}
use duegood.Reconcile.Archive.{archived_ids}
use duegood.Reconcile.Document.{add_courses}
use duegood.Reconcile.Coursework.{
  Inputs, check_inputs, start_document, nothing_placed, write_lists, sync_of, stamp_root, run_loops,
  reconcile_coursework,
}
use duegood.Reconcile.Checked.{Checked, passed_of}
use duegood.Reconcile.Safe.{panics, HasId}
use duegood.Reconcile.SafeChecks.{check_inputs-safe}
use duegood.Reconcile.Validated.{
  IsValid, IsIndexed, IsCourse, index_captures-IsValid, index_courses-IsCourse,
}
use duegood.Reconcile.SafePlaces.{match_courses-safe, place_items-safe}
use duegood.Reconcile.SafeCourses.{All-left, All-right, validate_owners-HasId}
use duegood.Reconcile.SafeRun.{add_courses-safe}

module _ (json : Values) (lawful : IsLawful json) where
  open json use {Value, Map, as_object, object}

  nothing_found :
      {A : Type 0} (P : A → Type 0) (key : Bytes) (a : A) → find_key key [] ≡ some a → P a
  unfolding find_key
  nothing_found P key a h = cc

  course_indexes-IsCourse :
      (base : Value) (courses : List (CourseAssignments json)) (i : Inputs json)
      → Checked json base courses i
      → (key : Bytes) (n : ℕ) → find_key key i.course_indexes ≡ some n
      → IsCourse json i.local_courses n
  unfolding index_local_courses
  course_indexes-IsCourse base courses i c =
      index_courses-IsCourse json i.local_courses [] i.local_courses [] i.course_indexes refl
        (λ key n f. nothing_found (IsCourse json i.local_courses) key n f) c.has_courses

  items-HasId :
      (base : Value) (courses : List (CourseAssignments json)) (i : Inputs json)
      → Checked json base courses i
      → All (HasId json) i.local_items
  unfolding validate_source_references
  items-HasId base courses i c =
      All-left (HasId json) i.local_items i.archive
        (validate_owners-HasId json _ [] c.has_references)

  archive-HasId :
      (base : Value) (courses : List (CourseAssignments json)) (i : Inputs json)
      → Checked json base courses i
      → All (HasId json) i.archive
  unfolding validate_source_references
  archive-HasId base courses i c =
      All-right (HasId json) i.local_items i.archive
        (validate_owners-HasId json _ [] c.has_references)

  module _ (clock : Clock) (tokens : Bytes → List Bytes) (captured_at : clock.SystemTime)
      (no_panic : (s : Bytes) → panics (clock.utc_to_new_york s) ≡ false)
      (no_date_panic : panics (clock.new_york_date captured_at) ≡ false) where
    stamp_root-safe :
        (base : Value) (root : Map)
        → panics (stamp_root json clock tokens captured_at base root) ≡ false
    unfolding panics stamp_root
    stamp_root-safe base root = elim (Bool-cases (json.same_value (object root) base)) [
      | inl e ↦ ground (arith, e)
      | inr e ↦ elim (Result-cases (clock.new_york_date captured_at)) [
        | inr (x, d) ↦ ground (arith, e, d, no_date_panic)
        | inl (date, d) ↦
            elim (Option-cases (as_object (sync_of json clock tokens captured_at root))) [
              | inl o ↦ ground (arith, e, d, o, lawful.as_object-object root)
              | inr (sync, o) ↦ ground (arith, e, d, o, lawful.as_object-object root)
            ]
      ]
    ]

    run_loops-safe :
        (base : Value) (courses : List (CourseAssignments json)) (i : Inputs json)
        → Checked json base courses i
        → panics (run_loops json clock tokens captured_at i courses) ≡ false
    unfolding panics run_loops
    run_loops-safe base courses i c =
        let (valid, found) =
          index_captures-IsValid json i.course_indexes courses [] i.captures
            (λ key a f. nothing_found (IsValid json) key a f) c.has_captures in
        elim (Result-cases (match_courses json i.local_items courses [])) [
          | inr (x, m) ↦ ground (
            arith,
            m,
            match_courses-safe json (λ a. IsIndexed json i.course_indexes a.key) i.local_items
                courses [] valid,
          )
          | inl (matches, m) ↦
              elim (Result-cases (
                place_items json clock tokens captured_at i.local_courses i.captures matches 0
                  i.local_items (nothing_placed json))) [
                    | inr (x, p) ↦ ground (
                      arith,
                      m,
                      p,
                      place_items-safe json lawful clock tokens captured_at no_panic i.local_courses
                          i.captures found matches 0 i.local_items (nothing_placed json)
                          (items-HasId base courses i c),
                    )
                    | inl (places, p) ↦
                        let a =
                          add_courses-safe json lawful clock tokens captured_at no_panic
                            (archived_ids json i.archive) i.local_courses i.course_indexes courses
                            (start_document json i places)
                            (course_indexes-IsCourse base courses i c) valid
                            (
                              (i.local_courses, c.has_list, λ n k. k),
                              archive-HasId base courses i c,
                            ) in
                        elim (Result-cases (
                          add_courses json clock tokens captured_at i.course_indexes i.local_courses
                            (archived_ids json i.archive) courses (start_document json i places))) [
                              | inr (x, q) ↦ ground (arith, m, p, q, a)
                              | inl (d, q) ↦ ground (arith, m, p, q)
                            ]
                  ]
        ]

    -- the whole function, over a clock that does not panic
    pub any_clock-safe :
        (base : Value) (courses : List (CourseAssignments json))
        → panics (reconcile_coursework json clock tokens captured_at base courses) ≡ false
    unfolding panics reconcile_coursework
    any_clock-safe base courses = elim (Result-cases (check_inputs json base courses)) [
      | inr (x, e) ↦ ground (arith, e, check_inputs-safe json base courses)
      | inl (i, e) ↦
          let r = run_loops-safe base courses i (passed_of json base courses i e) in
          elim (Result-cases (run_loops json clock tokens captured_at i courses)) [
            | inr (x, k) ↦ ground (arith, e, k, r)
            | inl ((d, places), k) ↦
                ground
                  (arith, e, k, stamp_root-safe base (write_lists json d places.newly_archived))
          ]
    ]
