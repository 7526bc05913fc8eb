-- ===== src/Reconcile/SafeRun.antt =====
-- `reconcile_coursework` of src-tauri/src/reconcile.rs never panics.
use duegood.Base.{
  ℕ, Bool, false, not, ◌&&◌, ◌||◌, none, some, List, [], ◌∷◌, Bytes, All, ok, Bool-cases,
  Result-cases, ◌≡◌, refl, subst, inl, inr, arith,
}
use duegood.Reconcile.Values.{Values, IsLawful, Clock, CourseAssignments}
use duegood.Reconcile.Checks.{Identity, HashMap, find_key, contains, seen_before}
use duegood.Reconcile.Update.{update_item, new_item, new_id}
use duegood.Reconcile.Courses.{ignored_ids, merge_course}
use duegood.Reconcile.Archive.{revivable_archived_index, take_at}
use duegood.Reconcile.Document.{
  Document, make_item, push_item, add_assignment, add_assignments, add_course, add_courses,
}
use duegood.Reconcile.Growth.{make_item-cases, push_item-found, add_assignment-P, add_course-P}
use duegood.Reconcile.Safe.{panics, HasId, HasName, HasIdentity}
use duegood.Reconcile.SafeItem.{update_item-safe, new_item-safe, update_item-HasId, new_item-id}
use duegood.Reconcile.Validated.{IsValid, IsIndexed, IsCourse}
use duegood.Reconcile.SafePlaces.{ignored_ids-safe}
use duegood.Reconcile.SafeCourses.{
  HasCourses, merge_course-safe, merge_course-HasCourses, find_archived-index, find_archived-safe,
  take_at-All,
}

module _ (json : Values) (lawful : IsLawful json) (clock : Clock) (tokens : Bytes → List Bytes)
    (captured_at : clock.SystemTime)
    (no_panic : (s : Bytes) → panics (clock.utc_to_new_york s) ≡ false)
    (archived_item_ids : List Bytes) (local_courses : List json.Value) where
  open json use {Value, Map, get}

  -- the indexed courses are in the root, and the archived items have IDs
  abbrev pub IsSound : Document json → Type 0
  IsSound d = HasCourses json local_courses d.root × All (HasId json) d.archive

  make-safe :
      (archive : List Value) (capture : CourseAssignments json) (assignment : Value)
      (canvas_id : Bytes)
      → HasName json assignment
      → panics (make_item json clock tokens captured_at archive capture assignment canvas_id)
        ≡ false
  unfolding panics make_item revivable_archived_index
  make-safe archive capture assignment canvas_id n =
      elim (Result-cases (revivable_archived_index json archive capture.key canvas_id)) [
        | inr (x, e) ↦
            ground (arith, e, find_archived-safe json capture.key canvas_id 0 archive none)
        | inl (none, e) ↦
            elim (Result-cases
              (new_item json clock tokens capture.key assignment capture canvas_id captured_at)) [
                | inr (x, k) ↦ ground (
                  arith,
                  e,
                  k,
                  new_item-safe json lawful clock tokens no_panic capture.key assignment capture
                      canvas_id captured_at n,
                )
                | inl (w, k) ↦ ground (arith, e, k)
              ]
        | inl (some index, e) ↦
            elim (find_archived-index json capture.key canvas_id 0 archive none index e) [
              | inl f ↦ ground arith
              | inr (j, old, rest, q, t) ↦
                  let at : take_at index archive ≡ some (old, rest) = ground (arith, q, t) in
                  elim (Result-cases
                    (update_item json clock tokens old assignment capture canvas_id captured_at)) [
                      | inr (x, k) ↦ ground (
                        arith,
                        e,
                        at,
                        k,
                        update_item-safe json lawful clock tokens no_panic old assignment capture
                            canvas_id captured_at n,
                      )
                      | inl (w, k) ↦ ground (arith, e, at, k)
                    ]
            ]
      ]

  -- a made item has an ID, and so have the archived ones that are left
  make-HasId :
      (archive rest : List Value) (capture : CourseAssignments json) (assignment item : Value)
      (canvas_id : Bytes) (was_revived : Bool)
      → make_item json clock tokens captured_at archive capture assignment canvas_id
        ≡ ok (item, (rest, was_revived))
      → All (HasId json) archive
      → HasId json item × All (HasId json) rest
  make-HasId archive rest capture assignment item canvas_id was_revived h a =
      elim (make_item-cases json clock tokens captured_at archived_item_ids archive rest capture
        assignment item canvas_id was_revived h) [
          | inl (index, old, t, u, _) ↦
              let (i, b) = take_at-All (HasId json) index archive rest old t a in
              (
                update_item-HasId json lawful clock tokens no_panic old item assignment capture
                    canvas_id captured_at u i,
                b,
              )
          | inr (n, r, _) ↦ (
            (
              new_id json clock tokens capture.key canvas_id,
              new_item-id json lawful clock tokens no_panic capture.key item assignment capture
                  canvas_id captured_at n,
            ),
            rw (r) a,
          )
        ]

  push-safe :
      (d : Document json) (identity : Identity) (item : Value) (rest : List Value)
      (was_revived : Bool)
      → HasId json item
      → panics (
          push_item json clock tokens captured_at archived_item_ids d identity
            (item, (rest, was_revived)))
        ≡ false
  unfolding panics push_item
  push-safe d identity item rest was_revived (id, e) =
      elim (Bool-cases
        ((not was_revived && contains id archived_item_ids) || contains id d.item_ids)) [
          | inl c ↦ ground (arith, e, c)
          | inr c ↦ ground (arith, e, c)
        ]

  push-IsSound :
      (capture : CourseAssignments json) (ignored : List Bytes) (assignment : Value)
      (canvas_id : Bytes) (d d' : Document json) (made : Value × (List Value × Bool))
      → make_item json clock tokens captured_at d.archive capture assignment canvas_id ≡ ok made
      → push_item json clock tokens captured_at archived_item_ids d (capture.key, canvas_id) made
        ≡ ok d'
      → IsSound d
      → IsSound d'
  push-IsSound capture ignored assignment canvas_id d d' (item, (rest, revived)) m h (c, a) =
      let (_, b) = make-HasId d.archive rest capture assignment item canvas_id revived m a in
      let (_, _, _, _, q) =
        push_item-found json clock tokens captured_at archived_item_ids d d'
          (capture.key, canvas_id) item rest revived h in
      subst IsSound q (c, b)

  assignment-safe :
      (ignored : List Bytes) (capture : CourseAssignments json) (assignment : Value)
      (d : Document json)
      → HasIdentity json assignment × HasName json assignment
      → IsSound d
      → panics (
          add_assignment json clock tokens captured_at archived_item_ids ignored capture assignment
            d)
        ≡ false
  unfolding panics add_assignment
  assignment-safe ignored capture assignment d ((id, e), n) (c, a) =
      elim (Bool-cases (contains id ignored || seen_before (capture.key, id) d.seen)) [
        | inl k ↦ ground (arith, e, k)
        | inr k ↦
            elim (Result-cases
              (make_item json clock tokens captured_at d.archive capture assignment id)) [
                | inr (x, m) ↦ ground (arith, e, k, m, make-safe d.archive capture assignment id n)
                | inl ((item, (rest, revived)), m) ↦
                    let (i, _) = make-HasId d.archive rest capture assignment item id revived m a in
                    ground (arith, e, k, m, push-safe d (capture.key, id) item rest revived i)
              ]
      ]

  assignments-safe :
      (ignored : List Bytes) (capture : CourseAssignments json) (assignments : List Value)
      (d : Document json)
      → ignored_ids json local_courses capture.key ≡ ok ignored
      → All (λ a. HasIdentity json a × HasName json a) assignments
      → IsSound d
      → panics (
          add_assignments json clock tokens captured_at archived_item_ids ignored capture
            assignments d)
        ≡ false
  unfolding panics add_assignments
  assignments-safe ignored capture [] d g h s = refl
  assignments-safe ignored capture (assignment ∷ assignments) d g (v, h) s =
      elim (Result-cases (
        add_assignment json clock tokens captured_at archived_item_ids ignored capture assignment
          d)) [
            | inr (x, e) ↦ ground (arith, e, assignment-safe ignored capture assignment d v s)
            | inl (d1, e) ↦
                let s1 =
                  add_assignment-P json clock tokens captured_at archived_item_ids local_courses
                    IsSound
                    (λ d root index capture m s. (
                      merge_course-HasCourses json lawful local_courses d.root root index capture m
                          s.0,
                      s.1,
                    ))
                    (λ capture ignored assignment i d d' made _ _ _ m h s.
                      push-IsSound capture ignored assignment i d d' made m h s)
                    ignored capture assignment d d1 g e s in
                ground (arith, e, assignments-safe ignored capture assignments d1 g h s1)
          ]

  course-safe :
      (course_indexes : HashMap ℕ) (capture : CourseAssignments json) (d : Document json)
      → ((key : Bytes) (n : ℕ)
          → find_key key course_indexes ≡ some n
          → IsCourse json local_courses n)
      → IsValid json capture × IsIndexed json course_indexes capture.key
      → IsSound d
      → panics (
          add_course json clock tokens captured_at course_indexes local_courses archived_item_ids
            capture d)
        ≡ false
  unfolding panics add_course
  course-safe course_indexes capture d i ((groups, assignments), (n, f)) (c, a) =
      elim (Result-cases (merge_course json d.root n capture)) [
        | inr (x, m) ↦ ground (
          arith,
          f,
          m,
          merge_course-safe json local_courses d.root n capture c (i capture.key n f) groups,
        )
        | inl (root, m) ↦
            let c1 = merge_course-HasCourses json lawful local_courses d.root root n capture m c in
            elim (Result-cases (ignored_ids json local_courses capture.key)) [
              | inr (x, g) ↦
                  ground (arith, f, m, g, ignored_ids-safe json local_courses capture.key)
              | inl (ignored, g) ↦ ground (
                arith,
                f,
                m,
                g,
                assignments-safe ignored capture capture.assignments (record d { root = root }) g
                    assignments (c1, a),
              )
            ]
      ]

  pub add_courses-safe :
      (course_indexes : HashMap ℕ) (courses : List (CourseAssignments json)) (d : Document json)
      → ((key : Bytes) (n : ℕ)
          → find_key key course_indexes ≡ some n
          → IsCourse json local_courses n)
      → All (λ c. IsValid json c × IsIndexed json course_indexes c.key) courses
      → IsSound d
      → panics (
          add_courses json clock tokens captured_at course_indexes local_courses archived_item_ids
            courses d)
        ≡ false
  unfolding panics add_courses
  add_courses-safe course_indexes [] d i h s = refl
  add_courses-safe course_indexes (capture ∷ courses) d i (v, h) s =
      elim (Result-cases (
        add_course json clock tokens captured_at course_indexes local_courses archived_item_ids
          capture d)) [
            | inr (x, e) ↦ ground (arith, e, course-safe course_indexes capture d i v s)
            | inl (d1, e) ↦
                let s1 =
                  add_course-P json clock tokens captured_at archived_item_ids local_courses IsSound
                    (λ d root index capture m s. (
                      merge_course-HasCourses json lawful local_courses d.root root index capture m
                          s.0,
                      s.1,
                    ))
                    (λ capture ignored assignment j d d' made _ _ _ m h s.
                      push-IsSound capture ignored assignment j d d' made m h s)
                    course_indexes capture d d1 e s in
                ground (arith, e, add_courses-safe course_indexes courses d1 i h s1)
          ]
