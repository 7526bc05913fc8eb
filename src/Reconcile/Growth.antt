-- ===== src/Reconcile/Growth.antt =====
-- What the loop over the captured courses of src-tauri/src/reconcile.rs leaves true.
use duegood.Base.{
  ℕ, Bool, true, false, not, ◌&&◌, ◌||◌, none, some, List, [], ◌∷◌, ◌++◌, Bytes, codes, Result, ok,
  Bool-cases, Option-cases, Result-cases, ◌≡◌, subst, ◌⊎◌, inl, inr, arith,
}
use duegood.Reconcile.Values.{
  Values, ReconcileError, Clock, CourseAssignments, field, text_of, identity_of,
}
use duegood.Reconcile.Checks.{Identity, seen_before, HashMap, find_key, contains}
use duegood.Reconcile.Update.{update_item, new_item}
use duegood.Reconcile.Courses.{ignored_ids, merge_course}
use duegood.Reconcile.Archive.{revivable_archived_index, take_at}
use duegood.Reconcile.Document.{
  Document, make_item, push_item, add_assignment, add_assignments, add_course, add_courses,
}

module _ (json : Values) (clock : Clock) (tokens : Bytes → List Bytes)
    (captured_at : clock.SystemTime) (archived_item_ids : List Bytes) where
  open json use {Value, Map}

  abbrev Made : Type 0
  Made = Value × (List Value × Bool)

  abbrev make : List Value → CourseAssignments json → Value → Bytes → Result ReconcileError Made
  make = make_item json clock tokens captured_at

  abbrev push : Document json → Identity → Made → Result ReconcileError (Document json)
  push = push_item json clock tokens captured_at archived_item_ids

  -- An item revived from the archive leaves it; a new one leaves it as it is.
  pub make_item-cases :
      (archive rest : List Value) (capture : CourseAssignments json) (assignment item : Value)
      (canvas_id : Bytes) (was_revived : Bool)
      → make archive capture assignment canvas_id ≡ ok (item, (rest, was_revived))
      → ((index : ℕ) × (old : Value) × (take_at index archive ≡ some (old, rest))
          × (update_item json clock tokens old assignment capture canvas_id captured_at ≡ ok item)
          × (was_revived ≡ true))
        ⊎ ((new_item json clock tokens capture.key assignment capture canvas_id captured_at
              ≡ ok item)
            × (rest ≡ archive)
            × (was_revived ≡ false))
  unfolding make_item
  make_item-cases archive rest capture assignment item canvas_id was_revived h =
      elim (Result-cases (revivable_archived_index json archive capture.key canvas_id)) [
        | inr (x, e) ↦ ground (arith, e)
        | inl (none, e) ↦
            elim (Result-cases
              (new_item json clock tokens capture.key assignment capture canvas_id captured_at)) [
                | inr (x, k) ↦ ground (arith, e, k)
                | inl (w, k) ↦
                    inr (ground (arith, e, k), ground (arith, e, k), ground (arith, e, k))
              ]
        | inl (some index, e) ↦ elim (Option-cases (take_at index archive)) [
          | inl t ↦ ground (arith, e, t)
          | inr ((old, left), t) ↦
              elim (Result-cases
                (update_item json clock tokens old assignment capture canvas_id captured_at)) [
                  | inr (x, k) ↦ ground (arith, e, t, k)
                  | inl (w, k) ↦ inl (
                    index,
                    old,
                    ground (arith, e, t, k),
                    ground (arith, e, t, k),
                    ground (arith, e, t, k),
                  )
                ]
        ]
      ]

  -- a pushed item has an ID that is not in use, nor, unless it was revived, in the archive
  pub push_item-found :
      (d d' : Document json) (identity : Identity) (item : Value) (archive : List Value)
      (was_revived : Bool)
      → push d identity (item, (archive, was_revived)) ≡ ok d'
      → (id : Bytes) × (text_of json (field json (codes "id") item) ≡ some id)
        × (contains id d.item_ids ≡ false)
        × ((not was_revived && contains id archived_item_ids) ≡ false)
        × (record d {
          archive = archive;
          archive_changed = d.archive_changed || was_revived;
          item_ids = id ∷ d.item_ids;
          seen = identity ∷ d.seen;
          items = d.items ++ (item ∷ []);
        }
            ≡ d')
  unfolding push_item
  push_item-found d d' identity item archive was_revived h =
      elim (Option-cases (text_of json (field json (codes "id") item))) [
        | inl e ↦ ground (arith, e)
        | inr (id, e) ↦
            elim (Bool-cases
              ((not was_revived && contains id archived_item_ids) || contains id d.item_ids)) [
                | inl c ↦ ground (arith, e, c)
                | inr c ↦ (id, e, ground (arith, c), ground (arith, c), ground (arith, e, c))
              ]
      ]

  -- Induction on the loop: what another root and every pushed item leave true Stays true.
  module _ (local_courses : List Value) (P : Document json → Type 0)
      (with_root : (d : Document json) (root : Map) (index : ℕ) (capture : CourseAssignments json)
        → merge_course json d.root index capture ≡ ok root
        → P d
        → P (record d { root = root }))
      (with_item : (capture : CourseAssignments json) (ignored : List Bytes) (assignment : Value)
          (canvas_id : Bytes) (d d' : Document json) (made : Made)
        → ignored_ids json local_courses capture.key ≡ ok ignored
        → identity_of json (field json (codes "id") assignment) ≡ some canvas_id
        → (contains canvas_id ignored || seen_before (capture.key, canvas_id) d.seen) ≡ false
        → make d.archive capture assignment canvas_id ≡ ok made
        → push d (capture.key, canvas_id) made ≡ ok d'
        → P d
        → P d') where
    pub add_assignment-P :
        (ignored : List Bytes) (capture : CourseAssignments json) (assignment : Value)
        (d d' : Document json)
        → ignored_ids json local_courses capture.key ≡ ok ignored
        → add_assignment json clock tokens captured_at archived_item_ids ignored capture assignment
            d
          ≡ ok d'
        → P d
        → P d'
    unfolding add_assignment
    add_assignment-P ignored capture assignment d d' g h p =
        elim (Option-cases (identity_of json (field json (codes "id") assignment))) [
          | inl e ↦ ground (arith, e)
          | inr (id, e) ↦
              elim (Bool-cases (contains id ignored || seen_before (capture.key, id) d.seen)) [
                | inl c ↦ let q : d ≡ d' = ground (arith, e, c) in subst P q p
                | inr c ↦ elim (Result-cases (make d.archive capture assignment id)) [
                  | inr (x, m) ↦ ground (arith, e, c, m)
                  | inl (made, m) ↦
                      with_item capture ignored assignment id d d' made g e c m
                        (ground (arith, e, c, m)) p
                ]
              ]
        ]

    add_assignments-P :
        (ignored : List Bytes) (capture : CourseAssignments json) (assignments : List Value)
        (d d' : Document json)
        → ignored_ids json local_courses capture.key ≡ ok ignored
        → add_assignments json clock tokens captured_at archived_item_ids ignored capture
            assignments d
          ≡ ok d'
        → P d
        → P d'
    unfolding add_assignments
    add_assignments-P ignored capture [] d d' g h p = let q : d ≡ d' = ground arith in subst P q p
    add_assignments-P ignored capture (assignment ∷ assignments) d d' g h p =
        elim (Result-cases (
          add_assignment json clock tokens captured_at archived_item_ids ignored capture assignment
            d)) [
              | inr (x, e) ↦ ground (arith, e)
              | inl (d1, e) ↦
                  add_assignments-P ignored capture assignments d1 d' g (ground (arith, e))
                    (add_assignment-P ignored capture assignment d d1 g e p)
            ]

    pub add_course-P :
        (course_indexes : HashMap ℕ) (capture : CourseAssignments json) (d d' : Document json)
        → add_course json clock tokens captured_at course_indexes local_courses archived_item_ids
            capture d
          ≡ ok d'
        → P d
        → P d'
    unfolding add_course
    add_course-P course_indexes capture d d' h p =
        elim (Option-cases (find_key capture.key course_indexes)) [
          | inl e ↦ ground (arith, e)
          | inr (index, e) ↦ elim (Result-cases (merge_course json d.root index capture)) [
            | inr (x, m) ↦ ground (arith, e, m)
            | inl (root, m) ↦ elim (Result-cases (ignored_ids json local_courses capture.key)) [
              | inr (x, g) ↦ ground (arith, e, m, g)
              | inl (ignored, g) ↦
                  add_assignments-P ignored capture capture.assignments (record d { root = root })
                    d' g (ground (arith, e, m, g)) (with_root d root index capture m p)
            ]
          ]
        ]

    pub add_courses-P :
        (course_indexes : HashMap ℕ) (courses : List (CourseAssignments json))
        (d d' : Document json)
        → add_courses json clock tokens captured_at course_indexes local_courses archived_item_ids
            courses d
          ≡ ok d'
        → P d
        → P d'
    unfolding add_courses
    add_courses-P course_indexes [] d d' h p = let q : d ≡ d' = ground arith in subst P q p
    add_courses-P course_indexes (capture ∷ courses) d d' h p =
        elim (Result-cases (
          add_course json clock tokens captured_at course_indexes local_courses archived_item_ids
            capture d)) [
              | inr (x, e) ↦ ground (arith, e)
              | inl (d1, e) ↦
                  add_courses-P course_indexes courses d1 d' (ground (arith, e))
                    (add_course-P course_indexes capture d d1 e p)
            ]
