-- ===== src/Reconcile/Steps.antt =====
-- The steps of a run of `reconcile_coursework` of src-tauri/src/reconcile.rs that returns a document.
use duegood.Base.{
  true, false, not, ◌||◌, some, List, [], ◌++◌, Bytes, codes, same, ok, Bool-cases, Option-cases,
  Result-cases, ◌≡◌, refl, ◌∙◌, subst, inl, inr, arith,
}
use duegood.Reconcile.Values.{Values, IsLawful, Clock, CourseAssignments, field, field-eq}
use duegood.Reconcile.Items.{Matches, Places, match_courses, place_items}
use duegood.Reconcile.Archive.{archived_ids, keep_archived}
use duegood.Reconcile.Document.{Document, add_courses}
use duegood.Reconcile.Coursework.{
  Inputs, check_inputs, run_loops, start_document, nothing_placed, write_lists, stamp_root,
  list_field, is_nil, sync_of, reconcile_coursework,
}

module _ (json : Values) (clock : Clock) (tokens : Bytes → List Bytes)
    (captured_at : clock.SystemTime) where
  open json use {Value, Map, as_object, as_array, get, insert, object, array}

  pub record Run (base : Value) (courses : List (CourseAssignments json)) (result : Value)
      : Type 0 where
    pub inputs : Inputs json
    pub matches : Matches
    pub places : Places json
    pub document : Document json
    pub checked : check_inputs json base courses ≡ ok inputs
    pub placed :
        place_items json clock tokens captured_at inputs.local_courses inputs.captures matches 0
          inputs.local_items
          (nothing_placed json)
        ≡ ok places
    pub added :
        add_courses json clock tokens captured_at inputs.course_indexes inputs.local_courses
          (archived_ids json inputs.archive)
          courses
          (start_document json inputs places)
        ≡ ok document
    pub stamped :
        stamp_root json clock tokens captured_at base
          (write_lists json document places.newly_archived)
        ≡ ok result

  pub steps_of :
      (base : Value) (courses : List (CourseAssignments json)) (result : Value)
      → reconcile_coursework json clock tokens captured_at base courses ≡ ok result
      → Run base courses result
  unfolding reconcile_coursework run_loops
  steps_of base courses result h = elim (Result-cases (check_inputs json base courses)) [
    | inr (x, e) ↦ ground (arith, e)
    | inl (i, e) ↦ elim (Result-cases (match_courses json i.local_items courses [])) [
      | inr (x, m) ↦ ground (arith, e, m)
      | inl (matches, m) ↦
          elim (Result-cases (
            place_items json clock tokens captured_at i.local_courses i.captures matches 0
              i.local_items (nothing_placed json))) [
                | inr (x, p) ↦ ground (arith, e, m, p)
                | inl (places, p) ↦
                    elim (Result-cases (
                      add_courses json clock tokens captured_at i.course_indexes i.local_courses
                        (archived_ids json i.archive) courses (start_document json i places))) [
                          | inr (x, a) ↦ ground (arith, e, m, p, a)
                          | inl (d, a) ↦ record {
                            inputs = i;
                            matches = matches;
                            places = places;
                            document = d;
                            checked = e;
                            placed = p;
                            added = a;
                            stamped = ground (arith, e, m, p, a);
                          }
                        ]
              ]
    ]
  ]

  module _ (lawful : IsLawful json) where
    -- the stamp is in no other field
    pub stamp_root-field :
        (base result : Value) (root : Map) (name : Bytes)
        → same name (codes "sync") ≡ false
        → stamp_root json clock tokens captured_at base root ≡ ok result
        → field json name result ≡ get name root
    unfolding stamp_root
    stamp_root-field base result root name n h =
        elim (Bool-cases (json.same_value (object root) base)) [
          | inl e ↦
              let q : object root ≡ result = ground (arith, e) in
              subst (λ v. field json name v ≡ get name root) q
                (field-eq json name (object root) root (lawful.as_object-object root))
          | inr e ↦ elim (Result-cases (clock.new_york_date captured_at)) [
            | inr (x, k) ↦ ground (arith, e, k)
            | inl (date, k) ↦
                elim (Option-cases (as_object (sync_of json clock tokens captured_at root))) [
                  | inl o ↦ ground (arith, e, k, o, lawful.as_object-object root)
                  | inr (sync, o) ↦
                      let stamp = object (insert (codes "lastSync") (json.string date) sync) in
                      let q : object (insert (codes "sync") stamp root) ≡ result =
                        ground (arith, e, k, o, lawful.as_object-object root) in
                      subst (λ v. field json name v ≡ get name root) q
                        (field-eq json name _ _ (lawful.as_object-object _)
                          ∙ lawful.get-insert_other name (codes "sync") stamp root n)
                ]
          ]
        ]

    list_field-insert :
        (name : Bytes) (vs : List Value) (root : Map)
        → list_field json name (insert name (array vs) root) ≡ some vs
    list_field-insert name vs root =
        ground (arith, lawful.get-insert name (array vs) root, lawful.as_array-array vs)

    pub write_lists-items :
        (d : Document json) (newly : List Value)
        → list_field json (codes "items") (write_lists json d newly) ≡ some d.items
    unfolding write_lists
    write_lists-items d newly = elim (Bool-cases (not (is_nil newly) || d.archive_changed)) [
      | inl e ↦
          let root = insert (codes "items") (array d.items) d.root in
          let archive = array (keep_archived json newly d.archive ++ newly) in
          rw (e, write_lists)
            (ground (
              arith,
              lawful.get-insert_other (codes "items") (codes "archivedForecastItems") archive root
                  refl,
              list_field-insert (codes "items") d.items d.root,
            ))
      | inr e ↦ rw (e, write_lists) (list_field-insert (codes "items") d.items d.root)
    ]

    pub write_lists-archive :
        (d : Document json) (newly : List Value)
        → (not (is_nil newly) || d.archive_changed) ≡ true
        → list_field json (codes "archivedForecastItems") (write_lists json d newly)
          ≡ some (keep_archived json newly d.archive ++ newly)
    unfolding write_lists
    write_lists-archive d newly e =
        rw (e, write_lists) (list_field-insert (codes "archivedForecastItems") _ _)

    pub write_lists-unchanged :
        (d : Document json) (newly : List Value)
        → (not (is_nil newly) || d.archive_changed) ≡ false
        → get (codes "archivedForecastItems") (write_lists json d newly)
          ≡ get (codes "archivedForecastItems") d.root
    unfolding write_lists
    write_lists-unchanged d newly e =
        rw (e, write_lists)
          (lawful.get-insert_other (codes "archivedForecastItems") (codes "items") (array d.items)
            d.root refl)
