-- ===== src/Reconcile/Checked.antt =====
-- The checks of `reconcile_coursework` of src-tauri/src/reconcile.rs that a run has passed.
use duegood.Base.{
  Option, none, some, List, [], Bytes, codes, ok, Option-cases, Result-cases, ◌≡◌, ◌∙◌, ap, subst,
  inl, inr, arith,
}
use duegood.Reconcile.Values.{Values, CourseAssignments, field, field-eq}
use duegood.Reconcile.Checks.{
  index_local_courses, index_captures, index_ids, archive_of, validate_source_references,
}
use duegood.Reconcile.Coursework.{Inputs, check_inputs, list_field}

module _ (json : Values) where
  open json use {Value, Map, as_object, as_array, get}

  abbrev pub list_of : Option Value → Option (List Value)
  list_of v = elim v [ none ↦ none | some w ↦ as_array w ]

  -- a list of a document
  abbrev pub list_in : Bytes → Value → Option (List Value)
  list_in name v = list_of (field json name v)

  -- the archive of a document, empty where it has none
  abbrev pub archive_from : Option Value → List Value
  archive_from v = elim (list_of v) [ none ↦ [] | some vs ↦ vs ]

  abbrev pub archive_in : Value → List Value
  archive_in v = archive_from (field json (codes "archivedForecastItems") v)

  pub archive_of-from :
      (root : Map) (archive : List Value)
      → archive_of json root ≡ ok archive
      → archive_from (get (codes "archivedForecastItems") root) ≡ archive
  unfolding archive_of
  archive_of-from root archive h = elim (Option-cases (get (codes "archivedForecastItems") root)) [
    | inl e ↦ ground (arith, e)
    | inr (v, e) ↦ elim (Option-cases (as_array v)) [
      | inl k ↦ ground (arith, e, k)
      | inr (vs, k) ↦ ground (arith, e, k)
    ]
  ]

  -- what a document and its captures have that pass the checks
  pub record Checked (base : Value) (courses : List (CourseAssignments json)) (i : Inputs json)
      : Type 0 where
    pub is_root : as_object base ≡ some i.root
    pub has_items : list_in (codes "items") base ≡ some i.local_items
    pub has_list : list_field json (codes "courses") i.root ≡ some i.local_courses
    pub has_courses : index_local_courses json i.local_courses ≡ ok i.course_indexes
    pub has_captures : index_captures json i.course_indexes courses [] ≡ ok i.captures
    pub has_ids : index_ids json i.local_items [] [] ≡ ok i.item_ids
    pub has_archive : archive_of json i.root ≡ ok i.archive
    pub has_references : validate_source_references json i.local_items i.archive ≡ ok tt

  pub passed_of :
      (base : Value) (courses : List (CourseAssignments json)) (i : Inputs json)
      → check_inputs json base courses ≡ ok i
      → Checked base courses i
  unfolding check_inputs
  passed_of base courses i h = elim (Option-cases (as_object base)) [
    | inl e ↦ ground (arith, e)
    | inr (root, e) ↦ elim (Option-cases (list_field json (codes "courses") root)) [
      | inl c ↦ ground (arith, e, c)
      | inr (cs, c) ↦ elim (Option-cases (list_field json (codes "items") root)) [
        | inl l ↦ ground (arith, e, c, l)
        | inr (items, l) ↦ elim (Result-cases (index_local_courses json cs)) [
          | inr (x, x1) ↦ ground (arith, e, c, l, x1)
          | inl (indexes, x1) ↦ elim (Result-cases (index_captures json indexes courses [])) [
            | inr (x, x2) ↦ ground (arith, e, c, l, x1, x2)
            | inl (captures, x2) ↦ elim (Result-cases (index_ids json items [] [])) [
              | inr (x, x3) ↦ ground (arith, e, c, l, x1, x2, x3)
              | inl (ids, x3) ↦ elim (Result-cases (archive_of json root)) [
                | inr (x, x4) ↦ ground (arith, e, c, l, x1, x2, x3, x4)
                | inl (archive, x4) ↦
                    elim (Result-cases (validate_source_references json items archive)) [
                      | inr (x, x5) ↦ ground (arith, e, c, l, x1, x2, x3, x4, x5)
                      | inl (_, x5) ↦
                          let passed : Inputs json = record {
                            root = root;
                            local_courses = cs;
                            local_items = items;
                            course_indexes = indexes;
                            captures = captures;
                            item_ids = ids;
                            archive = archive;
                          } in
                          let q : passed ≡ i = ground (arith, e, c, l, x1, x2, x3, x4, x5) in
                          subst (Checked base courses) q (record {
                            is_root = e;
                            has_items =
                                ap (list_of) (field-eq json (codes "items") base root e) ∙ l;
                            has_list = c;
                            has_courses = x1;
                            has_captures = x2;
                            has_ids = x3;
                            has_archive = x4;
                            has_references = x5;
                          })
                    ]
              ]
            ]
          ]
        ]
      ]
    ]
  ]
