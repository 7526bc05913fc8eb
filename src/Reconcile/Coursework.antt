-- ===== src/Reconcile/Coursework.antt =====
-- `reconcile_coursework` of src-tauri/src/reconcile.rs: its checks, its loops, its result.
use duegood.Base.{
  ℕ, Bool, true, false, not, ◌||◌, Option, none, some, List, [], ◌∷◌, ◌++◌, Bytes, codes, Result,
  ok, ok_or, ◌>>=◌, ◌>>◌, if◌then◌else◌,
}
use duegood.Reconcile.Values.{Values, ReconcileError, invalid, Clock, CourseAssignments, expect}
use duegood.Reconcile.Checks.{
  HashMap, index_local_courses, index_captures, index_ids, archive_of, validate_source_references,
}
use duegood.Reconcile.Items.{Places, match_courses, place_items}
use duegood.Reconcile.Archive.{archived_ids, keep_archived}
use duegood.Reconcile.Document.{Document, add_courses}

abbrev pub is_nil {ℓ} : {A : Type ℓ} → List A → Bool
is_nil [] = true
is_nil (_ ∷ _) = false

module _ (json : Values) where
  open json use {
    Value, Map, as_object, as_array, string, array, object, get, insert, new_map, same_value,
  }

  abbrev pub list_field : Bytes → Map → Option (List Value)
  list_field name root = elim (get name root) [ none ↦ none | some v ↦ as_array v ]

  -- the items and the archive into the root
  unfoldable pub write_lists : Document json → List Value → Map
  write_lists d newly_archived =
      let root = insert (codes "items") (array d.items) d.root in
      if not (is_nil newly_archived) || d.archive_changed
      then insert (codes "archivedForecastItems")
          (array (keep_archived json newly_archived d.archive ++ newly_archived)) root
      else root

  abbrev pub nothing_placed : Places json
  nothing_placed = record { seen = []; next_items = []; newly_archived = [] }

  -- What the loops run on, once every check has passed.
  pub record Inputs : Type 0 where
    pub root : Map
    pub local_courses : List Value
    pub local_items : List Value
    pub course_indexes : HashMap ℕ
    pub captures : HashMap (CourseAssignments json)
    pub item_ids : List Bytes
    pub archive : List Value

  -- what the loop over the courses starts with
  abbrev pub start_document : Inputs → Places json → Document json
  start_document i places = record {
    root = i.root;
    archive = i.archive;
    archive_changed = false;
    item_ids = i.item_ids;
    seen = places.seen;
    items = places.next_items;
  }

  -- the checks in front of the loops
  unfoldable pub check_inputs : Value → List (CourseAssignments json) → Result ReconcileError Inputs
  check_inputs base courses = do
    root ← ok_or (invalid "coursework document must be an object") (as_object base)
    local_courses ←
        ok_or (invalid "coursework courses must be an array") (list_field (codes "courses") root)
    local_items ←
        ok_or (invalid "coursework items must be an array") (list_field (codes "items") root)
    course_indexes ← index_local_courses json local_courses
    captures ← index_captures json course_indexes courses []
    item_ids ← index_ids json local_items [] []
    archive ← archive_of json root
    validate_source_references json local_items archive
    ok (record {
      root = root;
      local_courses = local_courses;
      local_items = local_items;
      course_indexes = course_indexes;
      captures = captures;
      item_ids = item_ids;
      archive = archive;
    })

  module _ (clock : Clock) (tokens : Bytes → List Bytes) (captured_at : clock.SystemTime) where
    abbrev pub sync_of : Map → Value
    sync_of root = elim (get (codes "sync") root) [ none ↦ object new_map | some v ↦ v ]

    -- the root with the date of the capture, if it differs from the base
    unfoldable pub stamp_root : Value → Map → Result ReconcileError Value
    stamp_root base root = if same_value (object root) base then ok (object root) else (do
      last_sync ← clock.new_york_date captured_at
      result ← expect "coursework root object was validated" (as_object (object root))
      sync ← ok_or (invalid "coursework sync must be an object") (as_object (sync_of result))
      ok (
          object (
            insert (codes "sync") (object (insert (codes "lastSync") (string last_sync) sync))
              result)))

    -- The three loops.
    unfoldable pub run_loops :
        Inputs → List (CourseAssignments json) → Result ReconcileError (Document json × Places json)
    run_loops i courses = do
      matches ← match_courses json i.local_items courses []
      places ←
          place_items json clock tokens captured_at i.local_courses i.captures matches 0
            i.local_items nothing_placed
      d ←
          add_courses json clock tokens captured_at i.course_indexes i.local_courses
            (archived_ids json i.archive) courses (start_document i places)
      ok (d, places)

    unfoldable pub reconcile_coursework :
        Value → List (CourseAssignments json) → Result ReconcileError Value
    reconcile_coursework base courses = do
      inputs ← check_inputs base courses
      (d, places) ← run_loops inputs courses
      stamp_root base (write_lists d places.newly_archived)
