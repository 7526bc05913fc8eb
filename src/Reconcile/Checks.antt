-- ===== src/Reconcile/Checks.antt =====
-- The checks of src-tauri/src/reconcile.rs on the local document and on the captures.
use duegood.Base.{
  ℕ, suc, Bool, true, false, not, ◌&&◌, ◌||◌, Option, none, some, List, [], ◌∷◌, ◌++◌, Bytes, codes,
  same, any, is_some, Result, ok, err, ok_or, ensure, ◌>>=◌, ◌>>◌, if◌then◌else◌,
}
use duegood.Reconcile.Values.{
  Values, ReconcileError, invalid, CourseAssignments, field, text_of, filled, identity_of, is_text,
}

-- `HashSet::contains`, on the list of what was inserted
abbrev pub contains : Bytes → List Bytes → Bool
contains text texts = any (same text) texts

-- a course key and a Canvas assignment ID
abbrev pub Identity : Type 0
Identity = Bytes × Bytes

abbrev pub same_identity : Identity → Identity → Bool
same_identity (course, id) (course', id') = same course course' && same id id'

abbrev pub seen_before : Identity → List Identity → Bool
seen_before identity identities = any (same_identity identity) identities

-- A `HashMap` from texts, the last insertion first.
abbrev pub HashMap : Type 0 → Type 0
HashMap A = List (Bytes × A)

module _ {A : Type 0} where
  unfoldable pub find_key : Bytes → HashMap A → Option A
  find_key key [] = none
  find_key key ((k, a) ∷ m) = let later = find_key key m in if same key k then some a else later

  abbrev pub has_key : Bytes → HashMap A → Bool
  has_key key m = is_some (find_key key m)

-- the tuple of `reference_key`
pub record ReferenceKey : Type 0 where
  pub institution : Bytes
  pub course : Bytes
  pub source : Bytes
  pub id : Bytes
  pub instance_id : Option Bytes

abbrev pub malformed_reference : ReconcileError
malformed_reference = invalid "coursework source reference is malformed"

abbrev same_instance : Option Bytes → Option Bytes → Bool
same_instance none none = true
same_instance (some a) (some b) = same a b
same_instance _ _ = false

unfoldable pub same_reference : ReferenceKey → ReferenceKey → Bool
same_reference a b =
    same a.institution b.institution
    && same a.course b.course
    && same a.source b.source
    && same a.id b.id
    && same_instance a.instance_id b.instance_id

-- `matches!(value, "canvas" | "ical" | "manual" | "pdf")`
unfoldable pub known_source : Option Bytes → Option Bytes
known_source none = none
known_source (some s) =
    if same s (codes "canvas")
      || same s (codes "ical")
      || same s (codes "manual")
      || same s (codes "pdf")
    then some s
    else none

module _ (json : Values) where
  open json use {Value, Map, as_object, as_array, as_str, is_null, get}

  -- the key of a local course
  unfoldable pub course_key : Value → Result ReconcileError Bytes
  course_key course = do
    object ← ok_or (invalid "coursework course must be an object") (as_object course)
    ok_or (invalid "coursework course key must be a nonempty string")
        (filled json (get (codes "key") object))

  -- the loop of `index_local_courses`, from an index on
  unfoldable pub index_courses : ℕ → List Value → HashMap ℕ → Result ReconcileError (HashMap ℕ)
  index_courses index [] indexes = ok indexes
  index_courses index (course ∷ courses) indexes = do
    key ← course_key course
    ensure (not (has_key key indexes)) (invalid "duplicate coursework course key")
    index_courses (suc index) courses ((key, index) ∷ indexes)

  unfoldable pub index_local_courses : List Value → Result ReconcileError (HashMap ℕ)
  index_local_courses courses = index_courses 0 courses []

  -- the loop of `validate_capture` over the groups
  unfoldable pub validate_groups : List Value → List Bytes → Result ReconcileError (Unit {0})
  validate_groups [] groups = ok tt
  validate_groups (group ∷ more) groups = do
    id ←
        ok_or (invalid "Canvas assignment group id is missing or invalid")
          (identity_of json (field json (codes "id") group))
    ensure (not (contains id groups)) (invalid "duplicate Canvas assignment group id")
    validate_groups more (id ∷ groups)

  -- the test on an assignment's submission
  unfoldable pub bad_submission : Value → Bool
  bad_submission assignment = elim (field json (codes "submission") assignment) [
    | none ↦ false
    | some submission ↦ not (is_null submission) && not (is_some (as_object submission))
  ]

  -- an assignment with the IDs in front of it
  unfoldable pub validate_assignment : Value → List Bytes → Result ReconcileError Bytes
  validate_assignment assignment assignments = do
    ensure (is_some (as_object assignment)) (invalid "Canvas assignment must be an object")
    id ←
        ok_or (invalid "Canvas assignment id is missing or invalid")
          (identity_of json (field json (codes "id") assignment))
    ensure (not (contains id assignments)) (invalid "duplicate Canvas assignment id")
    ensure (is_some (text_of json (field json (codes "name") assignment)))
        (invalid "Canvas assignment name must be a string")
    ensure (not (bad_submission assignment))
        (invalid "Canvas assignment submission must be an object or null")
    ok id

  -- the loop of `validate_capture` over the assignments
  unfoldable pub validate_assignments : List Value → List Bytes → Result ReconcileError (Unit {0})
  validate_assignments [] assignments = ok tt
  validate_assignments (assignment ∷ more) assignments = do
    id ← validate_assignment assignment assignments
    validate_assignments more (id ∷ assignments)

  unfoldable pub validate_capture : CourseAssignments json → Result ReconcileError (Unit {0})
  validate_capture capture = do
    validate_groups capture.groups []
    validate_assignments capture.assignments []

  -- the loop that checks the captures and indexes them by their course
  unfoldable pub index_captures :
      HashMap ℕ
      → List (CourseAssignments json)
      → HashMap (CourseAssignments json)
      → Result ReconcileError (HashMap (CourseAssignments json))
  index_captures course_indexes [] captures = ok captures
  index_captures course_indexes (capture ∷ courses) captures = do
    ensure (has_key capture.key course_indexes) (invalid "capture references an unknown course key")
    ensure (not (has_key capture.key captures)) (invalid "duplicate course capture")
    validate_capture capture
    index_captures course_indexes courses ((capture.key, capture) ∷ captures)

  -- the Canvas identity of a local item whose source is Canvas
  unfoldable pub local_identity : Map → Option Identity
  local_identity object =
      if is_text (codes "canvas") (text_of json (get (codes "source") object))
      then (elim (text_of json (get (codes "course") object)) [
        | none ↦ none
        | some course ↦ elim (identity_of json (get (codes "canvasId") object)) [
          | none ↦ none
          | some id ↦ some (course, id)
        ]
      ])
      else none

  -- `existing_canvas_ids.insert`
  unfoldable pub add_identity :
      Option Identity → List Identity → Result ReconcileError (List Identity)
  add_identity none identities = ok identities
  add_identity (some identity) identities =
      if seen_before identity identities
      then err (invalid "duplicate local Canvas assignment identity")
      else ok (identity ∷ identities)

  unfoldable pub item_id : Map → Result ReconcileError Bytes
  item_id object =
      ok_or (invalid "coursework item id must be a nonempty string")
        (filled json (get (codes "id") object))

  -- the loop over the local items: it ends with their IDs
  unfoldable pub index_ids :
      List Value → List Bytes → List Identity → Result ReconcileError (List Bytes)
  index_ids [] item_ids identities = ok item_ids
  index_ids (item ∷ items) item_ids identities = do
    object ← ok_or (invalid "coursework item must be an object") (as_object item)
    id ← item_id object
    ensure (not (contains id item_ids)) (invalid "duplicate coursework item id")
    more ← add_identity (local_identity object) identities
    index_ids items (id ∷ item_ids) more

  unfoldable pub archive_of : Map → Result ReconcileError (List Value)
  archive_of root = elim (get (codes "archivedForecastItems") root) [
    | none ↦ ok []
    | some archive ↦ ok_or (invalid "archivedForecastItems must be an array") (as_array archive)
  ]

  -- the `instance` of a reference
  unfoldable pub instance_of : Map → Result ReconcileError (Option Bytes)
  instance_of reference = elim (get (codes "instance") reference) [
    | none ↦ ok none
    | some v ↦ elim (as_str v) [
      | some (c ∷ s) ↦ ok (some (c ∷ s))
      | some [] ↦ err malformed_reference
      | none ↦ err malformed_reference
    ]
  ]

  unfoldable pub reference_key : Map → Result ReconcileError ReferenceKey
  reference_key reference = do
    institution ← ok_or malformed_reference (filled json (get (codes "institution") reference))
    course ← ok_or malformed_reference (filled json (get (codes "course") reference))
    source ←
        ok_or malformed_reference (known_source (text_of json (get (codes "source") reference)))
    id ← ok_or malformed_reference (filled json (get (codes "id") reference))
    instance_id ← instance_of reference
    ok (record {
      institution = institution;
      course = course;
      source = source;
      id = id;
      instance_id = instance_id;
    })

  -- the references, each an object
  unfoldable pub reference_objects : List Value → Result ReconcileError (List Map)
  reference_objects [] = ok []
  reference_objects (reference ∷ references) = do
    object ← ok_or malformed_reference (as_object reference)
    objects ← reference_objects references
    ok (object ∷ objects)

  unfoldable pub item_references : Value → Result ReconcileError (List Map)
  item_references item = elim (field json (codes "sourceReferences") item) [
    | none ↦ ok []
    | some v ↦ elim (as_array v) [
      | none ↦ err malformed_reference
      | some references ↦ reference_objects references
    ]
  ]

  -- the inner loop of `validate_source_references`
  unfoldable pub own_references :
      List Map → List ReferenceKey → Result ReconcileError (List ReferenceKey)
  own_references [] owners = ok owners
  own_references (reference ∷ references) owners = do
    key ← reference_key reference
    ensure (not (any (same_reference key) owners)) (invalid "duplicate scoped source reference")
    own_references references (key ∷ owners)

  -- the loop over the items and the archived ones
  unfoldable pub validate_owners : List Value → List ReferenceKey → Result ReconcileError (Unit {0})
  validate_owners [] owners = ok tt
  validate_owners (item ∷ items) owners = do
    _ ←
        ok_or (invalid "coursework item id must be a nonempty string")
          (filled json (field json (codes "id") item))
    references ← item_references item
    more ← own_references references owners
    validate_owners items more

  unfoldable pub validate_source_references :
      List Value → List Value → Result ReconcileError (Unit {0})
  validate_source_references items archived = validate_owners (items ++ archived) []
