-- ===== src/Reconcile/Courses.antt =====
-- The courses in src-tauri/src/reconcile.rs: ignored assignments, and the merged grade groups.
use duegood.Base.{
  ℕ, zero, suc, true, false, not, Option, none, some, List, [], ◌∷◌, ◌++◌, Bytes, codes, get_elem?,
  Result, ok, ok_or, ensure, ◌>>=◌, ◌>>◌, if◌then◌else◌,
}
use duegood.Reconcile.Values.{
  Values, ReconcileError, invalid, CourseAssignments, field, text_of, or_null, expect, insert_all,
  identity_key, identity_of, is_text,
}
use duegood.Reconcile.Checks.{contains, HashMap, find_key}

module _ (json : Values) where
  open json use {Value, Map, as_object, as_array, array, object, get, insert, new_map}

  -- the first course with a key
  unfoldable pub find_course : Bytes → List Value → Option Value
  find_course key [] = none
  find_course key (course ∷ courses) =
      let later = find_course key courses in
      if is_text key (text_of json (field json (codes "key") course)) then some course else later

  unfoldable pub identities_of : List Value → Result ReconcileError (List Bytes)
  identities_of [] = ok []
  identities_of (v ∷ vs) = do
    id ← ok_or (invalid "ignored Canvas assignment id is invalid") (identity_key json v)
    ids ← identities_of vs
    ok (id ∷ ids)

  unfoldable pub ignored_ids : List Value → Bytes → Result ReconcileError (List Bytes)
  ignored_ids local_courses key = do
    course ←
        ok_or (invalid "captured course disappeared from coursework document")
          (find_course key local_courses)
    elim (field json (codes "ignoredCanvasAssignmentIds") course) [
      | none ↦ ok []
      | some v ↦ (do
        ids ← ok_or (invalid "ignoredCanvasAssignmentIds must be an array") (as_array v)
        identities_of ids)
    ]

  -- the map `incoming` from IDs to groups
  unfoldable pub index_groups : List Value → HashMap Value → Result ReconcileError (HashMap Value)
  index_groups [] incoming = ok incoming
  index_groups (group ∷ groups) incoming = do
    id ← expect "group id validated" (identity_of json (field json (codes "id") group))
    index_groups groups ((id, group) ∷ incoming)

  -- the name and the weight of a group
  abbrev name_of : Value → Value
  name_of group = or_null json (field json (codes "name") group)

  abbrev weight_of : Value → Value
  weight_of group = or_null json (field json (codes "group_weight") group)

  unfoldable pub refresh_group : Value → Value → Value
  refresh_group old group = elim (as_object old) [
    | none ↦ old
    | some m ↦
        object (insert (codes "weight") (weight_of group) (insert (codes "name") (name_of group) m))
  ]

  -- the loop over the local groups: what it has seen and what it has pushed
  unfoldable pub keep_groups :
      HashMap Value
      → List Value
      → List Bytes
      → List Value
      → Result ReconcileError (List Bytes × List Value)
  keep_groups incoming [] seen groups = ok (seen, groups)
  keep_groups incoming (old ∷ existing) seen groups =
      elim (identity_of json (field json (codes "id") old)) [
        | none ↦ keep_groups incoming existing seen (groups ++ (old ∷ []))
        | some id ↦ (do
          ensure (not (contains id seen)) (invalid "duplicate local grade group identity")
          keep_groups incoming existing (id ∷ seen) (
              groups
              ++ (elim (find_key id incoming) [ none ↦ old | some group ↦ refresh_group old group ]
                  ∷ [])))
      ]

  unfoldable pub new_group : Value → Value
  new_group group = object (
      insert_all json
        ((codes "id", or_null json (field json (codes "id") group))
          ∷ (codes "name", name_of group)
          ∷ (codes "weight", weight_of group)
          ∷ [])
        new_map)

  -- the loop over the captured groups
  unfoldable pub add_groups :
      List Value → List Bytes → List Value → Result ReconcileError (List Value)
  add_groups [] seen groups = ok groups
  add_groups (group ∷ more) seen groups = do
    id ← expect "group id validated" (identity_of json (field json (codes "id") group))
    elim (contains id seen) [
      | true ↦ add_groups more seen groups
      | false ↦ add_groups more (id ∷ seen) (groups ++ (new_group group ∷ []))
    ]

  unfoldable pub local_groups : Map → Result ReconcileError (List Value)
  local_groups course = elim (get (codes "gradeGroups") course) [
    | none ↦ ok []
    | some v ↦ ok_or (invalid "course gradeGroups must be an array") (as_array v)
  ]

  unfoldable pub merged_groups : Map → CourseAssignments json → Result ReconcileError (List Value)
  merged_groups course capture = do
    existing ← local_groups course
    incoming ← index_groups capture.groups []
    (seen, groups) ← keep_groups incoming existing [] []
    add_groups capture.groups seen groups

  -- a list with another element at an index
  unfoldable pub set_at : {A : Type 0} → ℕ → A → List A → List A
  set_at i a [] = []
  set_at zero a (x ∷ xs) = a ∷ xs
  set_at (suc i) a (x ∷ xs) = let rest = set_at i a xs in x ∷ rest

  -- the course at an index of the root, with its merged groups
  unfoldable pub merge_course : Map → ℕ → CourseAssignments json → Result ReconcileError Map
  merge_course root course_index capture = do
    courses ←
        expect "courses array validated"
          (elim (get (codes "courses") root) [ none ↦ none | some v ↦ as_array v ])
    value ← expect "course index validated" (get_elem? courses course_index)
    course ← expect "course object validated" (as_object value)
    groups ← merged_groups course capture
    let merged = insert (codes "gradeGroups") (array groups) course
    ok (insert (codes "courses") (array (set_at course_index (object merged) courses)) root)
