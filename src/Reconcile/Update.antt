-- ===== src/Reconcile/Update.antt =====
-- How src-tauri/src/reconcile.rs writes a Canvas assignment into an item, and makes a new item.
use duegood.Base.{
  Bool, true, false, ◌||◌, Option, none, some, List, [], ◌∷◌, ◌++◌, Bytes, codes, any, is_some,
  to_lower, find_text, Result, ok, ok_or, ◌>>=◌, if◌then◌else◌,
}
use duegood.Reconcile.Values.{
  Values, ReconcileError, invalid, Clock, CourseAssignments, field, text_of, or_null, expect,
  insert_all, identity_key, identity_of, is_text,
}
use duegood.Reconcile.Checks.{contains}
use duegood.Reconcile.References.{append_canvas_reference}
use duegood.Reconcile.Due.{patch_due_at}

-- `kind_for`, by the tokens of the lower-case name and the joined submission types
module _ (tokens : List Bytes) (types : Bytes) where
  abbrev has : List Bytes → Bool
  has words = any (λ token. contains token words) tokens

  abbrev has_type : Bytes → Bool
  has_type text = is_some (find_text text types)

  unfoldable pub kind_of : Bytes
  kind_of =
      if has (codes "discussion" ∷ codes "discussions" ∷ codes "forum" ∷ codes "forums" ∷ [])
        || has_type (codes "discussion_topic")
      then codes "discussion"
      else if has (codes "quiz" ∷ codes "quizzes" ∷ codes "test" ∷ codes "tests" ∷ [])
          || has_type (codes "online_quiz")
      then (if has (codes "exam" ∷ codes "midterm" ∷ codes "final" ∷ [])
          then codes "exam"
          else codes "quiz")
      else if has
          (codes "exam" ∷ codes "exams" ∷ codes "midterm" ∷ codes "midterms" ∷ codes "final" ∷ [])
      then codes "exam"
      else if has (codes "lab" ∷ codes "labs" ∷ codes "laboratory" ∷ codes "laboratories" ∷ [])
      then codes "lab"
      else if has (codes "session" ∷ codes "sessions" ∷ codes "meeting" ∷ codes "meetings" ∷ [])
      then codes "session"
      else if has
          (codes "milestone" ∷ codes "milestones" ∷ codes "checkpoint" ∷ codes "checkpoints" ∷ [])
      then codes "milestone"
      else if has (codes "paper" ∷ codes "papers" ∷ codes "essay" ∷ codes "essays" ∷ [])
      then codes "paper"
      else codes "assignment"

-- `join(" ")`
unfoldable pub join_words : List Bytes → Bytes
join_words [] = []
join_words (word ∷ []) = word
join_words (word ∷ next ∷ words) =
    let rest = join_words (next ∷ words) in word ++ (codes " " ++ rest)

abbrev pub submission_fields : List (Bytes × Bytes)
submission_fields =
    (codes "workflow_state", codes "submissionStatus")
    ∷ (codes "submitted_at", codes "submittedAt")
    ∷ (codes "graded_at", codes "gradedAt")
    ∷ (codes "grade", codes "grade")
    ∷ (codes "score", codes "score")
    ∷ []

module _ (json : Values) where
  open json use {
    Value, Map, as_object, as_array, as_str, as_bool, is_null, null, boolean, string, array, object,
    get, insert, new_map,
  }

  -- `filter_map(Value::as_str)`
  unfoldable pub texts_of : List Value → List Bytes
  texts_of [] = []
  texts_of (v ∷ vs) = let rest = texts_of vs in elim (as_str v) [ none ↦ rest | some s ↦ s ∷ rest ]

  abbrev submission_types : Value → Bytes
  submission_types assignment = elim (field json (codes "submission_types") assignment) [
    | none ↦ []
    | some v ↦ elim (as_array v) [ none ↦ [] | some vs ↦ to_lower (join_words (texts_of vs)) ]
  ]

  abbrev name_of : Value → Bytes
  name_of assignment = elim (text_of json (field json (codes "name") assignment)) [
    | none ↦ []
    | some name ↦ to_lower name
  ]

  -- `tokens` are the parts of a text between the characters that are not alphanumeric.
  unfoldable pub kind_for : (Bytes → List Bytes) → Value → Bytes
  kind_for tokens assignment = kind_of (tokens (name_of assignment)) (submission_types assignment)

  unfoldable pub patch_optional : Map → Bytes → Value → Bytes → Map
  patch_optional target local source remote = elim (field json remote source) [
    | none ↦ target
    | some v ↦ insert local v target
  ]

  -- the first group with an ID
  unfoldable pub find_group : Bytes → List Value → Option Value
  find_group id [] = none
  find_group id (group ∷ groups) =
      let later = find_group id groups in
      if is_text id (identity_of json (field json (codes "id") group)) then some group else later

  -- `group.and_then(|group| group.get(name)).cloned().unwrap_or(Value::Null)`
  abbrev pub group_field : Bytes → Option Value → Value
  group_field name none = null
  group_field name (some group) = or_null json (field json name group)

  -- the three fields of an item's group
  unfoldable pub set_group : Map → Value → Value → Value → Map
  set_group target id name weight =
      insert (codes "assignmentGroupWeight") weight
        (insert (codes "assignmentGroupName") name (insert (codes "assignmentGroupId") id target))

  unfoldable pub patch_group : Map → Value → CourseAssignments json → Result ReconcileError Map
  patch_group target assignment capture =
      elim (field json (codes "assignment_group_id") assignment) [
        | none ↦ ok target
        | some group_id ↦ if is_null group_id then ok (set_group target null null null) else (do
          id ← ok_or (invalid "assignment group id is invalid") (identity_key json group_id)
          let group = find_group id capture.groups
          ok (
              set_group target group_id (group_field (codes "name") group)
                (group_field (codes "group_weight") group)))
      ]

  -- the loop that clears the submission's fields
  unfoldable pub clear_fields : List (Bytes × Bytes) → Map → Map
  clear_fields [] target = target
  clear_fields ((remote, local) ∷ fields) target = clear_fields fields (insert local null target)

  -- the loop that copies the fields that the submission has
  unfoldable pub copy_fields : List (Bytes × Bytes) → Map → Map → Map
  copy_fields [] submission target = target
  copy_fields ((remote, local) ∷ fields) submission target =
      copy_fields fields submission
        (elim (get remote submission) [ none ↦ target | some v ↦ insert local v target ])

  unfoldable pub patch_submission : Map → Value → Result ReconcileError Map
  patch_submission target assignment = elim (field json (codes "submission") assignment) [
    | none ↦ ok target
    | some submission ↦
        if is_null submission then ok (clear_fields submission_fields target) else (do
          fields ←
              ok_or (invalid "Canvas assignment submission must be an object or null")
                (as_object submission)
          ok (copy_fields submission_fields fields target))
  ]

  -- the title, unless the student keeps his own
  unfoldable pub set_title : Map → Bytes → Map
  set_title target name = elim (get (codes "keepTitle") target) [
    | none ↦ insert (codes "title") (string name) target
    | some keep ↦ elim (as_bool keep) [
      | some true ↦ target
      | some false ↦ insert (codes "title") (string name) target
      | none ↦ insert (codes "title") (string name) target
    ]
  ]

  module _ (clock : Clock) (tokens : Bytes → List Bytes) where
    open clock use {SystemTime}

    -- what both an update and a new item take from the assignment
    unfoldable pub patch_all :
        Map → Value → CourseAssignments json → Option Value → SystemTime → Result ReconcileError Map
    patch_all target assignment capture canvas_reference captured_at = do
      due ← patch_due_at json clock target assignment canvas_reference captured_at
      let points = patch_optional due (codes "points") assignment (codes "points_possible")
      let url = patch_optional points (codes "url") assignment (codes "html_url")
      grouped ← patch_group url assignment capture
      patch_submission grouped assignment

    -- the fields that are Canvas's in every item
    unfoldable pub set_source : Map → Value → Map
    set_source target assignment =
        insert (codes "canvasId") (or_null json (field json (codes "id") assignment)) (
          insert (codes "confidence") (string (codes "confirmed")) (
            insert (codes "source") (string (codes "canvas"))
              (insert (codes "kind") (string (kind_for tokens assignment)) target)))

    unfoldable pub update_item :
        Value → Value → CourseAssignments json → Bytes → SystemTime → Result ReconcileError Value
    update_item item assignment capture canvas_id captured_at = do
      target ← ok_or (invalid "coursework item must be an object") (as_object item)
      name ←
          expect "validated assignment name" (text_of json (field json (codes "name") assignment))
      let sourced = set_source (set_title target name) assignment
      (linked, reference) ← append_canvas_reference json sourced capture.key canvas_id
      patched ← patch_all linked assignment capture reference captured_at
      ok (object patched)

    -- `format!("{course_key}-canvas-{canvas_id}")`
    abbrev pub new_id : Bytes → Bytes → Bytes
    new_id course_key canvas_id = course_key ++ (codes "-canvas-" ++ canvas_id)

    unfoldable pub blank_item : Bytes → Value → Bytes → Bytes → Map
    blank_item course_key assignment name canvas_id =
        insert_all json
          ((codes "id", string (new_id course_key canvas_id))
            ∷ (codes "course", string course_key)
            ∷ (codes "kind", string (kind_for tokens assignment))
            ∷ (codes "title", string name)
            ∷ (codes "source", string (codes "canvas"))
            ∷ (codes "confidence", string (codes "confirmed"))
            ∷ (codes "flags", array [])
            ∷ (codes "detail", string [])
            ∷ (codes "canvasId", or_null json (field json (codes "id") assignment))
            ∷ (codes "done", boolean false)
            ∷ (codes "doneAt", null)
            ∷ (codes "submissionStatus", null)
            ∷ (codes "submittedAt", null)
            ∷ (codes "gradedAt", null)
            ∷ (codes "grade", null)
            ∷ (codes "score", null)
            ∷ [])
          new_map

    unfoldable pub new_item :
        Bytes → Value → CourseAssignments json → Bytes → SystemTime → Result ReconcileError Value
    new_item course_key assignment capture canvas_id captured_at = do
      name ←
          expect "validated assignment name" (text_of json (field json (codes "name") assignment))
      target ←
          expect "new item is object"
            (as_object (object (blank_item course_key assignment name canvas_id)))
      patched ← patch_all target assignment capture none captured_at
      ok (object patched)
