-- ===== src/History/Diff.antt =====
-- `diff_coursework` of src-tauri/src/history.rs.
use duegood.Base.{
  ℕ, ◌+◌, Bool, true, false, not, ◌||◌, Option, none, some, List, [], ◌∷◌, ◌++◌, Bytes, codes, same,
  is_some, Result, ok, ◌>>=◌, if◌then◌else◌,
}
use duegood.History.Items.{Json, StoreError, Indexed, lookup, contains_key, indexed_items}

-- The rows of a diff, whose JSON objects are their fields.
pub record FieldChange (Value : Type 0) : Type 0 where
  pub field : Bytes
  pub before : Value
  pub after : Value

pub data ChangeKind : Type 0 where
  added changed removed : ChangeKind

pub record Change (Value : Type 0) : Type 0 where
  pub kind : ChangeKind
  pub item_id : Value
  pub title : Value
  pub course : Value
  pub fields : List (FieldChange Value)

-- `CourseworkDiff`
pub record CourseworkDiff (Value : Type 0) : Type 0 where
  pub added : ℕ
  pub updated : ℕ
  pub removed : ℕ
  pub changes : List (Change Value)

abbrev pub no_diff : {Value : Type 0} → CourseworkDiff Value
no_diff = record { added = 0; updated = 0; removed = 0; changes = [] }

abbrev pub visible_source_fields : List Bytes
visible_source_fields =
    codes "kind"
    ∷ codes "title"
    ∷ codes "at"
    ∷ codes "points"
    ∷ codes "url"
    ∷ codes "confidence"
    ∷ codes "flags"
    ∷ codes "detail"
    ∷ codes "assignmentGroupId"
    ∷ codes "assignmentGroupName"
    ∷ codes "assignmentGroupWeight"
    ∷ codes "submissionStatus"
    ∷ codes "submittedAt"
    ∷ codes "gradedAt"
    ∷ codes "grade"
    ∷ codes "score"
    ∷ []

abbrev shown_name : Bytes → Bytes
shown_name name = if same name (codes "submissionStatus") then codes "submissionState" else name

abbrev pub is_empty {ℓ} : {A : Type ℓ} → List A → Bool
is_empty [] = true
is_empty (_ ∷ _) = false

module _ (json : Json) where
  open json use {Value, get, null, string, same_value}

  abbrev or_null : Option Value → Value
  or_null none = null
  or_null (some v) = v

  unfoldable pub item_label : Value → Bytes → Bytes → Value
  item_label item key field = elim (get field item) [ none ↦ string key | some v ↦ v ]

  unfoldable pub field_changes : Value → Value → Bytes → List (FieldChange Value)
  field_changes before after name =
      if not (is_some (get name before) || is_some (get name after))
      then []
      else if same_value (or_null (get name before)) (or_null (get name after))
      then []
      else record {
        field = shown_name name;
        before = or_null (get name before);
        after = or_null (get name after);
      }
        ∷ []

  unfoldable pub changes_of : List Bytes → Value → Value → List (FieldChange Value)
  unfolding field_changes
  changes_of [] before after = []
  changes_of (name ∷ names) before after =
      field_changes before after name ++ changes_of names before after

  unfoldable pub display_changes : Value → Value → List (FieldChange Value)
  display_changes before after = changes_of visible_source_fields before after

  abbrev pub row : ChangeKind → Bytes → Value → List (FieldChange Value) → Change Value
  row kind key item fields = record {
    kind = kind;
    item_id = item_label item key (codes "id");
    title = or_null (get (codes "title") item);
    course = or_null (get (codes "course") item);
    fields = fields;
  }

  -- an item of the current index against the previous one of its key, if any
  unfoldable pub visit : CourseworkDiff Value → Bytes → Value → Option Value → CourseworkDiff Value
  visit diff key item none = record diff {
    added = diff.added + 1;
    changes = diff.changes ++ row added key item [] ∷ [];
  }
  visit diff key item (some old) =
      let fields = display_changes old item in
      if is_empty fields then diff else record diff {
        updated = diff.updated + 1;
        changes = diff.changes ++ row changed key item fields ∷ [];
      }

  unfoldable pub visit_current :
      Indexed Value → CourseworkDiff Value → Indexed Value → CourseworkDiff Value
  visit_current previous diff [] = diff
  visit_current previous diff ((key, item) ∷ items) =
      visit_current previous (visit diff key item (lookup key previous)) items

  unfoldable pub drop_item : CourseworkDiff Value → Bytes → Value → CourseworkDiff Value
  drop_item diff key item = record diff {
    removed = diff.removed + 1;
    changes = diff.changes ++ row removed key item [] ∷ [];
  }

  unfoldable pub visit_previous :
      Indexed Value → CourseworkDiff Value → Indexed Value → CourseworkDiff Value
  visit_previous current diff [] = diff
  visit_previous current diff ((key, item) ∷ items) =
      let kept = visit_previous current diff items in
      let dropped = visit_previous current (drop_item diff key item) items in
      if contains_key key current then kept else dropped

  unfoldable pub diff_indexed : Indexed Value → Indexed Value → CourseworkDiff Value
  diff_indexed previous current =
      visit_previous current (visit_current previous no_diff current) previous

  unfoldable pub diff_coursework : Value → Value → Result StoreError (CourseworkDiff Value)
  diff_coursework before after = do
    previous ← indexed_items json before
    current ← indexed_items json after
    ok (diff_indexed previous current)
