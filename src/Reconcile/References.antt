-- ===== src/Reconcile/References.antt =====
-- The source references of an item in src-tauri/src/reconcile.rs, and the match with an assignment.
use duegood.Base.{
  Bool, true, false, not, ◌&&◌, ◌||◌, Option, none, some, List, [], ◌∷◌, ◌++◌, Bytes, codes, same,
  any, Result, ok, err, ok_or, ◌>>=◌, if◌then◌else◌,
}
use duegood.Reconcile.Values.{
  Values, ReconcileError, field, text_of, identity_of, is_text, insert_all,
}
use duegood.Reconcile.Checks.{ReferenceKey, malformed_reference, reference_key, item_references}

-- `format!("assignment:{canvas_id}")`
abbrev feed_id : Bytes → Bytes
feed_id canvas_id = codes "assignment:" ++ canvas_id

-- a reference to the assignment, from Canvas or from the calendar
abbrev pub is_canvas_reference : Bytes → ReferenceKey → Bool
is_canvas_reference canvas_id key = same key.source (codes "canvas") && same key.id canvas_id

abbrev pub is_feed_reference : Bytes → ReferenceKey → Bool
is_feed_reference canvas_id key = same key.source (codes "ical") && same key.id (feed_id canvas_id)

module _ (json : Values) where
  open json use {Value, Map, as_array, string, array, object, get, insert, new_map, same_value}

  -- the loop of `item_matches_assignment` over the references
  unfoldable pub references_match : Bytes → Bytes → List Map → Result ReconcileError Bool
  references_match course canvas_id [] = ok false
  references_match course canvas_id (reference ∷ references) = do
    key ← reference_key json reference
    let later = references_match course canvas_id references
    if same key.course course
          && (is_canvas_reference canvas_id key || is_feed_reference canvas_id key)
        then ok true
        else later

  unfoldable pub item_matches_assignment : Value → Bytes → Bytes → Result ReconcileError Bool
  item_matches_assignment item course canvas_id =
      if not (is_text course (text_of json (field json (codes "course") item)))
      then ok false
      else if is_text canvas_id (identity_of json (field json (codes "canvasId") item))
      then ok true
      else (do references ← item_references json item; references_match course canvas_id references)

  -- the reference that an item adopted from the calendar gets
  unfoldable pub adopted_reference : Bytes → Bytes → Bytes → Map
  adopted_reference institution course canvas_id =
      insert_all json
        ((codes "institution", string institution)
          ∷ (codes "course", string course)
          ∷ (codes "source", string (codes "canvas"))
          ∷ (codes "id", string canvas_id)
          ∷ [])
        new_map

  -- the loop of `canvas_reference_for`
  unfoldable pub find_reference : Bytes → Bytes → List Map → Result ReconcileError (Option Value)
  find_reference course canvas_id [] = ok none
  find_reference course canvas_id (reference ∷ references) = do
    key ← reference_key json reference
    let later = find_reference course canvas_id references
    if not (same key.course course)
        then later
        else if is_canvas_reference canvas_id key
        then ok (some (object reference))
        else if is_feed_reference canvas_id key
        then ok (some (object (adopted_reference key.institution course canvas_id)))
        else later

  unfoldable pub canvas_reference_for : Value → Bytes → Bytes → Result ReconcileError (Option Value)
  canvas_reference_for item course canvas_id = do
    references ← item_references json item
    find_reference course canvas_id references

  -- `sourceReferences`, or a new array
  abbrev pub reference_list : Map → Value
  reference_list target = elim (get (codes "sourceReferences") target) [
    | none ↦ array []
    | some v ↦ v
  ]

  -- the reference into the item's list, unless it is there
  unfoldable pub push_reference : Map → Value → Result ReconcileError Map
  push_reference target reference = do
    references ← ok_or malformed_reference (as_array (reference_list target))
    ok (
        insert (codes "sourceReferences")
          (array (
            if any (λ v. same_value v reference) references
            then references
            else references ++ (reference ∷ [])))
          target)

  unfoldable pub append_canvas_reference :
      Map → Bytes → Bytes → Result ReconcileError (Map × Option Value)
  append_canvas_reference target course canvas_id = do
    found ← canvas_reference_for (object target) course canvas_id
    elim found [
      | none ↦ ok (target, none)
      | some reference ↦ (do linked ← push_reference target reference; ok (linked, some reference))
    ]

  -- the first reference to a calendar that has a key
  unfoldable pub find_feed : List Map → Option Value
  find_feed [] = none
  find_feed (reference ∷ references) =
      let later = find_feed references in
      elim (reference_key json reference) [
        | err _ ↦ later
        | ok key ↦ if same key.source (codes "ical") then some (object reference) else later
      ]

  unfoldable pub item_ical_owner : Map → Result ReconcileError (Option Value)
  item_ical_owner target = do
    references ← item_references json (object target)
    ok (find_feed references)
