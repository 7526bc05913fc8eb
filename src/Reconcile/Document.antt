-- ===== src/Reconcile/Document.antt =====
-- The loop over the captured courses of `reconcile_coursework` in src-tauri/src/reconcile.rs.
use duegood.Base.{
  ℕ, Bool, true, false, not, ◌&&◌, ◌||◌, none, some, List, [], ◌∷◌, ◌++◌, Bytes, codes, Result, ok,
  ensure, ◌>>=◌, ◌>>◌, if◌then◌else◌,
}
use duegood.Reconcile.Values.{
  Values, ReconcileError, invalid, Clock, CourseAssignments, field, text_of, expect, identity_of,
}
use duegood.Reconcile.Checks.{Identity, seen_before, HashMap, find_key, contains}
use duegood.Reconcile.Update.{update_item, new_item}
use duegood.Reconcile.Courses.{ignored_ids, merge_course}
use duegood.Reconcile.Archive.{revivable_archived_index, take_at}

module _ (json : Values) where
  open json use {Value, Map}

  -- What the last loop changes: the root, the archive and whether it changed, the IDs in use, the
  -- identities seen, and the items.
  pub record Document : Type 0 where
    pub root : Map
    pub archive : List Value
    pub archive_changed : Bool
    pub item_ids : List Bytes
    pub seen : List Identity
    pub items : List Value

  module _ (clock : Clock) (tokens : Bytes → List Bytes) (captured_at : clock.SystemTime) where
    -- The item of an assignment that no local item has: revived from the archive, or new. With it
    -- come the archive that is left, and whether it was revived.
    unfoldable pub make_item :
        List Value
        → CourseAssignments json
        → Value
        → Bytes
        → Result ReconcileError (Value × (List Value × Bool))
    make_item archive capture assignment canvas_id = do
      found ← revivable_archived_index json archive capture.key canvas_id
      elim found [
        | some index ↦ (do
          (archived_item, rest) ← expect "index of the archive" (take_at index archive)
          item ←
              update_item json clock tokens archived_item assignment capture canvas_id captured_at
          ok (item, (rest, true)))
        | none ↦ (do
          item ← new_item json clock tokens capture.key assignment capture canvas_id captured_at
          ok (item, (archive, false)))
      ]

    -- the item into the document, unless its ID is in use
    unfoldable pub push_item :
        List Bytes
        → Document
        → Identity
        → Value × (List Value × Bool)
        → Result ReconcileError Document
    push_item archived_item_ids d identity (item, (archive, was_revived)) = do
      generated_id ← expect "new item id is a string" (text_of json (field json (codes "id") item))
      ensure
          (not (
            (not was_revived && contains generated_id archived_item_ids)
            || contains generated_id d.item_ids))
          (invalid "generated coursework item id collides with an existing item")
      ok (record d {
        archive = archive;
        archive_changed = d.archive_changed || was_revived;
        item_ids = generated_id ∷ d.item_ids;
        seen = identity ∷ d.seen;
        items = d.items ++ (item ∷ []);
      })

    -- one assignment of the loop
    unfoldable pub add_assignment :
        List Bytes
        → List Bytes
        → CourseAssignments json
        → Value
        → Document
        → Result ReconcileError Document
    add_assignment archived_item_ids ignored capture assignment d = do
      canvas_id ←
          expect "assignment id validated" (identity_of json (field json (codes "id") assignment))
      if contains canvas_id ignored || seen_before (capture.key, canvas_id) d.seen
          then ok d
          else (do
            made ← make_item d.archive capture assignment canvas_id
            push_item archived_item_ids d (capture.key, canvas_id) made)

    unfoldable pub add_assignments :
        List Bytes
        → List Bytes
        → CourseAssignments json
        → List Value
        → Document
        → Result ReconcileError Document
    add_assignments archived_item_ids ignored capture [] d = ok d
    add_assignments archived_item_ids ignored capture (assignment ∷ assignments) d = do
      more ← add_assignment archived_item_ids ignored capture assignment d
      add_assignments archived_item_ids ignored capture assignments more

    -- one course of the loop
    unfoldable pub add_course :
        HashMap ℕ
        → List Value
        → List Bytes
        → CourseAssignments json
        → Document
        → Result ReconcileError Document
    add_course course_indexes local_courses archived_item_ids capture d = do
      course_index ← expect "capture course validated" (find_key capture.key course_indexes)
      root ← merge_course json d.root course_index capture
      ignored ← ignored_ids json local_courses capture.key
      add_assignments archived_item_ids ignored capture capture.assignments
          (record d { root = root })

    unfoldable pub add_courses :
        HashMap ℕ
        → List Value
        → List Bytes
        → List (CourseAssignments json)
        → Document
        → Result ReconcileError Document
    add_courses course_indexes local_courses archived_item_ids [] d = ok d
    add_courses course_indexes local_courses archived_item_ids (capture ∷ courses) d = do
      more ← add_course course_indexes local_courses archived_item_ids capture d
      add_courses course_indexes local_courses archived_item_ids courses more
